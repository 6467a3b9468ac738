-- ===== src/Client/Queue.antt =====
-- The queue of mutations of crates/client/src/queue.rs, with `Operation` and `Mutation` of
-- crates/client/src/lib.rs. The tables of a mutation's operations, dependencies and prerequisites are
-- fields of its row; a deleted row takes them along, as the foreign keys of
-- crates/client/src/ddl.rs say. `queue` is in the order of the ordinals.
use ahead.Common.{
  ℕ, ◌+◌, Bool, not, List, [], ◌∷◌, Option, none, some, Result, ok, err, ◌>>◌, ◌++◌, refuse,
  constraint_failed, counter_exhausted, many_pushes, leb, ltb, false, ◌==◌, if◌then◌else◌, any,
  keep, map,
}
use ahead.Common.Text.{Text}
use ahead.Common.Map.{insert, keys}
use ahead.Common.Order.{nat_ord, text_ord, same}
use ahead.Core.Json.{Value}
use ahead.Core.Counter.{max_safe_integer}

pub data OperationKind : Type 0 where
  create update delete : OperationKind

pub record Operation : Type 0 where
  pub model : Text
  pub op : OperationKind
  pub identity : Value
  pub values : Option Value

pub record Mutation : Type 0 where
  pub name : Text
  pub version : ℕ
  pub operations : List Operation
  pub companion : List Operation
  pub effects : List Operation
  pub prerequisites : List Text
  pub lifecycle_dependencies : List ℕ
  pub sequence_dependencies : List ℕ

pub record Queued : Type 0 where
  pub ordinal : ℕ
  pub push : Option ℕ
  pub diverged : Bool
  pub mutation : Mutation

-- A row of `ahead_rejection`.
pub record Refusal : Type 0 where
  pub name : Text
  pub code : Text
  pub detail : Value

pub record Outbox : Type 0 where
  pub client_id : Text
  pub next_push : ℕ
  pub push_models : Option Value
  pub queue : List Queued
  pub rejections : List (ℕ × Refusal)

-- `bump("next_push")`: the value before, and the counter moved on within the safe integers.
unfoldable pub allocate_push : Outbox → Result (Outbox × ℕ)
allocate_push s =
    if leb (s.next_push + 1) max_safe_integer
    then ok (record s { next_push = s.next_push + 1 }, s.next_push)
    else err counter_exhausted

abbrev pub has_ordinal : List ℕ → Queued → Bool
has_ordinal ordinals q = any (λ n. n == q.ordinal) ordinals

unfoldable pub assign_push : List ℕ → ℕ → List Queued → List Queued
assign_push ordinals push [] = []
assign_push ordinals push (q ∷ qs) =
    (if has_ordinal ordinals q then record q { push = some push } else q)
    ∷ assign_push ordinals push qs

-- `ON DELETE CASCADE`: a deleted mutation takes the dependencies on it along.
abbrev pub without : List ℕ → List ℕ → List ℕ
without ordinals = keep (λ d. not (any (λ n. n == d) ordinals))

abbrev pub release : List ℕ → Queued → Queued
release ordinals q = record q {
  mutation = record (q.mutation) {
    lifecycle_dependencies = without ordinals q.mutation.lifecycle_dependencies;
    sequence_dependencies = without ordinals q.mutation.sequence_dependencies;
  };
}

unfoldable pub delete_mutations : List ℕ → List Queued → List Queued
delete_mutations ordinals queue =
    map (release ordinals) (keep (λ q. not (has_ordinal ordinals q)) queue)

-- `SELECT DISTINCT push … WHERE push IS NOT NULL`.
unfoldable pub pushes : List Queued → List (ℕ × Unit {0})
pushes [] = []
pushes (q ∷ qs) = elim q.push [ none ↦ pushes qs | some p ↦ insert p tt (pushes qs) ]

unfoldable pub in_flight : List Queued → Result (Option ℕ)
unfolding pushes
in_flight queue = elim (pushes queue) [
  | [] ↦ ok none
  | p ∷ ps ↦ elim ps [ [] ↦ ok (some p.0) | q ∷ qs ↦ err many_pushes ]
]

unfoldable pub add_keys : List Text → List (Text × Unit {0}) → List (Text × Unit {0})
add_keys [] set = set
add_keys (k ∷ ks) set = insert k tt (add_keys ks set)

-- The dependencies on earlier mutations, each once and in order; `INSERT OR IGNORE` leaves the others out.
unfoldable pub earlier_set : ℕ → List ℕ → List (ℕ × Unit {0})
earlier_set ordinal [] = []
earlier_set ordinal (d ∷ ds) =
    let rest = earlier_set ordinal ds in if ltb d ordinal then insert d tt rest else rest

-- A row has one dependency on each mutation: the lifecycle one, which is inserted first.
abbrev pub lifecycle_set : ℕ → Mutation → List ℕ
lifecycle_set ordinal m = keys (earlier_set ordinal m.lifecycle_dependencies)

abbrev pub sequence_set : ℕ → Mutation → List ℕ
sequence_set ordinal m =
    without (lifecycle_set ordinal m) (keys (earlier_set ordinal m.sequence_dependencies))

-- A new mutation as its rows are read back: it is in no push.
abbrev pub new_row : ℕ → Mutation → Queued
new_row ordinal m = record {
  ordinal = ordinal;
  push = none;
  diverged = false;
  mutation = record m {
    prerequisites = keys (add_keys m.prerequisites []);
    lifecycle_dependencies = lifecycle_set ordinal m;
    sequence_dependencies = sequence_set ordinal m;
  };
}

unfoldable pub place : Queued → List Queued → List Queued
place new [] = new ∷ []
place new (q ∷ qs) = if ltb new.ordinal q.ordinal then new ∷ q ∷ qs else q ∷ place new qs

abbrev pub is_queued : List Queued → ℕ → Bool
is_queued queue n = any (λ q. q.ordinal == n) queue

-- `insert_mutation`: the ordinal is a primary key, and a dependency a foreign key.
unfoldable pub insert_mutation : ℕ → Mutation → List Queued → Result (List Queued)
unfolding earlier_set add_keys place
insert_mutation ordinal m queue = do
  refuse (is_queued queue ordinal) constraint_failed
  refuse (any (λ d. not (is_queued queue d)) (lifecycle_set ordinal m ++ sequence_set ordinal m))
      constraint_failed
  ok (place (new_row ordinal m) queue)

-- The keys of `prerequisite_keys`: those that some queued mutation still waits for.
unfoldable pub prerequisite_keys : List Queued → List (Text × Unit {0})
unfolding add_keys
prerequisite_keys [] = []
prerequisite_keys (q ∷ qs) = add_keys q.mutation.prerequisites (prerequisite_keys qs)

abbrev pub without_key : Text → List Text → List Text
without_key k = keep (λ j. not (same j k))

-- `resolve_prerequisite`.
unfoldable pub resolve_prerequisite : Text → List Queued → List Queued
resolve_prerequisite k [] = []
resolve_prerequisite k (q ∷ qs) =
    record q {
      mutation = record (q.mutation) { prerequisites = without_key k q.mutation.prerequisites };
    }
    ∷ resolve_prerequisite k qs
