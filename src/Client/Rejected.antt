-- ===== src/Client/Rejected.antt =====
-- `mark_rejected` of crates/client/src/push.rs: rejected mutations leave the queue with their lifecycle
-- dependents, and a durable record of each stays. `K` is the `RecordKey` that the schema makes of a
-- model and an identity, beside its encoding (crates/core/src/schema.rs).
pub mod Closure
pub mod Settled
use ahead.Common.{
  ℕ, zero, suc, Bool, true, false, not, ◌&&◌, List, [], ◌∷◌, ◌++◌, map, Option, none, some, Result,
  ok, err, ◌>>=◌, if◌then◌else◌, any, length,
}
use ahead.Common.Text.{Text, codes}
use ahead.Common.Map.{lookup, insert, contains_key, keys}
use ahead.Common.Order.{nat_ord, text_ord}
use ahead.Core.Json.{Value, text, num, arr, obj, natural, field, end, of_items}
use ahead.Core.Record.{Rejection}
use ahead.Client.Queue.{Operation, Mutation, Queued, Refusal, Outbox, delete_mutations}
use ahead.Client.Push.{mutation_value}

-- `BTreeMap::from_iter`: a later rejection of an ordinal replaces an earlier one.
unfoldable pub by_ordinal : List Rejection → List (ℕ × Text) → List (ℕ × Text)
by_ordinal [] m = m
by_ordinal (r ∷ rs) m = by_ordinal rs (insert r.ordinal r.code m)

-- A mutation that is not rejected while one that its lifecycle depends on is.
unfoldable pub is_orphan : List (ℕ × Text) → Queued → Bool
is_orphan rejected q =
    not (contains_key q.ordinal rejected)
    && any (λ d. contains_key d rejected) q.mutation.lifecycle_dependencies

unfoldable pub orphans : List (ℕ × Text) → List Queued → List ℕ
unfolding is_orphan
orphans rejected [] = []
orphans rejected (q ∷ qs) =
    let rest = orphans rejected qs in if is_orphan rejected q then q.ordinal ∷ rest else rest

abbrev pub dependency_rejected : Text
dependency_rejected = codes "dependency.rejected"

unfoldable pub reject_all : List ℕ → List (ℕ × Text) → List (ℕ × Text)
reject_all [] m = m
reject_all (k ∷ ks) m = reject_all ks (insert k dependency_rejected m)

-- The `loop`, on fuel; the length of the queue is enough.
unfoldable pub cascade : ℕ → List Queued → List (ℕ × Text) → List (ℕ × Text)
unfolding orphans reject_all
cascade zero queue rejected = rejected
cascade (suc n) queue rejected = elim (orphans rejected queue) [
  | [] ↦ rejected
  | k ∷ ks ↦ cascade n queue (reject_all (k ∷ ks) rejected)
]

abbrev pub closure : List Queued → List Rejection → List (ℕ × Text)
closure queue rejections = cascade (length queue) queue (by_ordinal rejections [])

abbrev pub all_ops : Mutation → List Operation
all_ops m = m.operations ++ (m.companion ++ m.effects)

abbrev target_value : Operation → Value
target_value o =
    obj (field (codes "identity") o.identity (field (codes "model") (text o.model) end))

abbrev pub detail_value : Queued → Text → Value
detail_value q code = obj (
    field (codes "code") (text code) (
      field (codes "mutation") (mutation_value q.mutation) (
        field (codes "ordinal") (num (natural q.ordinal))
          (field (codes "records") (arr (of_items (map target_value (all_ops q.mutation)))) end))))

abbrev pub refusal : Queued → Text → Refusal
refusal q code = record { name = q.mutation.name; code = code; detail = detail_value q code }

module _ {K : Type 0} (record_key : Text → Value → Result (Text × K)) where
  unfoldable pub touch : List Operation → List (Text × K) → Result (List (Text × K))
  touch [] affected = ok affected
  touch (o ∷ os) affected =
      record_key o.model o.identity >>= λ key. touch os (insert key.0 key.1 affected)

  -- The loop over the rejected mutations of the queue.
  unfoldable pub record_rejected :
      List (ℕ × Text)
      → List Queued
      → List (Text × K)
      → List (ℕ × Refusal)
      → Result (List (Text × K) × List (ℕ × Refusal))
  unfolding touch
  record_rejected rejected [] affected kept = ok (affected, kept)
  record_rejected rejected (q ∷ qs) affected kept = elim (lookup q.ordinal rejected) [
    | none ↦ record_rejected rejected qs affected kept
    | some code ↦ touch (all_ops q.mutation) affected >>= λ affected'.
        record_rejected rejected qs affected' (insert q.ordinal (refusal q code) kept)
  ]

  unfoldable pub mark_rejected : Outbox → List Rejection → Result (Outbox × List (Text × K))
  unfolding cascade by_ordinal record_rejected delete_mutations
  mark_rejected s rejections =
      let rejected = closure s.queue rejections in
      record_rejected rejected s.queue [] s.rejections >>= λ marked. ok (
        record s { queue = delete_mutations (keys rejected) s.queue; rejections = marked.1 },
        marked.0,
      )
