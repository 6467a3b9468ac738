-- ===== src/Client/Push.antt =====
-- crates/client/src/push.rs: a batch is frozen from the queue, and rejected mutations leave it with all
-- that depend on them. An error rolls the caller's transaction back, so it carries no state. `K` is the
-- `RecordKey` that the schema makes of a model and an identity (crates/core/src/schema.rs).
pub mod Meanwhile
pub mod Retry
pub mod Selection
use ahead.Common.{
  ℕ, zero, suc, ◌+◌, ◌≡◌, Bool, true, false, not, ◌&&◌, ◌||◌, List, [], ◌∷◌, ◌++◌, map, Option,
  none, some, Result, ok, err, push_not_declared, ◌>>=◌, or_fail, map_ok, ltb, leb, ◌==◌,
  if◌then◌else◌, is_some, any, all, keep, length,
}
use ahead.Common.Text.{Text, codes}
use ahead.Common.Map.{lookup, insert, contains_key, keys}
use ahead.Common.Order.{nat_ord, text_ord}
use ahead.Core.Json.{
  Value, text, num, arr, obj, natural, field, end, of_items, of_entries, Serde, canonical_json,
}
use ahead.Core.Counter.{push_mutations}
use ahead.Core.Push.{decode_push, encode_request}
use ahead.Core.Record.{Rejection}
use ahead.Client.Queue.{
  OperationKind, create, update, delete, Operation, Mutation, Queued, Refusal, Outbox,
  allocate_push, assign_push, delete_mutations, in_flight, prerequisite_keys,
}

abbrev pub op_text : OperationKind → Text
op_text create = codes "create"
op_text update = codes "update"
op_text delete = codes "delete"

-- The derived `Serialize`; absent values are skipped.
abbrev pub operation_value : Operation → Value
operation_value o = obj (
    field (codes "identity") o.identity (
      field (codes "model") (text o.model) (
        field (codes "op") (text (op_text o.op))
          (elim o.values [ none ↦ end | some v ↦ field (codes "values") v end ]))))

abbrev pub operations_value : List Operation → Value
operations_value os = arr (of_items (map operation_value os))

abbrev numbers_value : List ℕ → Value
numbers_value ns = arr (of_items (map (λ n. num (natural n)) ns))

abbrev pub mutation_value : Mutation → Value
mutation_value m = obj (
    field (codes "companion") (operations_value m.companion) (
      field (codes "effects") (operations_value m.effects) (
        field (codes "lifecycleDependencies") (numbers_value m.lifecycle_dependencies) (
          field (codes "name") (text m.name) (
            field (codes "operations") (operations_value m.operations) (
              field (codes "prerequisites") (arr (of_items (map text m.prerequisites))) (
                field (codes "sequenceDependencies") (numbers_value m.sequence_dependencies)
                  (field (codes "version") (num (natural m.version)) end))))))))

-- One element of `mutations` in `request_json`.
abbrev pub act_value : Queued → Value
act_value q = obj (
    field (codes "name") (text q.mutation.name) (
      field (codes "operations") (operations_value q.mutation.operations) (
        field (codes "ordinal") (num (natural q.ordinal))
          (field (codes "version") (num (natural q.mutation.version)) end))))

abbrev pub request_json : Outbox → ℕ → Value → List Queued → Value
request_json s push models mutations = obj (
    field (codes "batchSequence") (num (natural push)) (
      field (codes "clientId") (text s.client_id) (
        field (codes "models") models
          (field (codes "mutations") (arr (of_items (map act_value mutations))) end))))

-- `to_value` of `declared_models`.
abbrev pub models_value : List (Text × ℕ) → Value
models_value models = obj (of_entries (map (λ kv. (kv.0, num (natural kv.1))) models))

-- The length of a text in UTF-8.
abbrev pub width : ℕ → ℕ
width c = if ltb c 0x80 then 1 else if ltb c 0x800 then 2 else if ltb c 0x10000 then 3 else 4

unfoldable pub byte_length : Text → ℕ
byte_length [] = 0
byte_length (c ∷ cs) = width c + byte_length cs

abbrev pub in_push : ℕ → Queued → Bool
in_push push q = elim q.push [ none ↦ false | some p ↦ p == push ]

abbrev pub is_unsent : Queued → Bool
is_unsent q = not (is_some q.push)

-- The ordinals of the mutations without a push.
unfoldable pub unsent_set : List Queued → List (ℕ × Unit {0})
unsent_set [] = []
unsent_set (q ∷ qs) =
    let rest = unsent_set qs in if is_unsent q then insert q.ordinal tt rest else rest

-- A mutation waits for a prerequisite, for a lifecycle dependency that is not sent, or for a sequence
-- dependency that is neither sent nor chosen.
unfoldable pub is_blocked :
    List (Text × Unit {0}) → List (ℕ × Unit {0}) → List (ℕ × Unit {0}) → Mutation → Bool
is_blocked blocked unsent chosen m =
    any (λ k. contains_key k blocked) m.prerequisites
    || (any (λ d. contains_key d unsent) m.lifecycle_dependencies
        || any (λ d. contains_key d unsent && not (contains_key d chosen)) m.sequence_dependencies)

module _ (serde : Serde) where
  -- Whether the batch with one mutation more keeps within the limit; the first one always does.
  unfoldable pub fits : Outbox → Value → ℕ → List Queued → Queued → Result Bool
  fits s models max_bytes [] q = ok true
  fits s models max_bytes (p ∷ ps) q =
      canonical_json serde (request_json s s.next_push models ((p ∷ ps) ++ (q ∷ []))) >>= λ t.
      ok (leb (byte_length t) max_bytes)

  module _ (s : Outbox) (models : Value) (max_bytes : ℕ) where
    -- Whether the loop of `freeze` takes a mutation.
    unfoldable pub takes : List Queued → List (ℕ × Unit {0}) → Queued → Result Bool
    takes selected chosen q =
        if not (is_unsent q)
          || is_blocked (prerequisite_keys s.queue) (unsent_set s.queue) chosen q.mutation
        then ok false
        else fits s models max_bytes selected q

    unfoldable pub select : List Queued → List Queued → List (ℕ × Unit {0}) → Result (List Queued)
    select [] selected chosen = ok selected
    select (q ∷ qs) selected chosen = takes selected chosen q >>= λ taken. elim taken [
      | false ↦ select qs selected chosen
      | true ↦ elim (length (selected ++ (q ∷ [])) == push_mutations) [
        | true ↦ ok (selected ++ (q ∷ []))
        | false ↦ select qs (selected ++ (q ∷ [])) (insert q.ordinal tt chosen)
      ]
    ]

  unfoldable pub encode_push : Outbox → ℕ → Result Text
  encode_push s push = do
    models ← or_fail s.push_models push_not_declared
    t ← canonical_json serde (request_json s push models (keep (in_push push) s.queue))
    request ← decode_push serde t
    encode_request serde request

  abbrev pub assigned : Outbox → Value → ℕ → List Queued → Outbox
  assigned s models push selected = record s {
    queue = assign_push (map (λ q. q.ordinal) selected) push s.queue;
    push_models = some models;
  }

  -- The end of `freeze`, for the selected mutations.
  abbrev pub freeze_selected : Outbox → Value → List Queued → Result (Outbox × Option Text)
  freeze_selected s models [] = ok (s, none)
  freeze_selected s models (q ∷ qs) = do
    (s1, push) ← allocate_push s
    let s2 = assigned s1 models push (q ∷ qs)
    bytes ← encode_push s2 push
    ok (s2, some bytes)

  abbrev pub freeze_open : Outbox → List (Text × ℕ) → ℕ → Option ℕ → Result (Outbox × Option Text)
  freeze_open s declared max_bytes (some push) = encode_push s push >>= λ bytes. ok (s, some bytes)
  freeze_open s declared max_bytes none =
      select s (models_value declared) max_bytes s.queue [] []
      >>= freeze_selected s (models_value declared)

  -- A push in flight is encoded again; otherwise a batch is selected and frozen.
  unfoldable pub freeze : Outbox → List (Text × ℕ) → ℕ → Result (Outbox × Option Text)
  unfolding select encode_push allocate_push
  freeze s declared max_bytes =
      if max_bytes == 0
      then ok (s, none)
      else in_flight s.queue >>= freeze_open s declared max_bytes
