-- ===== src/Server/Push.antt =====
-- `process_push` of crates/server/src/lib.rs.
pub mod Turn
pub mod Batch
pub mod Answers
pub mod Ordered
pub mod Rejections
use ahead.Common.{
  ℕ, suc, Bool, true, false, not, ◌&&◌, ◌||◌, List, [], ◌∷◌, ◌++◌, Option, none, some, Result, ok,
  err, any, if◌then◌else◌, ltb, ◌==◌,
}
use ahead.Common.Text.{Text, codes}
use ahead.Common.Map.{insert, values}
use ahead.Common.Order.{same, text_ord}
use ahead.Core.Json.{Value, Serde, index, as_str}
use ahead.Core.Push.{PushRequest, RawMutation, decode_push}
use ahead.Core.Record.{AuthorityRecord, Rejection, PushReceipt, is_blank}
use ahead.Core.Encode.{encode_receipt}
use ahead.Core.Schema.{Schema, Scalars, RecordKey, encoded, record_key}
use ahead.Server.Config.{
  Outcome, refused, done, under, or_code, refuse_code, Config, Mutation, descriptor, version_of,
  principal_invalid, request_invalid, storage_invalid, owner_mismatch, overlap_code, gap_code,
  mutation_version_unsupported, handler_failed, internal_code,
}
use ahead.Server.Slots.{decode}
use ahead.Server.Host.{
  Host, Server, ◌>>=◌, ◌>>◌, lift, give, call_typed, claim, save_receipt, savepoint, rollback,
  release, handle, Handled, settled, rejected, failed, Claimed, RecordRef, PublicationIntent,
}
use ahead.Server.Readback.{
  Verdict, records, refusal, Changes, resolve, insert_change, members_from, read_back,
}

-- `principal`.
unfoldable pub principal : Text → Outcome (Unit {0})
principal owner = refuse_code (is_blank owner) principal_invalid

-- Whether a mutation names a version that this backend does not serve, of a mutation that it does.
unfoldable pub unserved : Config → Value → Bool
unfolding version_of
unserved config raw = elim (as_str (index raw (codes "name"))) [
  | none ↦ false
  | some name ↦ elim (version_of raw) [
    | none ↦ false
    | some v ↦
        any (λ d. same d.name name) config.mutations
        && not (any (λ d. same d.name name && d.version == v) config.mutations)
  ]
]

abbrev pub reject : ℕ → Text → Rejection
reject ordinal code = record { ordinal = ordinal; code = code }

-- What the batch has so far: the rejections, and the last authority of each record by its key.
pub record Settled : Type 0 where
  pub rejections : List Rejection
  pub results : List (Text × AuthorityRecord)

abbrev pub with_rejection : RawMutation → Text → Settled → Settled
with_rejection m code b = record b { rejections = b.rejections ++ (reject m.ordinal code ∷ []) }

abbrev pub receipt_of : PushRequest → Settled → PushReceipt
receipt_of request b = record {
  client_id = request.client_id;
  batch_sequence = request.batch_sequence;
  rejections = b.rejections;
  records = values b.results;
}

abbrev pub empty_batch : Settled
empty_batch = record { rejections = []; results = [] }

module _ (serde : Serde) (scalars : Scalars) (config : Config) where
  unfoldable pub keys_from : List RecordKey → Changes → Outcome Changes
  unfolding insert_change
  keys_from [] changes = done changes
  keys_from (key ∷ keys) changes = elim (insert_change serde scalars config key changes) [
    | refused c ↦ refused c
    | done next ↦ keys_from keys next
  ]

  -- The change set: what the operations target, and what the handler names beside it.
  unfoldable pub change_set : List RecordKey → List RecordRef → Outcome Changes
  unfolding keys_from
  change_set targets changes = elim (keys_from targets []) [
    | refused c ↦ refused c
    | done set ↦ members_from serde scalars config changes set
  ]

  unfoldable pub keep_results :
      List AuthorityRecord → List (Text × AuthorityRecord) → Outcome (List (Text × AuthorityRecord))
  keep_results [] results = done results
  keep_results (r ∷ rs) results = elim (record_key scalars config.schema r.model r.identity) [
    | err e ↦ refused internal_code
    | ok key ↦ elim (encoded serde key) [
      | err e ↦ refused internal_code
      | ok k ↦ keep_results rs (insert k r results)
    ]
  ]

  module _ {S : Type 0} (host : Host S) where
    -- The verdict on what a handler answered.
    unfoldable pub settle_handled :
        List (Text × ℕ) → Text → List RecordKey → Handled → Server S Verdict
    unfolding change_set
    settle_handled declared owner targets (rejected code) = give (refusal code)
    settle_handled declared owner targets (failed error) = give (refusal handler_failed)
    settle_handled declared owner targets (settled changes publications) = do
      set ← lift (change_set targets changes)
      read_back serde scalars config host declared owner set publications

    -- What a verdict does to the batch: a refusal rolls the mutation back.
    unfoldable pub conclude : RawMutation → Verdict → Settled → Server S Settled
    unfolding keep_results
    conclude m (refusal code) b = do
      call_typed host (rollback m.ordinal)
      give (with_rejection m code b)
    conclude m (records rs) b = do
      results ← lift (keep_results rs b.results)
      give (record b { results = results })

    -- A mutation whose arguments are decoded, in its own savepoint.
    unfoldable pub run_mutation :
        List (Text × ℕ)
        → Text
        → RawMutation
        → Mutation
        → Value
        → List RecordKey
        → Settled
        → Server S Settled
    unfolding settle_handled conclude
    run_mutation declared owner m d args targets b = do
      call_typed host (savepoint m.ordinal)
      settlement ← call_typed host (handle d.name d.version args owner m.ordinal)
      verdict ← settle_handled declared owner targets settlement
      next ← conclude m verdict b
      call_typed host (release m.ordinal)
      give next

    -- One turn of the loop over the mutations.
    unfoldable pub one_mutation : List (Text × ℕ) → Text → RawMutation → Settled → Server S Settled
    unfolding unserved descriptor decode run_mutation
    one_mutation declared owner m b =
        if unserved config m.raw
        then give (with_rejection m mutation_version_unsupported b)
        else elim (descriptor config m.raw) [
          | refused c ↦ give (with_rejection m c b)
          | done d ↦ elim (decode scalars config m.raw) [
            | refused c ↦ give (with_rejection m c b)
            | done (args, targets) ↦ run_mutation declared owner m d args targets b
          ]
        ]

    unfoldable pub run_batch :
        List (Text × ℕ) → Text → List RawMutation → Settled → Server S Settled
    unfolding one_mutation
    run_batch declared owner [] b = give b
    run_batch declared owner (m ∷ ms) b =
        one_mutation declared owner m b >>= run_batch declared owner ms

    -- The next batch of a client: its mutations, and the receipt that is stored.
    unfoldable pub accept_batch : Text → PushRequest → Server S Text
    unfolding run_batch
    accept_batch owner request = do
      b ← run_batch request.models owner request.mutations empty_batch
      receipt ← lift (under internal_code (encode_receipt serde (receipt_of request b)))
      call_typed host (save_receipt owner request.client_id request.batch_sequence receipt)
      give receipt

    -- What follows the claim: a retry is answered from storage.
    unfoldable pub sequenced : Text → PushRequest → Claimed → Server S Text
    unfolding accept_batch
    sequenced owner request locked =
        if not (same locked.client_id request.client_id)
        then lift (refused storage_invalid)
        else if not (same locked.owner owner)
        then lift (refused owner_mismatch)
        else if request.batch_sequence == locked.sequence
        then lift (or_code locked.receipt storage_invalid)
        else if ltb request.batch_sequence locked.sequence
        then lift (refused overlap_code)
        else if not (request.batch_sequence == suc locked.sequence)
        then lift (refused gap_code)
        else accept_batch owner request

    unfoldable pub process_push : Text → Text → Server S Text
    unfolding principal sequenced
    process_push owner bytes = do
      lift (principal owner)
      request ← lift (under request_invalid (decode_push serde bytes))
      locked ← call_typed host (claim owner request.client_id)
      sequenced owner request locked
