-- ===== src/Client/Acknowledge.antt =====
-- `acknowledge` of crates/client/src/push.rs: the push in flight is completed from its receipt. An error carries no
-- state, since the caller's transaction rolls back.
pub mod Touched
pub mod Answered
use ahead.Common.{
  Error, ℕ, ◌+◌, ◌≡◌, Bool, true, false, not, ◌&&◌, ◌||◌, List, [], ◌∷◌, ◌++◌, Option, none, some,
  Result, ok, err, ◌>>=◌, ◌>>◌, if◌then◌else◌, any, keep, map, leb, ◌==◌, refuse, another_batch,
  another_client, unknown_batch, not_in_flight, rejection_outside, authority_omitted,
}
use ahead.Common.Text.{Text, codes}
use ahead.Common.Map.{insert, contains_key, keys}
use ahead.Common.Order.{nat_ord, text_ord, same}
use ahead.Core.Json.{Value, Serde, obj, entries, of_entries, num, natural}
use ahead.Core.Record.{AuthorityRecord, Rejection, PushReceipt}
use ahead.Core.Schema.{Schema, Scalars, RecordKey, record_key, encoded}
use ahead.Client.Report.{Report, ApplyReport, empty_report}
use ahead.Client.Queue.{
  Operation, OperationKind, create, update, delete, Queued, Outbox, delete_mutations, in_flight,
}
use ahead.Client.Push.{in_push}
use ahead.Client.Rejected.{by_ordinal, all_ops, touch, mark_rejected}
use ahead.Client.Authority.{Tables, Held, apply_to_row, stage_isolated}
use ahead.Client.Rebase.{Queue, rebuild_held}

-- The client's row and queue, beside the tables of records.
pub record Store (R : Type 0) : Type 0 where
  pub outbox : Outbox
  pub last_completed_push : ℕ
  pub rows : R

-- `set_last_completed_push` of crates/client/src/queue.rs, which forgets the frozen declaration.
abbrev pub set_last_completed_push : {R : Type 0} → ℕ → Store R → Store R
set_last_completed_push push s = record s {
  outbox = record (s.outbox) { push_models = none };
  last_completed_push = push;
}

-- The operations of the mutations that their handlers see, and all of them.
abbrev pub wire_ops : List Queued → List Operation
wire_ops [] = []
wire_ops (q ∷ qs) = q.mutation.operations ++ wire_ops qs

abbrev pub every_op : List Queued → List Operation
every_op [] = []
every_op (q ∷ qs) = all_ops q.mutation ++ every_op qs

abbrev pub rejects : List Rejection → Queued → Bool
rejects rejections q = any (λ r. r.ordinal == q.ordinal) rejections

abbrev pub has_rejected : List Queued → Rejection → Bool
has_rejected batch r = any (λ q. q.ordinal == r.ordinal) batch

abbrev is_delete : OperationKind → Bool
is_delete delete = true
is_delete _ = false

abbrev pub child_deletion : RecordKey → Operation
child_deletion child = record {
  model = child.model;
  op = delete;
  identity = child.identity;
  values = none;
}

-- The batch number in the detail of a report.
abbrev pub with_batch : ℕ → Option Report → List Report
with_batch sequence none = []
with_batch sequence (some entry) = elim entry.detail [
  | obj fs ↦
      record entry {
        detail = obj (of_entries (insert (codes "batch") (num (natural sequence)) (entries fs)));
      }
      ∷ []
  | _ ↦ entry ∷ []
]

module _ (serde : Serde) (scalars : Scalars) (schema : Schema) where
  -- A record's key beside its encoding.
  unfoldable pub keyed : Text → Value → Result (Text × RecordKey)
  unfolding record_key encoded
  keyed model identity = do
    key ← record_key scalars schema model identity
    k ← encoded serde key
    ok (k, key)

  -- The keys of the records that the receipt reports.
  unfoldable pub cover : List AuthorityRecord → Held → Result Held
  unfolding keyed
  cover [] covered = ok covered
  cover (a ∷ rest) covered =
      keyed a.model a.identity >>= λ key. cover rest (insert key.0 key.1 covered)

module _ (message : Error → Text) (serde : Serde) (scalars : Scalars) (schema : Schema) {R : Type 0}
    (tables : Tables (Store R)) (queue : Queue (Store R)) where
  abbrev key_of : Text → Value → Result (Text × RecordKey)
  key_of = keyed serde scalars schema

  -- A companion's delete of a record that the server does not report takes its descendants along.
  unfoldable below : Held → Text × RecordKey → Store R → Result (List Operation)
  below wire key s =
      if contains_key key.0 wire
      then ok []
      else (tables.descendants key.1 s >>= λ children. ok (map child_deletion children))

  unfoldable pub companion_deletes : Held → List Operation → Store R → Result (List Operation)
  unfolding keyed below
  companion_deletes wire [] s = ok []
  companion_deletes wire (op ∷ ops) s = do
    here ←
        (if is_delete op.op
          then (key_of op.model op.identity >>= λ key. below wire key s)
          else ok [])
    rest ← companion_deletes wire ops s
    ok (here ++ rest)

  -- An operation over the base of its record; one that does not apply leaves the base.
  unfoldable pub fold_truth : RecordKey → Operation → Store R → Result (Store R)
  unfolding apply_to_row
  fold_truth key op s = tables.before_get key s >>= λ truth. elim (apply_to_row truth op) [
    | err e ↦ ok s
    | ok row ↦ tables.before_set key row s
  ]

  unfoldable pub settle_ops :
      Held → Held → List Operation → Store R → Held → Result (Store R × Held)
  unfolding keyed fold_truth
  settle_ops wire covered [] s affected = ok (s, affected)
  settle_ops wire covered (op ∷ ops) s affected = do
    key ← key_of op.model op.identity
    let reported : Bool = contains_key key.0 wire || contains_key key.0 covered
    next ← (if reported then ok s else fold_truth key.1 op s)
    settle_ops wire covered ops next (if reported then affected else insert key.0 key.1 affected)

  -- The accepted companions, which the server does not see, settle into the bases.
  unfoldable pub settle_companions :
      Held → Held → List Queued → Store R → Held → Result (Store R × Held)
  unfolding companion_deletes settle_ops
  settle_companions wire covered [] s affected = ok (s, affected)
  settle_companions wire covered (q ∷ qs) s affected = do
    deletes ← companion_deletes wire q.mutation.companion s
    (next, more) ← settle_ops wire covered (q.mutation.companion ++ deletes) s affected
    settle_companions wire covered qs next more

  -- The receipt's records, each on its own.
  unfoldable pub stage_receipt :
      ℕ → List AuthorityRecord → Held → Store R → Held × Store R × ℕ × List Report
  unfolding stage_isolated
  stage_receipt sequence [] held s = (held, s, 0, [])
  stage_receipt sequence (a ∷ rest) held s =
      let (held', s', applied, entry) =
        stage_isolated message serde scalars schema tables a held s in
      let (held'', s'', n, reports) = stage_receipt sequence rest held' s' in
      (held'', s'', (if applied then 1 + n else n), with_batch sequence entry ++ reports)

  abbrev pub put_all : Held → Held → Held
  put_all [] held = held
  put_all ((k, key) ∷ more) held = put_all more (insert k key held)

  -- Where the receipt answers the push in flight and covers it.
  unfoldable pub complete_push :
      ℕ
      → PushReceipt
      → List Queued
      → List Queued
      → Held
      → Held
      → Store R
      → Result (Store R × ApplyReport)
  unfolding touch settle_companions stage_receipt mark_rejected delete_mutations rebuild_held
  complete_push sequence receipt batch accepted wire covered s = do
    touched ← touch key_of (every_op batch) []
    (s1, affected) ← settle_companions wire covered accepted s touched
    let (held, s2, applied, reports) = stage_receipt sequence receipt.records affected s1
    (marked, dropped) ← mark_rejected key_of s2.outbox receipt.rejections
    let left : Outbox = record marked {
      queue = delete_mutations (map (λ q. q.ordinal) accepted) marked.queue;
    }
    (s3, diverged) ←
        rebuild_held tables queue serde (put_all dropped held) (record s2 { outbox = left })
    ok (
      set_last_completed_push sequence s3,
      record empty_report { applied = applied; reports = reports ++ diverged },
    )

  unfoldable pub finish : ℕ → PushReceipt → Store R → Result (Store R × ApplyReport)
  unfolding cover touch complete_push
  finish sequence receipt s = do
    let batch = keep (in_push sequence) s.outbox.queue
    let accepted = keep (λ q. not (rejects receipt.rejections q)) batch
    refuse (any (λ r. not (has_rejected batch r)) receipt.rejections) rejection_outside
    covered ← cover serde scalars schema receipt.records []
    wire ← touch key_of (wire_ops accepted) []
    refuse (any (λ k. not (contains_key k covered)) (keys wire)) authority_omitted
    complete_push sequence receipt batch accepted wire covered s

  unfoldable pub acknowledge : ℕ → PushReceipt → Store R → Result (Store R × ApplyReport)
  unfolding finish in_flight
  acknowledge sequence receipt s = do
    refuse (not (receipt.batch_sequence == sequence)) another_batch
    refuse (not (same receipt.client_id s.outbox.client_id)) another_client
    if leb sequence s.last_completed_push
        then ok (s, record empty_report { stale = true })
        else in_flight s.outbox.queue >>= λ flight. elim flight [
          | none ↦ err unknown_batch
          | some push ↦ refuse (not (push == sequence)) not_in_flight >> finish sequence receipt s
        ]
