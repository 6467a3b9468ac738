-- ===== src/Server/Push/Batch.antt =====
-- The calls of `process_push` of crates/server/src/lib.rs are in their places: each mutation's within a
-- savepoint of its own, the claim and the receipt outside of all.
use ahead.Common.{
  ℕ, ◌≡◌, refl, Bool, true, false, not, List, [], ◌∷◌, ◌++◌, Option, none, some, ◌==◌, ltb, suc,
  arith, if◌then◌else◌,
}
use ahead.Common.Text.{Text, is_empty}
use ahead.Common.Map.{lookup, insert, values}
use ahead.Common.Order.{same, text_ord}
use ahead.Core.Json.{Value, Serde}
use ahead.Core.Push.{PushRequest, RawMutation, decode_push}
use ahead.Core.Record.{AuthorityRecord}
use ahead.Core.Encode.{encode_receipt}
use ahead.Core.Schema.{Scalars, RecordKey, encoded_identity}
use ahead.Server.Config.{
  Outcome, refused, done, Config, Mutation, under, refuse_code, internal_code, publish_invalid,
  handler_failed, request_invalid, storage_invalid, owner_mismatch, overlap_code, gap_code, or_code,
}
use ahead.Server.Host.{
  Host, Server, ◌>>=◌, ◌>>◌, lift, give, call_typed, claim, save_receipt, savepoint, rollback,
  release, handle, load, advance_stamp, ensure_stamp, publish, Handled, settled, rejected, failed,
  Claimed, PublicationIntent, HostRequest,
}
use ahead.Server.Host.Monitor.{
  Phase, idle, inside, undone, follows, watched, Triple, Triple-give, Triple-lift, Triple-then,
  Triple-call,
}
use ahead.Server.Readback.{
  Verdict, records, refusal, Changes, allocate_stamps, publish_one, publish_members,
  publish_intents, load_groups, read_back, of_rows, members_from, groups_from, undeclared,
}
use ahead.Server.Push.Turn.{one_mutation-cases}
use ahead.Server.Push.{
  Settled, settle_handled, conclude, run_mutation, one_mutation, run_batch, accept_batch, sequenced,
  process_push, change_set, keep_results, with_rejection, receipt_of, principal,
}

module _ (serde : Serde) (scalars : Scalars) (config : Config) {S : Type 0} (host : Host S) where
  module _ (o : ℕ) where
    abbrev Keeps : {A : Type 0} → Server (S × Option Phase) A → Type 0
    Keeps m = Triple (inside o) (inside o) m

    keeps_then :
        {A B : Type 0} (m : Server (S × Option Phase) A) (f : A → Server (S × Option Phase) B)
        → Keeps m
        → ((a : A) → Keeps (f a))
        → Keeps (m >>= f)
    keeps_then m f t u = Triple-then (inside o) (inside o) (inside o) m f t u

    keeps_call :
        (q : HostRequest)
        → follows (inside o) q ≡ some (inside o)
        → Keeps (call_typed (watched host) q)
    keeps_call q e = Triple-call host (inside o) (inside o) q e

    allocate_stamps-Keeps :
        (es : Changes) (stamps : List (Text × ℕ))
        → Keeps (allocate_stamps serde scalars config (watched host) es stamps)
    unfolding allocate_stamps follows
    allocate_stamps-Keeps [] stamps = Triple-give S (inside o) stamps
    allocate_stamps-Keeps ((k, key) ∷ es) stamps =
        keeps_then _ _ (Triple-lift S (inside o) _) λ identity.
          keeps_then _ _ (keeps_call (advance_stamp key.model identity) refl)
            λ stamp. allocate_stamps-Keeps es (insert k stamp stamps)

    publish_one-Keeps :
        (channel : Text) (key : RecordKey) (stamp : ℕ)
        → Keeps (publish_one serde scalars config (watched host) channel key stamp)
    unfolding publish_one follows
    publish_one-Keeps channel key stamp = keeps_then _ _ (Triple-lift S (inside o) _) λ identity.
        keeps_then _ _ (keeps_call (publish channel key.model key.identity identity stamp) refl)
          λ published. Triple-lift S (inside o) _

    publish_members-Keeps :
        (channel : Text) (stamps : List (Text × ℕ)) (es : Changes)
        → Keeps (publish_members serde scalars config (watched host) channel stamps es)
    unfolding publish_members follows
    publish_members-Keeps channel stamps [] = Triple-give S (inside o) tt
    publish_members-Keeps channel stamps ((k, key) ∷ es) =
        keeps_then _ _ (stamped (lookup k stamps)) λ stamp.
          keeps_then _ _ (publish_one-Keeps channel key stamp)
            λ u. publish_members-Keeps channel stamps es
      where
        stamped :
            (found : Option ℕ)
            → Keeps (elim found as (λ f. Server (S × Option Phase) ℕ) [
              | some stamp ↦ give stamp
              | none ↦ lift (under internal_code (encoded_identity serde key)) >>= λ identity.
                  call_typed (watched host) (ensure_stamp key.model identity)
            ])
        stamped (some stamp) = Triple-give S (inside o) stamp
        stamped none =
            keeps_then _ _ (Triple-lift S (inside o) _)
              λ identity. keeps_call (ensure_stamp key.model identity) refl

    abbrev members_of : PublicationIntent → Changes → Outcome Changes
    members_of intent changes = elim intent.records [
      | none ↦ done changes
      | some rs ↦ members_from serde scalars config rs []
    ]

    publish_intents-Keeps :
        (changes : Changes) (stamps : List (Text × ℕ)) (intents : List PublicationIntent)
        → Keeps (publish_intents serde scalars config (watched host) changes stamps intents)
    unfolding publish_intents
    publish_intents-Keeps changes stamps [] = Triple-give S (inside o) tt
    publish_intents-Keeps changes stamps (intent ∷ intents) =
        keeps_then _ _
          (Triple-lift S (inside o) (refuse_code (is_empty intent.channel) publish_invalid))
          λ u. keeps_then _ _ (Triple-lift S (inside o) (members_of intent changes)) λ members.
            keeps_then _ _ (publish_members-Keeps intent.channel stamps members)
              λ v. publish_intents-Keeps changes stamps intents

    load_groups-Keeps :
        (declared : List (Text × ℕ)) (owner : Text) (stamps : List (Text × ℕ))
        (groups : List (Text × Changes)) (found : List AuthorityRecord)
        → Keeps (load_groups serde scalars config (watched host) declared owner stamps groups found)
    unfolding load_groups follows
    load_groups-Keeps declared owner stamps [] found = Triple-give S (inside o) (records found)
    load_groups-Keeps declared owner stamps ((model, es) ∷ groups) found =
        keeps_then _ _ (Triple-lift S (inside o) _) λ schema.
          keeps_then _ _ (keeps_call (load _ _ _ _) refl) λ loaded.
            go (λ more. load_groups-Keeps declared owner stamps groups (found ++ more))
              (of_rows serde scalars config schema model stamps es loaded)
      where
        go :
            ((more : List AuthorityRecord)
              → Keeps (
                  load_groups serde scalars config
                    (watched host)
                    declared
                    owner
                    stamps
                    groups
                    (found ++ more)))
            → (v : Verdict)
            → Keeps (elim v as (λ v. Server (S × Option Phase) Verdict) [
              | refusal code ↦ give (refusal code)
              | records more ↦
                  load_groups serde scalars config
                    (watched host)
                    declared
                    owner
                    stamps
                    groups
                    (found ++ more)
            ])
        go others (refusal code) = Triple-give S (inside o) (refusal code)
        go others (records more) = others more

    publish_then :
        (changes : Changes) (stamps : List (Text × ℕ)) (intents : List PublicationIntent)
        (v : Verdict)
        → Keeps (elim v as (λ v. Server (S × Option Phase) Verdict) [
          | refusal code ↦ give (refusal code)
          | records found ↦
              publish_intents serde scalars config (watched host) changes stamps intents
              >> give (records found)
        ])
    publish_then changes stamps intents (refusal code) = Triple-give S (inside o) (refusal code)
    publish_then changes stamps intents (records found) =
        keeps_then _ _ (publish_intents-Keeps changes stamps intents)
          λ u. Triple-give S (inside o) (records found)

    read_back-Keeps :
        (declared : List (Text × ℕ)) (owner : Text) (changes : Changes)
        (intents : List PublicationIntent)
        → Keeps (read_back serde scalars config (watched host) declared owner changes intents)
    unfolding read_back
    read_back-Keeps declared owner changes intents =
        keeps_then _ _
          (Triple-lift S (inside o) (undeclared serde scalars config declared (values changes))) go
      where
        go :
            (problem : Option Text)
            → Keeps (elim problem as (λ x. Server (S × Option Phase) Verdict) [
              | some code ↦ give (refusal code)
              | none ↦ allocate_stamps serde scalars config (watched host) changes [] >>= λ stamps.
                  load_groups serde scalars config
                    (watched host)
                    declared
                    owner
                    stamps
                    (groups_from changes [])
                    []
                  >>= λ verdict. elim verdict [
                    | refusal code ↦ give (refusal code)
                    | records found ↦
                        publish_intents serde scalars config (watched host) changes stamps intents
                        >> give (records found)
                  ]
            ])
        go (some code) = Triple-give S (inside o) (refusal code)
        go none = keeps_then _ _ (allocate_stamps-Keeps changes []) λ stamps.
            keeps_then _ _ (load_groups-Keeps declared owner stamps (groups_from changes []) [])
              λ v. publish_then changes stamps intents v

    settle_handled-Keeps :
        (declared : List (Text × ℕ)) (owner : Text) (targets : List RecordKey) (h : Handled)
        → Keeps (settle_handled serde scalars config (watched host) declared owner targets h)
    unfolding settle_handled
    settle_handled-Keeps declared owner targets (rejected code) =
        Triple-give S (inside o) (refusal code)
    settle_handled-Keeps declared owner targets (failed error) =
        Triple-give S (inside o) (refusal handler_failed)
    settle_handled-Keeps declared owner targets (settled changes publications) =
        keeps_then _ _ (Triple-lift S (inside o) (change_set serde scalars config targets changes))
          λ set. read_back-Keeps declared owner set publications

  same_ordinal : (o : ℕ) (p : Option Phase) → (if o == o then p else none) ≡ p
  same_ordinal o p = ground arith

  -- What follows a verdict, to the release of the savepoint.
  concluded :
      (m : RawMutation) (v : Verdict) (b : Settled)
      → Triple (inside m.ordinal) idle (
          conclude serde scalars config (watched host) m v b >>= λ next.
          call_typed (watched host) (release m.ordinal) >> give next)
  unfolding conclude follows
  concluded m (refusal code) b =
      Triple-then (inside m.ordinal) (undone m.ordinal) idle _ _
        (Triple-then (inside m.ordinal) (undone m.ordinal) (undone m.ordinal) _ _
          (Triple-call host _ _ (rollback m.ordinal) (same_ordinal m.ordinal _))
          λ u. Triple-give S (undone m.ordinal) (with_rejection m code b))
        λ next.
          Triple-then (undone m.ordinal) idle idle _ _
            (Triple-call host _ _ (release m.ordinal) (same_ordinal m.ordinal _))
            λ u. Triple-give S idle next
  concluded m (records rs) b =
      Triple-then (inside m.ordinal) (inside m.ordinal) idle _ _
        (Triple-then (inside m.ordinal) (inside m.ordinal) (inside m.ordinal) _ _
          (Triple-lift S (inside m.ordinal) (keep_results serde scalars config rs b.results))
          λ results. Triple-give S (inside m.ordinal) _)
        λ next.
          Triple-then (inside m.ordinal) idle idle _ _
            (Triple-call host _ _ (release m.ordinal) (same_ordinal m.ordinal _))
            λ u. Triple-give S idle next

  run_mutation-Triple :
      (declared : List (Text × ℕ)) (owner : Text) (m : RawMutation) (d : Mutation) (args : Value)
      (targets : List RecordKey) (b : Settled)
      → Triple idle idle
          (run_mutation serde scalars config (watched host) declared owner m d args targets b)
  unfolding run_mutation follows
  run_mutation-Triple declared owner m d args targets b =
      let o = m.ordinal in
      Triple-then idle (inside o) idle _ _ (Triple-call host _ _ (savepoint o) refl) λ u.
        Triple-then (inside o) (inside o) idle _ _
          (Triple-call host _ _ (handle d.name d.version args owner o) (same_ordinal o _))
          λ settlement.
            Triple-then (inside o) (inside o) idle _ _
              (settle_handled-Keeps o declared owner targets settlement) λ v. concluded m v b

  abbrev Idle : {A : Type 0} → Server (S × Option Phase) A → Type 0
  Idle m = Triple idle idle m

  one_mutation-Idle :
      (declared : List (Text × ℕ)) (owner : Text) (m : RawMutation) (b : Settled)
      → Idle (one_mutation serde scalars config (watched host) declared owner m b)
  one_mutation-Idle declared owner m b =
      one_mutation-cases serde scalars config (watched host) declared owner m b Idle
        (λ c. Triple-give S idle (with_rejection m c b))
        λ d args targets. run_mutation-Triple declared owner m d args targets b

  run_batch-Idle :
      (declared : List (Text × ℕ)) (owner : Text) (ms : List RawMutation) (b : Settled)
      → Idle (run_batch serde scalars config (watched host) declared owner ms b)
  unfolding run_batch
  run_batch-Idle declared owner [] b = Triple-give S idle b
  run_batch-Idle declared owner (m ∷ ms) b =
      Triple-then idle idle idle _ _ (one_mutation-Idle declared owner m b)
        λ next. run_batch-Idle declared owner ms next

  accept_batch-Idle :
      (owner : Text) (request : PushRequest)
      → Idle (accept_batch serde scalars config (watched host) owner request)
  unfolding accept_batch follows
  accept_batch-Idle owner request =
      Triple-then idle idle idle _ _ (run_batch-Idle request.models owner request.mutations _) λ b.
        Triple-then idle idle idle _ _
          (Triple-lift S idle (under internal_code (encode_receipt serde (receipt_of request b))))
          λ receipt.
            Triple-then idle idle idle _ _ (Triple-call host idle idle (save_receipt _ _ _ _) refl)
              λ u. Triple-give S idle receipt

  Idle-if :
      {A : Type 0} (t : Bool) (o : Outcome A) (n : Server (S × Option Phase) A)
      → Idle n
      → Idle (if t then lift o else n)
  Idle-if true o n h = Triple-lift S idle o
  Idle-if false o n h = h

  sequenced-Idle :
      (owner : Text) (request : PushRequest) (locked : Claimed)
      → Idle (sequenced serde scalars config (watched host) owner request locked)
  unfolding sequenced
  sequenced-Idle owner request locked =
      Idle-if (not (same locked.client_id request.client_id)) (refused storage_invalid) _ (
        Idle-if (not (same locked.owner owner)) (refused owner_mismatch) _ (
          Idle-if (request.batch_sequence == locked.sequence)
            (or_code locked.receipt storage_invalid) _
            (Idle-if (ltb request.batch_sequence locked.sequence) (refused overlap_code) _ (
              Idle-if (not (request.batch_sequence == suc locked.sequence)) (refused gap_code) _
                (accept_batch-Idle owner request)))))

  -- Whatever the host answers, a push calls it in order: a mutation's handler, loaders, stamps and
  -- publications run within a savepoint of the mutation's ordinal, no savepoint is opened within another,
  -- a rollback is of the open savepoint and a release closes it, and the claim and the receipt stand
  -- outside. A push that is answered leaves no savepoint open.
  pub process_push-Idle :
      (owner bytes : Text) → Idle (process_push serde scalars config (watched host) owner bytes)
  unfolding process_push follows
  process_push-Idle owner bytes =
      Triple-then idle idle idle _ _ (Triple-lift S idle (principal owner)) λ u.
        Triple-then idle idle idle _ _
          (Triple-lift S idle (under request_invalid (decode_push serde bytes)))
          λ request.
            Triple-then idle idle idle _ _
              (Triple-call host idle idle (claim owner request.client_id) refl)
              λ locked. sequenced-Idle owner request locked
