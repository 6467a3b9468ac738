-- ===== src/Client/Acknowledge/Answered.antt =====
-- What `acknowledge` of crates/client/src/push.rs makes sure of before it completes a push.
use ahead.Common.{
  Error, ℕ, ◌≡◌, ◌≤◌, refl, sym, ◌∙◌, ap, Bool, true, false, not, List, [], ◌∷◌, ◌++◌, Option, none,
  some, Result, ok, err, ◌>>=◌, ◌>>◌, >>=-eq-ok, if◌then◌else◌, any, keep, map, leb, ◌==◌, refuse,
  arith, inl, inr, ◌⊎◌, Holds, Bool-cases, another_batch, another_client, unknown_batch,
  not_in_flight, rejection_outside, authority_omitted,
}
use ahead.Common.Text.{Text}
use ahead.Common.Map.{insert, contains_key, keys, lookup-insert}
use ahead.Common.Order.{text_ord, same, same_iff}
use ahead.Core.Json.{Serde}
use ahead.Core.Record.{AuthorityRecord, Rejection, PushReceipt}
use ahead.Core.Schema.{Schema, Scalars, RecordKey}
use ahead.Client.Report.{ApplyReport, empty_report}
use ahead.Client.Queue.{Operation, Queued, Outbox, delete_mutations, in_flight}
use ahead.Client.Push.{in_push}
use ahead.Client.Rejected.{touch, mark_rejected}
use ahead.Client.Rejected.Settled.{Holds-keep, keep-Holds}
use ahead.Client.Authority.{Tables, Held}
use ahead.Client.Rebase.{Queue, rebuild_held}
use ahead.Client.Acknowledge.{
  Store, put_all, settle_companions, stage_receipt, set_last_completed_push, wire_ops, every_op,
  rejects, has_rejected, keyed, cover, complete_push, finish, acknowledge,
}
use ahead.Client.Acknowledge.Touched.{
  refuse-ok, wire_ops-Holds, has_rejected-Holds, missing_none, every_known, nothing, touch-has,
}

module _ (serde : Serde) (scalars : Scalars) (schema : Schema) where
  -- A record of the receipt has the key.
  abbrev pub Reported : Text → List AuthorityRecord → Type 0
  Reported k rs =
      (a : AuthorityRecord) × Holds a rs
      × (key : RecordKey) × (keyed serde scalars schema a.model a.identity ≡ ok (k, key))

  cover-Reported :
      (k : Text) (rs : List AuthorityRecord) (held held' : Held)
      → cover serde scalars schema rs held ≡ ok held'
      → contains_key k held' ≡ true
      → (contains_key k held ≡ true) ⊎ Reported k rs
  unfolding cover
  cover-Reported k [] held held' h c = let e : held ≡ held' = cc in inl (rw e c)
  cover-Reported k (a ∷ rs) held held' h c =
      let (key, e, h1) = >>=-eq-ok (keyed serde scalars schema a.model a.identity) _ h in
      elim (cover-Reported k rs (insert key.0 key.1 held) held' h1 c) [
        | inr (b, m, x, f) ↦ inr (b, inr m, x, f)
        | inl d ↦ here key e d
      ]
    where
      here :
          (key : Text × RecordKey)
          → keyed serde scalars schema a.model a.identity ≡ ok key
          → contains_key k (insert key.0 key.1 held) ≡ true
          → (contains_key k held ≡ true) ⊎ Reported k (a ∷ rs)
      here key e d = elim (Bool-cases (same k key.0)) [
        | inl s ↦ inr (a, inl refl, key.1, rw ((same_iff k key.0).0 s) e)
        | inr s ↦ inl (ground (arith, s, d, lookup-insert k key.0 key.1 held))
      ]

  -- The receipt answers the push in flight: its rejections name mutations of the push, it reports every record of
  -- the operations of the others, and the push is then the last completed one.
  pub record Answered {R : Type 0} (sequence : ℕ) (receipt : PushReceipt) (s s' : Store R)
      : Type 0 where
    pub client : receipt.client_id ≡ s.outbox.client_id
    pub batch : receipt.batch_sequence ≡ sequence
    pub flying : in_flight s.outbox.queue ≡ ok (some sequence)
    pub known :
        (r : Rejection)
        → Holds r receipt.rejections
        → (q : Queued) × Holds q s.outbox.queue
          × (in_push sequence q ≡ true)
          × (q.ordinal ≡ r.ordinal)
    pub authority :
        (q : Queued) (op : Operation)
        → Holds q s.outbox.queue
        → in_push sequence q ≡ true
        → rejects receipt.rejections q ≡ false
        → Holds op q.mutation.operations
        → (key : Text × RecordKey) × (keyed serde scalars schema op.model op.identity ≡ ok key)
          × Reported key.0 receipt.records
    pub completed : s'.last_completed_push ≡ sequence
    pub forgotten : s'.outbox.push_models ≡ none

  pair_first :
      {A B : Type 0} (a a' : A) (b b' : B)
      → ◌≡◌ {A = Result (A × B)} (ok (a, b)) (ok (a', b'))
      → (a ≡ a') × (b ≡ b')
  pair_first a a' b b' h = (cc, cc)

  module _ (message : Error → Text) {R : Type 0} (tables : Tables (Store R))
      (queue : Queue (Store R)) (sequence : ℕ) (receipt : PushReceipt) (s s' : Store R)
      (report : ApplyReport) where
    complete_push-completed :
        (batch accepted : List Queued) (wire covered : Held)
        → complete_push message serde scalars schema tables queue sequence receipt batch accepted
            wire covered s
          ≡ ok (s', report)
        → (s'.last_completed_push ≡ sequence) × (s'.outbox.push_models ≡ none)
    unfolding complete_push
    complete_push-completed batch accepted wire covered h =
        let (touched, e0, h0) =
          >>=-eq-ok (touch (keyed serde scalars schema) (every_op batch) []) _ h in
        let (x, e1, h1) =
          >>=-eq-ok
            (settle_companions message serde scalars schema tables queue wire covered accepted s
              touched)
            _ h0 in
        let run =
          stage_receipt message serde scalars schema tables queue sequence receipt.records x.1
            x.0 in
        let (m, e2, h2) =
          >>=-eq-ok (mark_rejected (keyed serde scalars schema) run.1.outbox receipt.rejections) _
            h1 in
        let left : Outbox = record (m.0) {
          queue = delete_mutations (map (λ q. q.ordinal) accepted) m.0.queue;
        } in
        let (y, e3, h3) =
          >>=-eq-ok
            (rebuild_held tables queue serde
              (put_all message serde scalars schema tables queue m.1 run.0)
              (record (run.1) { outbox = left }))
            (λ y. ok (
              set_last_completed_push sequence y.0,
              record empty_report { applied = run.2; reports = run.3 ++ y.1 },
            ))
            h2 in
        let (whole, u) = pair_first (set_last_completed_push sequence y.0) s' _ report h3 in
        rw (← whole) (refl, refl)

    finish-Answered :
        receipt.client_id ≡ s.outbox.client_id
        → receipt.batch_sequence ≡ sequence
        → in_flight s.outbox.queue ≡ ok (some sequence)
        → finish message serde scalars schema tables queue sequence receipt s ≡ ok (s', report)
        → Answered sequence receipt s s'
    unfolding finish
    finish-Answered client batch flying h =
        let sent = keep (in_push sequence) s.outbox.queue in
        let accepted = keep (λ q. not (rejects receipt.rejections q)) sent in
        let (u, e0, h0) =
          >>=-eq-ok
            (refuse (any (λ r. not (has_rejected sent r)) receipt.rejections) rejection_outside) _
            h in
        let (covered, e1, h1) = >>=-eq-ok (cover serde scalars schema receipt.records []) _ h0 in
        let (wire, e2, h2) =
          >>=-eq-ok (touch (keyed serde scalars schema) (wire_ops accepted) []) _ h1 in
        let (v, e3, h3) =
          >>=-eq-ok (refuse (any (λ k. not (contains_key k covered)) (keys wire)) authority_omitted)
            _ h2 in
        let (done, cleared) = complete_push-completed sent accepted wire covered h3 in
        record {
          client = client;
          batch = batch;
          flying = flying;
          known = λ r m.
              let (q, n, f) =
                has_rejected-Holds sent r
                  (every_known sent receipt.rejections (refuse-ok _ _ e0) r m) in
              let (i, g) = keep-Holds (in_push sequence) q s.outbox.queue n in (q, i, g, f);
          authority = λ q op m sent_q free i.
              let taken =
                Holds-keep (λ q. not (rejects receipt.rejections q)) q sent
                  (Holds-keep (in_push sequence) q s.outbox.queue m sent_q)
                  (ground (arith, free)) in
              let (key, f, c) =
                touch-has (keyed serde scalars schema) op (wire_ops accepted) [] wire e2
                  (wire_ops-Holds q op accepted taken i) in
              (
                key,
                f,
                elim (cover-Reported key.0 receipt.records [] covered e1
                    (missing_none covered key.0 wire (refuse-ok _ _ e3) c)) [
                      | inl d ↦ absurd (nothing key.0 d)
                      | inr a ↦ a
                    ],
              );
          completed = done;
          forgotten = cleared;
        }

    -- A receipt that is acknowledged is of a push that was completed before, and then changes nothing, or it answers
    -- the push in flight.
    pub acknowledge-Answered :
        acknowledge message serde scalars schema tables queue sequence receipt s ≡ ok (s', report)
        → ((sequence ≤ s.last_completed_push) × (s' ≡ s) × (report.stale ≡ true))
          ⊎ Answered sequence receipt s s'
    unfolding acknowledge
    acknowledge-Answered h =
        let (u, e0, h0) =
          >>=-eq-ok (refuse (not (receipt.batch_sequence == sequence)) another_batch) _ h in
        let (v, e1, h1) =
          >>=-eq-ok (refuse (not (same receipt.client_id s.outbox.client_id)) another_client) _
            h0 in
        go (leb sequence s.last_completed_push) refl
          ((same_iff receipt.client_id s.outbox.client_id).0 (ground (arith, refuse-ok _ _ e1)))
          (ground (arith, refuse-ok _ _ e0)) h1
      where
        Flight : Option ℕ → Result (Store R × ApplyReport)
        Flight none = err unknown_batch
        Flight (some push) =
            refuse (not (push == sequence)) not_in_flight
            >> finish message serde scalars schema tables queue sequence receipt s

        flown :
            (o : Option ℕ)
            → in_flight s.outbox.queue ≡ ok o
            → receipt.client_id ≡ s.outbox.client_id
            → receipt.batch_sequence ≡ sequence
            → Flight o ≡ ok (s', report)
            → Answered sequence receipt s s'
        flown none f client batch h = cc
        flown (some push) f client batch h =
            let (u, e, h1) = >>=-eq-ok (refuse (not (push == sequence)) not_in_flight) _ h in
            let same_push : push ≡ sequence = ground (arith, refuse-ok _ _ e) in
            finish-Answered client batch (f ∙ ap (λ p. ok (some p)) same_push) h1

        go :
            (b : Bool)
            → leb sequence s.last_completed_push ≡ b
            → receipt.client_id ≡ s.outbox.client_id
            → receipt.batch_sequence ≡ sequence
            → (if b
                then ok (s, record empty_report { stale = true })
                else in_flight s.outbox.queue >>= Flight)
              ≡ ok (s', report)
            → ((sequence ≤ s.last_completed_push) × (s' ≡ s) × (report.stale ≡ true))
              ⊎ Answered sequence receipt s s'
        go true e client batch h =
            let (same_state, same_report) =
              pair_first s s' (record empty_report { stale = true }) report h in
            inl (ground (arith, e), sym same_state, rw (← same_report) refl)
        go false e client batch h =
            let (o, f, h1) = >>=-eq-ok (in_flight s.outbox.queue) Flight h in
            inr (flown o f client batch h1)
