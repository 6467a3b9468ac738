-- ===== src/Server/Push/Answers.antt =====
-- What `process_push` of crates/server/src/lib.rs answers to a batch that was answered before.
use ahead.Common.{◌∙◌, sym, ℕ, ◌⊎◌, inl, inr, ◌≡◌, refl, true, false, some, ok, arith}
use ahead.Common.Text.{Text}
use ahead.Common.Order.{same, same_iff, text_ord}
use ahead.Core.Json.{Serde}
use ahead.Core.Push.{PushRequest, decode_push}
use ahead.Core.Record.{is_blank}
use ahead.Core.Encode.{encode_receipt}
use ahead.Core.Schema.{Scalars}
use ahead.Server.Config.{done, Config, under, request_invalid, internal_code}
use ahead.Server.Host.{Host, lift, give, answered, claim, save_receipt, Claimed, call_typed}
use ahead.Server.Host.Returns.{
  lift-done, under-done, go_on-done, call_typed-done, call_typed-answered,
}
use ahead.Server.Push.{
  principal, run_batch, receipt_of, empty_batch, accept_batch, sequenced, process_push,
}

module _ (serde : Serde) (scalars : Scalars) (config : Config) {S : Type 0} (host : Host S) where
  -- The batch is decoded, and the claim is answered.
  pub record Claims (owner bytes : Text) (request : PushRequest) (locked : Claimed) (s s' : S)
      : Type 0 where
    pub named : is_blank owner ≡ false
    pub decoded : decode_push serde bytes ≡ ok request
    pub claimed : host (claim owner request.client_id) s ≡ (s', answered locked)

  pub process_push-Claims :
      (owner bytes : Text) (request : PushRequest) (locked : Claimed) (s s' : S)
      → Claims owner bytes request locked s s'
      → process_push serde scalars config host owner bytes s
        ≡ sequenced serde scalars config host owner request locked s'
  unfolding process_push principal
  process_push-Claims owner bytes request locked s s' c =
      rw
        (
          c.named,
          c.decoded,
          call_typed-answered host (claim owner request.client_id) s s' locked c.claimed,
        )
        refl

  -- The store keeps what a claim answered, and answers a claim with the receipt that was saved.
  pub record Keeps : Type 0 where
    pub claim_again :
        (owner client : Text) (locked : Claimed) (s s' : S)
        → host (claim owner client) s ≡ (s', answered locked)
        → (t : S) × (host (claim owner client) s' ≡ (t, answered locked))
    pub claim_saved :
        (owner client receipt : Text) (sequence : ℕ) (s s' : S)
        → host (save_receipt owner client sequence receipt) s ≡ (s', answered tt)
        → (t : S) × (host (claim owner client) s' ≡ (
          t,
          answered (record {
            client_id = client;
            owner = owner;
            sequence = sequence;
            receipt = some receipt;
          }),
        ))

  -- The state in which the receipt of a batch is saved.
  saved :
      (owner : Text) (request : PushRequest) (s2 s3 s' : S) (text receipt : Text)
      → host (save_receipt owner request.client_id request.batch_sequence text) s2
        ≡ (s3, answered tt)
      → give text s3 ≡ (s', done receipt)
      → (t : S) × (host (save_receipt owner request.client_id request.batch_sequence receipt) t
          ≡ (s', answered tt))
  saved owner request s2 s3 s' text receipt h e =
      let same_state : s3 ≡ s' = cc in
      let same_text : text ≡ receipt = cc in rw (← same_state, ← same_text) (s2, h)

  accept_batch-saved :
      (owner : Text) (request : PushRequest) (s s' : S) (receipt : Text)
      → accept_batch serde scalars config host owner request s ≡ (s', done receipt)
      → (t : S) × (host (save_receipt owner request.client_id request.batch_sequence receipt) t
          ≡ (s', answered tt))
  unfolding accept_batch
  accept_batch-saved owner request s s' receipt h =
      let (s1, b, e1, h1) =
        go_on-done
          (run_batch serde scalars config host request.models owner request.mutations empty_batch s)
          _ s' receipt h in
      let (s2, text, e2, h2) =
        go_on-done (lift (under internal_code (encode_receipt serde (receipt_of request b))) s1) _
          s' receipt h1 in
      let (s3, u, e3, h3) =
        go_on-done
          (call_typed host (save_receipt owner request.client_id request.batch_sequence text) s2) _
          s' receipt h2 in
      saved owner request s2 s3 s' text receipt
        (call_typed-done host (save_receipt owner request.client_id request.batch_sequence text) s2
          s3 u e3)
        h3

  -- A push that was answered was a retry, or the next batch.
  sequenced-done :
      (owner : Text) (request : PushRequest) (locked : Claimed) (s s' : S) (receipt : Text)
      → sequenced serde scalars config host owner request locked s ≡ (s', done receipt)
      → (same locked.client_id request.client_id ≡ true)
        × (same locked.owner owner ≡ true)
        × (((request.batch_sequence ≡ locked.sequence) × (locked.receipt ≡ some receipt) × (s ≡ s'))
            ⊎ (accept_batch serde scalars config host owner request s ≡ (s', done receipt)))
  unfolding sequenced
  sequenced-done owner request locked s s' receipt h = ground arith

  sequenced-same :
      (owner : Text) (request : PushRequest) (locked : Claimed) (s' : S) (receipt : Text)
      → same locked.client_id request.client_id ≡ true
      → same locked.owner owner ≡ true
      → request.batch_sequence ≡ locked.sequence
      → locked.receipt ≡ some receipt
      → sequenced serde scalars config host owner request locked s' ≡ (s', done receipt)
  unfolding sequenced
  sequenced-same owner request locked s' receipt client own last stored =
      ground (arith, client, own, last, stored)

  -- The batch whose receipt is stored, sent again.
  again :
      (owner bytes : Text) (request : PushRequest) (locked : Claimed) (s t : S) (receipt : Text)
      → Claims owner bytes request locked s t
      → same locked.client_id request.client_id ≡ true
      → same locked.owner owner ≡ true
      → request.batch_sequence ≡ locked.sequence
      → locked.receipt ≡ some receipt
      → process_push serde scalars config host owner bytes s ≡ (t, done receipt)
  again owner bytes request locked s t receipt c client own last stored =
      process_push-Claims owner bytes request locked s t c
      ∙ sequenced-same owner request locked t receipt client own last stored

  principal-done : (owner : Text) {u : Unit {0}} → principal owner ≡ done u → is_blank owner ≡ false
  unfolding principal
  principal-done owner h = ground arith

  -- What an answered push went through.
  pub record Answered (owner bytes receipt : Text) (s' : S) : Type 0 where
    pub request : PushRequest
    pub locked : Claimed
    pub before : S
    pub after : S
    pub named : is_blank owner ≡ false
    pub decoded : decode_push serde bytes ≡ ok request
    pub claimed : host (claim owner request.client_id) before ≡ (after, answered locked)
    pub answer : sequenced serde scalars config host owner request locked after ≡ (s', done receipt)

  pub process_push-Answered :
      (owner bytes receipt : Text) (s s' : S)
      → process_push serde scalars config host owner bytes s ≡ (s', done receipt)
      → Answered owner bytes receipt s'
  unfolding process_push
  process_push-Answered owner bytes receipt s s' h =
      let (s1, u, e1, h1) = go_on-done (lift (principal owner) s) _ s' receipt h in
      let (s2, r, e2, h2) =
        go_on-done (lift (under request_invalid (decode_push serde bytes)) s1) _ s' receipt h1 in
      let (s3, l, e3, h3) =
        go_on-done (call_typed host (claim owner r.client_id) s2) _ s' receipt h2 in
      record {
        request = r;
        locked = l;
        before = s2;
        after = s3;
        named = principal-done owner (lift-done (principal owner) s s1 u e1);
        decoded =
            under-done request_invalid _ r
              (lift-done (under request_invalid (decode_push serde bytes)) s1 s2 r e2);
        claimed = call_typed-done host (claim owner r.client_id) s2 s3 l e3;
        answer = h3;
      }

  -- What a store holds after an answered push.
  pub record Stored (owner receipt : Text) (request : PushRequest) (s' : S) : Type 0 where
    pub locked : Claimed
    pub after : S
    pub claimed : host (claim owner request.client_id) s' ≡ (after, answered locked)
    pub client : locked.client_id ≡ request.client_id
    pub own : locked.owner ≡ owner
    pub last : locked.sequence ≡ request.batch_sequence
    pub stored : locked.receipt ≡ some receipt

  pub Answered-Stored :
      (owner bytes receipt : Text) (s' : S)
      → Keeps
      → (a : Answered owner bytes receipt s') → Stored owner receipt a.request s'
  Answered-Stored owner bytes receipt s' k a =
      branch (sequenced-done owner a.request a.locked a.after s' receipt a.answer)
    where
      branch :
          (same a.locked.client_id a.request.client_id ≡ true)
            × (same a.locked.owner owner ≡ true)
            × (((a.request.batch_sequence ≡ a.locked.sequence)
                  × (a.locked.receipt ≡ some receipt)
                  × (a.after ≡ s'))
                ⊎ (accept_batch serde scalars config host owner a.request a.after
                    ≡ (s', done receipt)))
          → Stored owner receipt a.request s'
      branch (client, own, inl (last, stored, there)) =
          let (t, e) =
            k.claim_again owner a.request.client_id a.locked a.before s' (rw (← there) a.claimed) in
          record {
            locked = a.locked;
            after = t;
            claimed = e;
            client = (same_iff a.locked.client_id a.request.client_id).0 client;
            own = (same_iff a.locked.owner owner).0 own;
            last = sym last;
            stored = stored;
          }
      branch (client, own, inr accepted) =
          let (before, kept) = accept_batch-saved owner a.request a.after s' receipt accepted in
          let (t, e) =
            k.claim_saved owner a.request.client_id receipt a.request.batch_sequence before s'
              kept in
          record {
            locked = _;
            after = t;
            claimed = e;
            client = refl;
            own = refl;
            last = refl;
            stored = refl;
          }

  -- An answered push, sent again to a store that keeps receipts, is answered with the same receipt, by the
  -- claim alone: no mutation runs twice.
  pub process_push-again :
      (owner bytes receipt : Text) (s s' : S)
      → Keeps
      → process_push serde scalars config host owner bytes s ≡ (s', done receipt)
      → (request : PushRequest) × (locked : Claimed) × (t : S) × (host
            (claim owner request.client_id)
            s'
          ≡ (t, answered locked))
        × (process_push serde scalars config host owner bytes s' ≡ (t, done receipt))
  process_push-again owner bytes receipt s s' k h =
      let a = process_push-Answered owner bytes receipt s s' h in
      let kept = Answered-Stored owner bytes receipt s' k a in
      (
        a.request,
        kept.locked,
        kept.after,
        kept.claimed,
        again owner bytes a.request kept.locked s' kept.after receipt
            (record { named = a.named; decoded = a.decoded; claimed = kept.claimed })
            ((same_iff kept.locked.client_id a.request.client_id).1 kept.client)
            ((same_iff kept.locked.owner owner).1 kept.own) (sym kept.last) kept.stored,
      )
