-- ===== src/Server/Push/Ordered.antt =====
-- What `process_push` of crates/server/src/lib.rs answers to a push that follows an answered one.
use ahead.Common.{◌∙◌, ap, sym, ◌<◌, ℕ, suc, ◌≡◌, ◌≢◌, some, ok, arith}
use ahead.Common.Text.{Text}
use ahead.Common.Order.{same_iff, text_ord}
use ahead.Core.Json.{Serde}
use ahead.Core.Push.{PushRequest, decode_push}
use ahead.Core.Schema.{Scalars}
use ahead.Server.Config.{Outcome, refused, done, Config, overlap_code, gap_code}
use ahead.Server.Host.{Host, answered, claim, Claimed}
use ahead.Server.Push.{sequenced, process_push}
use ahead.Server.Push.Answers.{Keeps, process_push-Answered, Answered-Stored, process_push-Claims}

module _ (serde : Serde) (scalars : Scalars) (config : Config) {S : Type 0} (host : Host S) where
  -- What a push after an answered one comes to, by its sequence; `answer` is its outcome.
  pub record Ordered (last next : ℕ) (receipt : Text) (answer : Outcome Text) : Type 0 where
    pub equal : next ≡ last → answer ≡ done receipt
    pub earlier : next < last → answer ≡ refused overlap_code
    pub later : suc last < next → answer ≡ refused gap_code

  same_request :
      (bytes : Text) (r r' : PushRequest)
      → decode_push serde bytes ≡ ok r
      → decode_push serde bytes ≡ ok r'
      → r ≡ r'
  same_request bytes r r' e f = cc

  sequenced-Ordered :
      (owner receipt : Text) (request : PushRequest) (locked : Claimed) (t : S)
      → locked.client_id ≡ request.client_id
      → locked.owner ≡ owner
      → locked.receipt ≡ some receipt
      → request.batch_sequence ≢ suc locked.sequence
      → (sequenced serde scalars config host owner request locked t).0 ≡ t
        × Ordered locked.sequence request.batch_sequence receipt
            (sequenced serde scalars config host owner request locked t).1
  unfolding sequenced
  sequenced-Ordered owner receipt request locked t client own stored other =
      let c = (same_iff locked.client_id request.client_id).1 client in
      let o = (same_iff locked.owner owner).1 own in
      (
        ground (arith, c, o, other),
        record {
          equal = λ e. ground (arith, c, o, stored, e);
          earlier = λ e. ground (arith, c, o, e);
          later = λ e. ground (arith, c, o, e);
        },
      )

  -- After a push that was answered by a store that keeps receipts, another push of the same owner and client whose
  -- sequence is not the next one calls the host for the claim alone. With the sequence of the answered push it is
  -- answered with that push's receipt, whatever else it holds; with an earlier one it is refused as an overlap, and
  -- with a later one as a gap.
  pub process_push-Ordered :
      (owner bytes bytes' receipt : Text) (request request' : PushRequest) (s s' : S)
      → Keeps serde scalars config host
      → process_push serde scalars config host owner bytes s ≡ (s', done receipt)
      → decode_push serde bytes ≡ ok request
      → decode_push serde bytes' ≡ ok request'
      → request'.client_id ≡ request.client_id
      → request'.batch_sequence ≢ suc request.batch_sequence
      → (locked : Claimed) × (t : S) × (host (claim owner request.client_id) s'
          ≡ (t, answered locked))
        × ((process_push serde scalars config host owner bytes' s').0 ≡ t)
        × Ordered request.batch_sequence request'.batch_sequence receipt
            (process_push serde scalars config host owner bytes' s').1
  process_push-Ordered owner bytes bytes' receipt request request' s s' k h e f client other =
      let a = process_push-Answered serde scalars config host owner bytes receipt s s' h in
      let kept = Answered-Stored serde scalars config host owner bytes receipt s' k a in
      let same_first : a.request ≡ request = same_request bytes a.request request a.decoded e in
      let claimed : host (claim owner request.client_id) s' ≡ (kept.after, answered kept.locked) =
        ap (λ r. host (claim owner r.client_id) s') (sym same_first) ∙ kept.claimed in
      let last : kept.locked.sequence ≡ request.batch_sequence =
        kept.last ∙ ap (λ r. r.batch_sequence) same_first in
      let run =
        process_push-Claims serde scalars config host owner bytes' request' kept.locked s'
          kept.after
          (record {
            named = a.named;
            decoded = f;
            claimed = ap (λ c. host (claim owner c) s') client ∙ claimed;
          }) in
      let (still, ordered) =
        sequenced-Ordered owner receipt request' kept.locked kept.after
          (kept.client ∙ ap (λ r. r.client_id) same_first ∙ sym client) kept.own kept.stored
          (λ g. other (g ∙ ap suc last)) in
      (kept.locked, kept.after, claimed, ap (λ o. o.0) run ∙ still, rw run (rw (← last) ordered))
