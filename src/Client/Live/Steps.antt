-- ===== src/Client/Live/Steps.antt =====
-- A page, an acknowledgement and a catch-up response of crates/client/src/live.rs: what each does to the
-- stored cursors and the queue.
use ahead.Common.{
  length-append, arith, ℕ, ◌≡◌, refl, Bool, true, false, not, ◌||◌, List, [], ◌∷◌, ◌++◌, Option,
  none, some, Result, ok, err, ◌>>=◌, or_fail, >>=-eq-ok, if◌then◌else◌, is_some, arith, inl, inr,
  ◌⊎◌, All-append, Bool-cases, not_json, live_page_invalid, live_frame_invalid, refuse, ack_invalid,
  page_before_acknowledgement, leb, length, map_err,
}
use ahead.Common.Text.{Text, codes}
use ahead.Common.Order.{text_ord}
use ahead.Core.Json.{Serde, Value, is_object, get}
use ahead.Core.Page.{PullPage, PullRequest, decode_page}
use ahead.Core.Page.Validity.{decode_page-IsPage}
use ahead.Core.Subscribe.{
  SubscriptionAck, LiveMessage, acknowledged, page, decode_message, confirms, decode_ack,
}
use ahead.Client.State.{Client, Applier}
use ahead.Client.Downlink.{
  Disposition, covered, recover, applied, DownlinkProgress, receive_downlink,
}
use ahead.Client.Downlink.Gate.{receive_downlink-Gated}
use ahead.Client.Live.{
  Session, Lane, Outcome, store, with_client, fail, settle, pull, on_overflow, drained, drain,
  on_acknowledged, on_page, on_decoded, on_message, next_round, caught_up, on_response, on_taken,
  on_catch_up, is_behind, decode_response, is_mismatch, queued_frames,
}
use ahead.Client.Live.Safety.{
  Orderly, Forward, Forward-trans, Gated-Forward, InOrder, Safe, SafeAfter, Moved, fail-Safe,
  settle-client, pull-Safe, on_overflow-Safe,
}

rest-Orderly : (front : PullPage) (rest : List PullPage) → Orderly (front ∷ rest) → Orderly rest
rest-Orderly front rest q = (q.0.1, omega (arith, q.1))

module _ {R : Type 0} (apply_records : Applier R) (serde : Serde) where
  receive-Forward :
      (c : Client R) (p : PullPage) (asked : Option PullRequest)
      → InOrder p
      → Forward c.db.subscriptions
          (receive_downlink apply_records serde c p asked).0.db.subscriptions
  receive-Forward c p asked sorted =
      Gated-Forward c.db.subscriptions
        (receive_downlink apply_records serde c p asked).0.db.subscriptions p.cursors
        (λ j. receive_downlink-Gated apply_records serde c p asked j sorted)

  received-Moved :
      (l l' : Lane R) (p : PullPage) (asked : Option PullRequest)
      → Moved l l'.client
      → InOrder p
      → Moved l (receive_downlink apply_records serde l'.client p asked).0
  received-Moved l l' p asked f sorted =
      Forward-trans l.client.db.subscriptions l'.client.db.subscriptions
        (receive_downlink apply_records serde l'.client p asked).0.db.subscriptions f
        (receive-Forward l'.client p asked sorted)

  settled-Moved :
      (l l' : Lane R) (p : DownlinkProgress) (c : Client R)
      → Moved l c
      → Moved l (settle p (with_client c l')).client
  settled-Moved l l' p c f = rw (settle-client p (with_client c l')) f

  drained-Safe :
      (l l' : Lane R) (front : PullPage) (rest : List PullPage) (s : Session)
      → Orderly (front ∷ rest)
      → (more : Session → Lane R → Outcome R)
      → ((l1 : Lane R) → Moved l l1.client → Safe l (more s l1).0)
      → (r : Client R × Result DownlinkProgress) → Moved l r.0
      → Safe l (drained front rest s l' r more).0
  drained-Safe l l' front rest s q more ih (c, err e) f = record { forward = f; queue = q }
  drained-Safe l l' front rest s q more ih (c, ok p) f = go p.disposition
    where
      on : Moved l (settle p (with_client c l')).client
      on = settled-Moved l l' p c f

      go :
          (d : Disposition)
          → SafeAfter l (elim d [
            | recover ↦ pull (record s { queue = front ∷ rest }) (settle p (with_client c l'))
            | _ ↦ more s (settle p (with_client c l'))
          ])
      go recover =
          pull-Safe l (settle p (with_client c l')) (record s { queue = front ∷ rest }) on q
      go covered = ih (settle p (with_client c l')) on
      go applied = ih (settle p (with_client c l')) on

  drain-Safe :
      (l l' : Lane R) (ps : List PullPage) (s : Session)
      → Moved l l'.client
      → Orderly ps
      → Safe l (drain apply_records serde ps s l').0
  unfolding drain
  drain-Safe l l' [] s f q = record { forward = f; queue = (tt, omega arith) }
  drain-Safe l l' (front ∷ rest) s f q =
      go (λ l1 f1. drain-Safe l l1 rest s f1 (rest-Orderly front rest q))
        (Bool-cases (is_some s.active))
    where
      go :
          ((l1 : Lane R) → Moved l l1.client → Safe l (drain apply_records serde rest s l1).0)
          → (is_some s.active ≡ true) ⊎ (is_some s.active ≡ false)
          → Safe l (drain apply_records serde (front ∷ rest) s l').0
      go ih (inl b) = rw (b, drain) (record { forward = f; queue = q })
      go ih (inr b) =
          rw (b, drain)
            (drained-Safe l l' front rest s q (drain apply_records serde rest) ih
              (receive_downlink apply_records serde l'.client front none)
              (received-Moved l l' front none f q.0.0))

  on_acknowledged-Safe :
      (l l' : Lane R) (ack : SubscriptionAck) (now entropy : ℕ) (s : Session)
      → Moved l l'.client
      → Orderly s.queue
      → Safe l (on_acknowledged apply_records serde ack now entropy s l').0
  unfolding on_acknowledged
  on_acknowledged-Safe l l' ack now entropy s f q =
      go (s.acked || not (confirms ack s.subscribe)) (is_behind apply_records serde l'.client ack)
    where
      go :
          (refused behind : Bool)
          → SafeAfter l (
              if refused
              then (fail (some ack_invalid) now entropy l', ok tt)
              else if behind
              then pull (record s { acked = true }) l'
              else (store (record s { acked = true }) l', ok tt))
      go true behind = fail-Safe l l' (some ack_invalid) now entropy f
      go false true = pull-Safe l l' (record s { acked = true }) f q
      go false false = record { forward = f; queue = q }

  on_page-Safe :
      (l l' : Lane R) (p : PullPage) (now entropy : ℕ) (s : Session)
      → Safe l l'
      → Orderly s.queue
      → InOrder p
      → Safe l (on_page apply_records serde p now entropy s l').0
  unfolding on_page
  on_page-Safe l l' p now entropy s f q sorted =
      go (not s.acked) (leb queued_frames (length s.queue)) refl
    where
      go :
          (early full : Bool)
          → leb queued_frames (length s.queue) ≡ full
          → SafeAfter l (
              if early
              then (fail (some page_before_acknowledgement) now entropy l', ok tt)
              else if full
              then on_overflow s l'
              else drain apply_records serde (s.queue ++ (p ∷ [])) s l')
      go true full e = fail-Safe l l' (some page_before_acknowledgement) now entropy f.forward
      go false true e = on_overflow-Safe l l' s f
      go false false e = drain-Safe l l' (s.queue ++ (p ∷ [])) s f.forward (
        All-append InOrder s.queue (p ∷ []) q.0 (sorted, tt),
        ground (arith, e, length-append s.queue (p ∷ [])),
      )

  decode_message-InOrder :
      (body : Text) {p : PullPage} → decode_message serde body ≡ ok (page p) → InOrder p
  unfolding decode_message
  decode_message-InOrder body {p} h =
      let (value, e, h1) = >>=-eq-ok (or_fail (serde.from_slice body) not_json) _ h in
      let (u, e1, h2) = >>=-eq-ok (refuse (not (is_object value)) live_frame_invalid) _ h1 in
      go value (is_some (get value (codes "type"))) h2
    where
      go :
          (value : Value) (kind : Bool)
          → (if kind
              then (decode_ack serde body >>= λ ack. ok (acknowledged ack))
              else (map_err live_page_invalid (decode_page serde value) >>= λ p. ok (page p)))
            ≡ ok (page p)
          → InOrder p
      go value true h =
          let (ack, e, h') = >>=-eq-ok (decode_ack serde body) (λ ack. ok (acknowledged ack)) h in
          absurd (ground arith)
      go value false h =
          let (p', e, h') =
            >>=-eq-ok (map_err live_page_invalid (decode_page serde value)) (λ p. ok (page p)) h in
          let same_page : p' ≡ p = cc h' in
          rw (← same_page) (decoded (decode_page serde value) refl e)
        where
          decoded :
              {p' : PullPage} (r : Result PullPage)
              → decode_page serde value ≡ r
              → map_err live_page_invalid (decode_page serde value) ≡ ok p'
              → InOrder p'
          decoded {p' = p'} (err d) f e = absurd (ground (arith, rw f at e))
          decoded {p' = p'} (ok q) f e =
              let same_page : q ≡ p' = cc (rw f at e) in
              rw (← same_page) (decode_page-IsPage serde value f).1

  pub on_message-Safe :
      (l l' : Lane R) (body : Text) (now entropy : ℕ) (s : Session)
      → Safe l l'
      → Orderly s.queue
      → Safe l (on_message apply_records serde body now entropy s l').0
  unfolding on_message
  on_message-Safe l l' body now entropy s f q = go (decode_message serde body) refl
    where
      go :
          (r : Result LiveMessage)
          → decode_message serde body ≡ r
          → Safe l (on_decoded apply_records serde r now entropy s l').0
      go (err e) h = fail-Safe l l' (some e) now entropy f.forward
      go (ok (acknowledged ack)) h = on_acknowledged-Safe l l' ack now entropy s f.forward q
      go (ok (page p)) h = on_page-Safe l l' p now entropy s f q (decode_message-InOrder body h)

  next_round-Safe :
      (l l' : Lane R) (p : DownlinkProgress) (s : Session)
      → Moved l l'.client
      → Orderly s.queue
      → Safe l (next_round apply_records serde p s l').0
  next_round-Safe l l' p s f q = go p.continuing s.again
    where
      go :
          (cs : List Text) (again : Bool)
          → SafeAfter l (elim cs [
            | [] ↦
                if again
                then pull (record s { again = false }) l'
                else drain apply_records serde s.queue (record s { again = false }) l'
            | c ∷ cs ↦ pull s l'
          ])
      go [] true = pull-Safe l l' (record s { again = false }) f q
      go [] false = drain-Safe l l' s.queue (record s { again = false }) f q
      go (c ∷ cs) again = pull-Safe l l' s f q

  caught_up-Safe :
      (l l' : Lane R) (now entropy : ℕ) (s : Session) (r : Client R × Result DownlinkProgress)
      → Moved l r.0
      → Orderly s.queue
      → Safe l (caught_up apply_records serde now entropy s l' r).0
  caught_up-Safe l l' now entropy s (c, ok p) f q =
      next_round-Safe l (settle p (with_client c l')) p s (settled-Moved l l' p c f) q
  caught_up-Safe l l' now entropy s (c, err e) f q = go (is_mismatch apply_records serde e)
    where
      go :
          (mismatch : Bool)
          → SafeAfter l (
              if mismatch
              then (fail (some e) now entropy (store s (with_client c l')), ok tt)
              else (store s (with_client c l'), err e))
      go true = fail-Safe l (store s (with_client c l')) (some e) now entropy f
      go false = record { forward = f; queue = q }

  on_response-Safe :
      (l l' : Lane R) (asked : PullRequest) (r : Result PullPage) (now entropy : ℕ) (s : Session)
      → Moved l l'.client
      → Orderly s.queue
      → ((p : PullPage) → r ≡ ok p → InOrder p)
      → Safe l (on_response apply_records serde asked r now entropy s l').0
  on_response-Safe l l' asked (err e) now entropy s f q sorted =
      fail-Safe l (store s l') (some e) now entropy f
  on_response-Safe l l' asked (ok p) now entropy s f q sorted =
      caught_up-Safe l l' now entropy s
        (receive_downlink apply_records serde l'.client p (some asked))
        (received-Moved l l' p (some asked) f (sorted p refl)) q

  decode_response-InOrder :
      (body : Text) (p : PullPage) → decode_response apply_records serde body ≡ ok p → InOrder p
  decode_response-InOrder body p h =
      let (v, e, h') = >>=-eq-ok (or_fail (serde.from_slice body) not_json) (decode_page serde) h in
      (decode_page-IsPage serde v h').1

  pub on_catch_up-Safe :
      (l l' : Lane R) (body : Text) (now entropy : ℕ) (s : Session)
      → Safe l l'
      → Orderly s.queue
      → Safe l (on_catch_up apply_records serde body now entropy s l').0
  unfolding on_catch_up
  on_catch_up-Safe l l' body now entropy s f q = go s.active
    where
      go :
          (active : Option PullRequest)
          → Safe l (on_taken apply_records serde active body now entropy s l').0
      go none = f
      go (some asked) =
          on_response-Safe l l' asked (decode_response apply_records serde body) now entropy
            (record s { active = none }) f.forward q (decode_response-InOrder body)
