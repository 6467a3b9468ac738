-- ===== src/Client/Live.antt =====
-- crates/client/src/live.rs: the live session of the client. `LiveSession` and the client that its
-- methods borrow travel together with the actions collected so far, as a `Lane`. Requests travel as the
-- records that their texts encode; the texts that arrive are decoded.
pub mod Safety
pub mod Steps
pub mod Forward
pub mod Stuck
use ahead.Common.{
  ℕ, ◌+◌, ◌≡◌, Bool, true, false, not, ◌&&◌, ◌||◌, List, [], ◌∷◌, ◌++◌, map, Option, none, some,
  Result, ok, err, Error, not_json, ack_invalid, response_mismatch, catch_up_unasked,
  page_before_acknowledgement, ◌>>=◌, or_fail, ltb, leb, ◌==◌, if◌then◌else◌, is_some, length, any,
}
use ahead.Common.Text.{Text}
use ahead.Common.Map.{keys}
use ahead.Common.Order.{text_ord}
use ahead.Core.Json.{Serde}
use ahead.Core.Page.{PullPage, PullRequest, check_models, decode_page}
use ahead.Core.Subscribe.{
  SubscribeRequest, SubscriptionAck, normalize_channels, confirms, LiveMessage, acknowledged, page,
  decode_message,
}
use ahead.Client.Connection.{ConnectionDriver, idle, sync, wait}
use ahead.Client.Connection
use ahead.Client.Report.{Report}
use ahead.Client.State.{Client, Applier, cursor}
use ahead.Client.Downlink.{
  Disposition, covered, recover, applied, DownlinkProgress, receive_downlink, downlink_request,
}

pub data LiveEvent : Type 0 where
  start stop pause resume wake next : LiveEvent
  message catch_up : ℕ → Text → LiveEvent
  overflow closed : ℕ → LiveEvent

pub data LiveAction : Type 0 where
  open_socket : ℕ → SubscribeRequest → LiveAction
  request : ℕ → PullRequest → LiveAction
  close : ℕ → Option Error → LiveAction
  wake_push : LiveAction
  report : List Report → LiveAction
  wait_for : ℕ → LiveAction

pub record Session : Type 0 where
  pub epoch : ℕ
  pub generation : ℕ
  pub subscribe : SubscribeRequest
  pub acked : Bool
  pub active : Option PullRequest
  pub again : Bool
  pub queue : List PullPage

abbrev pub queued_frames : ℕ
queued_frames = 64

pub record LiveSession : Type 0 where
  pub driver : ConnectionDriver
  pub epoch : ℕ
  pub session : Option Session

pub record Lane (R : Type 0) : Type 0 where
  pub live : LiveSession
  pub client : Client R
  pub actions : List LiveAction

-- What a method leaves, and whether it failed.
abbrev pub Outcome : Type 0 → Type 0
Outcome R = Lane R × Result (Unit {0})

module _ {R : Type 0} where
  abbrev pub emit : LiveAction → Lane R → Lane R
  emit a l = record l { actions = l.actions ++ (a ∷ []) }

  abbrev pub store : Session → Lane R → Lane R
  store s l = record l { live = record (l.live) { session = some s } }

  abbrev pub with_driver : (ConnectionDriver → ConnectionDriver) → Lane R → Lane R
  with_driver f l = record l { live = record (l.live) { driver = f l.live.driver } }

  abbrev pub with_client : Client R → Lane R → Lane R
  with_client c l = record l { client = c }

  -- `end`: the host closes the socket and abandons its request.
  unfoldable pub end_session : Option Error → Lane R → Lane R
  end_session reason l = elim l.live.session [
    | none ↦ l
    | some s ↦ emit (close s.epoch reason) (record l { live = record (l.live) { session = none } })
  ]

  unfoldable pub fail : Option Error → ℕ → ℕ → Lane R → Lane R
  fail reason now entropy l =
      with_driver (λ d. Connection.complete d false now entropy) (end_session reason l)

  -- A wake when a page applied, and its reports when it has any.
  unfoldable pub settle : DownlinkProgress → Lane R → Lane R
  settle p l =
      let woken : Lane R = elim p.disposition [ applied ↦ emit wake_push l | _ ↦ l ] in
      elim p.report.reports [ [] ↦ woken | r ∷ rs ↦ emit (report (r ∷ rs)) woken ]

  abbrev pub pull_answer : Session → Lane R → Client R × Result (Option PullRequest) → Outcome R
  pull_answer s l (c, err e) = (store s (with_client c l), err e)
  pull_answer s l (c, ok none) = (store s (with_client c l), ok tt)
  pull_answer s l (c, ok (some r)) =
      (emit (request s.epoch r) (store (record s { active = some r }) (with_client c l)), ok tt)

  -- `pull`: one pull for every subscribed channel, or a note that another is needed.
  unfoldable pub pull : Session → Lane R → Outcome R
  pull s l =
      if is_some s.active
      then (store (record s { again = true }) l, ok tt)
      else pull_answer s l (downlink_request l.client)

  -- `overflow`: the queue is discarded whole.
  unfoldable pub on_overflow : Session → Lane R → Outcome R
  on_overflow s l = if not s.acked then (l, ok tt) else pull (record s { queue = [] }) l

module _ {R : Type 0} where
  -- One turn of the loop of `drain`, after `receive_downlink`; `more` is the rest of the loop.
  abbrev pub drained :
      PullPage
      → List PullPage
      → Session
      → Lane R
      → Client R × Result DownlinkProgress
      → (Session → Lane R → Outcome R)
      → Outcome R
  drained front rest s l (c, err e) more =
      (store (record s { queue = front ∷ rest }) (with_client c l), err e)
  drained front rest s l (c, ok p) more = elim p.disposition [
    | recover ↦ pull (record s { queue = front ∷ rest }) (settle p (with_client c l))
    | _ ↦ more s (settle p (with_client c l))
  ]

module _ {R : Type 0} (apply_records : Applier R) (serde : Serde) where
  -- `drain`: frames leave the front of the queue while no pull is in flight; one with a gap stays, and a
  -- pull runs.
  unfoldable pub drain : List PullPage → Session → Lane R → Outcome R
  drain [] s l = (store (record s { queue = [] }) l, ok tt)
  drain (front ∷ rest) s l =
      if is_some s.active
      then (store (record s { queue = front ∷ rest }) l, ok tt)
      else drained front rest s l (receive_downlink apply_records serde l.client front none)
          (drain rest)

  -- Some acknowledged head is beyond the client's cursor.
  abbrev pub is_behind : Client R → SubscriptionAck → Bool
  is_behind c ack = any (λ h. ltb (cursor c h.0) h.1) ack.cursors

  unfoldable pub on_acknowledged : SubscriptionAck → ℕ → ℕ → Session → Lane R → Outcome R
  on_acknowledged ack now entropy s l =
      if s.acked || not (confirms ack s.subscribe)
      then (fail (some ack_invalid) now entropy l, ok tt)
      else let greeted : Session = record s { acked = true } in
        if is_behind l.client ack then pull greeted l else (store greeted l, ok tt)

  unfoldable pub on_page : PullPage → ℕ → ℕ → Session → Lane R → Outcome R
  on_page p now entropy s l =
      if not s.acked
      then (fail (some page_before_acknowledgement) now entropy l, ok tt)
      else if leb queued_frames (length s.queue)
      then on_overflow s l
      else drain (s.queue ++ (p ∷ [])) s l

  abbrev pub on_decoded : Result LiveMessage → ℕ → ℕ → Session → Lane R → Outcome R
  on_decoded (err e) now entropy s l = (fail (some e) now entropy l, ok tt)
  on_decoded (ok (acknowledged ack)) now entropy s l = on_acknowledged ack now entropy s l
  on_decoded (ok (page p)) now entropy s l = on_page p now entropy s l

  unfoldable pub on_message : Text → ℕ → ℕ → Session → Lane R → Outcome R
  on_message body now entropy = on_decoded (decode_message serde body) now entropy

  -- The round goes on while a channel continues, or an overflow asked for another pull; only then are
  -- the queued frames drained.
  abbrev pub next_round : DownlinkProgress → Session → Lane R → Outcome R
  next_round p s l = elim p.continuing [
    | [] ↦
        if s.again
        then pull (record s { again = false }) l
        else drain s.queue (record s { again = false }) l
    | c ∷ cs ↦ pull s l
  ]

  -- A response that answers another request ends the session; any other error is the caller's.
  abbrev pub is_mismatch : Error → Bool
  is_mismatch response_mismatch = true
  is_mismatch _ = false

  abbrev pub caught_up : ℕ → ℕ → Session → Lane R → Client R × Result DownlinkProgress → Outcome R
  caught_up now entropy s l (c, err e) =
      if is_mismatch e
      then (fail (some e) now entropy (store s (with_client c l)), ok tt)
      else (store s (with_client c l), err e)
  caught_up now entropy s l (c, ok p) = next_round p s (settle p (with_client c l))

  abbrev pub on_response : PullRequest → Result PullPage → ℕ → ℕ → Session → Lane R → Outcome R
  on_response asked (err e) now entropy s l = (fail (some e) now entropy (store s l), ok tt)
  on_response asked (ok p) now entropy s l =
      caught_up now entropy s l (receive_downlink apply_records serde l.client p (some asked))

  abbrev pub decode_response : Text → Result PullPage
  decode_response body = or_fail (serde.from_slice body) not_json >>= decode_page serde

  -- `catch_up`, once `active.take()` answered `asked`.
  abbrev pub on_taken : Option PullRequest → Text → ℕ → ℕ → Session → Lane R → Outcome R
  on_taken none body now entropy s l = (l, err catch_up_unasked)
  on_taken (some asked) body now entropy s l =
      on_response asked (decode_response body) now entropy (record s { active = none }) l

  unfoldable pub on_catch_up : Text → ℕ → ℕ → Session → Lane R → Outcome R
  on_catch_up body now entropy s l = on_taken s.active body now entropy s l

  -- `current`: the event belongs to the session in place.
  abbrev pub if_current : ℕ → (Session → Lane R → Outcome R) → Lane R → Outcome R
  if_current epoch body l = elim l.live.session [
    | none ↦ (l, ok tt)
    | some s ↦ if s.epoch == epoch then body s l else (l, ok tt)
  ]

  abbrev pub on_pause : ℕ → Lane R → Lane R
  on_pause now l = elim l.live.session [
    | none ↦ l
    | some s ↦ with_driver (λ d. Connection.complete d true now 0) (end_session none l)
  ]

  unfoldable pub dispatch : LiveEvent → ℕ → ℕ → Lane R → Outcome R
  dispatch start now entropy l = (with_driver (λ d. Connection.start d now) l, ok tt)
  dispatch stop now entropy l = (with_driver Connection.stop (end_session none l), ok tt)
  dispatch pause now entropy l = (with_driver Connection.pause (on_pause now l), ok tt)
  dispatch resume now entropy l = (with_driver (λ d. Connection.resume d now) l, ok tt)
  dispatch wake now entropy l = (with_driver Connection.wake l, ok tt)
  dispatch next now entropy l = (l, ok tt)
  dispatch (message epoch body) now entropy l = if_current epoch (on_message body now entropy) l
  dispatch (catch_up epoch body) now entropy l = if_current epoch (on_catch_up body now entropy) l
  dispatch (overflow epoch) now entropy l = if_current epoch on_overflow l
  dispatch (closed epoch) now entropy l =
      if_current epoch (λ s l'. (fail none now entropy l', ok tt)) l

-- `SubscribeRequest::new`: the channels normalized, and the models checked as `read_models` reads them.
unfoldable pub new_subscribe : List Text → List (Text × ℕ) → Result (List Text)
new_subscribe channels models =
    normalize_channels channels >>= λ normalized. check_models models >>= λ _. ok normalized

module _ {R : Type 0} where
  -- `begin`: snapshot the channels; with none the session ends successfully.
  abbrev pub begin_with : Lane R → Result (List Text) → Outcome R
  begin_with l (err e) = (l, err e)
  begin_with l (ok channels) =
      let subscribe : SubscribeRequest = record { channels = channels; models = l.client.models } in
      let epoch = l.live.epoch + 1 in
      let s : Session = record {
        epoch = epoch;
        generation = l.client.pulls.generation;
        subscribe = subscribe;
        acked = false;
        active = none;
        again = false;
        queue = [];
      } in
      (
        emit (open_socket epoch subscribe)
            (record l { live = record (l.live) { epoch = epoch; session = some s } }),
        ok tt,
      )

  unfoldable pub begin : ℕ → Lane R → Outcome R
  begin now l = elim (keys l.client.db.subscriptions) [
    | [] ↦ (with_driver (λ d. Connection.complete d true now 0) l, ok tt)
    | c ∷ cs ↦ begin_with l (new_subscribe (c ∷ cs) l.client.models)
  ]

  -- The end of `handle`: with no session in place the driver decides.
  abbrev pub decide :
      ℕ → Lane R → Connection.ConnectionDriver × Connection.ConnectionAction → Outcome R
  decide now l (d, idle) = (with_driver (λ _. d) l, ok tt)
  decide now l (d, sync) = begin now (with_driver (λ _. d) l)
  decide now l (d, wait millis) = (emit (wait_for millis) (with_driver (λ _. d) l), ok tt)

  unfoldable pub schedule : ℕ → Lane R → Outcome R
  schedule now l = elim l.live.session [
    | some s ↦ (l, ok tt)
    | none ↦ decide now l (Connection.next l.live.driver now)
  ]

  -- A committed subscribe or unsubscribe invalidates the session: the lane starts over without backoff.
  unfoldable pub invalidate : ℕ → Lane R → Lane R
  invalidate now l = elim l.live.session [
    | none ↦ l
    | some s ↦
        if s.generation == l.client.pulls.generation
        then l
        else with_driver (λ d. Connection.wake (Connection.complete d true now 0))
            (end_session none l)
  ]

  abbrev pub and_then : Outcome R → (Lane R → Outcome R) → Outcome R
  and_then (l, err e) f = (l, err e)
  and_then (l, ok u) f = f l

module _ {R : Type 0} (apply_records : Applier R) (serde : Serde) where
  unfoldable pub handle : LiveSession → Client R → LiveEvent → ℕ → ℕ → Outcome R
  handle live client event now entropy =
      let l : Lane R = record { live = live; client = client; actions = [] } in
      and_then (dispatch apply_records serde event now entropy (invalidate now l)) (schedule now)
