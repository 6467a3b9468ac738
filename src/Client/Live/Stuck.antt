-- ===== src/Client/Live/Stuck.antt =====
-- A request that crates/client/src/live.rs cannot build leaves its lane without a session and with an
-- attempt in flight.
use ahead.Common.{ℕ, ◌≡◌, refl, ap, ◌∙◌, true, List, [], ◌∷◌, none, ok, err, Error, arith}
use ahead.Common.Text.{Text}
use ahead.Common.Map.{keys}
use ahead.Common.Order.{text_ord}
use ahead.Core.Json.{Serde}
use ahead.Client.Connection.{ConnectionDriver, ConnectionAction, idle, sync, wait}
use ahead.Client.Connection
use ahead.Client.State.{Client, Applier}
use ahead.Client.Live.{
  LiveSession, LiveEvent, Lane, Outcome, handle, dispatch, schedule, decide, invalidate, begin,
  new_subscribe, start, stop, pause, resume, wake, next, message, catch_up, overflow, closed,
  Session, if_current, on_message, on_catch_up, on_overflow, fail, on_pause, and_then, with_driver,
}

-- No session, and an attempt in flight that nothing will complete.
abbrev pub IsStuck : LiveSession → Type 0
IsStuck live = (live.session ≡ none) × (live.driver.in_flight ≡ true)

-- An event that neither starts nor stops the lane.
abbrev pub KeepsLane : LiveEvent → Type 0
KeepsLane start = ⊥
KeepsLane stop = ⊥
KeepsLane _ = Unit

next-idle :
    (d : ConnectionDriver) (now : ℕ) → d.in_flight ≡ true → Connection.next d now ≡ (d, idle)
unfolding Connection.next
next-idle d now h = ground arith

module _ {R : Type 0} where
  invalidate-none : (now : ℕ) (l : Lane R) → l.live.session ≡ none → invalidate now l ≡ l
  unfolding invalidate
  invalidate-none now l h = simp (h, invalidate) refl

  schedule-IsStuck : (now : ℕ) (l : Lane R) → IsStuck l.live → schedule now l ≡ (l, ok tt)
  unfolding schedule
  schedule-IsStuck now l (none_in_place, flying) =
      simp (none_in_place, schedule) (simp (next-idle l.live.driver now flying) refl)

-- The lane is stuck, its last handling succeeded, and it gave no action.
pub record Silent {R : Type 0} (o : Outcome R) : Type 0 where
  pub is_stuck : IsStuck o.0.live
  pub success : o.1 ≡ ok tt
  pub no_action : o.0.actions ≡ []

module _ {R : Type 0} (apply_records : Applier R) (serde : Serde) where
  if_current-none :
      (l : Lane R) (epoch : ℕ) (body : Session → Lane R → Outcome R)
      → l.live.session ≡ none
      → if_current apply_records serde epoch body l ≡ (l, ok tt)
  if_current-none l epoch body h = simp (h, if_current) refl

  on_pause-none :
      (now : ℕ) (l : Lane R) → l.live.session ≡ none → on_pause apply_records serde now l ≡ l
  on_pause-none now l h = simp (h, on_pause) refl

  dispatch-Silent :
      (l : Lane R) (event : LiveEvent) (now entropy : ℕ)
      → KeepsLane event
      → IsStuck l.live
      → l.actions ≡ []
      → Silent (dispatch apply_records serde event now entropy l)
  unfolding dispatch Connection.resume Connection.wake Connection.pause
  dispatch-Silent l start now entropy k s a = absurd k
  dispatch-Silent l stop now entropy k s a = absurd k
  dispatch-Silent l pause now entropy k s a =
      rw (on_pause-none now l s.0) (record { is_stuck = s; success = refl; no_action = a })
  dispatch-Silent l resume now entropy k s a = record {
    is_stuck = s;
    success = refl;
    no_action = a;
  }
  dispatch-Silent l wake now entropy k s a = record { is_stuck = s; success = refl; no_action = a }
  dispatch-Silent l next now entropy k s a = record { is_stuck = s; success = refl; no_action = a }
  dispatch-Silent l (message epoch body) now entropy k s a =
      rw (if_current-none l epoch (on_message apply_records serde body now entropy) s.0)
        (record { is_stuck = s; success = refl; no_action = a })
  dispatch-Silent l (catch_up epoch body) now entropy k s a =
      rw (if_current-none l epoch (on_catch_up apply_records serde body now entropy) s.0)
        (record { is_stuck = s; success = refl; no_action = a })
  dispatch-Silent l (overflow epoch) now entropy k s a =
      rw (if_current-none l epoch on_overflow s.0)
        (record { is_stuck = s; success = refl; no_action = a })
  dispatch-Silent l (closed epoch) now entropy k s a =
      rw (if_current-none l epoch (λ s l'. (fail none now entropy l', ok tt)) s.0)
        (record { is_stuck = s; success = refl; no_action = a })

  scheduled-Silent : (now : ℕ) (o : Outcome R) → Silent o → Silent (and_then o (schedule now))
  scheduled-Silent now (l, err e) s = s
  scheduled-Silent now (l, ok u) s = rw (schedule-IsStuck now l s.is_stuck) s

  handle-Silent :
      (live : LiveSession) (client : Client R) (event : LiveEvent) (now entropy : ℕ)
      → KeepsLane event
      → IsStuck live
      → Silent (handle apply_records serde live client event now entropy)
  unfolding handle
  handle-Silent live client event now entropy k s =
      let l : Lane R = record { live = live; client = client; actions = [] } in
      rw (invalidate-none now l s.0) (
        scheduled-Silent now (dispatch apply_records serde event now entropy l)
          (dispatch-Silent l event now entropy k s refl))

  begin_refused :
      (l : Lane R) (now : ℕ) (c : Text) (cs : List Text) (e : Error)
      → keys l.client.db.subscriptions ≡ c ∷ cs
      → new_subscribe (c ∷ cs) l.client.models ≡ err e
      → begin now l ≡ (l, err e)
  unfolding begin
  begin_refused l now c cs e subscribed refused = simp (subscribed, begin) (simp refused refl)

  schedule-none :
      (l : Lane R) (now : ℕ)
      → l.live.session ≡ none
      → schedule now l ≡ decide now l (Connection.next l.live.driver now)
  unfolding schedule
  schedule-none l now h = simp (h, schedule) refl

  schedule_refused :
      (l : Lane R) (now : ℕ) (d : ConnectionDriver) (c : Text) (cs : List Text) (e : Error)
      → l.live.session ≡ none
      → Connection.next l.live.driver now ≡ (d, sync)
      → keys l.client.db.subscriptions ≡ c ∷ cs
      → new_subscribe (c ∷ cs) l.client.models ≡ err e
      → schedule now l ≡ (with_driver (λ _. d) l, err e)
  unfolding schedule
  schedule_refused l now d c cs e none_in_place due subscribed refused =
      let decided : schedule now l ≡ decide now l (Connection.next l.live.driver now) =
        schedule-none l now none_in_place in
      decided
      ∙ ap (decide now l) due
      ∙ begin_refused (with_driver (λ _. d) l) now c cs e subscribed refused

  next-flying :
      (d d' : ConnectionDriver) (now : ℕ) → Connection.next d now ≡ (d', sync) → d'.in_flight ≡ true
  unfolding Connection.next
  next-flying d d' now h = ground arith

  -- The sessions that events lead to, none of which starts or stops the lane. The client may be another each time.
  pub data Later : LiveSession → LiveSession → Type 0 where
    here : {live : LiveSession} → Later live live
    further :
        {live reached : LiveSession}
        → Later live reached
        → (client : Client R) (event : LiveEvent) (now entropy : ℕ) → KeepsLane event
        → Later live (handle apply_records serde reached client event now entropy).0.live

  Later-IsStuck : (live reached : LiveSession) → Later live reached → IsStuck live → IsStuck reached
  Later-IsStuck live _ here s = s
  Later-IsStuck live _ (further {reached = reached} before client event now entropy k) s =
      (handle-Silent reached client event now entropy k
        (Later-IsStuck live reached before s)).is_stuck

  -- Where no session is in place, an attempt is due, and the subscribe request for the client's channels
  -- is refused, the lane reports that error. From then on, however many events it handles, and whatever the
  -- client subscribes to meanwhile, until it is started or stopped each event succeeds without an action and
  -- leaves the lane stuck: with no session, and an attempt in flight.
  pub refused_request_sticks :
      (live reached : LiveSession) (client later : Client R) (event : LiveEvent)
      (now entropy after chance : ℕ) (d : ConnectionDriver) (c : Text) (cs : List Text) (e : Error)
      → live.session ≡ none
      → Connection.next live.driver now ≡ (d, sync)
      → keys client.db.subscriptions ≡ c ∷ cs
      → new_subscribe (c ∷ cs) client.models ≡ err e
      → Later (handle apply_records serde live client next now entropy).0.live reached
      → KeepsLane event
      → ((handle apply_records serde live client next now entropy).1 ≡ err e)
        × Silent (handle apply_records serde reached later event after chance)
  unfolding handle dispatch
  refused_request_sticks live reached client later event now entropy after chance d c cs e
        none_in_place due subscribed refused path k =
      let l : Lane R = record { live = live; client = client; actions = [] } in
      let first : handle apply_records serde live client next now entropy
          ≡ (with_driver (λ _. d) l, err e) =
        rw (invalidate-none now l none_in_place)
          (schedule_refused l now d c cs e none_in_place due subscribed refused) in
      let stuck : IsStuck (handle apply_records serde live client next now entropy).0.live =
        rw first (none_in_place, next-flying live.driver d now due) in
      (
        ap (λ o. o.1) first,
        handle-Silent reached later event after chance k (
            Later-IsStuck (handle apply_records serde live client next now entropy).0.live reached
              path stuck),
      )
