-- ===== src/Client/Live/Forward.antt =====
-- Every event under crates/client/src/live.rs: what it does to the stored cursors and the queue.
use ahead.Common.{
  arith, ℕ, ◌≡◌, refl, Bool, true, false, List, [], ◌∷◌, Option, none, some, Result, ok, err, ◌==◌,
  if◌then◌else◌,
}
use ahead.Common.Text.{Text}
use ahead.Common.Map.{keys}
use ahead.Common.Order.{text_ord}
use ahead.Core.Json.{Serde}
use ahead.Client.Connection.{ConnectionDriver, idle, sync, wait}
use ahead.Client.Connection
use ahead.Client.State.{Client, Applier}
use ahead.Client.Live.{
  LiveSession, LiveEvent, Session, Lane, Outcome, with_driver, end_session, fail, on_overflow,
  on_message, on_catch_up, if_current, on_pause, dispatch, begin, begin_with, decide, schedule,
  invalidate, and_then, handle, new_subscribe, start, stop, pause, resume, wake, next, message,
  catch_up, overflow, closed,
}
use ahead.Client.Live.Safety.{
  Orderly, Forward-refl, Orderly, QueueInOrder, Safe, SafeAfter, end_session-Safe, driven,
  fail-Safe, on_overflow-Safe,
}
use ahead.Client.Live.Steps.{on_message-Safe, on_catch_up-Safe}

module _ {R : Type 0} (apply_records : Applier R) (serde : Serde) where
  if_current-Safe :
      (l l' : Lane R) (epoch : ℕ) (body : Session → Lane R → Outcome R)
      → Safe l l'
      → ((s : Session) → l'.live.session ≡ some s → Safe l (body s l').0)
      → Safe l (if_current apply_records serde epoch body l').0
  if_current-Safe l l' epoch body f g = go l'.live.session refl
    where
      go :
          (r : Option Session)
          → l'.live.session ≡ r
          → SafeAfter l (elim r [
            | none ↦ (l', ok tt)
            | some s ↦ if s.epoch == epoch then body s l' else (l', ok tt)
          ])
      go none e = f
      go (some s) e = current (s.epoch == epoch)
        where
          current : (b : Bool) → SafeAfter l (if b then body s l' else (l', ok tt))
          current true = g s e
          current false = f

  in_place : (l l' : Lane R) (s : Session) → Safe l l' → l'.live.session ≡ some s → Orderly s.queue
  in_place l l' s f e = let q = f.queue in rw e at q

  on_pause-Safe :
      (l l' : Lane R) (now : ℕ) → Safe l l' → Safe l (on_pause apply_records serde now l')
  on_pause-Safe l l' now f = go l'.live.session
    where
      go :
          (r : Option Session)
          → Safe l (elim r [
            | none ↦ l'
            | some s ↦ with_driver (λ d. Connection.complete d true now 0) (end_session none l')
          ])
      go none = f
      go (some s) =
          driven l (end_session none l') (λ d. Connection.complete d true now 0)
            (end_session-Safe l l' none f.forward)

  dispatch-Safe :
      (l l' : Lane R) (event : LiveEvent) (now entropy : ℕ)
      → Safe l l'
      → Safe l (dispatch apply_records serde event now entropy l').0
  unfolding dispatch
  dispatch-Safe l l' start now entropy f = driven l l' (λ d. Connection.start d now) f
  dispatch-Safe l l' stop now entropy f =
      driven l (end_session none l') Connection.stop (end_session-Safe l l' none f.forward)
  dispatch-Safe l l' pause now entropy f =
      driven l (on_pause apply_records serde now l') Connection.pause (on_pause-Safe l l' now f)
  dispatch-Safe l l' resume now entropy f = driven l l' (λ d. Connection.resume d now) f
  dispatch-Safe l l' wake now entropy f = driven l l' Connection.wake f
  dispatch-Safe l l' next now entropy f = f
  dispatch-Safe l l' (message epoch body) now entropy f =
      if_current-Safe l l' epoch (on_message apply_records serde body now entropy) f
        (λ s e. on_message-Safe apply_records serde l l' body now entropy s f (in_place l l' s f e))
  dispatch-Safe l l' (catch_up epoch body) now entropy f =
      if_current-Safe l l' epoch (on_catch_up apply_records serde body now entropy) f (λ s e.
        on_catch_up-Safe apply_records serde l l' body now entropy s f (in_place l l' s f e))
  dispatch-Safe l l' (overflow epoch) now entropy f =
      if_current-Safe l l' epoch on_overflow f (λ s e. on_overflow-Safe l l' s f)
  dispatch-Safe l l' (closed epoch) now entropy f =
      if_current-Safe l l' epoch (λ s l1. (fail none now entropy l1, ok tt)) f
        (λ s e. fail-Safe l l' none now entropy f.forward)

module _ {R : Type 0} where
  begin-Safe : (l l' : Lane R) (now : ℕ) → Safe l l' → Safe l (begin now l').0
  unfolding begin
  begin-Safe l l' now f = go (keys l'.client.db.subscriptions)
    where
      opened : (r : Result (List Text)) → Safe l (begin_with l' r).0
      opened (err e) = f
      opened (ok channels) = record { forward = f.forward; queue = (tt, omega arith) }

      go :
          (cs : List Text)
          → SafeAfter l (elim cs [
            | [] ↦ (with_driver (λ d. Connection.complete d true now 0) l', ok tt)
            | c ∷ cs ↦ begin_with l' (new_subscribe (c ∷ cs) l'.client.models)
          ])
      go [] = record { forward = f.forward; queue = f.queue }
      go (c ∷ cs) = opened (new_subscribe (c ∷ cs) l'.client.models)

  schedule-Safe : (l l' : Lane R) (now : ℕ) → Safe l l' → Safe l (schedule now l').0
  unfolding schedule
  schedule-Safe l l' now f = go l'.live.session
    where
      decided : (r : ConnectionDriver × Connection.ConnectionAction) → Safe l (decide now l' r).0
      decided (d, idle) = record { forward = f.forward; queue = f.queue }
      decided (d, sync) =
          begin-Safe l (with_driver (λ _. d) l') now
            (record { forward = f.forward; queue = f.queue })
      decided (d, wait millis) = record { forward = f.forward; queue = f.queue }

      go :
          (r : Option Session)
          → SafeAfter l (elim r [
            | some s ↦ (l', ok tt)
            | none ↦ decide now l' (Connection.next l'.live.driver now)
          ])
      go (some s) = f
      go none = decided (Connection.next l'.live.driver now)

  invalidate-Safe : (l l' : Lane R) (now : ℕ) → Safe l l' → Safe l (invalidate now l')
  unfolding invalidate
  invalidate-Safe l l' now f = go l'.live.session
    where
      reset : Lane R
      reset =
          with_driver (λ d. Connection.wake (Connection.complete d true now 0))
            (end_session none l')

      kept : (b : Bool) → Safe l (if b then l' else reset)
      kept true = f
      kept false =
          driven l (end_session none l') (λ d. Connection.wake (Connection.complete d true now 0))
            (end_session-Safe l l' none f.forward)

      go :
          (r : Option Session)
          → Safe l (elim r [
            | none ↦ l'
            | some s ↦ if s.generation == l'.client.pulls.generation then l' else reset
          ])
      go none = f
      go (some s) = kept (s.generation == l'.client.pulls.generation)

  and_then-Safe :
      (l : Lane R) (o : Outcome R) (f : Lane R → Outcome R)
      → Safe l o.0
      → ((l' : Lane R) → Safe l l' → Safe l (f l').0)
      → Safe l (and_then o f).0
  and_then-Safe l (l', err e) f h g = h
  and_then-Safe l (l', ok u) f h g = g l' h

module _ {R : Type 0} (apply_records : Applier R) (serde : Serde) where
  -- Whatever event a live session handles, and whether or not the handling fails: each stored cursor is
  -- as it was, or belongs to a channel that was subscribed and is further; and the queue of frames, if it
  -- held at most 64 pages with their channels in order before, does so after.
  pub handle_forward :
      (live : LiveSession) (client : Client R) (event : LiveEvent) (now entropy : ℕ)
      → QueueInOrder live.session
      → Safe
          (record { live = live; client = client; actions = [] })
          (handle apply_records serde live client event now entropy).0
  unfolding handle
  handle_forward live client event now entropy q =
      let l : Lane R = record { live = live; client = client; actions = [] } in
      let same_lane : Safe l l = record {
        forward = Forward-refl client.db.subscriptions;
        queue = q;
      } in
      let l' = invalidate now l in
      and_then-Safe l (dispatch apply_records serde event now entropy l') (schedule now)
        (dispatch-Safe apply_records serde l l' event now entropy
          (invalidate-Safe l l now same_lane))
        (λ l1 f. schedule-Safe l l1 now f)
