-- ===== src/Client/Live/Safety.antt =====
-- The cursors under crates/client/src/live.rs: no event of a live session moves one back.
use ahead.Common.{
  ◌≤◌, length, ℕ, ◌<◌, ◌≡◌, refl, sym, ◌∙◌, false, not, List, [], Option, none, some, Result, ok,
  err, Error, is_some, arith, inl, inr, ◌⊎◌, All, Bool-cases,
}
use ahead.Common.Text.{Text}
use ahead.Common.Map.{lookup}
use ahead.Common.Map.Sorted.{IsSorted}
use ahead.Common.Order.{text_ord}
use ahead.Core.Page.{CursorRange, PullPage, PullRequest}
use ahead.Client.Connection.{ConnectionDriver, idle, sync, wait}
use ahead.Client.Connection
use ahead.Client.State.{Client}
use ahead.Client.Downlink.{DownlinkProgress, downlink_request}
use ahead.Client.Downlink.Gate.{Gated}
use ahead.Client.Live.{
  queued_frames, Session, Lane, Outcome, store, with_driver, end_session, fail, settle, pull,
  pull_answer, on_overflow,
}

-- Each cursor is as it was, or the channel was subscribed and its cursor is further.
abbrev pub Forward : List (Text × ℕ) → List (Text × ℕ) → Type 0
Forward subs subs' =
    (j : Text)
    → (lookup j subs' ≡ lookup j subs)
      ⊎ ((n : ℕ) × (m : ℕ) × (lookup j subs ≡ some n) × (lookup j subs' ≡ some m) × (n < m))

pub Forward-refl : (subs : List (Text × ℕ)) → Forward subs subs
Forward-refl subs j = inl refl

pub Forward-trans : (a b c : List (Text × ℕ)) → Forward a b → Forward b c → Forward a c
Forward-trans a b c f g j = go (f j) (g j)
  where
    go :
        (lookup j b ≡ lookup j a)
          ⊎ ((n : ℕ) × (m : ℕ) × (lookup j a ≡ some n) × (lookup j b ≡ some m) × (n < m))
        → (lookup j c ≡ lookup j b)
          ⊎ ((n : ℕ) × (m : ℕ) × (lookup j b ≡ some n) × (lookup j c ≡ some m) × (n < m))
        → (lookup j c ≡ lookup j a)
          ⊎ ((n : ℕ) × (m : ℕ) × (lookup j a ≡ some n) × (lookup j c ≡ some m) × (n < m))
    go (inl p) (inl q) = inl (q ∙ p)
    go (inl p) (inr (n, m, q, r, lt)) = inr (n, m, sym p ∙ q, r, lt)
    go (inr (n, m, p, q, lt)) (inl r) = inr (n, m, p, r ∙ q, lt)
    go (inr (n, m, p, q, lt)) (inr (n', m', r, s, lt')) = inr (n, m', p, s, ground (arith, q, r))

pub Gated-Forward :
    (subs subs' : List (Text × ℕ)) (m : List (Text × CursorRange))
    → ((j : Text) → Gated subs subs' m j)
    → Forward subs subs'
Gated-Forward subs subs' m g j = elim (g j) [
  | inl e ↦ inl e
  | inr (r, n, l, e, from, to, e') ↦ inr (n, r.to, e, e', to)
]

-- A page as it was decoded: its channels in order.
abbrev pub InOrder : PullPage → Type 0
InOrder p = IsSorted p.cursors

-- A queue of such pages within its bound.
abbrev pub Orderly : List PullPage → Type 0
Orderly ps = All InOrder ps × (length ps ≤ queued_frames)

abbrev pub QueueInOrder : Option Session → Type 0
QueueInOrder none = Unit
QueueInOrder (some s) = Orderly s.queue

-- What a lane may become: its cursors moved forward only, and its queue is bounded and holds
-- decoded pages.
pub record Safe {R : Type 0} (l l' : Lane R) : Type 0 where
  pub forward : Forward l.client.db.subscriptions l'.client.db.subscriptions
  pub queue : QueueInOrder l'.live.session

abbrev pub Moved : {R : Type 0} → Lane R → Client R → Type 0
Moved l c = Forward l.client.db.subscriptions c.db.subscriptions

abbrev pub SafeAfter : {R : Type 0} → Lane R → Outcome R → Type 0
SafeAfter l o = Safe l o.0

module _ {R : Type 0} where
  pub stored :
      (l l' : Lane R) (s : Session) → Moved l l'.client → Orderly s.queue → Safe l (store s l')
  stored l l' s f q = record { forward = f; queue = q }

  pub end_session-Safe :
      (l l' : Lane R) (reason : Option Error) → Moved l l'.client → Safe l (end_session reason l')
  unfolding end_session
  end_session-Safe l l' reason f = go l'.live.session refl
    where
      go : (r : Option Session) → l'.live.session ≡ r → Safe l (end_session reason l')
      go none e = rw (e, end_session) (record { forward = f; queue = rw e tt })
      go (some s) e = rw (e, end_session) (record { forward = f; queue = tt })

  pub driven :
      (l l' : Lane R) (f : ConnectionDriver → ConnectionDriver)
      → Safe l l'
      → Safe l (with_driver f l')
  driven l l' f s = record { forward = s.forward; queue = s.queue }

  pub fail-Safe :
      (l l' : Lane R) (reason : Option Error) (now entropy : ℕ)
      → Moved l l'.client
      → Safe l (fail reason now entropy l')
  unfolding fail
  fail-Safe l l' reason now entropy f =
      driven l (end_session reason l') (λ d. Connection.complete d false now entropy)
        (end_session-Safe l l' reason f)

  pub settle-client : (p : DownlinkProgress) (l : Lane R) → (settle p l).client ≡ l.client
  unfolding settle
  settle-client p l = ground arith

  pub downlink_request-db : (c : Client R) → (downlink_request c).0.db ≡ c.db
  unfolding downlink_request
  downlink_request-db c = ground arith

  pull_answer-Safe :
      (l l' : Lane R) (s : Session) (r : Client R × Result (Option PullRequest))
      → Moved l r.0
      → Orderly s.queue
      → Safe l (pull_answer s l' r).0
  pull_answer-Safe l l' s (c, err e) f q = record { forward = f; queue = q }
  pull_answer-Safe l l' s (c, ok none) f q = record { forward = f; queue = q }
  pull_answer-Safe l l' s (c, ok (some r)) f q = record { forward = f; queue = q }

  pub pull-Safe :
      (l l' : Lane R) (s : Session) → Moved l l'.client → Orderly s.queue → Safe l (pull s l').0
  unfolding pull
  pull-Safe l l' s f q = elim (Bool-cases (is_some s.active)) [
    | inl b ↦ rw (b, pull) (record { forward = f; queue = q })
    | inr b ↦
        rw (b, pull)
          (pull_answer-Safe l l' s (downlink_request l'.client)
            (rw (downlink_request-db l'.client) f) q)
  ]

  pub on_overflow-Safe : (l l' : Lane R) (s : Session) → Safe l l' → Safe l (on_overflow s l').0
  unfolding on_overflow
  on_overflow-Safe l l' s f = elim (Bool-cases (not s.acked)) [
    | inl b ↦ rw (b, on_overflow) f
    | inr b ↦
        rw (b, on_overflow) (pull-Safe l l' (record s { queue = [] }) f.forward (tt, omega arith))
  ]
