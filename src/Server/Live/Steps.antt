-- ===== src/Server/Live/Steps.antt =====
-- What an accepted event of crates/server/src/live.rs did, with the parts of the step shut.
use ahead.Common.{
  ℕ, ◌≡◌, refl, true, false, ◌||◌, List, [], ◌∷◌, ◌++◌, Option, none, some, Result, ok, err,
  is_some, arith, inl, inr, ◌⊎◌, Bool-cases, if_false, if_true, Option-cases,
}
use ahead.Common.Text.{Text}
use ahead.Common.Order.{same, text_ord}
use ahead.Core.Json.{Serde}
use ahead.Server.Live.{
  Subscriptions, ScopeState, PageProgress, LiveAction, next_pull, on_pulled, on_committed, at_scope,
  page_progress, advance, frames, on_progress, after_advance,
}

-- The state in which `next_pull` runs after an accepted page.
abbrev pub landed : Subscriptions → List ScopeState → Subscriptions
landed s scopes = record s { running = none; scopes = scopes }

abbrev pub mark : ScopeState → ScopeState
mark t = record t { pending = true }

abbrev pub marked : Subscriptions → List ScopeState → Subscriptions
marked s scopes = record s { scopes = scopes }

-- An accepted commit: its scope is marked, and the next pull runs unless one is outstanding.
pub data Committed (s : Subscriptions) (scope : Text) (t : Subscriptions)
    (actions : List LiveAction) : Type 0 where
  quiet :
      (scopes : List ScopeState)
      → at_scope scope mark s.scopes ≡ some scopes
      → (s.is_closed || is_some s.running) ≡ true
      → t ≡ marked s scopes
      → actions ≡ []
      → Committed s scope t actions
  asking :
      (scopes : List ScopeState)
      → at_scope scope mark s.scopes ≡ some scopes
      → s.is_closed ≡ false
      → s.running ≡ none
      → (t, actions) ≡ next_pull (marked s scopes)
      → Committed s scope t actions

pub on_committed-Committed :
    (s t : Subscriptions) (scope : Text) (actions : List LiveAction)
    → on_committed s scope ≡ (t, ok actions)
    → Committed s scope t actions
unfolding on_committed
on_committed-Committed s t scope actions h = elim (Option-cases (at_scope scope mark s.scopes)) [
  | inl e ↦ cc (rw (e, on_committed) at h)
  | inr (scopes, e) ↦ elim (Bool-cases (s.is_closed || is_some s.running)) [
    | inl b ↦ quiet scopes e b (ground arith) (ground arith)
    | inr b ↦ asking scopes e (ground arith) (ground arith) (ground arith)
  ]
]

-- An accepted page: one was asked for, and, unless the socket is closed, the page answered it, every
-- cursor was stored, and the next pull follows.
pub data Pulled (serde : Serde) (s : Subscriptions) (page : Text) (t : Subscriptions)
    (actions : List LiveAction) : Type 0 where
  ignored :
      (asked : List (Text × ℕ))
      → s.running ≡ some asked
      → s.is_closed ≡ true
      → t ≡ record s { running = none }
      → actions ≡ []
      → Pulled serde s page t actions
  landing :
      (asked : List (Text × ℕ)) (progress : PageProgress) (scopes : List ScopeState)
      → s.running ≡ some asked
      → s.is_closed ≡ false
      → page_progress serde page asked ≡ ok progress
      → advance progress.cursors s.scopes ≡ (scopes, ok tt)
      → t ≡ (next_pull (landed s scopes)).0
      → actions ≡ frames progress ++ (next_pull (landed s scopes)).1
      → Pulled serde s page t actions

pub on_pulled-Pulled :
    (serde : Serde) (s t : Subscriptions) (page : Text) (actions : List LiveAction)
    → on_pulled serde s s.running page ≡ (t, ok actions)
    → Pulled serde s page t actions
unfolding on_pulled
on_pulled-Pulled serde s t page actions h = go s.running refl h
  where
    land :
        (asked : List (Text × ℕ)) (progress : PageProgress)
        (r : List ScopeState × Result (Unit {0}))
        → s.running ≡ some asked
        → s.is_closed ≡ false
        → page_progress serde page asked ≡ ok progress
        → advance progress.cursors s.scopes ≡ r
        → after_advance (record s { running = none }) progress r ≡ (t, ok actions)
        → Pulled serde s page t actions
    land asked progress (scopes, ok u) er ec ep ea k =
        landing asked progress scopes er ec ep ea (ground arith) (ground arith)
    land asked progress (scopes, err e) er ec ep ea k = cc k

    progressed :
        (asked : List (Text × ℕ)) (r : Result PageProgress)
        → s.running ≡ some asked
        → s.is_closed ≡ false
        → page_progress serde page asked ≡ r
        → on_progress (record s { running = none }) r ≡ (t, ok actions)
        → Pulled serde s page t actions
    progressed asked (ok progress) er ec ep k =
        land asked progress (advance progress.cursors s.scopes) er ec ep refl k
    progressed asked (err e) er ec ep k = cc k

    go :
        (r : Option (List (Text × ℕ)))
        → s.running ≡ r
        → on_pulled serde s r page ≡ (t, ok actions)
        → Pulled serde s page t actions
    go none e k = cc k
    go (some asked) e k = elim (Bool-cases s.is_closed) [
      | inl b ↦ ignored asked e b (ground arith) (ground arith)
      | inr b ↦
          progressed asked (page_progress serde page asked) e b refl (if_false s.is_closed _ _ b k)
    ]

-- `at_scope` changes the first scope of that name, and no other.
pub at_scope_cases :
    (k : Text) (f : ScopeState → ScopeState) (s : ScopeState) (ss ss' : List ScopeState)
    → at_scope k f (s ∷ ss) ≡ some ss'
    → ((same s.scope k ≡ true) × (ss' ≡ f s ∷ ss))
      ⊎ ((rest : List ScopeState) × (same s.scope k ≡ false)
          × (at_scope k f ss ≡ some rest)
          × (ss' ≡ s ∷ rest))
unfolding at_scope
at_scope_cases k f s ss ss' h = elim (Bool-cases (same s.scope k)) [
  | inl e ↦ inl (e, cc (if_true (same s.scope k) _ _ e h))
  | inr e ↦ elim (Option-cases (at_scope k f ss)) [
    | inl n ↦ cc (rw (n, at_scope) at (if_false (same s.scope k) _ _ e h))
    | inr (rest, n) ↦ inr (rest, e, n, cc (rw n at (if_false (same s.scope k) _ _ e h)))
  ]
]
