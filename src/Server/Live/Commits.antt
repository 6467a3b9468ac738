-- ===== src/Server/Live/Commits.antt =====
-- What becomes of a commit in a session of crates/server/src/live.rs.
use ahead.Common.{
  ℕ, ◌≡◌, refl, sym, ap, ◌∙◌, true, false, List, [], ◌∷◌, ◌++◌, none, some, ok, is_some, arith, inl,
  inr, Option-cases,
}
use ahead.Common.Text.{Text}
use ahead.Common.Order.{same_iff, text_ord}
use ahead.Core.Json.{Serde}
use ahead.Core.Page.{CursorRange}
use ahead.Server.Live.{
  Subscriptions, ScopeState, committed, pulled, LiveAction, pull, handle, advance, at_scope, reach,
  frames,
}
use ahead.Server.Live.Drain.{IsPending, Covers, next_pull-Covers}
use ahead.Server.Live.Cursors.{at_scope_nil}
use ahead.Server.Live.Steps.{
  at_scope_cases, Committed, quiet, asking, Pulled, ignored, landing, on_committed-Committed,
  on_pulled-Pulled, marked, landed, mark,
}

at_scope-mark-IsPending :
    (k : Text) (ss : List ScopeState) {ss' : List ScopeState}
    → at_scope k mark ss ≡ some ss'
    → IsPending k ss'
at_scope-mark-IsPending k [] h = absurd (at_scope_nil k mark h)
at_scope-mark-IsPending k (s ∷ ss) {ss' = ss'} h = elim (at_scope_cases k mark s ss ss' h) [
  | inl (e, e') ↦ rw e' (inl ((same_iff s.scope k).0 e, refl))
  | inr (rest, e, n, e') ↦ rw e' (inr (at_scope-mark-IsPending k ss n))
]

IsPending-reach :
    (k j : Text) (r : CursorRange) (ss : List ScopeState) {ss' : List ScopeState}
    → at_scope j (reach r) ss ≡ some ss'
    → IsPending k ss
    → IsPending k ss'
IsPending-reach k j r [] h p = absurd p
IsPending-reach k j r (s ∷ ss) {ss' = ss'} h (inl (en, ep)) =
    elim (at_scope_cases j (reach r) s ss ss' h) [
      | inl (e, e') ↦ rw e' (inl (en, ground (arith, ep)))
      | inr (rest, e, n, e') ↦ rw e' (inl (en, ep))
    ]
IsPending-reach k j r (s ∷ ss) {ss' = ss'} h (inr p) =
    elim (at_scope_cases j (reach r) s ss ss' h) [
      | inl (e, e') ↦ rw e' (inr p)
      | inr (rest, e, n, e') ↦ rw e' (inr (IsPending-reach k j r ss n p))
    ]

IsPending-advance :
    (k : Text) (m : List (Text × CursorRange)) (ss : List ScopeState) {ss' : List ScopeState}
    → advance m ss ≡ (ss', ok tt)
    → IsPending k ss
    → IsPending k ss'
unfolding advance
IsPending-advance k [] ss h p = rw (← ap (λ q. q.0) h) p
IsPending-advance k ((j, r) ∷ m) ss {ss' = ss'} h p =
    elim (Option-cases (at_scope j (reach r) ss)) [
      | inl n ↦ cc (rw (n, advance) at h)
      | inr (ss1, n) ↦
          IsPending-advance k m ss1 {ss' = ss'} (rw (n, advance) at h)
            (IsPending-reach k j r ss n p)
    ]

-- A commit reported while the socket is open and nothing is asked is answered by one pull, which is
-- then outstanding and covers its scope.
pub commit_asks :
    (serde : Serde) (s t : Subscriptions) (scope : Text) (actions : List LiveAction)
    → s.is_closed ≡ false
    → s.running ≡ none
    → handle serde s (committed scope) ≡ (t, ok actions)
    → (cursors : List (Text × ℕ)) × (actions ≡ pull cursors s.models ∷ [])
      × (t.running ≡ some cursors)
      × Covers cursors scope
unfolding handle
commit_asks serde s t scope actions up idle h = go (on_committed-Committed s t scope actions h)
  where
    go :
        Committed s scope t actions
        → (cursors : List (Text × ℕ)) × (actions ≡ pull cursors s.models ∷ [])
          × (t.running ≡ some cursors)
          × Covers cursors scope
    go (quiet scopes e busy et ea) = absurd (ground arith)
    go (asking scopes e up' idle' et) =
        let p = at_scope-mark-IsPending scope s.scopes e in
        let (cursors, en, er, cover) = next_pull-Covers (marked s scopes) scope p in
        (cursors, cc, cc, cover)

-- A commit reported while a pull is outstanding is kept: the scope stays pending, nothing is sent.
pub commit_waits :
    (serde : Serde) (s t : Subscriptions) (scope : Text) (actions : List LiveAction)
    → is_some s.running ≡ true
    → handle serde s (committed scope) ≡ (t, ok actions)
    → (actions ≡ []) × (t.running ≡ s.running) × IsPending scope t.scopes
unfolding handle
commit_waits serde s t scope actions busy h = go (on_committed-Committed s t scope actions h)
  where
    go :
        Committed s scope t actions
        → (actions ≡ []) × (t.running ≡ s.running) × IsPending scope t.scopes
    go (quiet scopes e b et ea) =
        (ea, ap (λ u. u.running) et, rw et (at_scope-mark-IsPending scope s.scopes e))
    go (asking scopes e up' idle' et) = absurd (ground arith)

-- When an open socket's page is accepted, every scope with a pending commit is in the next pull, which
-- is then outstanding and comes after the page's frame.
pub pending_asked :
    (serde : Serde) (s t : Subscriptions) (page scope : Text) (actions : List LiveAction)
    → s.is_closed ≡ false
    → IsPending scope s.scopes
    → handle serde s (pulled page) ≡ (t, ok actions)
    → (cursors : List (Text × ℕ)) × (before : List LiveAction) × (actions
        ≡ before ++ (pull cursors s.models ∷ []))
      × (t.running ≡ some cursors)
      × Covers cursors scope
unfolding handle
pending_asked serde s t page scope actions up p h = go (on_pulled-Pulled serde s t page actions h)
  where
    go :
        Pulled serde s page t actions
        → (cursors : List (Text × ℕ)) × (before : List LiveAction) × (actions
            ≡ before ++ (pull cursors s.models ∷ []))
          × (t.running ≡ some cursors)
          × Covers cursors scope
    go (ignored asked er ec et ea) = cc (sym ec ∙ up)
    go (landing asked progress scopes er ec ep ea et eb) =
        let p' = IsPending-advance scope progress.cursors s.scopes ea p in
        let (cursors, en, er', cover) = next_pull-Covers (landed s scopes) scope p' in
        (cursors, frames progress, eb ∙ ap (λ q. frames progress ++ q.1) en, rw et er', cover)
