-- ===== src/Server/Live/Cursors.antt =====
-- The cursors of a session of crates/server/src/live.rs.
use ahead.Common.{
  ℕ, ◌≡◌, refl, List, [], ◌∷◌, map, Option, none, some, ok, if◌then◌else◌, arith, inl, inr,
  Option-cases,
}
use ahead.Common.Text.{Text}
use ahead.Common.Map.{insert, lookup, contains_key}
use ahead.Common.Map.Sorted.{IsSorted, lookup-Below}
use ahead.Common.Order.{same, same_iff, text_ord}
use ahead.Core.Page.{CursorRange}
use ahead.Server.Live.{
  Subscriptions, ScopeState, pending_set, claim, next_pull, advance, at_scope, reach, settled,
}
use ahead.Server.Live.Steps.{at_scope_cases, mark}

-- The cursor that a session has streamed a scope to.
unfoldable pub cursor_at : Text → List ScopeState → Option ℕ
cursor_at k [] = none
cursor_at k (s ∷ ss) = if same s.scope k then some s.cursor else cursor_at k ss

pub at_scope_nil :
    (k : Text) (f : ScopeState → ScopeState) {ss : List ScopeState} → at_scope k f [] ≡ some ss → ⊥
unfolding at_scope
at_scope_nil k f h = cc

-- A change that keeps the scope and the cursor moves no cursor.
pub at_scope-mark :
    (k j : Text) (ss : List ScopeState) {ss' : List ScopeState}
    → at_scope k mark ss ≡ some ss'
    → cursor_at j ss' ≡ cursor_at j ss
unfolding cursor_at
at_scope-mark k j [] h = absurd (at_scope_nil k mark h)
at_scope-mark k j (s ∷ ss) {ss' = ss'} h = elim (at_scope_cases k mark s ss ss' h) [
  | inl (e, e') ↦ rw e'
  | inr (rest, e, n, e') ↦ rw e' (ground (arith, at_scope-mark k j ss n))
]

pub at_scope-reach :
    (k j : Text) (r : CursorRange) (ss : List ScopeState) {ss' : List ScopeState}
    → at_scope k (reach r) ss ≡ some ss'
    → cursor_at j ss' ≡ (if same k j then some r.to else cursor_at j ss)
unfolding cursor_at
at_scope-reach k j r [] h = absurd (at_scope_nil k (reach r) h)
at_scope-reach k j r (s ∷ ss) {ss' = ss'} h = elim (at_scope_cases k (reach r) s ss ss' h) [
  | inl (e, e') ↦ rw e' (ground (arith, same_iff s.scope k, same_iff s.scope j, same_iff k j))
  | inr (rest, e, n, e') ↦ rw e' (
      ground
        (arith, at_scope-reach k j r ss n, same_iff s.scope k, same_iff s.scope j, same_iff k j))
]

pub claim-cursor_at :
    (set : List (Text × Unit {0})) (ss : List ScopeState) (m : List (Text × ℕ)) (j : Text)
    → cursor_at j (claim set ss m).0 ≡ cursor_at j ss
unfolding claim cursor_at
claim-cursor_at set [] m j = refl
claim-cursor_at set (s ∷ ss) m j =
    let m' = if contains_key s.scope set then insert s.scope s.cursor m else m in
    ground (arith, claim-cursor_at set ss m' j)

pub next_pull-cursor_at :
    (s : Subscriptions) (j : Text) → cursor_at j (next_pull s).0.scopes ≡ cursor_at j s.scopes
unfolding next_pull
next_pull-cursor_at s j = go (pending_set s.scopes) refl
  where
    go :
        (set : List (Text × Unit {0}))
        → pending_set s.scopes ≡ set
        → cursor_at j (next_pull s).0.scopes ≡ cursor_at j s.scopes
    go [] e = rw (e, next_pull)
    go (p ∷ ps) e = rw (e, next_pull) (claim-cursor_at (p ∷ ps) s.scopes [] j)

pub settled-cursor_at :
    (ss : List ScopeState) (j : Text) → cursor_at j (map settled ss) ≡ cursor_at j ss
unfolding cursor_at
settled-cursor_at [] j = refl
settled-cursor_at (s ∷ ss) j = ground (arith, settled-cursor_at ss j)

-- The channels of a page, each at the cursor that its scope has.
abbrev pub Connects : List ScopeState → Text × CursorRange → Type 0
Connects ss cr = cursor_at cr.0 ss ≡ some cr.1.from

-- Where the page has a range for `j` the scope reaches its end, and elsewhere it stays.
unfoldable pub landing_cursor : List (Text × CursorRange) → Text → Option ℕ → Option ℕ
landing_cursor m j old = elim (lookup j m) [ none ↦ old | some r ↦ some r.to ]

lookup-cons :
    {V : Type 0} (j k : Text) (v : V) (m : List (Text × V))
    → lookup j ((k, v) ∷ m) ≡ (if same j k then some v else lookup j m)
unfolding lookup
lookup-cons j k v m = refl

-- Accepting a page moves every scope that it names to the end of its range, and no other.
pub advance-cursor_at :
    (m : List (Text × CursorRange)) (ss : List ScopeState) {ss' : List ScopeState} (j : Text)
    → IsSorted m
    → advance m ss ≡ (ss', ok tt)
    → cursor_at j ss' ≡ landing_cursor m j (cursor_at j ss)
unfolding advance landing_cursor lookup
advance-cursor_at [] ss j sorted h = ground arith
advance-cursor_at ((k, r) ∷ m) ss {ss' = ss'} j sorted h =
    elim (Option-cases (at_scope k (reach r) ss)) [
      | inl n ↦ cc (rw (n, advance) at h)
      | inr (ss1, n) ↦
          let rest = advance-cursor_at m ss1 {ss' = ss'} j sorted.1 (rw (n, advance) at h) in
          ground (
            arith,
            rest,
            at_scope-reach k j r ss n,
            same_iff j k,
            same_iff k j,
            lookup-Below k m sorted.0,
          )
    ]
