-- ===== src/Server/Live/Monotone.antt =====
-- Through a session of crates/server/src/live.rs no scope's cursor moves backwards, and an outstanding
-- pull asks each of its scopes from the cursor that the scope has.
use ahead.Common.{
  ℕ, ◌≤◌, ◌≡◌, refl, sym, ap, ◌∙◌, Bool, true, false, List, [], ◌∷◌, map, none, some, ok,
  if◌then◌else◌, arith, inl, inr, ◌⊎◌, Option-cases, All,
}
use ahead.Common.Text.{Text}
use ahead.Common.Map.{insert, lookup, contains_key, lookup-insert}
use ahead.Common.Map.Sorted.{Below, IsSorted, insert-IsSorted}
use ahead.Common.Order.{same, same_iff, text_ord}
use ahead.Core.Json.{Serde}
use ahead.Core.Page.{CursorRange}
use ahead.Server.Live.{
  Subscriptions, ScopeState, Negotiation, LiveEvent, committed, pulled, closed, LiveAction,
  pending_set, claim, next_pull, handle, open_session, advance, at_scope, reach, settled,
  PageProgress,
}
use ahead.Server.Live.Progress.{Answers, page_progress-Answers}
use ahead.Server.Live.Drain.{Session, opened, handled}
use ahead.Server.Live.Cursors.{
  cursor_at, at_scope-mark, at_scope_nil, claim-cursor_at, next_pull-cursor_at, settled-cursor_at,
  landing_cursor, advance-cursor_at,
}
use ahead.Server.Live.Steps.{
  at_scope_cases, Committed, quiet, asking, Pulled, ignored, landing, on_committed-Committed,
  on_pulled-Pulled, marked, landed, mark,
}

-- Scopes of one session have different names.
abbrev pub Once : List Text → Type 0
Once [] = Unit
Once (k ∷ ks) = All (λ j. same k j ≡ false) ks × Once ks

abbrev pub names : List ScopeState → List Text
names [] = []
names (s ∷ ss) = s.scope ∷ names ss

abbrev KeepsName : (ScopeState → ScopeState) → Type 0
KeepsName f = (s : ScopeState) → (f s).scope ≡ s.scope

names-at_scope :
    (k : Text) (f : ScopeState → ScopeState) (ss : List ScopeState) {ss' : List ScopeState}
    → KeepsName f
    → at_scope k f ss ≡ some ss'
    → names ss' ≡ names ss
names-at_scope k f [] keep h = absurd (at_scope_nil k f h)
names-at_scope k f (s ∷ ss) {ss' = ss'} keep h = elim (at_scope_cases k f s ss ss' h) [
  | inl (e, e') ↦ rw e' (ap (λ n. n ∷ names ss) (keep s))
  | inr (rest, e, n, e') ↦ rw e' (ap (λ ns. s.scope ∷ ns) (names-at_scope k f ss keep n))
]

names-advance :
    (m : List (Text × CursorRange)) (ss : List ScopeState) {ss' : List ScopeState}
    → advance m ss ≡ (ss', ok tt)
    → names ss' ≡ names ss
unfolding advance
names-advance [] ss h = ap names (sym (ap (λ p. p.0) h))
names-advance ((k, r) ∷ m) ss {ss' = ss'} h = elim (Option-cases (at_scope k (reach r) ss)) [
  | inl n ↦ cc (rw (n, advance) at h)
  | inr (ss1, n) ↦
      names-advance m ss1 {ss' = ss'} (rw (n, advance) at h)
      ∙ names-at_scope k (reach r) ss (λ s. refl) n
]

names-claim :
    (set : List (Text × Unit {0})) (ss : List ScopeState) (m : List (Text × ℕ))
    → names (claim set ss m).0 ≡ names ss
unfolding claim
names-claim set [] m = refl
names-claim set (s ∷ ss) m =
    let m' = if contains_key s.scope set then insert s.scope s.cursor m else m in
    ground (arith, names-claim set ss m')

names-settled : (ss : List ScopeState) → names (map settled ss) ≡ names ss
names-settled [] = refl
names-settled (s ∷ ss) = ap (λ ns. s.scope ∷ ns) (names-settled ss)

cursor_at-absent :
    (k : Text) (ss : List ScopeState)
    → All (λ j. same k j ≡ false) (names ss)
    → cursor_at k ss ≡ none
unfolding cursor_at
cursor_at-absent k [] h = refl
cursor_at-absent k (s ∷ ss) h =
    ground (arith, cursor_at-absent k ss h.1, h.0, same_iff k s.scope, same_iff s.scope k)

claim-IsSorted :
    (set : List (Text × Unit {0})) (ss : List ScopeState) (m : List (Text × ℕ))
    → IsSorted m
    → IsSorted (claim set ss m).1
unfolding claim
claim-IsSorted set [] m h = h
claim-IsSorted set (s ∷ ss) m h =
    claim-IsSorted set ss (if contains_key s.scope set then insert s.scope s.cursor m else m)
      (choose (contains_key s.scope set))
  where
    choose : (b : Bool) → IsSorted (if b then insert s.scope s.cursor m else m)
    choose true = insert-IsSorted s.scope s.cursor m h
    choose false = h

claim-lookup :
    (set : List (Text × Unit {0})) (ss : List ScopeState) (m : List (Text × ℕ)) (k : Text) (n : ℕ)
    → Once (names ss)
    → lookup k (claim set ss m).1 ≡ some n
    → (lookup k m ≡ some n) ⊎ (cursor_at k ss ≡ some n)
unfolding claim cursor_at
claim-lookup set [] m k n once h = inl h
claim-lookup set (s ∷ ss) m k n once h =
    let m' = if contains_key s.scope set then insert s.scope s.cursor m else m in
    ground (
      arith,
      claim-lookup set ss m' k n once.1,
      lookup-insert k s.scope s.cursor m,
      same_iff k s.scope,
      same_iff s.scope k,
      cursor_at-absent s.scope ss once.0,
    )

-- Every cursor that is asked is the one its scope has.
abbrev pub Asks : List (Text × ℕ) → List ScopeState → Type 0
Asks asked ss = (k : Text) (n : ℕ) → lookup k asked ≡ some n → cursor_at k ss ≡ some n

pub record Inv (s : Subscriptions) : Type 0 where
  pub once : Once (names s.scopes)
  pub sorted : (asked : List (Text × ℕ)) → s.running ≡ some asked → IsSorted asked
  pub asks : (asked : List (Text × ℕ)) → s.running ≡ some asked → Asks asked s.scopes

not_in_nil : (k : Text) (n : ℕ) → lookup {V = ℕ} k [] ≡ some n → ⊥
unfolding lookup
not_in_nil k n h = cc

next_pull-Inv : (s : Subscriptions) → Once (names s.scopes) → s.running ≡ none → Inv (next_pull s).0
unfolding next_pull
next_pull-Inv s once idle = go (pending_set s.scopes) refl
  where
    go : (set : List (Text × Unit {0})) → pending_set s.scopes ≡ set → Inv (next_pull s).0
    go [] e =
        rw (e, next_pull)
          (record {
            once = once;
            sorted = λ asked r. cc (sym idle ∙ r);
            asks = λ asked r. cc (sym idle ∙ r);
          })
    go (p ∷ ps) e =
        let cursors = (claim (p ∷ ps) s.scopes []).1 in
        rw (e, next_pull)
          (record {
            once = rw (names-claim (p ∷ ps) s.scopes []) once;
            sorted = λ asked r.
                let same_map : cursors ≡ asked = cc r in
                rw (← same_map) (claim-IsSorted (p ∷ ps) s.scopes [] tt);
            asks = λ asked r k n l.
                let same_map : cursors ≡ asked = cc r in
                claim-cursor_at (p ∷ ps) s.scopes [] k
                ∙ claimed k n (claim-lookup (p ∷ ps) s.scopes [] k n once (rw (← same_map) at l));
          })
      where
        claimed :
            (k : Text) (n : ℕ)
            → (lookup k [] ≡ some n) ⊎ (cursor_at k s.scopes ≡ some n)
            → cursor_at k s.scopes ≡ some n
        claimed k n (inl h) = absurd (not_in_nil k n h)
        claimed k n (inr h) = h

reported-Inv :
    (s t : Subscriptions) (scope : Text) (actions : List LiveAction)
    → Inv s
    → Committed s scope t actions
    → Inv t
reported-Inv s t scope actions v (quiet scopes e busy et ea) = rw et (record {
  once = rw (names-at_scope scope mark s.scopes (λ _. refl) e) v.once;
  sorted = v.sorted;
  asks = λ asked r k n l. at_scope-mark scope k s.scopes e ∙ v.asks asked r k n l;
})
reported-Inv s t scope actions v (asking scopes e up idle et) =
    let e0 : t ≡ (next_pull (marked s scopes)).0 = ap (λ p. p.0) et in
    rw e0 (
      next_pull-Inv (marked s scopes) (rw (names-at_scope scope mark s.scopes (λ _. refl) e) v.once)
        idle)

answered-Inv :
    (serde : Serde) (s t : Subscriptions) (page : Text) (actions : List LiveAction)
    → Inv s
    → Pulled serde s page t actions
    → Inv t
answered-Inv serde s t page actions v (ignored asked er ec et ea) =
    rw et (record { once = v.once; sorted = λ asked r. cc r; asks = λ asked r. cc r })
answered-Inv serde s t page actions v (landing asked progress scopes er ec ep ea et eb) =
    rw et (
      next_pull-Inv (landed s scopes) (rw (names-advance progress.cursors s.scopes ea) v.once) refl)

handle-Inv :
    (serde : Serde) (s t : Subscriptions) (e : LiveEvent) (actions : List LiveAction)
    → Inv s
    → handle serde s e ≡ (t, ok actions)
    → Inv t
unfolding handle
handle-Inv serde s t (committed scope) actions v h =
    reported-Inv s t scope actions v (on_committed-Committed s t scope actions h)
handle-Inv serde s t (pulled page) actions v h =
    answered-Inv serde s t page actions v (on_pulled-Pulled serde s t page actions h)
handle-Inv serde s t closed actions v h =
    let e : (record s { is_closed = true; scopes = map settled s.scopes }) ≡ t = ap (λ p. p.0) h in
    rw (← e) (record {
      once = rw (names-settled s.scopes) v.once;
      sorted = v.sorted;
      asks = λ asked r k n l. settled-cursor_at s.scopes k ∙ v.asks asked r k n l;
    })

-- Where a session starts.
abbrev pub start_scopes : List (Text × ℕ) → List ScopeState
start_scopes heads = map (λ sh. record { scope = sh.0; cursor = sh.1; pending = false }) heads

start-Once : (heads : List (Text × ℕ)) → IsSorted heads → Once (names (start_scopes heads))
start-Once [] s = tt
start-Once ((k, n) ∷ heads) s = (apart heads s.0, start-Once heads s.1)
  where
    apart : (m : List (Text × ℕ)) → Below k m → All (λ j. same k j ≡ false) (names (start_scopes m))
    apart [] b = tt
    apart ((j, v) ∷ m) b = (ground (arith, b.0), apart m b.1)

start-Asks : (heads : List (Text × ℕ)) → Asks heads (start_scopes heads)
unfolding cursor_at lookup
start-Asks [] k n h = cc
start-Asks ((j, v) ∷ heads) k n h = ground (arith, start-Asks heads k n, same_iff k j, same_iff j k)

-- In every session over a map of heads, an outstanding pull asks each of its scopes from the cursor
-- that the scope has been streamed to.
pub Session-Inv :
    (serde : Serde) (n : Negotiation) (s : Subscriptions)
    → IsSorted n.heads
    → Session serde n s
    → Inv s
unfolding open_session
Session-Inv serde n s sorted (opened e) = rw e (record {
  once = start-Once n.heads sorted;
  sorted = λ asked r. let same_map : n.heads ≡ asked = cc r in rw (← same_map) sorted;
  asks = λ asked r. let same_map : n.heads ≡ asked = cc r in rw (← same_map) (start-Asks n.heads);
})
Session-Inv serde n t sorted (handled {s = s} e actions r h) =
    handle-Inv serde s t e actions (Session-Inv serde n s sorted r) h

landing_cursor_grows :
    (asked : List (Text × ℕ)) (p : PageProgress) (ss : List ScopeState) (k : Text) (m : ℕ)
    → Answers asked p
    → Asks asked ss
    → cursor_at k ss ≡ some m
    → (m' : ℕ) × (landing_cursor p.cursors k (some m) ≡ some m') × (m ≤ m')
unfolding landing_cursor
landing_cursor_grows asked p ss k m a asks c = elim (Option-cases (lookup k p.cursors)) [
  | inl e ↦ (m, ground (arith, e), ground arith)
  | inr (r, e) ↦
      let (asked_from, forward) = a.connects k r e in
      (r.to, ground (arith, e), ground (arith, asks k r.from asked_from, forward, c))
]

handle_monotone :
    (serde : Serde) (s t : Subscriptions) (e : LiveEvent) (actions : List LiveAction)
    → Inv s
    → handle serde s e ≡ (t, ok actions)
    → (k : Text) (m : ℕ) → cursor_at k s.scopes ≡ some m
    → (m' : ℕ) × (cursor_at k t.scopes ≡ some m') × (m ≤ m')
unfolding handle
handle_monotone serde s t (committed scope) actions v h k m c =
    go (on_committed-Committed s t scope actions h)
  where
    go : Committed s scope t actions → (m' : ℕ) × (cursor_at k t.scopes ≡ some m') × (m ≤ m')
    go (quiet scopes e busy et ea) = (m, rw et (at_scope-mark scope k s.scopes e ∙ c), omega arith)
    go (asking scopes e up idle et) =
        let e0 : t ≡ (next_pull (marked s scopes)).0 = ap (λ p. p.0) et in
        (
          m,
          rw e0 (next_pull-cursor_at (marked s scopes) k ∙ at_scope-mark scope k s.scopes e ∙ c),
          omega arith,
        )
handle_monotone serde s t (pulled page) actions v h k m c =
    go (on_pulled-Pulled serde s t page actions h)
  where
    go : Pulled serde s page t actions → (m' : ℕ) × (cursor_at k t.scopes ≡ some m') × (m ≤ m')
    go (ignored asked er ec et ea) = (m, rw et c, omega arith)
    go (landing asked progress scopes er ec ep ea et eb) =
        let a = page_progress-Answers serde page asked ep in
        let (m', e', le) = landing_cursor_grows asked progress s.scopes k m a (v.asks asked er) c in
        (
          m',
          rw et (
              next_pull-cursor_at (landed s scopes) k
              ∙ advance-cursor_at progress.cursors s.scopes k a.sorted ea
              ∙ ap (landing_cursor progress.cursors k) c
              ∙ e'),
          le,
        )
handle_monotone serde s t closed actions v h k m c =
    let e : (record s { is_closed = true; scopes = map settled s.scopes }) ≡ t = ap (λ p. p.0) h in
    (m, rw (← e) (settled-cursor_at s.scopes k ∙ c), omega arith)

-- In a session over a map of heads, an accepted event never moves a scope's cursor backwards, and
-- never drops a scope.
pub cursor_monotone :
    (serde : Serde) (n : Negotiation) (s t : Subscriptions) (e : LiveEvent)
    (actions : List LiveAction)
    → IsSorted n.heads
    → Session serde n s
    → handle serde s e ≡ (t, ok actions)
    → (k : Text) (m : ℕ) → cursor_at k s.scopes ≡ some m
    → (m' : ℕ) × (cursor_at k t.scopes ≡ some m') × (m ≤ m')
cursor_monotone serde n s t e actions sorted r h =
    handle_monotone serde s t e actions (Session-Inv serde n s sorted r) h
