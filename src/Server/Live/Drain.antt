-- ===== src/Server/Live/Drain.antt =====
-- No commit is lost by crates/server/src/live.rs.
use ahead.Common.{
  ℕ, ◌≡◌, refl, sym, ap, ◌∙◌, Bool, true, false, ◌||◌, List, [], ◌∷◌, none, some, ok, if◌then◌else◌,
  is_some, arith, inl, inr, ◌⊎◌, All,
}
use ahead.Common.Text.{Text}
use ahead.Common.Map.{insert, lookup, contains_key, lookup-insert}
use ahead.Common.Order.{same, same_refl, same_iff, text_ord}
use ahead.Core.Json.{Serde}
use ahead.Server.Live.Steps.{
  Committed, quiet, asking, Pulled, ignored, landing, on_committed-Committed, on_pulled-Pulled,
  marked, landed,
}
use ahead.Server.Live.{
  Subscriptions, ScopeState, Negotiation, LiveEvent, committed, pulled, closed, LiveAction, pull,
  pending_set, collect, claim, next_pull, handle, open_session,
}

abbrev pub NonePending : List ScopeState → Type 0
NonePending ss = All (λ s. s.pending ≡ false) ss

-- The scope named `k` has a pending commit.
abbrev pub IsPending : Text → List ScopeState → Type 0
IsPending k [] = ⊥
IsPending k (s ∷ ss) = ((s.scope ≡ k) × (s.pending ≡ true)) ⊎ IsPending k ss

contains-insert :
    {V : Type 0} (k j : Text) (v : V) (m : List (Text × V))
    → contains_key k (insert j v m) ≡ (same k j || contains_key k m)
contains-insert k j v m = ground (arith, lookup-insert k j v m)

abbrev Marked : List (Text × Unit {0}) → ScopeState → Type 0
Marked set s = s.pending ≡ true → contains_key s.scope set ≡ true

Marked-insert :
    (k : Text) (set : List (Text × Unit {0})) (ss : List ScopeState)
    → All (Marked set) ss
    → All (Marked (insert k tt set)) ss
Marked-insert k set [] h = tt
Marked-insert k set (s ∷ ss) h =
    (λ p. ground (arith, h.0 p, contains-insert s.scope k tt set), Marked-insert k set ss h.1)

Marked-collect :
    (flag : Bool) (k : Text) (set : List (Text × Unit {0})) (ss : List ScopeState)
    → All (Marked set) ss
    → All (Marked (collect flag k set)) ss
Marked-collect true k set ss h = Marked-insert k set ss h
Marked-collect false k set ss h = h

contains-collect :
    (flag : Bool) (k : Text) (set : List (Text × Unit {0}))
    → flag ≡ true
    → contains_key k (collect flag k set) ≡ true
contains-collect true k set h = ground (arith, contains-insert k k tt set, same_refl k)
contains-collect false k set h = cc

pending_set-Marked : (ss : List ScopeState) → All (Marked (pending_set ss)) ss
pending_set-Marked [] = tt
pending_set-Marked (s ∷ ss) = (
  contains-collect s.pending s.scope (pending_set ss),
  Marked-collect s.pending s.scope (pending_set ss) ss (pending_set-Marked ss),
)

claim-NonePending :
    (set : List (Text × Unit {0})) (ss : List ScopeState) (m : List (Text × ℕ))
    → All (Marked set) ss
    → NonePending (claim set ss m).0
unfolding claim
claim-NonePending set [] m h = tt
claim-NonePending set (s ∷ ss) m h =
    let hit = contains_key s.scope set in
    (
      ground (arith, h.0),
      claim-NonePending set ss (if hit then insert s.scope s.cursor m else m) h.1,
    )

Marked-empty : (ss : List ScopeState) → All (Marked []) ss → NonePending ss
unfolding lookup
Marked-empty [] h = tt
Marked-empty (s ∷ ss) h = (ground (arith, h.0), Marked-empty ss h.1)

-- `next_pull` leaves no flag set.
next_pull-NonePending : (s : Subscriptions) → NonePending (next_pull s).0.scopes
unfolding next_pull
next_pull-NonePending s = go (pending_set s.scopes) refl
  where
    go :
        (set : List (Text × Unit {0}))
        → pending_set s.scopes ≡ set
        → NonePending (next_pull s).0.scopes
    go [] e = rw (e, next_pull) (Marked-empty s.scopes (rw e at (pending_set-Marked s.scopes)))
    go (p ∷ ps) e =
        rw (e, next_pull)
          (claim-NonePending (p ∷ ps) s.scopes [] (rw e at (pending_set-Marked s.scopes)))

abbrev pub Covers : List (Text × ℕ) → Text → Type 0
Covers cursors k = contains_key k cursors ≡ true

claim-keeps :
    (set : List (Text × Unit {0})) (ss : List ScopeState) (m : List (Text × ℕ)) (k : Text)
    → Covers m k
    → Covers (claim set ss m).1 k
unfolding claim
claim-keeps set [] m k h = h
claim-keeps set (s ∷ ss) m k h =
    let m' = if contains_key s.scope set then insert s.scope s.cursor m else m in
    claim-keeps set ss m' k (ground (arith, contains-insert k s.scope s.cursor m))

claim-Covers :
    (set : List (Text × Unit {0})) (ss : List ScopeState) (m : List (Text × ℕ)) (k : Text)
    → All (Marked set) ss
    → IsPending k ss
    → Covers (claim set ss m).1 k
unfolding claim
claim-Covers set [] m k h p = absurd p
claim-Covers set (s ∷ ss) m k h (inr p) =
    claim-Covers set ss (if contains_key s.scope set then insert s.scope s.cursor m else m) k h.1 p
claim-Covers set (s ∷ ss) m k h (inl (e, p)) =
    let m' = if contains_key s.scope set then insert s.scope s.cursor m else m in
    claim-keeps set ss m' k
      (ground (arith, h.0 p, contains-insert k s.scope s.cursor m, same_iff k s.scope, sym e))

NonePending-not_IsPending : (k : Text) (ss : List ScopeState) → NonePending ss → ¬ IsPending k ss
NonePending-not_IsPending k [] h p = p
NonePending-not_IsPending k (s ∷ ss) h (inl (e, p)) = cc h.0
NonePending-not_IsPending k (s ∷ ss) h (inr p) = NonePending-not_IsPending k ss h.1 p

-- What `next_pull` asks for covers every scope with a pending commit.
pub next_pull-Covers :
    (s : Subscriptions) (k : Text)
    → IsPending k s.scopes
    → (cursors : List (Text × ℕ)) × (next_pull s ≡ ((next_pull s).0, pull cursors s.models ∷ []))
      × ((next_pull s).0.running ≡ some cursors)
      × Covers cursors k
unfolding next_pull
next_pull-Covers s k p = go (pending_set s.scopes) refl
  where
    go :
        (set : List (Text × Unit {0}))
        → pending_set s.scopes ≡ set
        → (cursors : List (Text × ℕ)) × (next_pull s
            ≡ ((next_pull s).0, pull cursors s.models ∷ []))
          × ((next_pull s).0.running ≡ some cursors)
          × Covers cursors k
    go [] e = absurd (
        NonePending-not_IsPending k s.scopes
          (Marked-empty s.scopes (rw e at (pending_set-Marked s.scopes))) p)
    go (q ∷ qs) e = (
      (claim (q ∷ qs) s.scopes []).1,
      rw (e, next_pull),
      rw (e, next_pull),
      claim-Covers (q ∷ qs) s.scopes [] k (rw e at (pending_set-Marked s.scopes)) p,
    )

-- No commit waits while nothing is asked.
abbrev pub Drained : Subscriptions → Type 0
Drained s = s.is_closed ≡ false → s.running ≡ none → NonePending s.scopes

-- A session: what the host reaches from a negotiation by events that were all accepted.
pub data Session (serde : Serde) (n : Negotiation) : Subscriptions → Type 0 where
  opened : {s : Subscriptions} → s ≡ (open_session n).0 → Session serde n s
  handled :
      {s t : Subscriptions} (e : LiveEvent) (actions : List LiveAction)
      → Session serde n s
      → handle serde s e ≡ (t, ok actions)
      → Session serde n t

busy_idle :
    (s : Subscriptions)
    → (s.is_closed || is_some s.running) ≡ true
    → s.is_closed ≡ false
    → s.running ≡ none
    → ⊥
busy_idle s busy up idle = ground arith

reported-Drained :
    (s t : Subscriptions) (scope : Text) (actions : List LiveAction)
    → Drained s
    → Committed s scope t actions
    → Drained t
reported-Drained s t scope actions d (quiet scopes e busy et ea) =
    rw et (λ up idle. absurd (busy_idle s busy up idle))
reported-Drained s t scope actions d (asking scopes e up idle et) =
    let e0 : t ≡ (next_pull (marked s scopes)).0 = ap (λ p. p.0) et in
    rw e0 (λ _ _. next_pull-NonePending (marked s scopes))

answered-Drained :
    (serde : Serde) (s t : Subscriptions) (page : Text) (actions : List LiveAction)
    → Pulled serde s page t actions
    → Drained t
answered-Drained serde s t page actions (ignored asked er ec et ea) =
    rw et (λ up _. cc (sym ec ∙ up))
answered-Drained serde s t page actions (landing asked progress scopes er ec ep ea et eb) =
    rw et (λ _ _. next_pull-NonePending (landed s scopes))

handle-Drained :
    (serde : Serde) (s t : Subscriptions) (e : LiveEvent) (actions : List LiveAction)
    → Drained s
    → handle serde s e ≡ (t, ok actions)
    → Drained t
unfolding handle
handle-Drained serde s t (committed scope) actions d h =
    reported-Drained s t scope actions d (on_committed-Committed s t scope actions h)
handle-Drained serde s t (pulled page) actions d h =
    answered-Drained serde s t page actions (on_pulled-Pulled serde s t page actions h)
handle-Drained serde s t closed actions d h =
    let shut : t.is_closed ≡ true = ground arith in λ up _. cc (sym shut ∙ up)

-- In every session, through any accepted events: while the socket is open and no pull is outstanding,
-- no scope has a commit that was not pulled.
pub Session-Drained :
    (serde : Serde) (n : Negotiation) (s : Subscriptions) → Session serde n s → Drained s
unfolding open_session
Session-Drained serde n s (opened e) = rw e (λ up idle. cc idle)
Session-Drained serde n t (handled {s = s} e actions r h) =
    handle-Drained serde s t e actions (Session-Drained serde n s r) h
