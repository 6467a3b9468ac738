-- ===== src/Server/Live.antt =====
-- crates/server/src/live.rs: the per-socket state machine of a live session. A method that takes
-- `&mut self` returns the new state beside its result, also where the result is an error.
pub mod Progress
pub mod Steps
pub mod Drain
pub mod Cursors
pub mod Monotone
pub mod Commits
use ahead.Common.{
  ℕ, ◌≡◌, Bool, true, false, not, ◌&&◌, ◌||◌, List, [], ◌∷◌, ◌++◌, map, Option, none, some, Result,
  ok, err, not_json, live_page_invalid, live_page_channels, live_page_progression,
  live_event_invalid, ◌>>=◌, ◌>>◌, refuse, or_fail, map_err, map_ok, each, ltb, ◌==◌, if◌then◌else◌,
  is_some, any,
}
use ahead.Common.Text.{Text}
use ahead.Common.Map.{insert, lookup, contains_key, keys, values}
use ahead.Common.Order.{same, text_ord}
use ahead.Core.Json.{Serde}
use ahead.Core.Page.{CursorRange, PullPage, continues, decode_page}
use ahead.Core.Subscribe.{same_texts}

-- The acknowledgement frame, every channel's head, and the declared read contracts.
pub record Negotiation : Type 0 where
  pub response : Text
  pub heads : List (Text × ℕ)
  pub models : List (Text × ℕ)

pub record PageProgress : Type 0 where
  pub page : Text
  pub cursors : List (Text × CursorRange)

pub data LiveEvent : Type 0 where
  committed : Text → LiveEvent
  pulled : Text → LiveEvent
  closed : LiveEvent

pub data LiveAction : Type 0 where
  listen : Text → LiveAction
  send : Text → LiveAction
  pull : List (Text × ℕ) → List (Text × ℕ) → LiveAction

pub record ScopeState : Type 0 where
  pub scope : Text
  pub cursor : ℕ
  pub pending : Bool

pub record Subscriptions : Type 0 where
  pub scopes : List ScopeState
  pub running : Option (List (Text × ℕ))
  pub is_closed : Bool
  pub models : List (Text × ℕ)

-- `range.from != expected[channel]`, for channels that are keys of `expected`.
abbrev pub progression : List (Text × ℕ) → Text × CursorRange → Result (Unit {0})
progression expected (channel, range) =
    refuse (elim (lookup channel expected) [ none ↦ true | some n ↦ not (range.from == n) ])
      live_page_progression

-- The page that a host pulled answers exactly the cursors that were asked.
unfoldable pub page_progress : Serde → Text → List (Text × ℕ) → Result PageProgress
page_progress serde text expected = do
  value ← or_fail (serde.from_slice text) live_page_invalid
  decoded ← map_err live_page_invalid (decode_page serde value)
  refuse (not (same_texts (keys decoded.cursors) (keys expected))) live_page_channels
  each (progression expected) decoded.cursors
  ok (record { page = text; cursors = decoded.cursors })

-- `Subscriptions::open`: listen to each scope, acknowledge, and pull every scope from its head.
unfoldable pub open_session : Negotiation → Subscriptions × List LiveAction
open_session n =
    let states : List ScopeState =
      map (λ sh. record { scope = sh.0; cursor = sh.1; pending = false }) n.heads in
    (
      record { scopes = states; running = some n.heads; is_closed = false; models = n.models },
      map (λ s. listen s.scope) states ++ (send n.response ∷ pull n.heads n.models ∷ []),
    )

-- `scope_mut`, with the change that its caller makes; `none` where the scope is not subscribed.
unfoldable pub at_scope :
    Text → (ScopeState → ScopeState) → List ScopeState → Option (List ScopeState)
at_scope k change [] = none
at_scope k change (s ∷ ss) =
    let rest = at_scope k change ss in
    if same s.scope k
    then some (change s ∷ ss)
    else elim rest [ none ↦ none | some ss' ↦ some (s ∷ ss') ]

abbrev pub collect : Bool → Text → List (Text × Unit {0}) → List (Text × Unit {0})
collect true k set = insert k tt set
collect false k set = set

-- The scopes with a pending commit.
abbrev pub pending_set : List ScopeState → List (Text × Unit {0})
pending_set [] = []
pending_set (s ∷ ss) = collect s.pending s.scope (pending_set ss)

-- The second loop of `next_pull`: clear the flags and collect the cursors.
unfoldable pub claim :
    List (Text × Unit {0}) → List ScopeState → List (Text × ℕ) → List ScopeState × List (Text × ℕ)
claim pending [] cursors = ([], cursors)
claim pending (s ∷ ss) cursors =
    let hit = contains_key s.scope pending in
    let (ss', cursors') =
      claim pending ss (if hit then insert s.scope s.cursor cursors else cursors) in
    ((if hit then record s { pending = false } else s) ∷ ss', cursors')

unfoldable pub next_pull : Subscriptions → Subscriptions × List LiveAction
unfolding claim
next_pull s = elim (pending_set s.scopes) [
  | [] ↦ (s, [])
  | p ∷ ps ↦
      let (scopes, cursors) = claim (p ∷ ps) s.scopes [] in
      (record s { scopes = scopes; running = some cursors }, pull cursors s.models ∷ [])
]

-- Store the cursor that a page reached; a channel that continues is pending.
abbrev pub reach : CursorRange → ScopeState → ScopeState
reach range s = record s {
  cursor = range.to;
  pending = if continues range then true else s.pending;
}

-- The loop over the ranges of an accepted page; it stops at a scope that is not subscribed.
unfoldable pub advance :
    List (Text × CursorRange) → List ScopeState → List ScopeState × Result (Unit {0})
unfolding at_scope
advance [] ss = (ss, ok tt)
advance ((scope, range) ∷ rest) ss = elim (at_scope scope (reach range) ss) [
  | none ↦ (ss, err live_event_invalid)
  | some ss' ↦ advance rest ss'
]

-- The frame to send: the page, if any channel moved.
abbrev pub frames : PageProgress → List LiveAction
frames progress =
    if any (λ cr. ltb cr.from cr.to) (values progress.cursors) then send progress.page ∷ [] else []

abbrev pub after_advance :
    Subscriptions
    → PageProgress
    → List ScopeState × Result (Unit {0})
    → Subscriptions × Result (List LiveAction)
after_advance s progress (scopes, err e) = (record s { scopes = scopes }, err e)
after_advance s progress (scopes, ok u) =
    let (s', actions) = next_pull (record s { scopes = scopes }) in
    (s', ok (frames progress ++ actions))

-- `Pulled`, once `running.take()` answered `asked`.
abbrev pub on_progress :
    Subscriptions → Result PageProgress → Subscriptions × Result (List LiveAction)
on_progress s (err e) = (s, err e)
on_progress s (ok progress) = after_advance s progress (advance progress.cursors s.scopes)

unfoldable pub on_pulled :
    Serde
    → Subscriptions
    → Option (List (Text × ℕ))
    → Text
    → Subscriptions × Result (List LiveAction)
on_pulled serde s none page = (s, err live_event_invalid)
on_pulled serde s (some asked) page =
    let taken : Subscriptions = record s { running = none } in
    if s.is_closed then (taken, ok []) else on_progress taken (page_progress serde page asked)

unfoldable pub on_committed : Subscriptions → Text → Subscriptions × Result (List LiveAction)
on_committed s scope = elim (at_scope scope (λ t. record t { pending = true }) s.scopes) [
  | none ↦ (s, err live_event_invalid)
  | some scopes ↦
      let marked : Subscriptions = record s { scopes = scopes } in
      if s.is_closed || is_some s.running
      then (marked, ok [])
      else (let (s', actions) = next_pull marked in (s', ok actions))
]

abbrev pub settled : ScopeState → ScopeState
settled s = record s { pending = false }

unfoldable pub handle : Serde → Subscriptions → LiveEvent → Subscriptions × Result (List LiveAction)
unfolding on_pulled on_committed
handle serde s (committed scope) = on_committed s scope
handle serde s (pulled page) = on_pulled serde s s.running page
handle serde s closed = (record s { is_closed = true; scopes = map settled s.scopes }, ok [])
