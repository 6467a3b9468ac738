-- ===== src/Examples/ServerLive.antt =====
-- A run of a live session, crates/server/src/live.rs: one channel at 3, whose page reaches 5 of 7.
use ahead.Common.{
  ℕ, ◌≤◌, ◌≡◌, refl, true, false, List, [], ◌∷◌, ◌++◌, none, some, ok, each, map_ok, inl,
}
use ahead.Common.Text.{Text, codes}
use ahead.Common.Order.{text_ord, lex}
use ahead.Common.Map.{insert, lookup}
use ahead.Core.Json.{index, get}
use ahead.Core.Counter.{counter, read_counter}
use ahead.Core.Record.{unique_records, unique_from}
use ahead.Core.Page.{decode_page, validate_page, ranges_from}
use ahead.Core.Subscribe.{same_texts}
use ahead.Server.Live.{
  Negotiation, Subscriptions, pulled, LiveAction, listen, send, pull, open_session, handle,
  page_progress, advance, next_pull, at_scope,
}
use ahead.Server.Live.Drain.{Session, opened, Drained, Session-Drained, IsPending, Covers}
use ahead.Server.Live.Cursors.{cursor_at}
use ahead.Server.Live.Monotone.{Inv, Session-Inv, cursor_monotone}
use ahead.Server.Live.Commits.{commit_asks, commit_waits, pending_asked}
use ahead.Examples.Protocol.{one_page}

abbrev negotiated : Negotiation
negotiated = record {
  response = codes "ack";
  heads = (codes "a", 3) ∷ [];
  models = (codes "Todo", 1) ∷ [];
}

abbrev begun : Subscriptions
begun = record {
  scopes = record { scope = codes "a"; cursor = 3; pending = false } ∷ [];
  running = some ((codes "a", 3) ∷ []);
  is_closed = false;
  models = (codes "Todo", 1) ∷ [];
}

begins : open_session negotiated ≡ (
  begun,
  listen (codes "a")
      ∷ send (codes "ack")
      ∷ pull ((codes "a", 3) ∷ []) ((codes "Todo", 1) ∷ [])
      ∷ [],
)
unfolding open_session
begins = refl

-- The page leaves the channel below its head, so the next pull follows at once.
abbrev drained : Subscriptions
drained = record begun {
  scopes = record { scope = codes "a"; cursor = 5; pending = false } ∷ [];
  running = some ((codes "a", 5) ∷ []);
}

page_drains :
    handle one_page begun (pulled (codes "page"))
    ≡ (drained, ok (send (codes "page") ∷ pull ((codes "a", 5) ∷ []) ((codes "Todo", 1) ∷ []) ∷ []))
unfolding handle page_progress advance next_pull at_scope insert lookup lex same_texts each map_ok
    decode_page validate_page ranges_from index get read_counter counter unique_records unique_from
page_drains = refl

begun-Session : Session one_page negotiated begun
unfolding open_session
begun-Session = opened refl

Session-Drained_example : Drained begun
Session-Drained_example = Session-Drained one_page negotiated begun begun-Session

Session-Inv_example : Inv begun
Session-Inv_example = Session-Inv one_page negotiated begun (tt, tt) begun-Session

cursor_monotone_example : (m' : ℕ) × (cursor_at (codes "a") drained.scopes ≡ some m') × (3 ≤ m')
unfolding cursor_at lex
cursor_monotone_example =
    cursor_monotone one_page negotiated begun drained (pulled (codes "page"))
      (send (codes "page") ∷ pull ((codes "a", 5) ∷ []) ((codes "Todo", 1) ∷ []) ∷ []) (tt, tt)
      begun-Session page_drains (codes "a") 3 refl

abbrev idling : Subscriptions
idling = record begun { running = none }

commit_asks_example :
    (cursors : List (Text × ℕ)) × (pull ((codes "a", 3) ∷ []) begun.models ∷ []
      ≡ pull cursors begun.models ∷ [])
    × (begun.running ≡ some cursors)
    × Covers cursors (codes "a")
unfolding handle next_pull at_scope insert lookup lex
commit_asks_example =
    commit_asks one_page idling begun (codes "a") (pull ((codes "a", 3) ∷ []) begun.models ∷ [])
      refl refl refl

abbrev waiting : Subscriptions
waiting = record begun { scopes = record { scope = codes "a"; cursor = 3; pending = true } ∷ [] }

commit_waits_example :
    (◌≡◌ {A = List LiveAction} [] [])
    × (waiting.running ≡ begun.running)
    × IsPending (codes "a") waiting.scopes
unfolding handle at_scope lex
commit_waits_example = commit_waits one_page begun waiting (codes "a") [] refl refl

pending_asked_example :
    (cursors : List (Text × ℕ)) × (before : List LiveAction) × (send (codes "page")
        ∷ pull ((codes "a", 5) ∷ []) begun.models
        ∷ []
      ≡ before ++ (pull cursors begun.models ∷ []))
    × (drained.running ≡ some cursors)
    × Covers cursors (codes "a")
unfolding handle page_progress advance next_pull at_scope insert lookup lex same_texts each map_ok
    decode_page validate_page ranges_from index get read_counter counter unique_records unique_from
pending_asked_example =
    pending_asked one_page waiting drained (codes "page") (codes "a")
      (send (codes "page") ∷ pull ((codes "a", 5) ∷ []) begun.models ∷ []) refl (inl (refl, refl))
      refl
