-- ===== src/Examples/Downlink.antt =====
-- Pages and live sessions of the client at concrete inputs.
use ahead.Common.{
  ℕ, List, ◌≢◌, err, channel_empty, arith, ◌≤◌, ◌≡◌, refl, true, false, [], ◌∷◌, none, some, ok,
}
use ahead.Common.Text.{Text, codes}
use ahead.Common.Order.{text_ord, lex}
use ahead.Common.Map.{lookup, insert}
use ahead.Core.Page.{validate_page}
use ahead.Core.Counter.{counter}
use ahead.Core.Record.{unique_records, unique_from}
use ahead.Common.{each}
use ahead.Client.Connection.{default}
use ahead.Client.Pulls.{empty_ledger, issue, absorb, stale, take_first}
use ahead.Client.Pulls.Stale.{asked_now, asked, answered, committed, stale_iff_touched, touches}
use ahead.Client.Report.{empty_report}
use ahead.Client.State.{Client, Applier, write, transact, fence}
use ahead.Client.Downlink.{
  covered, applied, DownlinkProgress, receive_downlink, set_cursors, survey, meet, land,
  apply_current_page, moving_channels, settle_survey, continuing_channels,
}
use ahead.Client.Downlink.Gate.{Gated, receive_downlink-Gated}
use ahead.Client.Downlink.Replay.{applied_reaches, redelivery_covered}
use ahead.Client.Connection.{ConnectionDriver, ConnectionAction, sync}
use ahead.Client.Connection
use ahead.Core.Subscribe.{normalize_channels}
use ahead.Client.Live.Stuck.{Silent, here, further, refused_request_sticks}
use ahead.Client.Live.{wake, next, pause, new_subscribe, LiveSession, message, handle}
use ahead.Client.Live.Safety.{Safe}
use ahead.Client.Live.Forward.{handle_forward}
use ahead.Examples.Protocol.{one_page, decoded}

-- Rows that take every record.
abbrev keep_rows : Applier (Unit {0})
keep_rows = λ rows records. ok (rows, empty_report)

-- Subscribed to `a`, whose cursor is 3.
abbrev reader : Client (Unit {0})
reader = record {
  db = record { subscriptions = (codes "a", 3) ∷ []; generation = 1; rows = tt };
  generation = 1;
  session = false;
  pulls = empty_ledger;
  models = [];
}

abbrev moved_reader : Client (Unit {0})
moved_reader = record {
  db = record { subscriptions = (codes "a", 5) ∷ []; generation = 2; rows = tt };
  generation = 2;
  session = false;
  pulls = empty_ledger;
  models = [];
}

abbrev after : DownlinkProgress
after = record {
  disposition = applied;
  gaps = [];
  continuing = codes "a" ∷ [];
  report = record empty_report { cursors = (codes "a", 5) ∷ [] };
}

-- The page from 3 to 5 of 7 moves the cursor.
lands : receive_downlink keep_rows one_page reader decoded none ≡ (moved_reader, ok after)
unfolding receive_downlink validate_page each unique_records unique_from lex stale take_first survey
    meet settle_survey apply_current_page moving_channels insert write transact land fence
    set_cursors continuing_channels counter lookup absorb
lands = refl

receive_downlink-Gated_example :
    Gated reader.db.subscriptions
      (receive_downlink keep_rows one_page reader decoded none).0.db.subscriptions
      decoded.cursors
      (codes "a")
receive_downlink-Gated_example =
    receive_downlink-Gated keep_rows one_page reader decoded none (codes "a") (tt, tt)

applied_reaches_example : 5 ≤ 5
unfolding lookup lex
applied_reaches_example =
    applied_reaches keep_rows one_page reader moved_reader decoded none after (tt, tt) lands refl
      (codes "a") (record { from = 3; to = 5; head = 7 }) 5 refl refl

redelivery_covered_example :
    (again : Client (Unit {0})) × (q : DownlinkProgress) × (receive_downlink keep_rows one_page
        moved_reader decoded none
      ≡ (again, ok q))
    × (q.disposition ≡ covered)
    × (again.db ≡ moved_reader.db)
redelivery_covered_example =
    redelivery_covered keep_rows one_page reader moved_reader decoded none after (tt, tt) lands refl

abbrev a_cursors : List (Text × ℕ)
a_cursors = (codes "a", 3) ∷ []

abbrev b_cursors : List (Text × ℕ)
b_cursors = (codes "b", 1) ∷ []

others : b_cursors ≢ a_cursors
others h = let e : codes "b" ≡ codes "a" = cc in absurd (ground (arith, e))

-- A request for `a` is outstanding while one for `b` is issued and answered, when `a` is unsubscribed.
stale_iff_touched_example :
    (stale
      (absorb (stale (issue (issue empty_ledger a_cursors) b_cursors) b_cursors).0 (codes "a" ∷ []))
      a_cursors).1
    ≡ touches a_cursors (codes "a" ∷ [])
unfolding take_first
stale_iff_touched_example =
    stale_iff_touched empty_ledger
      (absorb (stale (issue (issue empty_ledger a_cursors) b_cursors) b_cursors).0 (codes "a" ∷ []))
      a_cursors (codes "a" ∷ []) 1 refl
      (committed (codes "a" ∷ []) (answered b_cursors others (asked b_cursors others asked_now)))
      (omega arith)

-- An acknowledged session with nothing queued.
abbrev streaming : LiveSession
streaming = record {
  driver = default;
  epoch = 1;
  session = some (record {
    epoch = 1;
    generation = 0;
    subscribe = record { channels = codes "a" ∷ []; models = [] };
    acked = true;
    active = none;
    again = false;
    queue = [];
  });
}

handle_forward_example :
    Safe
      (record { live = streaming; client = reader; actions = [] })
      (handle keep_rows one_page streaming reader (message 1 (codes "frame")) 10 7).0
handle_forward_example =
    handle_forward keep_rows one_page streaming reader (message 1 (codes "frame")) 10 7
      (tt, omega arith)

-- A started lane whose client subscribed to a channel with an empty name.
abbrev begun : LiveSession
begun = record {
  driver = record default { running = true; dirty = true };
  epoch = 0;
  session = none;
}

abbrev nameless : Client (Unit {0})
nameless = record {
  db = record { subscriptions = ([], 0) ∷ []; generation = 1; rows = tt };
  generation = 1;
  session = false;
  pulls = empty_ledger;
  models = (codes "todo", 1) ∷ [];
}

due :
    Connection.next (record default { running = true; dirty = true }) 0
    ≡ (record default { running = true; in_flight = true }, sync)
unfolding Connection.next
due = refl

refused : new_subscribe ([] ∷ []) nameless.models ≡ err channel_empty
unfolding new_subscribe normalize_channels
refused = refl

-- It is woken and paused before the event that is looked at.
abbrev stuck : LiveSession
stuck = (handle keep_rows one_page begun nameless next 0 0).0.live

abbrev woken : LiveSession
woken = (handle keep_rows one_page stuck reader wake 5 5).0.live

refused_request_sticks_example :
    ((handle keep_rows one_page begun nameless next 0 0).1 ≡ err channel_empty)
    × Silent (
        handle keep_rows one_page
          (handle keep_rows one_page woken nameless pause 7 7).0.live
          reader
          next
          9
          9)
refused_request_sticks_example =
    refused_request_sticks keep_rows one_page begun
      (handle keep_rows one_page woken nameless pause 7 7).0.live nameless reader next 0 0 9 9
      (record default { running = true; in_flight = true }) [] [] channel_empty refl due refl
      refused (further (further here reader wake 5 5 tt) nameless pause 7 7 tt) tt
