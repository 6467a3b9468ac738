-- ===== src/Client/Downlink.antt =====
-- A page on the client: crates/client/src/downlink.rs, and `downlink_request`, `receive_downlink` and
-- `answers` of crates/client/src/transport.rs.
pub mod Gate
pub mod Replay
use ahead.Common.{
  ℕ, ◌≡◌, Bool, true, false, not, ◌&&◌, ◌||◌, List, [], ◌∷◌, ◌++◌, map, Option, none, some, Result,
  ok, err, pull_cursor_gap, cursor_moved, response_mismatch, ◌>>=◌, ◌>>◌, refuse, each, ltb, leb,
  ◌==◌, if◌then◌else◌, is_some, length, all,
}
use ahead.Common.Text.{Text}
use ahead.Common.Map.{lookup, insert, contains_key, keys}
use ahead.Common.Order.{text_ord}
use ahead.Core.Json.{Serde}
use ahead.Core.Page.{CursorRange, PullPage, PullRequest, continues, check_request, validate_page}
use ahead.Client.Pulls.{PullLedger, issue, stale, or_zero}
use ahead.Client.Report.{ApplyReport, empty_report}
use ahead.Client.State.{Db, Client, Applier, write, cursor}

pub data Disposition : Type 0 where
  covered recover applied : Disposition

pub record DownlinkProgress : Type 0 where
  pub disposition : Disposition
  pub gaps : List Text
  pub continuing : List Text
  pub report : ApplyReport

-- Whether a page answers a request: the same channels, each from the cursor that was asked.
unfoldable pub answers : PullPage → PullRequest → Bool
answers page request =
    length page.cursors == length request.cursors
    && all (λ cr. elim (lookup cr.0 request.cursors) [ none ↦ false | some n ↦ n == cr.1.from ])
        page.cursors

-- The `from` of every range of a page.
abbrev pub froms : List (Text × CursorRange) → List (Text × ℕ)
froms [] = []
froms ((c, r) ∷ m) = (c, r.from) ∷ froms m

-- The channels that a page says hold more.
unfoldable pub continuing_channels : List (Text × CursorRange) → List Text
continuing_channels [] = []
continuing_channels ((c, r) ∷ m) =
    let rest = continuing_channels m in if continues r then c ∷ rest else rest

-- How a range meets the subscriptions: it is of no use (not subscribed, or covered), it starts beyond
-- the cursor, or it moves the cursor.
pub data Meeting : Type 0 where
  useless gap moves : Meeting

unfoldable pub meet : List (Text × ℕ) → Text × CursorRange → Meeting
meet subs (channel, range) = elim (lookup channel subs) [
  | none ↦ useless
  | some current ↦
      if leb range.to current then useless else if ltb current range.from then gap else moves
]

-- `moving_channels`: the new cursor of each channel that moves; an error names a gap.
unfoldable pub moving_channels :
    List (Text × ℕ) → List (Text × CursorRange) → List (Text × ℕ) → Result (List (Text × ℕ))
moving_channels subs [] moving = ok moving
moving_channels subs ((channel, range) ∷ m) moving = elim (meet subs (channel, range)) [
  | useless ↦ moving_channels subs m moving
  | gap ↦ err pull_cursor_gap
  | moves ↦ moving_channels subs m (insert channel range.to moving)
]

-- The loop at the end of `apply_current_page`.
unfoldable pub set_cursors : List (Text × ℕ) → List (Text × ℕ) → List (Text × ℕ)
set_cursors [] subs = subs
set_cursors ((channel, to) ∷ m) subs = set_cursors m (insert channel to subs)

-- The check of each moving range inside the transaction.
abbrev pub not_moved : List (Text × ℕ) → List (Text × ℕ) → Text × CursorRange → Result (Unit {0})
not_moved subs moving (channel, range) = elim (lookup channel moving) [
  | none ↦ ok tt
  | some to ↦
      let current = or_zero (lookup channel subs) in
      refuse (not (current == range.from) && leb to current) cursor_moved
]

-- The loop of `receive_downlink`: the gaps, and whether any channel moves.
unfoldable pub survey : List (Text × ℕ) → List (Text × CursorRange) → List Text × Bool
survey subs [] = ([], false)
survey subs ((channel, range) ∷ m) =
    let (gaps, live) = survey subs m in
    elim (meet subs (channel, range)) [
      | useless ↦ (gaps, live)
      | gap ↦ (channel ∷ gaps, live)
      | moves ↦ (gaps, true)
    ]

abbrev pub progress :
    Disposition → List Text → List (Text × CursorRange) → ApplyReport → DownlinkProgress
progress disposition gaps cursors report = record {
  disposition = disposition;
  gaps = gaps;
  continuing = continuing_channels cursors;
  report = report;
}

abbrev pub mismatched : PullPage → Option PullRequest → Bool
mismatched page none = false
mismatched page (some request) = not (answers page request)

module _ {R : Type 0} (apply_records : Applier R) where
  -- The transaction of `apply_current_page`: all changes, then all cursors.
  unfoldable pub land : PullPage → List (Text × ℕ) → Db R → Result (Db R × List Text × ApplyReport)
  unfolding set_cursors each
  land page moving db = do
    each (not_moved db.subscriptions moving) page.cursors
    (rows, report) ← apply_records db.rows page.changes
    ok (
      record db { rows = rows; subscriptions = set_cursors moving db.subscriptions },
      [],
      record report { cursors = moving },
    )

  unfoldable pub apply_current_page : Client R → PullPage → Client R × Result ApplyReport
  apply_current_page c page = elim (moving_channels c.db.subscriptions page.cursors []) [
    | err e ↦ (c, err e)
    | ok [] ↦ (c, ok (record empty_report { stale = true }))
    | ok (e ∷ es) ↦ write c (land page (e ∷ es))
  ]

  -- `apply_page`, the path of the push cycle.
  unfoldable pub apply_page : Serde → Client R → PullPage → Client R × Result ApplyReport
  apply_page serde c page = elim (validate_page serde page) [
    | err e ↦ (c, err e)
    | ok u ↦
        let (pulls, old) = stale c.pulls (froms page.cursors) in
        let judged : Client R = record c { pulls = pulls } in
        if old
        then (judged, ok (record empty_report { stale = true }))
        else apply_current_page judged page
  ]

  -- After the survey: recover from a gap, apply, or report the page as covered.
  unfoldable pub settle_survey :
      Client R → PullPage → List Text × Bool → Client R × Result DownlinkProgress
  unfolding apply_current_page
  settle_survey c page (g ∷ gaps, live) =
      (c, ok (progress recover (g ∷ gaps) page.cursors empty_report))
  settle_survey c page ([], false) = (c, ok (progress covered [] page.cursors empty_report))
  settle_survey c page ([], true) =
      let (c', result) = apply_current_page c page in
      (c', result >>= λ report. ok (progress applied [] page.cursors report))

  unfoldable pub receive_downlink :
      Serde → Client R → PullPage → Option PullRequest → Client R × Result DownlinkProgress
  unfolding survey settle_survey
  receive_downlink serde c page request =
      elim (validate_page serde page >> refuse (mismatched page request) response_mismatch) [
        | err e ↦ (c, err e)
        | ok u ↦
            let (pulls, old) = stale c.pulls (froms page.cursors) in
            let judged : Client R = record c { pulls = pulls } in
            if old
            then (judged, ok (progress covered [] page.cursors empty_report))
            else settle_survey judged page (survey judged.db.subscriptions page.cursors)
      ]

module _ {R : Type 0} where
  -- `downlink_request`: one pull for every subscribed channel; none when nothing is subscribed. The
  -- request is recorded as issued before its encoding checks it.
  unfoldable pub downlink_request : Client R → Client R × Result (Option PullRequest)
  unfolding check_request
  downlink_request c = elim c.db.subscriptions [
    | [] ↦ (c, ok none)
    | e ∷ es ↦
        let request : PullRequest = record { models = c.models; cursors = e ∷ es } in
        (
          record c { pulls = issue c.pulls (e ∷ es) },
          check_request request >>= λ _. ok (some request),
        )
  ]
