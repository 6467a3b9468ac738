-- ===== src/Client/Downlink/Replay.antt =====
-- An applied page is applied whole, and delivering it again changes nothing: crates/client/src/downlink.rs
-- and crates/client/src/transport.rs.
use ahead.Common.{
  ℕ, Bool-cases, inl, inr, ◌≤◌, ◌≡◌, ◌≢◌, refl, ap, ◌∙◌, Bool, true, false, List, [], ◌∷◌, Option,
  some, Result, ok, err, ◌>>◌, refuse, arith, response_mismatch,
}
use ahead.Common.Text.{Text}
use ahead.Common.Map.{lookup}
use ahead.Common.Map.Sorted.{IsSorted, lookup-Below}
use ahead.Common.Order.{same_iff, same_refl, text_ord}
use ahead.Core.Json.{Serde}
use ahead.Core.Page.{CursorRange, PullPage, PullRequest, validate_page}
use ahead.Client.Pulls.{PullLedger, stale}
use ahead.Client.Report.{ApplyReport, empty_report}
use ahead.Client.State.{Db, Client, Applier, write, transact, fence}
use ahead.Client.Downlink.{
  covered, applied, DownlinkProgress, useless, gap, meet, moving_channels, land, apply_current_page,
  survey, settle_survey, receive_downlink, progress, froms, mismatched,
}
use ahead.Client.Downlink.Gate.{
  gate, or_else, moving-gate, moving-IsSorted, lookup-set_cursors, nil_none, fence_keeps,
  land-Gated,
}

-- A survey without gaps meets none.
survey-no_gap :
    (subs : List (Text × ℕ)) (m : List (Text × CursorRange)) (live : Bool)
    → survey subs m ≡ ([], live)
    → (k : Text) (r : CursorRange) → lookup k m ≡ some r
    → meet subs (k, r) ≢ gap
unfolding survey lookup
survey-no_gap subs [] live h k r l g = cc
survey-no_gap subs ((j, q) ∷ m) live h k r l g = ground (
  arith,
  λ (e : survey subs m ≡ ([], (survey subs m).1)). survey-no_gap subs m (survey subs m).1 e k r,
  same_iff k j,
  g,
)

-- Where no range is of use, the survey finds nothing.
survey-useless :
    (subs : List (Text × ℕ)) (m : List (Text × CursorRange))
    → IsSorted m
    → ((k : Text) (r : CursorRange) → lookup k m ≡ some r → meet subs (k, r) ≡ useless)
    → survey subs m ≡ ([], false)
unfolding survey lookup
survey-useless subs [] s h = refl
survey-useless subs ((j, q) ∷ m) s h = ground (
  arith,
  survey-useless subs m s.1 (λ k r l. h k r (later k r l)),
  h j q (ground (arith, same_refl j)),
)
  where
    later : (k : Text) (r : CursorRange) → lookup k m ≡ some r → lookup k ((j, q) ∷ m) ≡ some r
    later k r l = ground (arith, l, same_iff k j, lookup-Below j m s.0)

-- Each stored cursor as the gate leaves it.
abbrev pub Passed : List (Text × ℕ) → List (Text × ℕ) → List (Text × CursorRange) → Type 0
Passed subs subs' m = (j : Text) → lookup j subs' ≡ or_else (gate subs m j) (lookup j subs)

module _ {R : Type 0} (apply_records : Applier R) where
  transact-ok :
      (c c' : Client R) (body : Db R → Result (Db R × List Text × ApplyReport)) (a : ApplyReport)
      → transact c body ≡ (c', ok a)
      → (db : Db R) × (marks : List Text) × (report : ApplyReport) × (body c.db
          ≡ ok (db, marks, report))
        × (c'.db.subscriptions ≡ db.subscriptions)
  unfolding transact
  transact-ok c c' body a h = go (body c.db) refl
    where
      fenced :
          (db : Db R) (marks : List Text) (report : ApplyReport)
          → body c.db ≡ ok (db, marks, report)
          → (r : Result (Db R)) → fence c.generation db ≡ r
          → (db : Db R) × (marks : List Text) × (report : ApplyReport) × (body c.db
              ≡ ok (db, marks, report))
            × (c'.db.subscriptions ≡ db.subscriptions)
      fenced db marks report e (err d) f = cc (rw (f, transact) at (rw (e, transact) at h))
      fenced db marks report e (ok db') f =
          let same_db : db' ≡ c'.db = cc (rw (f, transact) at (rw (e, transact) at h)) in
          (db, marks, report, e, rw (← same_db) (fence_keeps c.generation db db' f))

      go :
          (r : Result (Db R × List Text × ApplyReport))
          → body c.db ≡ r
          → (db : Db R) × (marks : List Text) × (report : ApplyReport) × (body c.db
              ≡ ok (db, marks, report))
            × (c'.db.subscriptions ≡ db.subscriptions)
      go (err d) e = cc (rw (e, transact) at h)
      go (ok (db, marks, report)) e = fenced db marks report e (fence c.generation db) refl

  write-ok :
      (c c' : Client R) (body : Db R → Result (Db R × List Text × ApplyReport)) (a : ApplyReport)
      → write c body ≡ (c', ok a)
      → (db : Db R) × (marks : List Text) × (report : ApplyReport) × (body c.db
          ≡ ok (db, marks, report))
        × (c'.db.subscriptions ≡ db.subscriptions)
  unfolding write
  write-ok c c' body a h = elim (Bool-cases c.session) [
    | inl b ↦ cc (simp (b, write) at h)
    | inr b ↦ transact-ok c c' body a (simp (b, write) at h)
  ]

  landed-Passed :
      (c c' : Client R) (page : PullPage) (moving : List (Text × ℕ)) (a : ApplyReport)
      → IsSorted page.cursors
      → moving_channels c.db.subscriptions page.cursors [] ≡ ok moving
      → write c (land apply_records page moving) ≡ (c', ok a)
      → Passed c.db.subscriptions c'.db.subscriptions page.cursors
  landed-Passed c c' page moving a sorted e h j =
      let (db, marks, report, body, subs) = write-ok c c' (land apply_records page moving) a h in
      ap (lookup j) subs
      ∙ ap (lookup j) (land-Gated apply_records page moving c.db db marks report body)
      ∙ lookup-set_cursors moving c.db.subscriptions j
          (moving-IsSorted c.db.subscriptions page.cursors [] tt e)
      ∙ from_nil
    where
      from_nil :
          or_else (lookup j moving) (lookup j c.db.subscriptions)
          ≡ or_else (gate c.db.subscriptions page.cursors j) (lookup j c.db.subscriptions)
      from_nil = ground (
        arith,
        moving-gate c.db.subscriptions page.cursors [] {moving = moving} j sorted e,
        nil_none j,
      )

  apply_current_page-Passed :
      (c c' : Client R) (page : PullPage) (a : ApplyReport)
      → IsSorted page.cursors
      → apply_current_page apply_records c page ≡ (c', ok a)
      → Passed c.db.subscriptions c'.db.subscriptions page.cursors
  unfolding apply_current_page
  apply_current_page-Passed c c' page a sorted h =
      go (moving_channels c.db.subscriptions page.cursors []) refl
    where
      none_moves :
          moving_channels c.db.subscriptions page.cursors [] ≡ ok []
          → c ≡ c'
          → Passed c.db.subscriptions c'.db.subscriptions page.cursors
      none_moves e same_client j = rw (← same_client) (
          ground (
            arith,
            moving-gate c.db.subscriptions page.cursors [] {moving = []} j sorted e,
            nil_none j,
          ))

      go :
          (r : Result (List (Text × ℕ)))
          → moving_channels c.db.subscriptions page.cursors [] ≡ r
          → Passed c.db.subscriptions c'.db.subscriptions page.cursors
      go (err d) e = cc (rw (e, apply_current_page) at h)
      go (ok []) e = none_moves e (ap (λ q. q.0) (rw (e, apply_current_page) at h))
      go (ok (m ∷ ms)) e =
          landed-Passed c c' page (m ∷ ms) a sorted e (rw (e, apply_current_page) at h)

  -- What an applied page went through.
  record Applied (serde : Serde) (c c' : Client R) (page : PullPage) (request : Option PullRequest)
      : Type 0 where
    valid : (validate_page serde page >> refuse (mismatched page request) response_mismatch) ≡ ok tt
    no_gap : survey c.db.subscriptions page.cursors ≡ ([], true)
    passed : Passed c.db.subscriptions c'.db.subscriptions page.cursors

  settle_survey-applied :
      (c c' : Client R) (page : PullPage) (s : List Text × Bool) (p : DownlinkProgress)
      → IsSorted page.cursors
      → settle_survey apply_records c page s ≡ (c', ok p)
      → p.disposition ≡ applied
      → (s ≡ ([], true)) × Passed c.db.subscriptions c'.db.subscriptions page.cursors
  unfolding settle_survey
  settle_survey-applied c c' page (g ∷ gaps, live) p sorted h a = absurd (ground arith)
  settle_survey-applied c c' page ([], false) p sorted h a = absurd (ground arith)
  settle_survey-applied c c' page ([], true) p sorted h a =
      go (apply_current_page apply_records c page) refl
    where
      go :
          (r : Client R × Result ApplyReport)
          → apply_current_page apply_records c page ≡ r
          → (◌≡◌ {A = List Text × Bool} ([], true) ([], true))
            × Passed c.db.subscriptions c'.db.subscriptions page.cursors
      go (c1, err d) e = cc (rw (e, settle_survey) at h)
      go (c1, ok report) e =
          let same_client : c1 ≡ c' = ap (λ q. q.0) (rw (e, settle_survey) at h) in
          (refl, apply_current_page-Passed c c' page report sorted (rw same_client at e))

  receive_downlink-Applied :
      (serde : Serde) (c c' : Client R) (page : PullPage) (request : Option PullRequest)
      (p : DownlinkProgress)
      → IsSorted page.cursors
      → receive_downlink apply_records serde c page request ≡ (c', ok p)
      → p.disposition ≡ applied
      → Applied serde c c' page request
  unfolding receive_downlink
  receive_downlink-Applied serde c c' page request p sorted h a =
      go (validate_page serde page >> refuse (mismatched page request) response_mismatch) refl
    where
      judge :
          (u : Unit {0})
          → (validate_page serde page >> refuse (mismatched page request) response_mismatch) ≡ ok u
          → (r : PullLedger × Bool) → stale c.pulls (froms page.cursors) ≡ r
          → Applied serde c c' page request
      judge u e (pulls, true) f =
          absurd (ground (arith, rw (f, receive_downlink) at (rw (e, receive_downlink) at h)))
      judge u e (pulls, false) f =
          let (none_gap, passed) =
            settle_survey-applied (record c { pulls = pulls }) c' page
              (survey c.db.subscriptions page.cursors) p sorted
              (rw (f, receive_downlink) at (rw (e, receive_downlink) at h)) a in
          record { valid = e; no_gap = none_gap; passed = passed }

      go :
          (r : Result (Unit {0}))
          → (validate_page serde page >> refuse (mismatched page request) response_mismatch) ≡ r
          → Applied serde c c' page request
      go (err d) e = cc (rw (e, receive_downlink) at h)
      go (ok u) e = judge u e (stale c.pulls (froms page.cursors)) refl

  -- After a page was applied no range of it is of use.
  applied-useless :
      (subs subs' : List (Text × ℕ)) (m : List (Text × CursorRange))
      → survey subs m ≡ ([], true)
      → Passed subs subs' m
      → (k : Text) (r : CursorRange) → lookup k m ≡ some r
      → meet subs' (k, r) ≡ useless
  unfolding gate meet
  applied-useless subs subs' m none_gap passed k r l =
      ground (arith, passed k, l, survey-no_gap subs m true none_gap k r l)

  -- Where a page over a map of ranges was applied, every subscribed channel that it names has reached the
  -- end of its range.
  pub applied_reaches :
      (serde : Serde) (c c' : Client R) (page : PullPage) (request : Option PullRequest)
      (p : DownlinkProgress)
      → IsSorted page.cursors
      → receive_downlink apply_records serde c page request ≡ (c', ok p)
      → p.disposition ≡ applied
      → (k : Text) (r : CursorRange) (n : ℕ) → lookup k page.cursors ≡ some r
      → lookup k c'.db.subscriptions ≡ some n
      → r.to ≤ n
  unfolding meet
  applied_reaches serde c c' page request p sorted h a k r n l e =
      let v = receive_downlink-Applied serde c c' page request p sorted h a in
      ground (
        arith,
        applied-useless c.db.subscriptions c'.db.subscriptions page.cursors v.no_gap v.passed k r l,
      )

  -- Where a page over a map of ranges was applied, and is delivered again as the answer to the same
  -- request, it is found covered, and the stored state stays as it is.
  pub redelivery_covered :
      (serde : Serde) (c c' : Client R) (page : PullPage) (request : Option PullRequest)
      (p : DownlinkProgress)
      → IsSorted page.cursors
      → receive_downlink apply_records serde c page request ≡ (c', ok p)
      → p.disposition ≡ applied
      → (again : Client R) × (q : DownlinkProgress) × (receive_downlink apply_records serde c' page
            request
          ≡ (again, ok q))
        × (q.disposition ≡ covered)
        × (again.db ≡ c'.db)
  unfolding receive_downlink
  redelivery_covered serde c c' page request p sorted h a =
      let v = receive_downlink-Applied serde c c' page request p sorted h a in
      judge v (stale c'.pulls (froms page.cursors)) refl
    where
      judge :
          Applied serde c c' page request
          → (r : PullLedger × Bool) → stale c'.pulls (froms page.cursors) ≡ r
          → (again : Client R) × (q : DownlinkProgress) × (receive_downlink apply_records serde c'
                page request
              ≡ (again, ok q))
            × (q.disposition ≡ covered)
            × (again.db ≡ c'.db)
      judge v (pulls, true) f = (
        record c' { pulls = pulls },
        progress covered [] page.cursors empty_report,
        rw (v.valid, receive_downlink) (rw (f, receive_downlink) refl),
        refl,
        refl,
      )
      judge v (pulls, false) f =
          let nothing : survey c'.db.subscriptions page.cursors ≡ ([], false) =
            survey-useless c'.db.subscriptions page.cursors sorted (
              applied-useless c.db.subscriptions c'.db.subscriptions page.cursors v.no_gap
                v.passed) in
          (
            record c' { pulls = pulls },
            progress covered [] page.cursors empty_report,
            rw (v.valid, receive_downlink)
                (rw (f, receive_downlink)
                  (rw (nothing, receive_downlink) (unfold settle_survey in refl))),
            refl,
            refl,
          )
