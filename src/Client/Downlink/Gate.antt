-- ===== src/Client/Downlink/Gate.antt =====
-- The cursor gate of crates/client/src/downlink.rs and crates/client/src/transport.rs: what one incoming
-- page does to the stored cursors.
use ahead.Common.{
  ℕ, ◌≤◌, ◌<◌, ◌≡◌, refl, ap, ◌∙◌, Bool, true, false, List, [], ◌∷◌, Option, none, some, Result, ok,
  err, ◌>>◌, refuse, if◌then◌else◌, leb, ltb, arith, inl, inr, ◌⊎◌, Option-cases, Bool-cases,
  response_mismatch,
}
use ahead.Common.Text.{Text}
use ahead.Common.Map.{lookup, insert, lookup-insert}
use ahead.Common.Map.Sorted.{IsSorted, insert-IsSorted, lookup-Below}
use ahead.Common.Order.{same_iff, text_ord}
use ahead.Core.Json.{Serde}
use ahead.Core.Page.{CursorRange, PullPage, PullRequest, validate_page}
use ahead.Client.Pulls.{PullLedger, stale}
use ahead.Client.Report.{ApplyReport, empty_report}
use ahead.Client.State.{Db, Client, Applier, write, transact, fence}
use ahead.Client.Downlink.{
  covered, Meeting, useless, gap, moves, meet, moving_channels, set_cursors, land,
  apply_current_page, survey, settle_survey, receive_downlink, progress, froms, mismatched,
}

-- What the gate lets through for a channel: the end of its range, if the range moves its cursor.
unfoldable pub gate : List (Text × ℕ) → List (Text × CursorRange) → Text → Option ℕ
gate subs m j = elim (lookup j m) [
  | none ↦ none
  | some r ↦ elim (meet subs (j, r)) [ moves ↦ some r.to | _ ↦ none ]
]

abbrev pub or_else : Option ℕ → Option ℕ → Option ℕ
or_else none old = old
or_else (some n) old = some n

pub moving-gate :
    (subs : List (Text × ℕ)) (m : List (Text × CursorRange)) (acc : List (Text × ℕ))
    {moving : List (Text × ℕ)} (j : Text)
    → IsSorted m
    → moving_channels subs m acc ≡ ok moving
    → lookup j moving ≡ or_else (gate subs m j) (lookup j acc)
unfolding moving_channels gate lookup
moving-gate subs [] acc j s h = ground arith
moving-gate subs ((k, r) ∷ m) acc {moving = moving} j s h =
    go (λ acc'. moving-gate subs m acc' {moving = moving} j s.1) (meet subs (k, r)) refl
  where
    go :
        ((acc' : List (Text × ℕ))
          → moving_channels subs m acc' ≡ ok moving
          → lookup j moving ≡ or_else (gate subs m j) (lookup j acc'))
        → (how : Meeting) → meet subs (k, r) ≡ how
        → lookup j moving ≡ or_else (gate subs ((k, r) ∷ m) j) (lookup j acc)
    go ih useless e =
        ground (arith, ih acc (rw (e, moving_channels) at h), same_iff j k, lookup-Below k m s.0)
    go ih gap e = cc (rw (e, moving_channels) at h)
    go ih moves e = ground (
      arith,
      ih (insert k r.to acc) (rw (e, moving_channels) at h),
      lookup-insert j k r.to acc,
      same_iff j k,
      lookup-Below k m s.0,
    )

pub moving-IsSorted :
    (subs : List (Text × ℕ)) (m : List (Text × CursorRange)) (acc : List (Text × ℕ))
    {moving : List (Text × ℕ)}
    → IsSorted acc
    → moving_channels subs m acc ≡ ok moving
    → IsSorted moving
unfolding moving_channels
moving-IsSorted subs [] acc {moving = moving} s h = let e : acc ≡ moving = cc in rw (← e) s
moving-IsSorted subs ((k, r) ∷ m) acc {moving = moving} s h =
    go (λ acc'. moving-IsSorted subs m acc' {moving = moving}) (meet subs (k, r)) refl
  where
    go :
        ((acc' : List (Text × ℕ))
          → IsSorted acc'
          → moving_channels subs m acc' ≡ ok moving
          → IsSorted moving)
        → (how : Meeting) → meet subs (k, r) ≡ how
        → IsSorted moving
    go ih useless e = ih acc s (rw (e, moving_channels) at h)
    go ih gap e = cc (rw (e, moving_channels) at h)
    go ih moves e =
        ih (insert k r.to acc) (insert-IsSorted k r.to acc s) (rw (e, moving_channels) at h)

pub lookup-set_cursors :
    (moving subs : List (Text × ℕ)) (j : Text)
    → IsSorted moving
    → lookup j (set_cursors moving subs) ≡ or_else (lookup j moving) (lookup j subs)
unfolding set_cursors lookup
lookup-set_cursors [] subs j s = refl
lookup-set_cursors ((k, n) ∷ m) subs j s = ground (
  arith,
  lookup-set_cursors m (insert k n subs) j s.1,
  lookup-insert j k n subs,
  same_iff j k,
  lookup-Below k m s.0,
)

-- What one page may do to the cursor of a channel: nothing, or, where the channel is subscribed and
-- the range starts at or before the cursor and ends after it, move the cursor to the range's end.
abbrev pub Gated : List (Text × ℕ) → List (Text × ℕ) → List (Text × CursorRange) → Text → Type 0
Gated subs subs' m j =
    (lookup j subs' ≡ lookup j subs)
    ⊎ ((r : CursorRange) × (n : ℕ) × (lookup j m ≡ some r)
        × (lookup j subs ≡ some n)
        × (r.from ≤ n)
        × (n < r.to)
        × (lookup j subs' ≡ some r.to))

gate-Gated :
    (subs subs' : List (Text × ℕ)) (m : List (Text × CursorRange)) (j : Text)
    → lookup j subs' ≡ or_else (gate subs m j) (lookup j subs)
    → Gated subs subs' m j
unfolding gate meet
gate-Gated subs subs' m j h = elim (Option-cases (lookup j m)) [
  | inl e ↦ inl (ground (arith, e))
  | inr (r, e) ↦ elim (Option-cases (lookup j subs)) [
    | inl e' ↦ inl (ground (arith, e, e'))
    | inr (n, e') ↦ elim (Bool-cases (leb r.to n)) [
      | inl b ↦ inl (ground (arith, e, e', b))
      | inr b ↦ elim (Bool-cases (ltb n r.from)) [
        | inl b' ↦ inl (ground (arith, e, e', b, b'))
        | inr b' ↦
            inr (r, n, e, e', ground (arith, b'), ground (arith, b), ground (arith, e, e', b, b'))
      ]
    ]
  ]
]

pub nil_none : (j : Text) → lookup {V = ℕ} j [] ≡ none
unfolding lookup
nil_none j = refl

pub fence_keeps :
    {R : Type 0} (generation : ℕ) (db db' : Db R)
    → fence generation db ≡ ok db'
    → db'.subscriptions ≡ db.subscriptions
unfolding fence
fence_keeps generation db db' h = ground arith

module _ {R : Type 0} (apply_records : Applier R) where
  pub land-Gated :
      (page : PullPage) (moving : List (Text × ℕ)) (db db' : Db R) (marks : List Text)
      (report : ApplyReport)
      → land apply_records page moving db ≡ ok (db', marks, report)
      → db'.subscriptions ≡ set_cursors moving db.subscriptions
  unfolding land
  land-Gated page moving db db' marks report h = ground arith

  transact-subscriptions :
      (c : Client R) (body : Db R → Result (Db R × List Text × ApplyReport))
      → ((transact c body).0.db ≡ c.db)
        ⊎ ((db : Db R) × (marks : List Text) × (report : ApplyReport) × (body c.db
              ≡ ok (db, marks, report))
            × ((transact c body).0.db.subscriptions ≡ db.subscriptions))
  unfolding transact
  transact-subscriptions c body = go (body c.db) refl
    where
      fenced :
          (db : Db R) (marks : List Text) (report : ApplyReport)
          → body c.db ≡ ok (db, marks, report)
          → (r : Result (Db R)) → fence c.generation db ≡ r
          → ((transact c body).0.db ≡ c.db)
            ⊎ ((db : Db R) × (marks : List Text) × (report : ApplyReport) × (body c.db
                  ≡ ok (db, marks, report))
                × ((transact c body).0.db.subscriptions ≡ db.subscriptions))
      fenced db marks report e (err d) f = inl (rw (e, transact) (rw (f, transact) refl))
      fenced db marks report e (ok db') f = inr (
        db,
        marks,
        report,
        e,
        rw (e, transact) (rw (f, transact) (fence_keeps c.generation db db' f)),
      )

      go :
          (r : Result (Db R × List Text × ApplyReport))
          → body c.db ≡ r
          → ((transact c body).0.db ≡ c.db)
            ⊎ ((db : Db R) × (marks : List Text) × (report : ApplyReport) × (body c.db
                  ≡ ok (db, marks, report))
                × ((transact c body).0.db.subscriptions ≡ db.subscriptions))
      go (err d) e = inl (rw (e, transact) refl)
      go (ok (db, marks, report)) e = fenced db marks report e (fence c.generation db) refl

  write-subscriptions :
      (c : Client R) (body : Db R → Result (Db R × List Text × ApplyReport))
      → ((write c body).0.db ≡ c.db)
        ⊎ ((db : Db R) × (marks : List Text) × (report : ApplyReport) × (body c.db
              ≡ ok (db, marks, report))
            × ((write c body).0.db.subscriptions ≡ db.subscriptions))
  unfolding write
  write-subscriptions c body = elim (Bool-cases c.session) [
    | inl b ↦ inl (simp (b, write) refl)
    | inr b ↦ simp (b, write) (transact-subscriptions c body)
  ]

  apply_current_page-Gated :
      (c : Client R) (page : PullPage) (j : Text)
      → IsSorted page.cursors
      → Gated c.db.subscriptions
          (apply_current_page apply_records c page).0.db.subscriptions
          page.cursors
          j
  unfolding apply_current_page
  apply_current_page-Gated c page j sorted =
      go (moving_channels c.db.subscriptions page.cursors []) refl
    where
      landed :
          (moving : List (Text × ℕ))
          → moving_channels c.db.subscriptions page.cursors [] ≡ ok moving
          → Gated c.db.subscriptions
              (write c (land apply_records page moving)).0.db.subscriptions
              page.cursors
              j
      landed moving e = elim (write-subscriptions c (land apply_records page moving)) [
        | inl kept ↦ inl (ap (λ d. lookup j d.subscriptions) kept)
        | inr (db, marks, report, body, subs) ↦ gate-Gated c.db.subscriptions _ page.cursors j (
            ap (lookup j) subs
            ∙ ap (lookup j) (land-Gated page moving c.db db marks report body)
            ∙ lookup-set_cursors moving c.db.subscriptions j
                (moving-IsSorted c.db.subscriptions page.cursors [] tt e)
            ∙ gate_from_nil moving e)
      ]
        where
          gate_from_nil :
              (moving : List (Text × ℕ))
              → moving_channels c.db.subscriptions page.cursors [] ≡ ok moving
              → or_else (lookup j moving) (lookup j c.db.subscriptions)
                ≡ or_else (gate c.db.subscriptions page.cursors j) (lookup j c.db.subscriptions)
          gate_from_nil moving e = ground (
            arith,
            moving-gate c.db.subscriptions page.cursors [] {moving = moving} j sorted e,
            nil_none j,
          )

      go :
          (r : Result (List (Text × ℕ)))
          → moving_channels c.db.subscriptions page.cursors [] ≡ r
          → Gated c.db.subscriptions
              (apply_current_page apply_records c page).0.db.subscriptions
              page.cursors
              j
      go (err d) e = inl (rw (e, apply_current_page) refl)
      go (ok []) e = inl (rw (e, apply_current_page) refl)
      go (ok (m ∷ ms)) e = rw (e, apply_current_page) (landed (m ∷ ms) e)

  settle_survey-Gated :
      (c : Client R) (page : PullPage) (s : List Text × Bool) (j : Text)
      → IsSorted page.cursors
      → Gated c.db.subscriptions
          (settle_survey apply_records c page s).0.db.subscriptions
          page.cursors
          j
  unfolding settle_survey
  settle_survey-Gated c page (g ∷ gaps, live) j sorted = inl refl
  settle_survey-Gated c page ([], false) j sorted = inl refl
  settle_survey-Gated c page ([], true) j sorted = apply_current_page-Gated c page j sorted

  -- Whatever becomes of an incoming page over a map of ranges, errors included, each channel's cursor stays as it was, or is
  -- the cursor of a subscribed channel and moves forward to the end of a range of the page that starts
  -- at or before it. No page subscribes a channel, and none moves a cursor back or across a gap.
  pub receive_downlink-Gated :
      (serde : Serde) (c : Client R) (page : PullPage) (request : Option PullRequest) (j : Text)
      → IsSorted page.cursors
      → Gated c.db.subscriptions
          (receive_downlink apply_records serde c page request).0.db.subscriptions
          page.cursors
          j
  unfolding receive_downlink
  receive_downlink-Gated serde c page request j sorted =
      go (validate_page serde page >> refuse (mismatched page request) response_mismatch) refl
    where
      judge :
          (r : PullLedger × Bool)
          → stale c.pulls (froms page.cursors) ≡ r
          → Gated c.db.subscriptions
              (if r.1
                then (record c { pulls = r.0 }, ok (progress covered [] page.cursors empty_report))
                else settle_survey apply_records
                    (record c { pulls = r.0 })
                    page
                    (survey c.db.subscriptions page.cursors)).0.db.subscriptions
              page.cursors
              j
      judge (pulls, true) e = inl refl
      judge (pulls, false) e =
          settle_survey-Gated (record c { pulls = pulls }) page
            (survey c.db.subscriptions page.cursors) j sorted

      go :
          (r : Result (Unit {0}))
          → (validate_page serde page >> refuse (mismatched page request) response_mismatch) ≡ r
          → Gated c.db.subscriptions
              (receive_downlink apply_records serde c page request).0.db.subscriptions
              page.cursors
              j
      go (err d) e = inl (rw (e, receive_downlink) refl)
      go (ok u) e = rw (e, receive_downlink) (judge (stale c.pulls (froms page.cursors)) refl)
