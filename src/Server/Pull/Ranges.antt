-- ===== src/Server/Pull/Ranges.antt =====
-- The ranges of the page that `process_pull` of crates/server/src/lib.rs serves.
use ahead.Common.{
  suc, ℕ, ◌≤◌, ◌<◌, ◌≡◌, refl, sym, ap, ◌∙◌, ◌⊎◌, inl, inr, Bool, true, false, not, ◌&&◌, ◌||◌,
  List, [], ◌∷◌, ◌++◌, none, some, map, if◌then◌else◌, ltb, leb, ◌==◌, length, all, All, All-append,
  arith,
}
use ahead.Common.Text.{Text}
use ahead.Common.Map.{lookup}
use ahead.Common.Map.Sorted.{IsSorted, Below}
use ahead.Common.Map.Joined.{Joined, Joined-nil, Joined-step, insert_last, append_none}
use ahead.Common.Order.{same, same_refl, text_ord}
use ahead.Core.Json.{Serde}
use ahead.Core.Counter.{pull_changes}
use ahead.Core.Page.{CursorRange, PullPage, PullRequest}
use ahead.Core.Record.{AuthorityRecord}
use ahead.Core.Schema.{Scalars, RecordKey}
use ahead.Client.Downlink.{answers, froms}
use ahead.Server.Config.{
  Outcome, refused, done, Config, refuse_code, request_invalid, storage_invalid,
}
use ahead.Server.Host.{Host, lift, call_typed, head, scan, Invalidation}
use ahead.Server.Host.Returns.{
  Given, Given-done, Given-then, Given-map, Given-any, Given-lift, Given-refuse,
}
use ahead.Server.Pull.{
  Found, check_row, check_rows, find_record, pull_channel, pull_channels, pull_page, load_records,
  group_records, record_of,
}

-- A range goes on from where it starts, within the channel, and it moves unless it is at the head.
abbrev pub Moves : CursorRange → Type 0
Moves r = (r.from ≤ r.to) × (r.to ≤ r.head) × ((r.to ≡ r.head) ⊎ (r.from < r.to))

-- The page covers the request: the same channels, each from its cursor.
Below-froms : (k : Text) (m : List (Text × CursorRange)) → Below k (froms m) → Below k m
Below-froms k [] b = tt
Below-froms k ((c, r) ∷ m) b = (b.0, Below-froms k m b.1)

froms_next :
    (acc : List (Text × CursorRange)) (channel : Text) (r : CursorRange) (from : ℕ)
    (rest : List (Text × ℕ))
    → r.from ≡ from
    → froms (acc ++ ((channel, r) ∷ [])) ++ rest ≡ froms acc ++ ((channel, from) ∷ rest)
froms_next [] channel r from rest e = ap (λ n. (channel, n) ∷ rest) e
froms_next ((c, q) ∷ acc) channel r from rest e =
    ap (◌∷◌ (c, q.from)) (froms_next acc channel r from rest e)

length-froms : (m : List (Text × CursorRange)) → length (froms m) ≡ length m
length-froms [] = refl
length-froms ((c, r) ∷ m) = ap suc (length-froms m)

abbrev asked : List (Text × ℕ) → Text × CursorRange → Bool
asked cursors cr = elim (lookup cr.0 cursors) [ none ↦ false | some n ↦ n == cr.1.from ]

asked_later :
    (k : Text) (n : ℕ) (cursors : List (Text × ℕ)) (m : List (Text × CursorRange))
    → Below k m
    → all (asked cursors) m ≡ true
    → all (asked ((k, n) ∷ cursors)) m ≡ true
unfolding lookup
asked_later k n cursors [] b h = refl
asked_later k n cursors ((c, r) ∷ m) b h =
    ground (arith, asked_later k n cursors m b.1, b.0, text_ord.cmp_swap k c, h)

asked-froms : (m : List (Text × CursorRange)) → IsSorted (froms m) → all (asked (froms m)) m ≡ true
unfolding lookup
asked-froms [] s = refl
asked-froms ((c, r) ∷ m) s =
    ground (
      arith,
      same_refl c,
      asked_later c r.from (froms m) m (Below-froms c m s.0) (asked-froms m s.1),
    )

answers-froms :
    (m : List (Text × CursorRange)) (changes : List AuthorityRecord) (request : PullRequest)
    → froms m ≡ request.cursors
    → IsSorted request.cursors
    → answers (record { cursors = m; changes = changes }) request ≡ true
unfolding answers
answers-froms m changes request e sorted =
    rw (← e) (both (length m == length (froms m)) (same_length m) (asked-froms m (rw e sorted)))
  where
    same_length : (m : List (Text × CursorRange)) → (length m == length (froms m)) ≡ true
    same_length m = ground (arith, length-froms m)

    both : (t : Bool) {u : Bool} → t ≡ true → u ≡ true → (t && u) ≡ true
    both true e f = f
    both false e f = e

module _ (serde : Serde) (scalars : Scalars) (config : Config) where
  check_row-bounds :
      (channel : Text) (maximum : ℕ) (row : Invalidation) (previous : ℕ) (k : Text)
      (key : RecordKey)
      → check_row serde scalars config channel maximum row previous ≡ done (k, key)
      → (previous < row.cursor) × (row.cursor ≤ maximum)
  unfolding check_row
  check_row-bounds channel maximum row previous k key h =
      go _ (not (same row.channel channel) || (leb row.cursor previous || ltb maximum row.cursor))
        refl h
    where
      go :
          (o : Outcome (Text × RecordKey)) (t : Bool)
          → (not (same row.channel channel) || (leb row.cursor previous || ltb maximum row.cursor))
            ≡ t
          → (if t then refused storage_invalid else o) ≡ done (k, key)
          → (previous < row.cursor) × (row.cursor ≤ maximum)
      go o true e h = cc
      go o false e h = ground (arith, e)

  -- The cursor after the rows: beyond the first where there are rows, within the channel.
  check_rows-bounds :
      (channel : Text) (maximum : ℕ) (scanned : List Invalidation) (previous : ℕ) (found : Found)
      (last : ℕ) (next : Found)
      → previous ≤ maximum
      → check_rows serde scalars config channel maximum scanned previous found ≡ done (last, next)
      → (previous ≤ last) × (last ≤ maximum) × ((length scanned ≡ 0) ⊎ (previous < last))
  unfolding check_rows
  check_rows-bounds channel maximum [] previous found last next b h = ground arith
  check_rows-bounds channel maximum (row ∷ rest) previous found last next b h =
      go (check_row serde scalars config channel maximum row previous) refl h
        λ next_found. check_rows-bounds channel maximum rest row.cursor next_found last next
    where
      go :
          (o : Outcome (Text × RecordKey))
          → check_row serde scalars config channel maximum row previous ≡ o
          → (elim o as (λ o. Outcome (ℕ × Found)) [
            | refused c ↦ refused c
            | done (k, key) ↦
                check_rows serde scalars config channel maximum rest row.cursor
                  (find_record k key row.stamp found)
          ])
            ≡ done (last, next)
          → ((f : Found)
              → row.cursor ≤ maximum
              → check_rows serde scalars config channel maximum rest row.cursor f
                ≡ done (last, next)
              → (row.cursor ≤ last) × (last ≤ maximum) × ((length rest ≡ 0) ⊎ (row.cursor < last)))
          → (previous ≤ last) × (last ≤ maximum) × ((length (row ∷ rest) ≡ 0) ⊎ (previous < last))
      go (refused c) e h ih = cc
      go (done (k, key)) e h ih =
          let (above, within) = check_row-bounds channel maximum row previous k key e in
          let (low, high, other) = ih (find_record k key row.stamp found) within h in
          (omega (arith, above, low), high, inr (omega (arith, above, low)))

  module _ {S : Type 0} (host : Host S) where
    abbrev Continued : ℕ → CursorRange × Found → Type 0
    Continued from rf = (rf.0.from ≡ from) × Moves rf.0

    stops_within :
        (from maximum last n : ℕ)
        → from ≤ maximum
        → from ≤ last
        → last ≤ maximum
        → (n ≡ 0) ⊎ (from < last)
        → Moves (record {
          from = from;
          to = if n == pull_changes then last else maximum;
          head = maximum;
        })
    stops_within from maximum last n a b c (inl e) = rw e (a, omega arith, inl refl)
    stops_within from maximum last n a b c (inr l) = ground (arith, a, b, c, l)

    pull_channel-Continued :
        (channel : Text) (from : ℕ) (found : Found) (s : S)
        → Given (Continued from) (pull_channel serde scalars config host channel from found s)
    unfolding pull_channel
    pull_channel-Continued channel from found s =
        Given-any (Continued from) (call_typed host (head channel) s) _ λ maximum s1.
          Given-then (λ u. ltb maximum from ≡ false) (Continued from)
            (lift (refuse_code (ltb maximum from) request_invalid) s1) _
            (Given-refuse (ltb maximum from) request_invalid s1)
            λ u low s2.
              Given-any (Continued from) (call_typed host (scan channel from pull_changes) s2) _
                λ scanned s3.
                  Given-any (Continued from)
                    (lift (refuse_code (ltb pull_changes (length scanned)) storage_invalid) s3) _
                    λ v s4.
                      Given-then
                        (λ r.
                          check_rows serde scalars config channel maximum scanned from found
                          ≡ done r)
                        (Continued from)
                        (lift (check_rows serde scalars config channel maximum scanned from found)
                          s4)
                        _
                        (Given-lift
                          (check_rows serde scalars config channel maximum scanned from found) s4)
                        λ r e s5.
                          let within : from ≤ maximum = ground (arith, low) in
                          let (above, below, other) =
                            check_rows-bounds channel maximum scanned from found r.0 r.1 within e in
                          (
                            refl,
                            stops_within from maximum r.0 (length scanned) within above below other,
                          )

    abbrev AllMove : List (Text × CursorRange) → Type 0
    AllMove m = All (λ e. Moves e.1) m

    pull_channels-froms :
        (cursors : List (Text × ℕ)) (acc : List (Text × CursorRange)) (found : Found) (s : S)
        → Joined acc cursors
        → AllMove acc
        → Given
            (λ cf. (froms cf.0 ≡ froms acc ++ cursors) × AllMove cf.0)
            (pull_channels serde scalars config host cursors acc found s)
    unfolding pull_channels
    pull_channels-froms [] acc found s j a = (sym (append_none (froms acc)), a)
    pull_channels-froms ((channel, from) ∷ rest) acc found s j a =
        Given-then (Continued from) _ (pull_channel serde scalars config host channel from found s)
          _ (pull_channel-Continued channel from found s)
          λ rf c t. rw (insert_last channel rf.0 acc j.0.0) (
            Given-map _ _
              (pull_channels serde scalars config host rest (acc ++ ((channel, rf.0) ∷ [])) rf.1 t)
              (λ cf h. (h.0 ∙ froms_next acc channel rf.0 from rest c.0, h.1))
              (pull_channels-froms rest (acc ++ ((channel, rf.0) ∷ [])) rf.1 t
                (Joined-step acc channel rf.0 from rest j)
                (All-append (λ e. Moves e.1) acc ((channel, rf.0) ∷ []) a (c.1, tt))))

    -- A page that is served answers its request, as the client checks it, and each of its ranges moves on
    -- from the asked cursor or is at the head of its channel.
    pub pull_page-answers :
        (owner : Text) (request : PullRequest) (s s' : S) (page : PullPage)
        → IsSorted request.cursors
        → pull_page serde scalars config host owner request s ≡ (s', done page)
        → (answers page request ≡ true) × AllMove page.cursors
    unfolding pull_page
    pull_page-answers owner request s s' page sorted h =
        Given-done (λ page. (answers page request ≡ true) × AllMove page.cursors)
          (pull_page serde scalars config host owner request s) s' page
          (Given-then _ _ (pull_channels serde scalars config host request.cursors [] [] s) _
            (pull_channels-froms request.cursors [] [] s
              (Joined-nil CursorRange request.cursors sorted) tt)
            λ cf c s1.
              Given-any _
                (load_records serde scalars config host request owner (group_records cf.1 []) [] s1)
                _
                λ states s2.
                  (answers-froms cf.0 (map (record_of states) cf.1) request c.0 sorted, c.1))
          h
