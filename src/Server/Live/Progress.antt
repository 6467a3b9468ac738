-- ===== src/Server/Live/Progress.antt =====
-- What `page_progress` of crates/server/src/live.rs checks of a page that the host pulled.
use ahead.Common.{
  ℕ, ◌≤◌, ◌≡◌, not, List, [], ◌∷◌, some, ok, live_page_invalid, live_page_channels, refuse, or_fail,
  map_err, each, >>=-eq-ok, arith, All,
}
use ahead.Common.Text.{Text}
use ahead.Common.Map.{lookup, keys}
use ahead.Common.Map.Sorted.{IsSorted}
use ahead.Common.Order.{same_iff, text_ord}
use ahead.Core.Json.{Serde, Value}
use ahead.Core.Page.{CursorRange, PullPage, decode_page}
use ahead.Core.Page.Validity.{IsRange, decode_page-IsPage}
use ahead.Core.Subscribe.{same_texts}
use ahead.Core.Subscribe.Channels.{same_texts→eq}
use ahead.Server.Live.{PageProgress, page_progress, progression}

-- A pulled page that answers `asked`: the same channels in order, each from the cursor that was asked,
-- and none backwards.
pub record Answers (asked : List (Text × ℕ)) (p : PageProgress) : Type 0 where
  pub channels : keys p.cursors ≡ keys asked
  pub sorted : IsSorted p.cursors
  pub connects :
      (k : Text) (r : CursorRange)
      → lookup k p.cursors ≡ some r
      → (lookup k asked ≡ some r.from) × (r.from ≤ r.to)

each-progression :
    (asked : List (Text × ℕ)) (m : List (Text × CursorRange))
    → each (progression asked) m ≡ ok tt
    → All IsRange m
    → (k : Text) (r : CursorRange) → lookup k m ≡ some r
    → (lookup k asked ≡ some r.from) × (r.from ≤ r.to)
unfolding each lookup
each-progression asked [] h ranges k r l = cc
each-progression asked ((j, q) ∷ m) h ranges k r l =
    let (u, first, rest) =
      >>=-eq-ok (progression asked (j, q)) (λ _. each (progression asked) m) h in
    ground (arith, first, each-progression asked m rest ranges.1 k r, same_iff k j, ranges.0)

pub page_progress-Answers :
    (serde : Serde) (page : Text) (asked : List (Text × ℕ)) {p : PageProgress}
    → page_progress serde page asked ≡ ok p
    → Answers asked p
unfolding page_progress
page_progress-Answers serde page asked {p = p} h =
    let (value, e0, h0) = >>=-eq-ok (or_fail (serde.from_slice page) live_page_invalid) _ h in
    let (decoded, e1, h1) = >>=-eq-ok (map_err live_page_invalid (decode_page serde value)) _ h0 in
    let (u, e2, h2) =
      >>=-eq-ok (refuse (not (same_texts (keys decoded.cursors) (keys asked))) live_page_channels) _
        h1 in
    let progress : PageProgress = record { page = page; cursors = decoded.cursors } in
    let (w, e3, h3) = >>=-eq-ok (each (progression asked) decoded.cursors) (λ _. ok progress) h2 in
    let same_progress : progress ≡ p = cc h3 in
    let (valid, sorted) = decode_page-IsPage serde value {p = decoded} (unwrap value decoded e1) in
    rw (← same_progress) (record {
      channels = same_texts→eq (keys decoded.cursors) (keys asked) (ground (arith, e2));
      sorted = sorted;
      connects = each-progression asked decoded.cursors e3 valid.ranges;
    })
  where
    unwrap :
        (value : Value) (d : PullPage)
        → map_err live_page_invalid (decode_page serde value) ≡ ok d
        → decode_page serde value ≡ ok d
    unwrap value d e = ground arith
