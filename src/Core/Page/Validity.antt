-- ===== src/Core/Page/Validity.antt =====
-- What `PullPage::validate` and `unique_records` of crates/core/src/protocol.rs establish.
use ahead.Common.{
  ◌*◌, ◌≤◌, ◌≡◌, ◌≢◌, true, false, List, [], ◌∷◌, ok, refuse, or_fail, map_ok, not, is_some,
  wrong_type, missing_field, page_too_large, channel_empty, ltb, each, >>=-eq-ok, length, All,
  All-map, arith,
}
use ahead.Common.Text.{Text, is_empty, codes}
use ahead.Common.Map.{insert, contains_key, lookup-insert}
use ahead.Common.Map.Sorted.{IsSorted, insert-IsSorted}
use ahead.Common.Order.{same_iff, text_ord}
use ahead.Core.Json.{Value, Serde, get, index, is_object, as_object, as_array}
use ahead.Core.Counter.{read_counter, counter, max_safe_integer, pull_changes}
use ahead.Core.Record.{
  AuthorityRecord, validate_record, decode_record, key, unique_from, unique_records,
}
use ahead.Core.Page.{CursorRange, PullPage, validate_range, validate_page, decode_page, ranges_from}

-- A range of a page: a named channel, `from ≤ to ≤ head`, within the safe integers.
abbrev pub IsRange : Text × CursorRange → Type 0
IsRange (channel, range) =
    (is_empty channel ≡ false)
    × (range.from ≤ range.to)
    × (range.to ≤ range.head)
    × (range.head ≤ max_safe_integer)

validate_range-IsRange : (cr : Text × CursorRange) → validate_range cr ≡ ok tt → IsRange cr
unfolding counter
validate_range-IsRange (channel, range) h = ground arith

each-IsRange : (m : List (Text × CursorRange)) → each validate_range m ≡ ok tt → All IsRange m
unfolding each
each-IsRange [] h = tt
each-IsRange (cr ∷ m) h =
    let (u, e, rest) = >>=-eq-ok (validate_range cr) (λ _. each validate_range m) h in
    (validate_range-IsRange cr e, each-IsRange m rest)

pub ranges_from-IsSorted :
    (vs : List (Text × Value)) (m : List (Text × CursorRange)) {m' : List (Text × CursorRange)}
    → IsSorted m
    → ranges_from vs m ≡ ok m'
    → IsSorted m'
unfolding ranges_from
ranges_from-IsSorted [] m {m' = m'} s h = let e : m ≡ m' = cc in rw (← e) s
ranges_from-IsSorted ((channel, range) ∷ rest) m {m' = m'} s h =
    let (u0, e0, h0) = >>=-eq-ok (refuse (is_empty channel) channel_empty) _ h in
    let (from, e1, h1) = >>=-eq-ok (read_counter (index range (codes "from")) false) _ h0 in
    let (to, e2, h2) = >>=-eq-ok (read_counter (index range (codes "to")) false) _ h1 in
    let (head, e3, h3) = >>=-eq-ok (read_counter (index range (codes "head")) false) _ h2 in
    let r : CursorRange = record { from = from; to = to; head = head } in
    ranges_from-IsSorted rest (insert channel r m) {m' = m'} (insert-IsSorted channel r m s) h3

module _ (serde : Serde) where
  -- No two records have one key.
  abbrev pub Distinct : List AuthorityRecord → Type 0
  Distinct [] = Unit
  Distinct (r ∷ rs) = All (λ q. key serde r ≢ key serde q) rs × Distinct rs

  abbrev Fresh : List (Text × Unit {0}) → AuthorityRecord → Type 0
  Fresh seen r = (k : Text) × (key serde r ≡ ok k) × (contains_key k seen ≡ false)

  Fresh-insert :
      (seen : List (Text × Unit {0})) (k : Text) (r q : AuthorityRecord)
      → key serde r ≡ ok k
      → Fresh (insert k tt seen) q
      → Fresh seen q × (key serde r ≢ key serde q)
  Fresh-insert seen k r q e (j, ej, new) = (
    (j, ej, ground (arith, new, lookup-insert j k tt seen)),
    λ same_key. ground (arith, new, lookup-insert j k tt seen, same_iff j k, e, ej, same_key),
  )

  split_All :
      (P Q : AuthorityRecord → Type 0) (rs : List AuthorityRecord)
      → All (λ r. P r × Q r) rs
      → All P rs × All Q rs
  split_All P Q [] h = (tt, tt)
  split_All P Q (r ∷ rs) h = let (p, q) = split_All P Q rs h.1 in ((h.0.0, p), (h.0.1, q))

  unique_from-Distinct :
      (seen : List (Text × Unit {0})) (rs : List AuthorityRecord)
      → unique_from serde seen rs ≡ ok tt
      → All (λ r. validate_record r ≡ ok tt) rs × All (Fresh seen) rs × Distinct rs
  unfolding unique_from
  unique_from-Distinct seen [] h = (tt, tt, tt)
  unique_from-Distinct seen (r ∷ rs) h =
      let (u, valid, h1) = >>=-eq-ok (validate_record r) _ h in
      let (k, ek, h2) = >>=-eq-ok (key serde r) _ h1 in
      let (w, new, h3) = >>=-eq-ok (refuse (contains_key k seen) _) _ h2 in
      let (valids, fresh, distinct) = unique_from-Distinct (insert k tt seen) rs h3 in
      let (fresh', apart) =
        split_All (Fresh seen) (λ q. key serde r ≢ key serde q) rs
          (All-map (Fresh (insert k tt seen)) _ (λ q f. Fresh-insert seen k r q ek f) rs fresh) in
      ((valid, valids), ((k, ek, ground (arith, new)), fresh'), (apart, distinct))

  -- What a valid page is: it names a channel, every range is a range, it holds at most 50 changes per
  -- channel, every change is a valid record, and no two changes are of one record.
  pub record IsPage (p : PullPage) : Type 0 where
    pub named : p.cursors ≢ []
    pub ranges : All IsRange p.cursors
    pub bounded : length p.changes ≤ pull_changes * length p.cursors
    pub valid : All (λ r. validate_record r ≡ ok tt) p.changes
    pub distinct : Distinct p.changes

  pub validate_page-IsPage : (p : PullPage) → validate_page serde p ≡ ok tt → IsPage p
  unfolding validate_page unique_records
  validate_page-IsPage p h =
      let (u, some_channel, h1) =
        >>=-eq-ok (refuse (elim p.cursors [ [] ↦ true | _ ↦ false ]) _) _ h in
      let (v, ranges, h2) = >>=-eq-ok (each validate_range p.cursors) _ h1 in
      let (w, small, h3) =
        >>=-eq-ok (refuse (ltb (pull_changes * length p.cursors) (length p.changes)) page_too_large)
          (λ _. unique_records serde p.changes) h2 in
      let (valid, fresh, distinct) = unique_from-Distinct [] p.changes h3 in
      record {
        named = λ e. ground (arith, some_channel, e);
        ranges = each-IsRange p.cursors ranges;
        bounded = ground (arith, small);
        valid = valid;
        distinct = distinct;
      }

  -- Whatever JSON value is decoded as a page, the page is valid, with its channels in order.
  pub decode_page-IsPage :
      (v : Value) {p : PullPage} → decode_page serde v ≡ ok p → IsPage p × IsSorted p.cursors
  unfolding decode_page
  decode_page-IsPage v {p} h =
      let (u0, e0, h0) = >>=-eq-ok (refuse (not (is_object v)) wrong_type) _ h in
      let (u1, e1, h1) =
        >>=-eq-ok (refuse (not (is_some (get v (codes "cursors")))) missing_field) _ h0 in
      let (u2, e2, h2) =
        >>=-eq-ok (refuse (not (is_some (get v (codes "changes")))) missing_field) _ h1 in
      let (u3, e3, h3) =
        >>=-eq-ok (or_fail (as_object (index v (codes "cursors"))) wrong_type) _ h2 in
      let (cursors, e4, h4) = >>=-eq-ok (ranges_from u3 []) _ h3 in
      let (u5, e5, h5) =
        >>=-eq-ok (or_fail (as_array (index v (codes "changes"))) wrong_type) _ h4 in
      let (changes, e6, h6) = >>=-eq-ok (map_ok decode_record u5) _ h5 in
      let page : PullPage = record { cursors = cursors; changes = changes } in
      let (u7, e7, h7) = >>=-eq-ok (validate_page serde page) (λ _. ok page) h6 in
      let same_page : page ≡ p = cc h7 in
      rw (← same_page) (validate_page-IsPage page e7, ranges_from-IsSorted u3 [] tt e4)
