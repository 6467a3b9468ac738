-- ===== src/Core/Encode/RoundTrip.antt =====
-- What crates/core/src/protocol.rs encodes it decodes again.
use ahead.Common.{
  ℕ, ◌≡◌, refl, sym, ap, ◌∙◌, true, false, List, [], ◌∷◌, ◌++◌, map, Option, none, some, ok,
  >>=-eq-ok, refuse, map_ok, each, arith, channel_empty, All,
}
use ahead.Common.Text.{Text, is_empty}
use ahead.Common.Map.{insert}
use ahead.Common.Map.Sorted.{IsSorted}
use ahead.Common.Map.Joined.{Joined, Joined-nil, Joined-step, insert_last, append_one, append_none}
use ahead.Common.Order.{text_ord, lex}
use ahead.Core.Json.{
  Value, num, natural, items, entries, of_items, of_entries, get, find, index, Serde,
}
use ahead.Core.Counter.{
  counter, read_counter, read_cursors, cursor_entries, read_models, model_entries,
}
use ahead.Core.Page.{
  CursorRange, PullPage, PullRequest, ranges_from, validate_range, validate_page, decode_page,
  decode_request, check_request, check_models, model_ok, cursor_ok,
}
use ahead.Core.Page.Validity.{validate_page-IsPage}
use ahead.Core.Record.{AuthorityRecord, validate_record, record_from_value, decode_record}
use ahead.Core.Encode.{
  counter_value, counters_value, record_value, range_value, page_value, request_value,
}

pub entries-of_entries : (m : List (Text × Value)) → entries (of_entries m) ≡ m
entries-of_entries [] = refl
entries-of_entries ((k, v) ∷ m) = ap (◌∷◌ (k, v)) (entries-of_entries m)

pub items-of_items : (vs : List Value) → items (of_items vs) ≡ vs
items-of_items [] = refl
items-of_items (v ∷ vs) = ap (◌∷◌ v) (items-of_items vs)

abbrev encoded_range : Text × CursorRange → Text × Value
encoded_range kv = (kv.0, range_value kv.1)

read_counter-natural :
    (n : ℕ) {m : ℕ} → counter n ≡ ok m → read_counter (num (natural n)) false ≡ ok n
unfolding counter read_counter
read_counter-natural n h = ground arith

range_read :
    (k : Text) (r : CursorRange) (rest : List (Text × Value)) (acc : List (Text × CursorRange))
    → validate_range (k, r) ≡ ok tt
    → ranges_from ((k, range_value r) ∷ rest) acc ≡ ranges_from rest (insert k r acc)
unfolding ranges_from range_value index find get lex
range_read k r rest acc h =
    let (u, named, h1) = >>=-eq-ok (refuse (is_empty k) channel_empty) _ h in
    let (from, from_ok, h2) = >>=-eq-ok (counter r.from) _ h1 in
    let (to, to_ok, h3) = >>=-eq-ok (counter r.to) _ h2 in
    let (head, head_ok, h4) = >>=-eq-ok (counter r.head) _ h3 in
    rw
      (
        named,
        read_counter-natural r.from from_ok,
        read_counter-natural r.to to_ok,
        read_counter-natural r.head head_ok,
      )
      refl

ranges_from-encoded :
    (m acc : List (Text × CursorRange))
    → Joined acc m
    → each validate_range m ≡ ok tt
    → ranges_from (map encoded_range m) acc ≡ ok (acc ++ m)
unfolding ranges_from each
ranges_from-encoded [] acc j h = ap ok (sym (append_none acc))
ranges_from-encoded ((k, r) ∷ m) acc j h =
    let (u, here, later) = >>=-eq-ok (validate_range (k, r)) (λ u. each validate_range m) h in
    range_read k r (map encoded_range m) acc here
    ∙ ap (ranges_from (map encoded_range m)) (insert_last k r acc j.0.0)
    ∙ ranges_from-encoded m (acc ++ ((k, r) ∷ [])) (Joined-step acc k r r m j) later
    ∙ ap ok (append_one acc (k, r) m)

abbrev whole_record : Text → Value → ℕ → Value → Option Text → AuthorityRecord
whole_record m i n v e = record { model = m; identity = i; stamp = n; state = v; error = e }

record_parts :
    (m : Text) (i : Value) (n : ℕ) (v : Value) (e : Option Text)
    → validate_record (whole_record m i n v e) ≡ ok tt
    → decode_record (record_value (whole_record m i n v e)) ≡ ok (whole_record m i n v e)
unfolding decode_record record_from_value record_value get find lex
record_parts m i n v none h = rw h refl
record_parts m i n v (some code) h = rw h refl

-- A valid record is decoded from the value it is encoded as.
pub record_read :
    (r : AuthorityRecord) → validate_record r ≡ ok tt → decode_record (record_value r) ≡ ok r
record_read r h = record_parts r.model r.identity r.stamp r.state r.error h

records_read :
    (rs : List AuthorityRecord)
    → All (λ r. validate_record r ≡ ok tt) rs
    → map_ok decode_record (map record_value rs) ≡ ok rs
unfolding map_ok
records_read [] h = refl
records_read (r ∷ rs) h = rw (record_read r h.0) (rw (records_read rs h.1) refl)

abbrev page_of : List (Text × CursorRange) → List AuthorityRecord → PullPage
page_of m rs = record { cursors = m; changes = rs }

module _ (serde : Serde) where
  page_parts :
      (m : List (Text × CursorRange)) (rs : List AuthorityRecord)
      → ranges_from (map encoded_range m) [] ≡ ok m
      → map_ok decode_record (map record_value rs) ≡ ok rs
      → validate_page serde (page_of m rs) ≡ ok tt
      → decode_page serde (page_value (page_of m rs)) ≡ ok (page_of m rs)
  unfolding decode_page page_value index get find lex
  page_parts m rs read_ranges read_changes h =
      rw
        (
          entries-of_entries (map encoded_range m),
          items-of_items (map record_value rs),
          read_ranges,
          read_changes,
          h,
        )
        refl

  -- A valid page whose channels stand in order is decoded from the value it is encoded as.
  pub decode_page-page_value :
      (p : PullPage)
      → IsSorted p.cursors
      → validate_page serde p ≡ ok tt
      → decode_page serde (page_value p) ≡ ok p
  unfolding validate_page
  decode_page-page_value p s h =
      let (u, e, h1) = >>=-eq-ok (refuse (elim p.cursors [ [] ↦ true | _ ↦ false ]) _) _ h in
      let (v, ranges, h2) = >>=-eq-ok (each validate_range p.cursors) _ h1 in
      page_parts p.cursors p.changes
        (ranges_from-encoded p.cursors [] (Joined-nil CursorRange p.cursors s) ranges)
        (records_read p.changes (validate_page-IsPage serde p h).valid) h

abbrev encoded_counter : Text × ℕ → Text × Value
encoded_counter kv = (kv.0, counter_value kv.1)

model_entries-encoded :
    (m acc : List (Text × ℕ))
    → Joined acc m
    → each model_ok m ≡ ok tt
    → model_entries (map encoded_counter m) acc ≡ ok (acc ++ m)
unfolding model_entries each read_counter
model_entries-encoded [] acc j h = ap ok (sym (append_none acc))
model_entries-encoded ((k, n) ∷ m) acc j h = ground (
  arith,
  insert_last k n acc j.0.0,
  model_entries-encoded m (acc ++ ((k, n) ∷ [])) (Joined-step acc k n n m j),
  append_one acc (k, n) m,
)

cursor_entries-encoded :
    (m acc : List (Text × ℕ))
    → Joined acc m
    → each cursor_ok m ≡ ok tt
    → cursor_entries (map encoded_counter m) acc ≡ ok (acc ++ m)
unfolding cursor_entries each read_counter
cursor_entries-encoded [] acc j h = ap ok (sym (append_none acc))
cursor_entries-encoded ((k, n) ∷ m) acc j h = ground (
  arith,
  insert_last k n acc j.0.0,
  cursor_entries-encoded m (acc ++ ((k, n) ∷ [])) (Joined-step acc k n n m j),
  append_one acc (k, n) m,
)

abbrev request_of : List (Text × ℕ) → List (Text × ℕ) → PullRequest
request_of models cursors = record { models = models; cursors = cursors }

request_parts :
    (models cursors : List (Text × ℕ))
    → model_entries (map encoded_counter models) [] ≡ ok models
    → cursor_entries (map encoded_counter cursors) [] ≡ ok cursors
    → check_request (request_of models cursors) ≡ ok tt
    → decode_request (request_value (request_of models cursors)) ≡ ok (request_of models cursors)
unfolding decode_request request_value counters_value read_models read_cursors check_request
    check_models index get find lex
request_parts [] cursors named known h = cc
request_parts (m ∷ models) [] named known h = ground arith
request_parts (m ∷ models) (c ∷ cursors) named known h =
    rw
      (
        entries-of_entries (map encoded_counter models),
        entries-of_entries (map encoded_counter cursors),
        named,
        known,
      )
      refl

-- A pull request that `encode` accepts, its models and its channels in order, is decoded from the value it
-- is encoded as.
pub decode_request-request_value :
    (r : PullRequest)
    → IsSorted r.models
    → IsSorted r.cursors
    → check_request r ≡ ok tt
    → decode_request (request_value r) ≡ ok r
unfolding check_request check_models
decode_request-request_value r s s' h =
    let (u, named, h1) = >>=-eq-ok (check_models r.models) _ h in
    let (v, e, models) = >>=-eq-ok (refuse (elim r.models [ [] ↦ true | _ ↦ false ]) _) _ named in
    let (w, e', cursors) = >>=-eq-ok (refuse (elim r.cursors [ [] ↦ true | _ ↦ false ]) _) _ h1 in
    request_parts r.models r.cursors
      (model_entries-encoded r.models [] (Joined-nil ℕ r.models s) models)
      (cursor_entries-encoded r.cursors [] (Joined-nil ℕ r.cursors s') cursors) h
