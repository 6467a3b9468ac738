-- ===== src/Examples/Protocol.antt =====
-- Decoding and validation of crates/core/src/protocol.rs at concrete values.
use ahead.Common.{
  ℕ, ◌≡◌, ◌↔◌, refl, true, false, [], ◌∷◌, some, ok, err, inl, inr, Holds, page_backwards,
}
use ahead.Common.Text.{Text, codes}
use ahead.Common.Order.{text_ord, lex}
use ahead.Common.Map.{insert, keys}
use ahead.Common.Map.Sorted.{IsSorted}
use ahead.Core.Json.{Value, num, arr, obj, natural, nil, end, field, Serde, get, index}
use ahead.Core.Counter.{counter, read_counter}
use ahead.Core.Record.{unique_records, unique_from, valid_code}
use ahead.Core.Page.{PullPage, decode_page, validate_page, ranges_from}
use ahead.Core.Page.Validity.{IsPage, decode_page-IsPage}
use ahead.Core.Subscribe.{normalize_channels, collect_set, confirms}
use ahead.Core.Subscribe.Channels.{Crossed-not_confirmed, Agree, confirms_iff}
use ahead.Common.Sort.{sort_by, sort_insert}
use ahead.Common.{map_ok, each}

-- `{"from":a,"head":c,"to":b}`.
abbrev pub range_value : ℕ → ℕ → ℕ → Value
range_value a b c = obj (
    field (codes "from") (num (natural a))
      (field (codes "head") (num (natural c)) (field (codes "to") (num (natural b)) end)))

-- A page of one channel, `a`, and no change.
abbrev pub page_value : ℕ → ℕ → ℕ → Value
page_value a b c = obj (
    field (codes "changes") (arr nil)
      (field (codes "cursors") (obj (field (codes "a") (range_value a b c) end)) end))

-- A parser that answers one page whatever it reads.
abbrev pub one_page : Serde
one_page = record {
  from_slice = λ t. some (page_value 3 5 7);
  repeated = λ t. [];
  quote = λ t. t;
  scalar = λ v. ok [];
}

abbrev pub decoded : PullPage
decoded = record { cursors = (codes "a", record { from = 3; to = 5; head = 7 }) ∷ []; changes = [] }

decodes : decode_page one_page (page_value 3 5 7) ≡ ok decoded
unfolding decode_page validate_page index get read_counter counter ranges_from insert map_ok each
    unique_records unique_from lex
decodes = refl

backwards : decode_page one_page (page_value 5 3 7) ≡ err page_backwards
unfolding decode_page validate_page index get read_counter counter ranges_from insert map_ok each
    lex
backwards = refl

code_ok : valid_code (codes "todo.missing") ≡ true
unfolding valid_code
code_ok = refl

code_bad : valid_code (codes "todo..missing") ≡ false
unfolding valid_code
code_bad = refl

decode_page-IsPage_example : IsPage one_page decoded × IsSorted decoded.cursors
decode_page-IsPage_example = decode_page-IsPage one_page (page_value 3 5 7) decodes

-- The last code point of the basic plane, and the first one beyond it.
abbrev low : Text
low = 0xFFFF ∷ []

abbrev high : Text
high = 0x10000 ∷ []

crossed_request :
    normalize_channels (low ∷ codes "a" ∷ high ∷ []) ≡ ok (codes "a" ∷ high ∷ low ∷ [])
unfolding normalize_channels collect_set insert sort_by sort_insert lex
crossed_request = refl

Crossed-not_confirmed_example :
    confirms
      (record { cursors = (codes "a", 3) ∷ (low, 1) ∷ (high, 2) ∷ [] })
      (record { channels = codes "a" ∷ high ∷ low ∷ []; models = [] })
    ≡ false
unfolding lex
Crossed-not_confirmed_example =
    Crossed-not_confirmed low high (low ∷ codes "a" ∷ high ∷ []) (codes "a" ∷ high ∷ low ∷ [])
      ((codes "a", 3) ∷ (low, 1) ∷ (high, 2) ∷ []) [] crossed_request (inl refl)
      (inr (inr (inl refl))) (refl, refl) ((refl, (refl, tt)), ((refl, tt), (tt, tt)))

one_request : normalize_channels (codes "a" ∷ codes "a" ∷ []) ≡ ok (codes "a" ∷ [])
unfolding normalize_channels collect_set insert sort_by sort_insert lex
one_request = refl

only_a : (c : Text) → Holds c (codes "a" ∷ codes "a" ∷ []) → c ≡ codes "a"
only_a c (inl e) = e
only_a c (inr (inl e)) = e
only_a c (inr (inr m)) = absurd m

one_Agree : Agree (codes "a" ∷ codes "a" ∷ [])
unfolding lex
one_Agree a b m n = rw (only_a a m, only_a b n) refl

confirms_iff_example :
    (confirms
        (record { cursors = (codes "a", 1) ∷ [] })
        (record { channels = codes "a" ∷ []; models = [] })
      ≡ true)
    ↔ ((c : Text)
        → Holds c (keys {V = ℕ} ((codes "a", 1) ∷ [])) ↔ Holds c (codes "a" ∷ codes "a" ∷ []))
confirms_iff_example =
    confirms_iff (codes "a" ∷ codes "a" ∷ []) (codes "a" ∷ []) ((codes "a", 1) ∷ []) [] one_request
      one_Agree (tt, tt)
