-- ===== src/Common/Text.antt =====
-- Texts as lists of Unicode code points, with the two orders the source sorts by: `str`'s own (by
-- bytes, which for UTF-8 is the order of the code points) and that of `encode_utf16`.
use ahead.Common.{
  ℕ, ◌+◌, ◌-◌, ◌/◌, ◌%◌, Ordering, Bool, true, false, List, [], ◌∷◌, ◌++◌, ltb, leb, ◌==◌, ◌&&◌,
  map, if◌then◌else◌,
}
use Prim.Native.Char.{code}
use Prim.Native.String.{String}
use ahead.Common.Order.{lex}

abbrev pub Text : Type 0
Text = List ℕ

-- `char::encode_utf16`: a code point beyond the basic plane is a pair of surrogates.
abbrev pub units : ℕ → List ℕ
units c =
    if ltb c 0x10000
    then c ∷ []
    else (0xD800 + (c - 0x10000) / 0x400) ∷ (0xDC00 + (c - 0x10000) % 0x400) ∷ []

abbrev pub encode_utf16 : Text → List ℕ
encode_utf16 [] = []
encode_utf16 (c ∷ cs) = units c ++ encode_utf16 cs

-- `left.encode_utf16().cmp(right.encode_utf16())`.
abbrev pub utf16_cmp : Text → Text → Ordering
utf16_cmp a b = lex (encode_utf16 a) (encode_utf16 b)

-- `str::is_empty`.
abbrev pub is_empty : Text → Bool
is_empty [] = true
is_empty (c ∷ cs) = false

-- A literal, as its code points.
abbrev pub codes : String → Text
codes String.[] = []
codes (String.◌∷◌ c s) = code c ∷ codes s

-- A code point in UTF-8, and the bytes of a text.
abbrev pub utf8 : ℕ → List ℕ
utf8 c =
    if ltb c 0x80
    then c ∷ []
    else if ltb c 0x800
    then (0xC0 + c / 0x40) ∷ (0x80 + c % 0x40) ∷ []
    else if ltb c 0x10000
    then (0xE0 + c / 0x1000) ∷ (0x80 + c / 0x40 % 0x40) ∷ (0x80 + c % 0x40) ∷ []
    else (0xF0 + c / 0x40000)
      ∷ (0x80 + c / 0x1000 % 0x40)
      ∷ (0x80 + c / 0x40 % 0x40)
      ∷ (0x80 + c % 0x40)
      ∷ []

unfoldable pub as_bytes : Text → List ℕ
as_bytes [] = []
as_bytes (c ∷ cs) = utf8 c ++ as_bytes cs

-- `str::to_ascii_lowercase`.
abbrev ascii_lower : ℕ → ℕ
ascii_lower c = if leb b'A' c && leb c b'Z' then c + 32 else c

abbrev pub to_ascii_lowercase : Text → Text
to_ascii_lowercase = map ascii_lower

-- `str::starts_with`.
abbrev pub starts_with : Text → Text → Bool
starts_with s [] = true
starts_with [] (p ∷ ps) = false
starts_with (c ∷ s) (p ∷ ps) = c == p && starts_with s ps
