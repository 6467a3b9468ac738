-- ===== src/Core/Json.antt =====
-- `serde_json::Value`, and `canonical_json` of crates/core/src/lib.rs. Objects hold their entries in the
-- order of their keys. Parsing and the text of a scalar are serde's, and enter as the record `Serde`.
use ahead.Common.{
  ℕ, Bool, true, false, List, [], ◌∷◌, ◌++◌, map, Option, none, some, Result, ok, ◌>>=◌,
  if◌then◌else◌, not, ◌&&◌, ◌==◌,
}
use ahead.Common.Order.{same, text_ord}
use ahead.Common.Text.{Text, utf16_cmp, codes}
use ahead.Common.Sort.{sort_by}

-- A JSON number: an unsigned integer token, a float token whose value is an unsigned integer, the two
-- for the integer below zero by `n + 1`, and any other float, by its bits.
pub data Number : Type 0 where
  natural : ℕ → Number
  float_natural : ℕ → Number
  negative : ℕ → Number
  float_negative : ℕ → Number
  fraction : ℕ → Number

mutual
  pub data Value : Type 0 where
    null : Value
    bool : Bool → Value
    num : Number → Value
    text : Text → Value
    arr : Items → Value
    obj : Fields → Value

  pub data Items : Type 0 where
    nil : Items
    cons : Value → Items → Items

  pub data Fields : Type 0 where
    end : Fields
    field : Text → Value → Fields → Fields

abbrev pub items : Items → List Value
items nil = []
items (cons v vs) = v ∷ items vs

abbrev pub entries : Fields → List (Text × Value)
entries end = []
entries (field k v fs) = (k, v) ∷ entries fs

abbrev pub of_items : List Value → Items
of_items [] = nil
of_items (v ∷ vs) = cons v (of_items vs)

abbrev pub of_entries : List (Text × Value) → Fields
of_entries [] = end
of_entries ((k, v) ∷ fs) = field k v (of_entries fs)

unfoldable pub find : Text → Fields → Option Value
find k end = none
find k (field j v fs) = if same k j then some v else find k fs

-- `value.get(key)`.
unfoldable pub get : Value → Text → Option Value
unfolding find
get (obj fs) k = find k fs
get _ k = none

-- `value[key]`: null where there is no such entry.
unfoldable pub index : Value → Text → Value
unfolding get
index v k = elim (get v k) [ none ↦ null | some x ↦ x ]

abbrev pub is_object : Value → Bool
is_object (obj fs) = true
is_object _ = false

abbrev pub is_null : Value → Bool
is_null null = true
is_null _ = false

abbrev pub as_str : Value → Option Text
as_str (text t) = some t
as_str _ = none

abbrev pub as_array : Value → Option (List Value)
as_array (arr vs) = some (items vs)
as_array _ = none

abbrev pub as_object : Value → Option (List (Text × Value))
as_object (obj fs) = some (entries fs)
as_object _ = none

abbrev pub as_u64 : Value → Option ℕ
as_u64 (num (natural n)) = some n
as_u64 _ = none

-- What the code takes from serde: `from_slice`, `to_string` of a key, and `serde_jcs::to_string` of a
-- value that is neither an array nor an object. `repeated` has the fields that stand more than once in the object
-- that a text is: `from_slice` into a `Value` takes the last of them, and into a struct it is an error.
pub record Serde : Type 0 where
  pub from_slice : Text → Option Value
  pub repeated : Text → List Text
  pub quote : Text → Text
  pub scalar : Value → Result Text

abbrev pub join : Text → List Text → Text
join sep [] = []
join sep (x ∷ []) = x
join sep (x ∷ xs) = x ++ (sep ++ join sep xs)

module _ (serde : Serde) where
  abbrev entry_text : Text × Text → Text
  entry_text (k, t) = serde.quote k ++ (codes ":" ++ t)

  abbrev render_object : List (Text × Text) → Text
  render_object kts =
      codes "{"
      ++ (join (codes ",") (map entry_text (sort_by (λ a b. utf16_cmp a.0 b.0) kts)) ++ codes "}")

  unfoldable mutual
    -- Keys in the order of their UTF-16 code units, whatever the order of the entries.
    pub canonical_json : Value → Result Text
    canonical_json (arr vs) = do
      ts ← canonical_items vs
      ok (codes "[" ++ (join (codes ",") ts ++ codes "]"))
    canonical_json (obj fs) = do kts ← canonical_fields fs; ok (render_object kts)
    canonical_json null = serde.scalar null
    canonical_json (bool b) = serde.scalar (bool b)
    canonical_json (num n) = serde.scalar (num n)
    canonical_json (text t) = serde.scalar (text t)

    pub canonical_items : Items → Result (List Text)
    canonical_items nil = ok []
    canonical_items (cons v vs) = do t ← canonical_json v; ts ← canonical_items vs; ok (t ∷ ts)

    pub canonical_fields : Fields → Result (List (Text × Text))
    canonical_fields end = ok []
    canonical_fields (field k v fs) = do
      t ← canonical_json v
      kts ← canonical_fields fs
      ok ((k, t) ∷ kts)

abbrev pub same_number : Number → Number → Bool
same_number (natural m) (natural n) = m == n
same_number (float_natural m) (float_natural n) = m == n
same_number (negative m) (negative n) = m == n
same_number (float_negative m) (float_negative n) = m == n
same_number (fraction m) (fraction n) = m == n
same_number _ _ = false

abbrev same_bool : Bool → Bool → Bool
same_bool true b = b
same_bool false b = not b

unfoldable mutual
  -- `==` of two values: an integer token and a float token differ.
  pub same_value : Value → Value → Bool
  same_value null null = true
  same_value (bool a) (bool b) = same_bool a b
  same_value (num a) (num b) = same_number a b
  same_value (text a) (text b) = same a b
  same_value (arr vs) (arr ws) = same_items vs ws
  same_value (obj fs) (obj gs) = same_fields fs gs
  same_value _ _ = false

  pub same_items : Items → Items → Bool
  same_items nil nil = true
  same_items (cons v vs) (cons w ws) = same_value v w && same_items vs ws
  same_items _ _ = false

  pub same_fields : Fields → Fields → Bool
  same_fields end end = true
  same_fields (field j v fs) (field k w gs) = same j k && (same_value v w && same_fields fs gs)
  same_fields _ _ = false
