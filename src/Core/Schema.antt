-- ===== src/Core/Schema.antt =====
-- The schema of crates/core/src/schema.rs: descriptors, record keys, and the normalization of values. The
-- crates uuid and chrono and the rounding of f64 enter as the record `Scalars`.
pub mod Check
pub mod Compatibility
pub mod Values
pub mod Fields
use ahead.Common.{
  ℕ, zero, suc, ◌+◌, ◌-◌, Bool, true, false, not, ◌&&◌, ◌||◌, List, [], ◌∷◌, map, Option, none,
  some, Result, ok, err, ◌>>=◌, ◌>>◌, refuse, or_fail, map_ok, if◌then◌else◌, ltb, leb, ◌==◌, any,
  keep, length, is_some, model_unknown, identity_not_an_object, identity_fields, identity_missing,
  identity_descriptor_missing, state_not_an_object, state_field_unknown, state_field_missing,
  patch_not_an_object, patch_identity, patch_field_unknown, value_not_nullable, enum_value_invalid,
  list_expected, integer_expected, integer_unsafe, float_expected, uuid_expected, uuid_invalid,
  uuid_format, date_time_expected, date_time_invalid, scalar_invalid,
}
use ahead.Common.Text.{Text, codes, as_bytes, to_ascii_lowercase, starts_with}
use ahead.Common.Map.{lookup, insert, keys}
use ahead.Common.Order.{same, text_ord}
use ahead.Core.Json.{
  Number, Value, null, bool, num, text, arr, obj, natural, float_natural, negative, float_negative,
  fraction, items, of_items, of_entries, is_null, as_str, as_array, as_object, Serde,
  canonical_json,
}
use ahead.Core.Counter.{max_safe_integer}

pub data ScalarType : Type 0 where
  string boolean int float date_time uuid : ScalarType

pub data ValueType : Type 0 where
  scalar_type : ScalarType → ValueType
  enum_type : Text → ValueType
  list_type : ValueType → ValueType

pub record FieldDescriptor : Type 0 where
  pub name : Text
  pub value_type : ValueType
  pub nullable : Bool
  pub default : Option Value

pub record RelationDescriptor : Type 0 where
  pub name : Text
  pub target : Text
  pub fields : List Text
  pub target_fields : List Text
  pub on_delete : Text

pub record EnumDescriptor : Type 0 where
  pub name : Text
  pub values : List Text

pub record ModelDescriptor : Type 0 where
  pub name : Text
  pub version : ℕ
  pub identity : List Text
  pub fields : List FieldDescriptor
  pub relations : List RelationDescriptor
  pub unique : List (List Text)

pub record RequirementDescriptor : Type 0 where
  pub model : Text
  pub field : Text
  pub name : Text
  pub arguments : List (Text × Text)

pub record Schema : Type 0 where
  pub enums : List EnumDescriptor
  pub models : List ModelDescriptor
  pub requirements : List RequirementDescriptor
  pub prerequisites : List Value

pub record RecordKey : Type 0 where
  pub model : Text
  pub identity : Value

-- `xs.contains(x)`.
abbrev pub among : Text → List Text → Bool
among x xs = any (same x) xs

-- `xs.iter().find(|x| p(x))`.
unfoldable pub first {ℓ} : {A : Type ℓ} → (A → Bool) → List A → Option A
first p [] = none
first p (x ∷ xs) = if p x then some x else first p xs

unfoldable pub reserved_model_name : Text → Bool
reserved_model_name name =
    let lower = to_ascii_lowercase name in
    starts_with lower (codes "ahead_") || starts_with lower (codes "sqlite_")

unfoldable pub field_of : ModelDescriptor → Text → Option FieldDescriptor
unfolding first
field_of m name = first (λ f. same f.name name) m.fields

unfoldable pub model : Schema → Text → Result ModelDescriptor
unfolding first
model s name = or_fail (first (λ m. same m.name name) s.models) model_unknown

-- A loader may name the identity fields; the wire may not.
abbrev pub stray_field : ModelDescriptor → Bool → Text → Bool
stray_field m loader k =
    (loader && not (any (λ f. same f.name k) m.fields)) || (not loader && among k m.identity)

abbrev pub content_fields : ModelDescriptor → List FieldDescriptor
content_fields m = keep (λ f. not (among f.name m.identity)) m.fields

-- A UUID as its crate parses it: its hyphenated text, whether its variant is that of RFC 4122, and the
-- number of its version.
pub record Uuid : Type 0 where
  pub hyphenated : Text
  pub rfc4122 : Bool
  pub version : ℕ

-- `Uuid::parse_str`, `DateTime::parse_from_rfc3339` written in UTC with milliseconds, and the value of an
-- integer as an f64, which is exact up to 2^53.
pub record Scalars : Type 0 where
  pub parse_uuid : Text → Option Uuid
  pub parse_rfc3339 : Text → Option Text
  pub round : ℕ → ℕ

abbrev byte_at : ℕ → List ℕ → Option ℕ
byte_at i [] = none
byte_at zero (b ∷ bs) = some b
byte_at (suc i) (b ∷ bs) = byte_at i bs

-- `Value::from(f as i64)` for an integral f64 within the safe range.
unfoldable pub int_of : Number → Result Value
int_of (natural n) = if leb n max_safe_integer then ok (num (natural n)) else err integer_unsafe
int_of (float_natural n) =
    if leb n max_safe_integer then ok (num (natural n)) else err integer_unsafe
int_of (negative n) = if ltb n max_safe_integer then ok (num (negative n)) else err integer_unsafe
int_of (float_negative n) =
    if ltb n max_safe_integer then ok (num (negative n)) else err integer_unsafe
int_of (fraction b) = err integer_unsafe

module _ (scalars : Scalars) where
  -- `Value::from(f)` for the f64 that a number is read as.
  unfoldable pub float_of : Number → Value
  float_of (natural n) = num (float_natural (scalars.round n))
  float_of (float_natural n) = num (float_natural n)
  float_of (negative n) = num (float_negative (scalars.round (suc n) - 1))
  float_of (float_negative n) = num (float_negative n)
  float_of (fraction b) = num (fraction b)

  unfoldable pub uuid_value : Text → Result Value
  uuid_value s = do
    id ← or_fail (scalars.parse_uuid s) uuid_invalid
    refuse
        (not (length (as_bytes s) == 36)
          || (not id.rfc4122 || (id.version == 0 || ltb 8 id.version)))
        uuid_format
    ok (text id.hyphenated)

  unfoldable pub date_time_value : Text → Result Value
  date_time_value s = do
    refuse
        (ltb (length (as_bytes s)) 20
          || not (elim (byte_at 10 (as_bytes s)) [ none ↦ false | some b ↦ b == b'T' ]))
        date_time_invalid
    t ← or_fail (scalars.parse_rfc3339 s) date_time_invalid
    ok (text t)

  unfoldable pub scalar : ScalarType → Value → Result Value
  unfolding int_of float_of uuid_value date_time_value
  scalar string (text s) = ok (text s)
  scalar string _ = err scalar_invalid
  scalar boolean (bool b) = ok (bool b)
  scalar boolean _ = err scalar_invalid
  scalar int (num n) = int_of n
  scalar int _ = err integer_expected
  scalar float (num n) = ok (float_of n)
  scalar float _ = err float_expected
  scalar uuid (text s) = uuid_value s
  scalar uuid _ = err uuid_expected
  scalar date_time (text s) = date_time_value s
  scalar date_time _ = err date_time_expected

  module _ (s : Schema) where
    -- Whether an enum of that name has the value.
    abbrev enum_has : Text → Text → Bool
    enum_has name v = any (λ en. same en.name name && among v en.values) s.enums

    unfoldable pub value : ValueType → Value → Result Value
    unfolding scalar map_ok
    value (scalar_type t) v = scalar t v
    value (enum_type name) v = elim (as_str v) [
      | none ↦ err enum_value_invalid
      | some t ↦ if enum_has name t then ok v else err enum_value_invalid
    ]
    value (list_type element) v = do
      vs ← or_fail (as_array v) list_expected
      ws ← map_ok (value element) vs
      ok (arr (of_items ws))

    unfoldable pub normalize_value : FieldDescriptor → Value → Result Value
    unfolding value
    normalize_value f v =
        if is_null v
        then (if f.nullable then ok null else err value_not_nullable)
        else value f.value_type v

    -- The identity fields of a record key, in the order of their names.
    unfoldable pub identity_from :
        ModelDescriptor
        → List (Text × Value)
        → List Text
        → List (Text × Value)
        → Result (List (Text × Value))
    unfolding normalize_value field_of
    identity_from m input [] result = ok result
    identity_from m input (name ∷ names) result = do
      f ← or_fail (field_of m name) identity_descriptor_missing
      given ← or_fail (lookup name input) identity_missing
      v ← normalize_value f given
      identity_from m input names (insert name v result)

    unfoldable pub record_key : Text → Value → Result RecordKey
    unfolding model identity_from
    record_key name identity = do
      m ← model s name
      input ← or_fail (as_object identity) identity_not_an_object
      refuse
          (not (length input == length m.identity)
            || any (λ k. not (among k m.identity)) (keys input))
          identity_fields
      result ← identity_from m input m.identity []
      ok (record { model = name; identity = obj (of_entries result) })

    -- The fields of a state that are not of the identity, each given, or null where it may be.
    unfoldable pub state_from :
        List (Text × Value)
        → List FieldDescriptor
        → List (Text × Value)
        → Result (List (Text × Value))
    unfolding normalize_value
    state_from input [] result = ok result
    state_from input (f ∷ fs) result = do
      given ← elim (lookup f.name input) [
        | some v ↦ ok v
        | none ↦ if f.nullable then ok null else err state_field_missing
      ]
      v ← normalize_value f given
      state_from input fs (insert f.name v result)

    unfoldable pub state : Text → Value → Bool → Result Value
    unfolding model state_from
    state name content loader = do
      m ← model s name
      input ← or_fail (as_object content) state_not_an_object
      refuse (any (stray_field m loader) (keys input)) state_field_unknown
      result ← state_from input (content_fields m) []
      ok (obj (of_entries result))

    abbrev pub normalize_state : Text → Value → Result Value
    normalize_state name content = state name content true

    abbrev pub validate_state : Text → Value → Result Value
    validate_state name content = state name content false

    unfoldable pub patch_from :
        ModelDescriptor → List (Text × Value) → List (Text × Value) → Result (List (Text × Value))
    unfolding normalize_value field_of
    patch_from m [] result = ok result
    patch_from m ((name, given) ∷ rest) result = do
      refuse (among name m.identity) patch_identity
      f ← or_fail (field_of m name) patch_field_unknown
      v ← normalize_value f given
      patch_from m rest (insert name v result)

    unfoldable pub validate_patch : Text → Value → Result Value
    unfolding model patch_from
    validate_patch name patch = do
      m ← model s name
      input ← or_fail (as_object patch) patch_not_an_object
      result ← patch_from m input []
      ok (obj (of_entries result))

module _ (serde : Serde) where
  unfoldable pub encoded_identity : RecordKey → Result Text
  encoded_identity k = canonical_json serde k.identity

  unfoldable pub encoded : RecordKey → Result Text
  encoded k = canonical_json serde (arr (of_items (text k.model ∷ k.identity ∷ [])))
