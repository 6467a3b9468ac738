-- ===== src/Core/Schema/Values.antt =====
-- Normal values of crates/core/src/schema.rs: what `normalize_value` gives, it gives again.
use ahead.Common.{
  uuid_invalid, list_expected, ◌≡◌, ◌≢◌, refl, Bool, true, false, List, [], ◌∷◌, some, ok, or_fail,
  map_ok, >>=-eq-ok, length, arith,
}
use ahead.Common.Text.{Text, as_bytes}
use ahead.Core.Json.{
  Number, Value, null, bool, num, text, arr, natural, float_natural, negative, float_negative,
  fraction, of_items, as_array,
}
use ahead.Core.Encode.RoundTrip.{items-of_items}
use ahead.Core.Schema.{
  ScalarType, string, boolean, int, float, date_time, uuid, ValueType, scalar_type, enum_type,
  list_type, FieldDescriptor, Schema, Uuid, Scalars, int_of, float_of, uuid_value, scalar, value,
  normalize_value,
}

-- The text that the crate uuid writes is of 36 bytes, and is read as the UUID it was written from.
abbrev pub Hyphenated : Scalars → Type 0
Hyphenated scalars =
    (s : Text) (u : Uuid)
    → scalars.parse_uuid s ≡ some u
    → (scalars.parse_uuid u.hyphenated ≡ some u) × (length (as_bytes u.hyphenated) ≡ 36)

-- No date is in the type.
abbrev pub dateless : ValueType → Bool
dateless (scalar_type date_time) = false
dateless (scalar_type t) = true
dateless (enum_type name) = true
dateless (list_type element) = dateless element

module _ (scalars : Scalars) (hyphenated : Hyphenated scalars) where
  int_of-again : (n : Number) {w : Value} → int_of n ≡ ok w → scalar scalars int w ≡ ok w
  unfolding int_of scalar
  int_of-again (natural n) h = ground arith
  int_of-again (float_natural n) h = ground arith
  int_of-again (negative n) h = ground arith
  int_of-again (float_negative n) h = ground arith
  int_of-again (fraction n) h = cc

  float_of-again :
      (n : Number) → scalar scalars float (float_of scalars n) ≡ ok (float_of scalars n)
  unfolding float_of scalar
  float_of-again (natural n) = refl
  float_of-again (float_natural n) = refl
  float_of-again (negative n) = refl
  float_of-again (float_negative n) = refl
  float_of-again (fraction n) = refl

  uuid_value-again :
      (s : Text) {w : Value} → uuid_value scalars s ≡ ok w → scalar scalars uuid w ≡ ok w
  unfolding uuid_value scalar
  uuid_value-again s h =
      let (u, parsed, h1) = >>=-eq-ok (or_fail (scalars.parse_uuid s) uuid_invalid) _ h in
      let (reads, long) = hyphenated s u (ground (arith, parsed)) in ground (arith, reads, long, h1)

  scalar-again :
      (t : ScalarType) (v : Value) {w : Value}
      → dateless (scalar_type t) ≡ true
      → scalar scalars t v ≡ ok w
      → scalar scalars t w ≡ ok w
  unfolding scalar
  scalar-again string (text s) d h = ground arith
  scalar-again boolean (bool b) d h = ground arith
  scalar-again int (num n) d h = int_of-again n h
  scalar-again float (num n) d h = ground (arith, float_of-again n)
  scalar-again uuid (text s) d h = uuid_value-again s h
  scalar-again date_time v d h = cc
  scalar-again string v d h = ground arith
  scalar-again boolean v d h = ground arith
  scalar-again int v d h = ground arith
  scalar-again float v d h = ground arith
  scalar-again uuid v d h = ground arith

  module _ (s : Schema) where
    items_again :
        (t : ValueType) (vs : List Value) {ws : List Value}
        → ((v w : Value) → value scalars s t v ≡ ok w → value scalars s t w ≡ ok w)
        → map_ok (value scalars s t) vs ≡ ok ws
        → map_ok (value scalars s t) ws ≡ ok ws
    unfolding map_ok
    items_again t [] again h = ground arith
    items_again t (v ∷ vs) {ws} again h =
        let (w, e, h1) = >>=-eq-ok (value scalars s t v) _ h in
        let (rest, e1, h2) = >>=-eq-ok (map_ok (value scalars s t) vs) (λ rest. ok (w ∷ rest)) h1 in
        let whole : w ∷ rest ≡ ws = cc in
        rw (← whole) (rw (again v w e, items_again t vs again e1) refl)

    value-again :
        (t : ValueType) (v w : Value)
        → dateless t ≡ true
        → value scalars s t v ≡ ok w
        → value scalars s t w ≡ ok w
    unfolding value
    value-again (scalar_type t) v w d h = scalar-again t v d h
    value-again (enum_type name) (text t) w d h = ground arith
    value-again (enum_type name) v w d h = cc
    value-again (list_type t) v w d h =
        let (vs, e, h1) = >>=-eq-ok (or_fail (as_array v) list_expected) _ h in
        let (ws, e1, h2) =
          >>=-eq-ok (map_ok (value scalars s t) vs) (λ ws. ok (arr (of_items ws))) h1 in
        let whole : arr (of_items ws) ≡ w = cc in
        rw (← whole) (rw (items-of_items ws, items_again t vs (λ a b. value-again t a b d) e1) refl)

    null_refused : (t : ValueType) {w : Value} → value scalars s t null ≢ ok w
    unfolding value scalar
    null_refused (scalar_type string) h = cc
    null_refused (scalar_type boolean) h = cc
    null_refused (scalar_type int) h = cc
    null_refused (scalar_type float) h = cc
    null_refused (scalar_type date_time) h = cc
    null_refused (scalar_type uuid) h = cc
    null_refused (enum_type name) h = cc
    null_refused (list_type t) h = cc

    normal_again :
        (f : FieldDescriptor) (w : Value)
        → value scalars s f.value_type w ≡ ok w
        → normalize_value scalars s f w ≡ ok w
    unfolding normalize_value
    normal_again f null h = absurd (null_refused f.value_type h)
    normal_again f w h = h

    -- What `normalize_value` gives for a field without a date, it gives again for that value.
    pub normalize_value-again :
        (f : FieldDescriptor) (v w : Value)
        → dateless f.value_type ≡ true
        → normalize_value scalars s f v ≡ ok w
        → normalize_value scalars s f w ≡ ok w
    unfolding normalize_value
    normalize_value-again f null w d h = ground arith
    normalize_value-again f v w d h = normal_again f w (value-again f.value_type v w d h)
