-- ===== src/Core/Schema/Fields.antt =====
-- Which fields a normal state of crates/core/src/schema.rs has.
use ahead.Common.{
  ◌≡◌, refl, ◌∙◌, Bool, true, false, ◌||◌, List, [], ◌∷◌, none, some, Result, ok, err, refuse,
  or_fail, >>=-eq-ok, any, arith, if◌then◌else◌, state_field_missing, state_field_unknown,
  state_not_an_object,
}
use ahead.Common.Text.{Text}
use ahead.Common.Map.{lookup, insert, contains_key, keys, lookup-insert}
use ahead.Common.Map.Sorted.{IsSorted, insert-IsSorted}
use ahead.Common.Order.{same, same_iff, text_ord}
use ahead.Core.Json.{Value, null, obj, of_entries, as_object}
use ahead.Core.Schema.{
  FieldDescriptor, ModelDescriptor, Schema, Scalars, model, normalize_value, state, state_from,
  content_fields, stray_field,
}

module _ (scalars : Scalars) (s : Schema) where
  abbrev given_value : List (Text × Value) → FieldDescriptor → Result Value
  given_value input f = elim (lookup f.name input) [
    | some v ↦ ok v
    | none ↦ if f.nullable then ok null else err state_field_missing
  ]

  same_swap : (a b : Text) → same a b ≡ same b a
  same_swap a b = ground (arith, same_iff a b, same_iff b a)

  state_from-keys :
      (input : List (Text × Value)) (fs : List FieldDescriptor) (acc : List (Text × Value))
      {r : List (Text × Value)}
      → IsSorted acc
      → state_from scalars s input fs acc ≡ ok r
      → IsSorted r
        × ((k : Text) → contains_key k r ≡ (any (λ f. same f.name k) fs || contains_key k acc))
  unfolding state_from
  state_from-keys input [] acc {r = r} sorted h =
      let e : acc ≡ r = cc in rw (← e) (sorted, λ k. refl)
  state_from-keys input (f ∷ fs) acc {r = r} sorted h =
      let (given, e, h1) = >>=-eq-ok (given_value input f) _ h in
      let (v, e1, h2) =
        >>=-eq-ok (normalize_value scalars s f given)
          (λ v. state_from scalars s input fs (insert f.name v acc)) h1 in
      let (order, has) =
        state_from-keys input fs (insert f.name v acc) {r = r} (insert-IsSorted f.name v acc sorted)
          h2 in
      (order, λ k. ground (arith, has k, lookup-insert k f.name v acc, same_swap k f.name))

  or_empty : (k : Text) (b : Bool) → (b || contains_key {V = Value} k []) ≡ b
  unfolding lookup
  or_empty k true = refl
  or_empty k false = refl

  -- A state that `validate_state` or `normalize_state` gives is an object in the order of its fields, and
  -- these are the fields of the model that are not of the identity.
  pub state-fields :
      (name : Text) (content : Value) (loader : Bool) (w : Value)
      → state scalars s name content loader ≡ ok w
      → (m : ModelDescriptor) × (fields : List (Text × Value)) × (model s name ≡ ok m)
        × (w ≡ obj (of_entries fields))
        × IsSorted fields
        × ((k : Text) → contains_key k fields ≡ any (λ f. same f.name k) (content_fields m))
  unfolding state
  state-fields name content loader w h =
      let (m, e, h1) = >>=-eq-ok (model s name) _ h in
      let (input, e1, h2) = >>=-eq-ok (or_fail (as_object content) state_not_an_object) _ h1 in
      let (u, e2, h3) =
        >>=-eq-ok (refuse (any (stray_field m loader) (keys input)) state_field_unknown) _ h2 in
      let (fields, e3, h4) =
        >>=-eq-ok (state_from scalars s input (content_fields m) [])
          (λ fields. ok (obj (of_entries fields))) h3 in
      let (order, has) = state_from-keys input (content_fields m) [] {r = fields} tt e3 in
      (
        m,
        fields,
        e,
        cc,
        order,
        λ k. has k ∙ or_empty k (any (λ f. same f.name k) (content_fields m)),
      )
