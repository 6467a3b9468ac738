-- ===== src/Core/Schema/Compatibility/Laws.antt =====
-- What `Schema::compatibility` of crates/core/src/schema.rs promises of the schemas that it accepts.
use ahead.Common.{
  ◌≡◌, ◌≢◌, refl, ap, ◌⊎◌, inl, inr, Bool, true, false, not, ◌||◌, List, [], ◌∷◌, Option, none,
  some, ◌==◌, any, is_some, All, arith, if◌then◌else◌,
}
use ahead.Common.Text.{Text}
use ahead.Common.Order.{same, same→eq, text_ord}
use ahead.Common.Sort.{sort_by}
use ahead.Core.Subscribe.{same_texts}
use ahead.Core.Schema.{
  ScalarType, string, boolean, int, float, date_time, uuid, ValueType, scalar_type, enum_type,
  list_type, FieldDescriptor, ModelDescriptor, Schema, first, field_of,
}
use ahead.Core.Schema.Check.{same_type}
use ahead.Core.Schema.Compatibility.{
  Reason, Judged, no, yes, ◌>>=◌, ◌>>◌, reject, or_no, AdditiveStep, incompatible, compatibility,
  compare_models, compare_model, old_fields, new_fields, same_enum, field_changed,
  relations_changed, same_lists, same_relations, relation_cmp,
}

same_type→eq : (a b : ValueType) → same_type a b ≡ true → a ≡ b
unfolding same_type
same_type→eq (scalar_type a) (scalar_type b) h = ap scalar_type (go a b h)
  where
    go : (a b : ScalarType) → same_type (scalar_type a) (scalar_type b) ≡ true → a ≡ b
    go string string h = refl
    go boolean boolean h = refl
    go int int h = refl
    go float float h = refl
    go date_time date_time h = refl
    go uuid uuid h = refl
    go _ _ h = cc
same_type→eq (enum_type a) (enum_type b) h = ap enum_type (same→eq a b h)
same_type→eq (list_type a) (list_type b) h = ap list_type (same_type→eq a b h)
same_type→eq _ _ h = cc

same_texts→eq : (xs ys : List Text) → same_texts xs ys ≡ true → xs ≡ ys
unfolding same_texts
same_texts→eq [] [] h = refl
same_texts→eq (x ∷ xs) (y ∷ ys) h = ground (arith, same→eq x y, same_texts→eq xs ys)
same_texts→eq [] (y ∷ ys) h = cc
same_texts→eq (x ∷ xs) [] h = cc

-- Where a step and what follows it go on, what the step gives.
judged :
    {A B : Type 0} (step : Judged A) (next : A → Judged B) {b : B}
    → (step >>= next) ≡ yes b
    → (a : A) × (step ≡ yes a) × (next a ≡ yes b)
judged (no r) next h = cc
judged (yes a) next h = (a, refl, h)

reject_passed : (b : Bool) (r : Reason) {u : Unit {0}} → reject b r ≡ yes u → b ≡ false
reject_passed true r h = cc
reject_passed false r h = refl

or_no-some : {A : Type 0} (o : Option A) (r : Reason) {a : A} → or_no o r ≡ yes a → o ≡ some a
or_no-some none r h = cc
or_no-some (some a) r h = ground arith

-- A stored field is still there, with its type and its nullability.
abbrev pub FieldKept : ModelDescriptor → FieldDescriptor → Type 0
FieldKept new f =
    (g : FieldDescriptor) × (field_of new f.name ≡ some g)
    × (g.value_type ≡ f.value_type)
    × (g.nullable ≡ f.nullable)

-- A field of the incoming model is a stored one, or has a value for the rows that lack it.
abbrev pub FieldFilled : ModelDescriptor → FieldDescriptor → Type 0
FieldFilled old f =
    (any (λ g. same g.name f.name) old.fields ≡ true) ⊎ ((f.nullable || is_some f.default) ≡ true)

pub record Kept (old new : ModelDescriptor) : Type 0 where
  pub version : new.version ≡ old.version
  pub identity : new.identity ≡ old.identity
  pub fields : All (FieldKept new) old.fields
  pub filled : All (FieldFilled old) new.fields

-- One turn of the loop over the incoming fields went on.
new_field :
    (has filled : Bool) (rest : Judged (List AdditiveStep)) (step : AdditiveStep) (r : Reason)
    {steps : List AdditiveStep}
    → (if has then rest else if filled then rest >>= (λ ss. yes (step ∷ ss)) else no r) ≡ yes steps
    → ((has ≡ true) ⊎ (filled ≡ true)) × (ss : List AdditiveStep) × (rest ≡ yes ss)
new_field true filled rest step r {steps} h = (inl refl, steps, h)
new_field false true rest step r h = let (ss, e, h1) = judged rest _ h in (inr refl, ss, e)
new_field false false rest step r h = cc

module _ (stored incoming : Schema) where
  field_kept :
      (new : ModelDescriptor) (f g : FieldDescriptor)
      → field_of new f.name ≡ some g
      → (not (same_type g.value_type f.value_type)
          || not (elim g.nullable [ true ↦ f.nullable | false ↦ not f.nullable ]))
        ≡ false
      → FieldKept new f
  field_kept new f g there same_field = (
    g,
    there,
    same_type→eq g.value_type f.value_type (ground (arith, same_field)),
    ground (arith, same_field),
  )

  old_fields-FieldKept :
      (old new : ModelDescriptor) (fs : List FieldDescriptor) {u : Unit {0}}
      → old_fields stored incoming old new fs ≡ yes u
      → All (FieldKept new) fs
  unfolding old_fields
  old_fields-FieldKept old new [] h = tt
  old_fields-FieldKept old new (f ∷ fs) h =
      let (next, there, h1) = judged (or_no (field_of new f.name) _) _ h in
      let (u, same_field, h2) = judged (reject _ (field_changed old.name f.name)) _ h1 in
      let (v, enums, h3) = judged (reject (not (same_enum stored incoming f.value_type)) _) _ h2 in
      (
        field_kept new f next (or_no-some _ _ there) (reject_passed _ _ same_field),
        old_fields-FieldKept old new fs h3,
      )

  new_fields-FieldFilled :
      (old new : ModelDescriptor) (fs : List FieldDescriptor) {steps : List AdditiveStep}
      → new_fields stored incoming old new fs ≡ yes steps
      → All (FieldFilled old) fs
  unfolding new_fields
  new_fields-FieldFilled old new [] h = tt
  new_fields-FieldFilled old new (f ∷ fs) h =
      let (filled, ss, rest) =
        new_field (any (λ g. same g.name f.name) old.fields) (f.nullable || is_some f.default)
          (new_fields stored incoming old new fs) _ _ h in
      (filled, new_fields-FieldFilled old new fs rest)

  -- The incoming model of the name of a stored one.
  abbrev pub ModelKept : ModelDescriptor → Type 0
  ModelKept old =
      (new : ModelDescriptor) × (first (λ m. same m.name old.name) incoming.models ≡ some new)
      × Kept old new

  compare_model-ModelKept :
      (old : ModelDescriptor) {steps : List AdditiveStep}
      → compare_model stored incoming old ≡ yes steps
      → ModelKept old
  unfolding compare_model
  compare_model-ModelKept old h =
      let (new, there, h1) =
        judged (or_no (first (λ m. same m.name old.name) incoming.models) _) _ h in
      let (u1, version, h2) = judged (reject (not (new.version == old.version)) _) _ h1 in
      let (u2, identity, h3) =
        judged (reject (not (same_texts new.identity old.identity)) _) _ h2 in
      let (u3, unique, h4) = judged (reject (not (same_lists new.unique old.unique)) _) _ h3 in
      let (u4, relations, h5) =
        judged
          (reject
            (not (
              same_relations (sort_by relation_cmp old.relations)
                (sort_by relation_cmp new.relations)))
            (relations_changed old.name))
          (λ u.
            old_fields stored incoming old new old.fields
            >> new_fields stored incoming old new new.fields)
          h4 in
      let (u5, fields, h6) =
        judged (old_fields stored incoming old new old.fields)
          (λ u. new_fields stored incoming old new new.fields) h5 in
      (
        new,
        or_no-some _ _ there,
        record {
          version = ground (arith, reject_passed _ _ version);
          identity =
              same_texts→eq new.identity old.identity (ground (arith, reject_passed _ _ identity));
          fields = old_fields-FieldKept old new old.fields fields;
          filled = new_fields-FieldFilled old new new.fields h6;
        },
      )

  compare_models-ModelKept :
      (ms : List ModelDescriptor) {steps : List AdditiveStep}
      → compare_models stored incoming ms ≡ yes steps
      → All ModelKept ms
  unfolding compare_models
  compare_models-ModelKept [] h = tt
  compare_models-ModelKept (m ∷ ms) h =
      let (steps, e, h1) = judged (compare_model stored incoming m) _ h in
      let (more, e1, h2) = judged (compare_models stored incoming ms) _ h1 in
      (compare_model-ModelKept m e, compare_models-ModelKept ms e1)

  -- Where the incoming schema is not incompatible with the stored one, every stored model is still there
  -- with its version, its identity and all its fields, each with its type and nullability, and every
  -- field that a stored model lacks is nullable or has a default.
  pub compatibility-keeps :
      ((r : Reason) → compatibility stored incoming ≢ incompatible r) → All ModelKept stored.models
  unfolding compatibility
  compatibility-keeps accepted = go (compare_models stored incoming stored.models) refl
    where
      go :
          (j : Judged (List AdditiveStep))
          → compare_models stored incoming stored.models ≡ j
          → All ModelKept stored.models
      go (yes steps) e = compare_models-ModelKept stored.models e
      go (no r) e = absurd (accepted r (rw (compatibility, e) refl))
