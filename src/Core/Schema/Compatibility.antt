-- ===== src/Core/Schema/Compatibility.antt =====
-- `Schema::compatibility` of crates/core/src/schema.rs: what a stored database needs for an incoming schema.
pub mod Laws
use ahead.Common.{
  ℕ, Ordering, Bool, true, false, not, ◌&&◌, ◌||◌, List, [], ◌∷◌, ◌++◌, Option, none, some, ◌==◌,
  any, is_some, if◌then◌else◌,
}
use ahead.Common.Text.{Text}
use ahead.Common.Order.{same, text_ord, lex}
use ahead.Common.Sort.{sort_by}
use ahead.Core.Subscribe.{same_texts}
use ahead.Core.Schema.{
  ValueType, enum_type, FieldDescriptor, RelationDescriptor, EnumDescriptor, ModelDescriptor,
  Schema, first, field_of,
}
use ahead.Core.Schema.Check.{same_type}

-- One constructor for each message of `Compatibility::Incompatible`.
pub data Reason : Type 0 where
  model_removed version_changed identity_changed unique_changed relations_changed : Text → Reason
  field_removed field_changed enum_changed field_required : Text → Text → Reason

pub data AdditiveStep : Type 0 where
  add_model : Text → AdditiveStep
  add_field : Text → Text → AdditiveStep

pub data Compatibility : Type 0 where
  identical : Compatibility
  additive : List AdditiveStep → Compatibility
  incompatible : Reason → Compatibility

-- A loop that returns early with a reason, or goes on.
pub data Judged (A : Type 0) : Type 0 where
  no : Reason → Judged A
  yes : A → Judged A

infixl 5 ◌>>=◌ ◌>>◌
abbrev pub ◌>>=◌ : {A B : Type 0} → Judged A → (A → Judged B) → Judged B
no r >>= next = no r
yes a >>= next = next a

abbrev pub ◌>>◌ : {A B : Type 0} → Judged A → Judged B → Judged B
step >> next = step >>= λ a. next

abbrev pub reject : Bool → Reason → Judged (Unit {0})
reject true r = no r
reject false r = yes tt

abbrev pub or_no : {A : Type 0} → Option A → Reason → Judged A
or_no none r = no r
or_no (some a) r = yes a

unfoldable pub same_lists : List (List Text) → List (List Text) → Bool
same_lists [] [] = true
same_lists (x ∷ xs) (y ∷ ys) = same_texts x y && same_lists xs ys
same_lists _ _ = false

abbrev then_cmp : Ordering → Ordering → Ordering
then_cmp Ordering.eq o = o
then_cmp o p = o

abbrev texts_cmp : List Text → List Text → Ordering
texts_cmp [] [] = Ordering.eq
texts_cmp [] (y ∷ ys) = Ordering.lt
texts_cmp (x ∷ xs) [] = Ordering.gt
texts_cmp (x ∷ xs) (y ∷ ys) = then_cmp (lex x y) (texts_cmp xs ys)

-- The derived order of a relation's tuple.
unfoldable pub relation_cmp : RelationDescriptor → RelationDescriptor → Ordering
relation_cmp a b = then_cmp (lex a.name b.name) (
    then_cmp (lex a.target b.target) (
      then_cmp (texts_cmp a.fields b.fields)
        (then_cmp (texts_cmp a.target_fields b.target_fields) (lex a.on_delete b.on_delete))))

abbrev pub same_relation : RelationDescriptor → RelationDescriptor → Bool
same_relation a b =
    same a.name b.name
    && (same a.target b.target
        && (same_texts a.fields b.fields
            && (same_texts a.target_fields b.target_fields && same a.on_delete b.on_delete)))

unfoldable pub same_relations : List RelationDescriptor → List RelationDescriptor → Bool
same_relations [] [] = true
same_relations (a ∷ rs) (b ∷ qs) = same_relation a b && same_relations rs qs
same_relations _ _ = false

unfoldable pub enum_values : Schema → Text → Option (List Text)
unfolding first
enum_values s name = elim (first (λ e. same e.name name) s.enums) [
  | none ↦ none
  | some e ↦ some e.values
]

abbrev pub same_values : Option (List Text) → Option (List Text) → Bool
same_values none none = true
same_values (some xs) (some ys) = same_texts xs ys
same_values _ _ = false

module _ (stored incoming : Schema) where
  abbrev pub same_enum : ValueType → Bool
  same_enum (enum_type name) = same_values (enum_values stored name) (enum_values incoming name)
  same_enum _ = true

  -- The loop over the fields of a stored model.
  unfoldable pub old_fields :
      ModelDescriptor → ModelDescriptor → List FieldDescriptor → Judged (Unit {0})
  unfolding field_of same_type enum_values
  old_fields old new [] = yes tt
  old_fields old new (f ∷ fs) = do
    next ← or_no (field_of new f.name) (field_removed old.name f.name)
    reject
        (not (same_type next.value_type f.value_type)
          || not (elim next.nullable [ true ↦ f.nullable | false ↦ not f.nullable ]))
        (field_changed old.name f.name)
    reject (not (same_enum f.value_type)) (enum_changed old.name f.name)
    old_fields old new fs

  -- The loop over the fields of the incoming model: those that the stored one has not are steps.
  unfoldable pub new_fields :
      ModelDescriptor → ModelDescriptor → List FieldDescriptor → Judged (List AdditiveStep)
  new_fields old new [] = yes []
  new_fields old new (f ∷ fs) =
      let rest = new_fields old new fs in
      if any (λ g. same g.name f.name) old.fields
      then rest
      else if f.nullable || is_some f.default
      then rest >>= (λ steps. yes (add_field new.name f.name ∷ steps))
      else no (field_required new.name f.name)

  unfoldable pub compare_model : ModelDescriptor → Judged (List AdditiveStep)
  unfolding first old_fields new_fields same_lists same_relations relation_cmp
  compare_model old = do
    new ← or_no (first (λ m. same m.name old.name) incoming.models) (model_removed old.name)
    reject (not (new.version == old.version)) (version_changed old.name)
    reject (not (same_texts new.identity old.identity)) (identity_changed old.name)
    reject (not (same_lists new.unique old.unique)) (unique_changed old.name)
    reject
        (not (
          same_relations (sort_by relation_cmp old.relations) (sort_by relation_cmp new.relations)))
        (relations_changed old.name)
    old_fields old new old.fields
    new_fields old new new.fields

  unfoldable pub compare_models : List ModelDescriptor → Judged (List AdditiveStep)
  unfolding compare_model
  compare_models [] = yes []
  compare_models (m ∷ ms) = do
    steps ← compare_model m
    more ← compare_models ms
    yes (steps ++ more)

  -- The incoming models that the database does not have.
  unfoldable pub added_models : List ModelDescriptor → List AdditiveStep
  added_models [] = []
  added_models (m ∷ ms) =
      let rest = added_models ms in
      if any (λ n. same n.name m.name) stored.models then rest else add_model m.name ∷ rest

  abbrev pub of_steps : List AdditiveStep → Compatibility
  of_steps [] = identical
  of_steps (s ∷ ss) = additive (s ∷ ss)

  unfoldable pub compatibility : Compatibility
  unfolding compare_models added_models
  compatibility = elim (compare_models stored.models) [
    | no r ↦ incompatible r
    | yes steps ↦ of_steps (steps ++ added_models incoming.models)
  ]
