-- ===== src/Core/Schema/Check.antt =====
-- `Schema::validate` of crates/core/src/schema.rs.
use ahead.Common.{
  ℕ, Bool, true, false, not, ◌&&◌, ◌||◌, List, [], ◌∷◌, none, some, Result, ok, ◌>>=◌, ◌>>◌, refuse,
  or_fail, each, ltb, ◌==◌, any, length, schema_models_empty, schema_enum_invalid,
  schema_model_reserved, schema_model_invalid, schema_version_invalid, schema_field_invalid,
  schema_list_nullable, schema_identity_missing, schema_identity_invalid,
  schema_prerequisite_invalid, schema_prerequisite_argument, schema_unique_invalid,
  schema_relation_invalid, schema_reference_missing, schema_target_missing, schema_reference_type,
  enum_unknown, list_element_invalid,
}
use ahead.Common.Text.{Text, codes, is_empty}
use ahead.Common.Map.{values}
use ahead.Common.Order.{same, text_ord}
use ahead.Core.Subscribe.{same_texts}
use ahead.Core.Json.{Value, index, as_str}
use ahead.Core.Counter.{max_safe_integer}
use ahead.Core.Schema.{
  ScalarType, string, boolean, int, float, date_time, uuid, ValueType, scalar_type, enum_type,
  list_type, FieldDescriptor, RelationDescriptor, EnumDescriptor, ModelDescriptor,
  RequirementDescriptor, Schema, among, reserved_model_name, field_of, model,
}

-- Whether a set of the texts is as large as their list.
unfoldable pub distinct : List Text → Bool
distinct [] = true
distinct (x ∷ xs) = not (among x xs) && distinct xs

abbrev pub none_of {ℓ} : {A : Type ℓ} → List A → Bool
none_of [] = true
none_of (x ∷ xs) = false

abbrev scalar_index : ScalarType → ℕ
scalar_index string = 0
scalar_index boolean = 1
scalar_index int = 2
scalar_index float = 3
scalar_index date_time = 4
scalar_index uuid = 5

-- Whether two types are serialized as one value.
unfoldable pub same_type : ValueType → ValueType → Bool
same_type (scalar_type a) (scalar_type b) = scalar_index a == scalar_index b
same_type (enum_type a) (enum_type b) = same a b
same_type (list_type a) (list_type b) = same_type a b
same_type _ _ = false

abbrev pub is_list : ValueType → Bool
is_list (list_type t) = true
is_list _ = false

abbrev pub is_scalar : ValueType → Bool
is_scalar (scalar_type t) = true
is_scalar _ = false

-- The loop over the enums, with the names seen so far.
unfoldable pub check_enums : List EnumDescriptor → List Text → Result (List Text)
unfolding distinct
check_enums [] names = ok names
check_enums (en ∷ ens) names = do
  refuse
      (is_empty en.name
        || (among en.name names
            || (none_of en.values || (any is_empty en.values || not (distinct en.values)))))
      schema_enum_invalid
  check_enums ens (en.name ∷ names)

module _ (s : Schema) where
  unfoldable pub validate_type : ValueType → Result (Unit {0})
  validate_type (enum_type name) = refuse (not (any (λ e. same e.name name) s.enums)) enum_unknown
  validate_type (list_type element) = refuse (not (is_scalar element)) list_element_invalid
  validate_type (scalar_type t) = ok tt

  unfoldable pub check_fields : List FieldDescriptor → List Text → Result (Unit {0})
  unfolding validate_type
  check_fields [] seen = ok tt
  check_fields (f ∷ fs) seen = do
    refuse (is_empty f.name || among f.name seen) schema_field_invalid
    validate_type f.value_type
    refuse (is_list f.value_type && f.nullable) schema_list_nullable
    check_fields fs (f.name ∷ seen)

  unfoldable pub check_identity : ModelDescriptor → List Text → List Text → Result (Unit {0})
  unfolding field_of
  check_identity m [] seen = ok tt
  check_identity m (name ∷ names) seen = do
    f ← or_fail (field_of m name) schema_identity_missing
    refuse (among name seen || (f.nullable || not (is_scalar f.value_type))) schema_identity_invalid
    check_identity m names (name ∷ seen)

  unfoldable pub check_descriptors : List ModelDescriptor → List Text → Result (Unit {0})
  unfolding check_fields check_identity reserved_model_name
  check_descriptors [] names = ok tt
  check_descriptors (m ∷ ms) names = do
    refuse (reserved_model_name m.name) schema_model_reserved
    refuse (is_empty m.name || (among m.name names || none_of m.identity)) schema_model_invalid
    refuse (m.version == 0 || ltb max_safe_integer m.version) schema_version_invalid
    check_fields m.fields []
    check_identity m m.identity []
    check_descriptors ms (m.name ∷ names)

  abbrev names_prerequisite : Text → Value → Bool
  names_prerequisite name p = elim (as_str (index p (codes "name"))) [
    | none ↦ false
    | some t ↦ same t name
  ]

  abbrev check_requirement : RequirementDescriptor → Result (Unit {0})
  check_requirement r = do
    m ← model s r.model
    refuse
        (not (any (λ f. same f.name r.field) m.fields)
          || not (any (names_prerequisite r.name) s.prerequisites))
        schema_prerequisite_invalid
    refuse (any (λ v. not (same v (codes "self"))) (values r.arguments))
        schema_prerequisite_argument

  abbrev check_unique : ModelDescriptor → List Text → Result (Unit {0})
  check_unique m fields =
      refuse
        (none_of fields
          || (not (distinct fields) || any (λ n. not (any (λ f. same f.name n) m.fields)) fields))
        schema_unique_invalid

  -- The pairs of a local and a target field of a relation have one type.
  unfoldable pub check_pairs :
      ModelDescriptor → ModelDescriptor → List Text → List Text → Result (Unit {0})
  unfolding field_of same_type
  check_pairs m target (l ∷ ls) (r ∷ rs) = do
    local ← or_fail (field_of m l) schema_reference_missing
    remote ← or_fail (field_of target r) schema_target_missing
    refuse (not (same_type local.value_type remote.value_type)) schema_reference_type
    check_pairs m target ls rs
  check_pairs m target _ _ = ok tt

  unfoldable pub check_relations :
      ModelDescriptor → List RelationDescriptor → List Text → Result (Unit {0})
  unfolding check_pairs model
  check_relations m [] seen = ok tt
  check_relations m (r ∷ rs) seen = do
    target ← model s r.target
    refuse
        (is_empty r.name
          || (among r.name seen
              || (not (length r.fields == length target.identity)
                  || (not (same_texts r.target_fields target.identity)
                      || not (among r.on_delete (codes "delete" ∷ codes "none" ∷ []))))))
        schema_relation_invalid
    check_pairs m target r.fields r.target_fields
    check_relations m rs (r.name ∷ seen)

  abbrev check_constraints : ModelDescriptor → Result (Unit {0})
  check_constraints m = do each (check_unique m) m.unique; check_relations m m.relations []

  unfoldable pub validate : Result (Unit {0})
  unfolding check_enums check_descriptors check_relations each distinct
  validate = do
    refuse (none_of s.models) schema_models_empty
    names ← check_enums s.enums []
    check_descriptors s.models names
    each check_requirement s.requirements
    each check_constraints s.models
