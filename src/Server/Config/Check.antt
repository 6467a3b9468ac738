-- ===== src/Server/Config/Check.antt =====
-- `Config::decode` of crates/server/src/lib.rs, once serde has read the configuration.
pub mod Served
use ahead.Common.{
  ℕ, ◌≡◌, refl, Bool, true, false, not, ◌&&◌, ◌||◌, List, [], ◌∷◌, Option, none, some, Result, ok,
  err, any, keep, map, if◌then◌else◌, ◌==◌, leb, length, is_some, All,
}
use ahead.Common.Text.{Text, codes, is_empty}
use ahead.Common.Order.{same, text_ord}
use ahead.Core.Counter.{max_safe_integer}
use ahead.Core.Subscribe.{same_texts}
use ahead.Core.Schema.{
  ValueType, enum_type, FieldDescriptor, EnumDescriptor, ModelDescriptor, Schema, among, first,
  model,
}
use ahead.Core.Schema.Check.{validate}
use ahead.Server.Config.{
  Outcome, refused, done, ◌>>=◌, ◌>>◌, under, or_code, refuse_code, config_invalid, Config,
  Mutation, Slot, Binding, ModelContract, contract_schema, contract,
}

-- A version is a positive safe integer.
abbrev pub bad_version : ℕ → Bool
bad_version v = v == 0 || not (leb v max_safe_integer)

abbrev pub holds_version : Text → ℕ → List (Text × ℕ) → Bool
holds_version name version seen = any (λ e. same e.0 name && e.1 == version) seen

-- The fields that an update may patch: none twice, none of the identity, each a field of the model.
unfoldable pub check_capabilities : ModelDescriptor → List Text → List Text → Outcome (Unit {0})
check_capabilities m [] seen = done tt
check_capabilities m (f ∷ fs) seen = do
  refuse_code (among f seen || (among f m.identity || not (any (λ g. same g.name f) m.fields)))
      config_invalid
  check_capabilities m fs (f ∷ seen)

abbrev none_of : List Text → Bool
none_of [] = true
none_of (x ∷ xs) = false

unfoldable pub check_slot_list : Schema → List Slot → List Text → Outcome (Unit {0})
unfolding check_capabilities model
check_slot_list schema [] seen = done tt
check_slot_list schema (s ∷ slots) seen = do
  m ← under config_invalid (model schema s.model)
  refuse_code (not (same s.operation (codes "update")) && not (none_of s.allowed_patch_fields))
      config_invalid
  check_capabilities m s.allowed_patch_fields []
  refuse_code
      (among s.name seen
        || (not (among s.cardinality (codes "single" ∷ codes "optional" ∷ codes "list" ∷ []))
            || not (among s.operation (codes "create" ∷ codes "update" ∷ codes "delete" ∷ []))))
      config_invalid
  check_slot_list schema slots (s.name ∷ seen)

abbrev input_schema : Config → Mutation → Schema
input_schema c m = elim m.input [ none ↦ c.schema | some s ↦ s ]

unfoldable pub check_mutations : Config → List Mutation → List (Text × ℕ) → Outcome (Unit {0})
unfolding check_slot_list validate
check_mutations c [] seen = done tt
check_mutations c (m ∷ ms) seen = do
  refuse_code (is_empty m.name || (bad_version m.version || holds_version m.name m.version seen))
      config_invalid
  under config_invalid (validate (input_schema c m))
  check_slot_list (input_schema c m) m.slots []
  check_mutations c ms ((m.name, m.version) ∷ seen)

-- A binding names a single slot, with a field of the child for each field of the parent's identity.
unfoldable pub check_binding_list : Schema → Mutation → Slot → List Binding → Outcome (Unit {0})
unfolding first model
check_binding_list schema m slot [] = done tt
check_binding_list schema m slot (b ∷ bs) = do
  parent ← or_code (first (λ s. same s.name b.slot) m.slots) config_invalid
  parent_model ← under config_invalid (model schema parent.model)
  child ← under config_invalid (model schema slot.model)
  refuse_code
      (not (same parent.cardinality (codes "single"))
        || (not (length b.fields == length parent_model.identity)
            || any (λ n. not (any (λ f. same f.name n) child.fields)) b.fields))
      config_invalid
  check_binding_list schema m slot bs

unfoldable pub check_slot_bindings : Schema → Mutation → List Slot → Outcome (Unit {0})
unfolding check_binding_list
check_slot_bindings schema m [] = done tt
check_slot_bindings schema m (s ∷ slots) = do
  check_binding_list schema m s s.bindings
  check_slot_bindings schema m slots

unfoldable pub check_mutation_bindings : Config → List Mutation → Outcome (Unit {0})
unfolding check_slot_bindings
check_mutation_bindings c [] = done tt
check_mutation_bindings c (m ∷ ms) = do
  check_slot_bindings (input_schema c m) m m.slots
  check_mutation_bindings c ms

unfoldable pub check_loaders : Config → List Text → Outcome (Unit {0})
unfolding model
check_loaders c [] = done tt
check_loaders c (name ∷ names) = do
  under config_invalid (model c.schema name)
  check_loaders c names

abbrev uses_enum : Text → FieldDescriptor → Bool
uses_enum name f = elim f.value_type [ enum_type n ↦ same n name | _ ↦ false ]

abbrev own_contract : Schema → ModelDescriptor → ModelContract
own_contract schema m = record {
  name = m.name;
  version = m.version;
  identity = m.identity;
  fields = m.fields;
  enums = keep (λ e. any (uses_enum e.name) m.fields) schema.enums;
  contract = none;
}

-- Where no contract is retained, each model is at the schema's own version.
abbrev pub retained_models : Config → List ModelContract
retained_models c = elim c.models [
  | [] ↦ map (own_contract c.schema) c.schema.models
  | m ∷ ms ↦ m ∷ ms
]

-- The contracts with their schemas, and the versions that are retained.
unfoldable pub fill_contracts :
    Config → List ModelContract → List (Text × ℕ) → Outcome (List ModelContract × List (Text × ℕ))
unfolding contract_schema validate model same_texts
fill_contracts c [] seen = done ([], seen)
fill_contracts c (k ∷ ks) seen = do
  current ← under config_invalid (model c.schema k.name)
  refuse_code
      (bad_version k.version
        || (holds_version k.name k.version seen || not (same_texts k.identity current.identity)))
      config_invalid
  under config_invalid (validate (contract_schema k))
  (rest, retained) ← fill_contracts c ks ((k.name, k.version) ∷ seen)
  done (record k { contract = some (contract_schema k) } ∷ rest, retained)

unfoldable pub check_retained : List ModelDescriptor → List (Text × ℕ) → Outcome (Unit {0})
check_retained [] retained = done tt
check_retained (m ∷ ms) retained = do
  refuse_code (not (holds_version m.name m.version retained)) config_invalid
  check_retained ms retained

unfoldable pub check_config : Config → Outcome Config
unfolding check_mutations check_mutation_bindings check_loaders fill_contracts check_retained
    validate
check_config c = do
  under config_invalid (validate c.schema)
  check_mutations c c.mutations []
  check_mutation_bindings c c.mutations
  check_loaders c c.loaders
  (models, retained) ← fill_contracts c (retained_models c) []
  check_retained c.schema.models retained
  done (record c { models = models })
