-- ===== src/Server/Slots.antt =====
-- `decode` of crates/server/src/lib.rs: the uploaded operations as the arguments of a mutation's slots, and
-- the keys of the records they target.
use ahead.Common.{
  Bool, true, false, not, ◌&&◌, List, [], ◌∷◌, ◌++◌, none, some, any, keep, if◌then◌else◌,
}
use ahead.Common.Text.{Text, codes}
use ahead.Common.Map.{lookup, insert}
use ahead.Common.Order.{same, text_ord}
use ahead.Core.Json.{
  Value, null, obj, arr, field, end, get, index, as_str, as_array, as_object, is_null, of_items,
  of_entries, same_value,
}
use ahead.Core.Schema.{
  FieldDescriptor, ModelDescriptor, Schema, Scalars, RecordKey, first, field_of, model, record_key,
  normalize_value, among, content_fields,
}
use ahead.Server.Config.{
  Outcome, refused, done, ◌>>=◌, ◌>>◌, under, or_code, refuse_code, mutation_invalid,
  config_invalid, Config, Mutation, Slot, Binding, descriptor, machine_name,
}

-- `op[name] == text`.
abbrev names : Value → Text → Text → Bool
names op name t = elim (as_str (index op name)) [ none ↦ false | some u ↦ same u t ]

-- The values of a create: every field that is not of the identity, given, or null where it may be.
module _ (scalars : Scalars) (schema : Schema) where
  unfoldable pub create_data :
      List (Text × Value)
      → List FieldDescriptor
      → List (Text × Value)
      → Outcome (List (Text × Value))
  create_data source [] result = done result
  create_data source (f ∷ fs) result = do
    given ← elim (lookup f.name source) [
      | some v ↦ done v
      | none ↦ if f.nullable then done null else refused mutation_invalid
    ]
    v ← under mutation_invalid (normalize_value scalars schema f given)
    create_data source fs (insert f.name v result)

  abbrev not_allowed : Mutation → Text
  not_allowed d = machine_name d.name ++ codes ".not_allowed"

  -- Whether a field was one of the model when the mutation was published.
  abbrev is_known : Mutation → Slot → ModelDescriptor → Text → Bool
  is_known d slot m name = elim (lookup slot.model d.known_fields) [
    | none ↦ any (λ f. same f.name name) m.fields
    | some known ↦ among name known
  ]

  abbrev put_field :
      ModelDescriptor → Text → Value → List (Text × Value) → Outcome (List (Text × Value))
  put_field m name given result = elim (field_of m name) [
    | none ↦ done result
    | some f ↦ under mutation_invalid (normalize_value scalars schema f given) >>= λ v.
        done (insert name v result)
  ]

  -- The values of an update: those of the fields that the slot may patch; a field that is not known is
  -- passed over.
  unfoldable pub update_data :
      Mutation
      → Slot
      → ModelDescriptor
      → List (Text × Value)
      → List (Text × Value)
      → Outcome (List (Text × Value))
  unfolding field_of machine_name
  update_data d slot m [] result = done result
  update_data d slot m ((name, given) ∷ rest) result = do
    refuse_code (is_known d slot m name && not (among name slot.allowed_patch_fields))
        (not_allowed d)
    refuse_code (any (λ f. same f.name name) m.fields && not (among name slot.allowed_patch_fields))
        (not_allowed d)
    next ← put_field m name given result
    update_data d slot m rest next

  abbrev created : ModelDescriptor → RecordKey → List (Text × Value) → Outcome Value
  created m key source = do
    data_fields ← create_data source (content_fields m) []
    done (
        obj (
          field (codes "data") (obj (of_entries data_fields))
            (field (codes "identity") key.identity end)))

  abbrev updated :
      Mutation → Slot → ModelDescriptor → RecordKey → List (Text × Value) → Outcome Value
  updated d slot m key source = do
    patch ← update_data d slot m source []
    done (
        obj (
          field (codes "identity") key.identity
            (field (codes "patch") (obj (of_entries patch)) end)))

  -- The argument of one operation: its identity, and its data or its patch.
  abbrev argument : Mutation → Slot → ModelDescriptor → Value → RecordKey → Outcome Value
  argument d slot m op key =
      if same slot.operation (codes "delete")
      then done (obj (field (codes "identity") key.identity end))
      else or_code (as_object (index op (codes "values"))) mutation_invalid
        >>= (if same slot.operation (codes "create") then created m key else updated d slot m key)

  abbrev operation_of : Mutation → Slot → Value → Outcome (RecordKey × Value)
  operation_of d slot op = do
    m ← under mutation_invalid (model schema slot.model)
    source ← or_code (as_object (index op (codes "identity"))) mutation_invalid
    let identity : Value = obj (of_entries (keep (λ kv. among kv.0 m.identity) source))
    key ← under mutation_invalid (record_key scalars schema slot.model identity)
    value ← argument d slot m op key
    done (key, value)

  -- What a slot takes: the targets and arguments of its operations, and the operations left.
  pub record Taken : Type 0 where
    pub targets : List RecordKey
    pub values : List Value
    pub left : List Value

  abbrev is_of : Slot → Value → Bool
  is_of slot op = names op (codes "model") slot.model && names op (codes "op") slot.operation

  unfoldable pub take_operations : Mutation → Slot → List Value → Outcome Taken
  unfolding create_data update_data record_key model
  take_operations d slot [] = done (record { targets = []; values = []; left = [] })
  take_operations d slot (op ∷ ops) =
      let rest = take_operations d slot ops in
      if is_of slot op
      then operation_of d slot op >>= (λ kv.
        if same slot.cardinality (codes "list")
        then rest >>= (λ t.
          done (record { targets = kv.0 ∷ t.targets; values = kv.1 ∷ t.values; left = t.left }))
        else done (record { targets = kv.0 ∷ []; values = kv.1 ∷ []; left = ops }))
      else done (record { targets = []; values = []; left = op ∷ ops })

  abbrev slot_value : Slot → List Value → Outcome Value
  slot_value slot values =
      if same slot.cardinality (codes "list") then done (arr (of_items values)) else elim values [
        | v ∷ [] ↦ done v
        | _ ↦
            if same slot.cardinality (codes "optional") then done null else refused mutation_invalid
      ]

  -- The loop over the slots: the arguments by slot, the targets, and the operations left.
  unfoldable pub take_slots :
      Mutation
      → List Slot
      → List Value
      → List (Text × Value)
      → Outcome (List (Text × Value) × List RecordKey × List Value)
  unfolding take_operations
  take_slots d [] ops args = done (args, [], ops)
  take_slots d (slot ∷ slots) ops args = do
    taken ← take_operations d slot ops
    value ← slot_value slot taken.values
    (result, targets, left) ← take_slots d slots taken.left (insert slot.name value args)
    done (result, taken.targets ++ targets, left)

  -- The rows that a slot of this mutation takes.
  abbrev rows_of : Slot → List (Text × Value) → Outcome (List Value)
  rows_of slot args =
      let v : Value = elim (lookup slot.name args) [ none ↦ null | some w ↦ w ] in
      if same slot.cardinality (codes "list")
      then or_code (as_array v) mutation_invalid
      else done (if is_null v then [] else v ∷ [])

  -- A bound field of a row holds the identity of the parent.
  unfoldable pub check_bound : Mutation → Value → Value → List Text → List Text → Outcome (Unit {0})
  unfolding same_value
  check_bound d parent row (f ∷ fs) (id ∷ ids) = do
    let actual : Value = elim (get (index row (codes "identity")) f) [
      | none ↦ index (index row (codes "data")) f
      | some v ↦ v
    ]
    refuse_code (not (same_value actual (index (index parent (codes "identity")) id)))
        (machine_name d.name ++ codes ".invalid")
    check_bound d parent row fs ids
  check_bound d parent row _ _ = done tt

  unfoldable pub check_rows :
      Mutation → Value → List Text → List Text → List Value → Outcome (Unit {0})
  unfolding check_bound
  check_rows d parent fields ids [] = done tt
  check_rows d parent fields ids (row ∷ rows) = do
    check_bound d parent row fields ids
    check_rows d parent fields ids rows

  unfoldable pub check_bindings :
      Mutation → List (Text × Value) → Slot → List Binding → Outcome (Unit {0})
  unfolding check_rows first model
  check_bindings d args slot [] = done tt
  check_bindings d args slot (b ∷ bs) = do
    parent ← or_code (first (λ s. same s.name b.slot) d.slots) mutation_invalid
    parent_model ← under config_invalid (model schema parent.model)
    rows ← rows_of slot args
    check_rows d (elim (lookup parent.name args) [ none ↦ null | some v ↦ v ]) b.fields
        parent_model.identity rows
    check_bindings d args slot bs

  unfoldable pub check_slots : Mutation → List (Text × Value) → List Slot → Outcome (Unit {0})
  unfolding check_bindings
  check_slots d args [] = done tt
  check_slots d args (slot ∷ slots) = do
    check_bindings d args slot slot.bindings
    check_slots d args slots

abbrev no_more : List Value → Bool
no_more [] = true
no_more (v ∷ vs) = false

module _ (scalars : Scalars) where
  unfoldable pub decode : Config → Value → Outcome (Value × List RecordKey)
  unfolding take_slots check_slots descriptor
  decode c body = do
    d ← descriptor c body
    let schema : Schema = elim d.input [ none ↦ c.schema | some s ↦ s ]
    ops ← or_code (as_array (index body (codes "operations"))) mutation_invalid
    (args, targets, left) ← take_slots scalars schema d d.slots ops []
    refuse_code (not (no_more left)) mutation_invalid
    check_slots scalars schema d args (keep (λ s. same s.operation (codes "create")) d.slots)
    done (obj (of_entries args), targets)
