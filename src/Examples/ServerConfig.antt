-- ===== src/Examples/ServerConfig.antt =====
-- A configuration of crates/server/src/lib.rs that is accepted.
use ahead.Common.{◌≡◌, refl, [], ◌∷◌, none, some}
use ahead.Common.Order.{lex}
use ahead.Common.Text.{codes}
use ahead.Server.Config.{Config, Slot, done}
use ahead.Server.Config.Check.{
  check_config, check_mutations, check_slot_list, check_capabilities, check_mutation_bindings,
  check_slot_bindings, check_binding_list, check_loaders, fill_contracts, check_retained,
}
use ahead.Server.Config.Check.Served.{Served, check_config-Served}
use ahead.Examples.Encoding.{old_schema, id_field, title}

abbrev slot : Slot
slot = record {
  name = codes "todo";
  model = codes "Todo";
  operation = codes "create";
  cardinality = codes "single";
  allowed_patch_fields = [];
  bindings = [];
}

-- A configuration that retains no contract.
abbrev config : Config
config = record {
  schema = old_schema;
  mutations =
      record { name = codes "add"; version = 1; slots = slot ∷ []; input = none; known_fields = [] }
      ∷ [];
  loaders = codes "Todo" ∷ [];
  models = [];
}

-- The same with the contract of its own version.
abbrev accepted : Config
accepted = record config {
  models =
      record {
        name = codes "Todo";
        version = 1;
        identity = codes "id" ∷ [];
        fields = id_field ∷ title ∷ [];
        enums = [];
        contract = some old_schema;
      }
      ∷ [];
}

is_accepted : check_config config ≡ done accepted
unfolding check_config check_mutations check_slot_list check_capabilities check_mutation_bindings
    check_slot_bindings check_binding_list check_loaders fill_contracts check_retained lex
is_accepted = refl

check_config-Served_example : Served accepted accepted.schema.models
check_config-Served_example = check_config-Served config accepted is_accepted
