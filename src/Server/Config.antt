-- ===== src/Server/Config.antt =====
-- The configuration of crates/server/src/lib.rs, and the error codes of crates/server/src/error.rs. An error
-- is its code: messages and details are for people.
pub mod Check
use ahead.Common.{
  ℕ, Bool, true, false, not, ◌&&◌, List, [], ◌∷◌, Option, none, some, Result, ok, err, ◌==◌,
  if◌then◌else◌, is_some, ◌+◌, leb,
}
use ahead.Common.Text.{Text, codes}
use ahead.Common.Order.{same, text_ord}
use ahead.Core.Json.{Value, num, natural, get, index, as_str}
use ahead.Core.Counter.{read_counter}
use ahead.Core.Schema.{FieldDescriptor, EnumDescriptor, Schema, first, model}

-- A result, or the code it is refused with.
pub data Outcome (A : Type 0) : Type 0 where
  refused : Text → Outcome A
  done : A → Outcome A

infixl 5 ◌>>=◌ ◌>>◌
abbrev pub ◌>>=◌ : {A B : Type 0} → Outcome A → (A → Outcome B) → Outcome B
refused c >>= next = refused c
done a >>= next = next a

abbrev pub ◌>>◌ : {A B : Type 0} → Outcome A → Outcome B → Outcome B
step >> next = step >>= λ a. next

-- `map_err` to a code.
abbrev pub under : {A : Type 0} → Text → Result A → Outcome A
under c (ok a) = done a
under c (err e) = refused c

abbrev pub or_code : {A : Type 0} → Option A → Text → Outcome A
or_code none c = refused c
or_code (some a) c = done a

abbrev pub refuse_code : Bool → Text → Outcome (Unit {0})
refuse_code true c = refused c
refuse_code false c = done tt

abbrev pub request_invalid : Text
request_invalid = codes "request.invalid"

abbrev pub owner_mismatch : Text
owner_mismatch = codes "client.owner_mismatch"

abbrev pub gap_code : Text
gap_code = codes "gap"

abbrev pub overlap_code : Text
overlap_code = codes "overlap"

abbrev pub mutation_version_unsupported : Text
mutation_version_unsupported = codes "mutation_version_unsupported"

abbrev pub model_version_unsupported : Text
model_version_unsupported = codes "model_version_unsupported"

abbrev pub principal_invalid : Text
principal_invalid = codes "principal.invalid"

abbrev pub config_invalid : Text
config_invalid = codes "config.invalid"

abbrev pub host_code : Text
host_code = codes "host"

abbrev pub host_invalid : Text
host_invalid = codes "host.invalid"

abbrev pub storage_invalid : Text
storage_invalid = codes "storage.invalid"

abbrev pub handler_invalid : Text
handler_invalid = codes "handler.invalid"

abbrev pub handler_failed : Text
handler_failed = codes "handler.failed"

abbrev pub loader_failed : Text
loader_failed = codes "loader.failed"

abbrev pub loader_unregistered : Text
loader_unregistered = codes "loader.unregistered"

abbrev pub loader_invalid : Text
loader_invalid = codes "loader.invalid"

abbrev pub publish_invalid : Text
publish_invalid = codes "publish.invalid"

abbrev pub internal_code : Text
internal_code = codes "internal"

abbrev pub mutation_invalid : Text
mutation_invalid = codes "mutation.invalid"

pub record Binding : Type 0 where
  pub fields : List Text
  pub slot : Text

pub record Slot : Type 0 where
  pub name : Text
  pub model : Text
  pub operation : Text
  pub cardinality : Text
  pub allowed_patch_fields : List Text
  pub bindings : List Binding

pub record Mutation : Type 0 where
  pub name : Text
  pub version : ℕ
  pub slots : List Slot
  pub input : Option Schema
  pub known_fields : List (Text × List Text)

pub record ModelContract : Type 0 where
  pub name : Text
  pub version : ℕ
  pub identity : List Text
  pub fields : List FieldDescriptor
  pub enums : List EnumDescriptor
  pub contract : Option Schema

pub record Config : Type 0 where
  pub schema : Schema
  pub mutations : List Mutation
  pub loaders : List Text
  pub models : List ModelContract

-- `ModelContract::schema`: the contract as a schema of one model.
unfoldable pub contract_schema : ModelContract → Schema
contract_schema c = record {
  enums = c.enums;
  models =
      record {
        name = c.name;
        version = c.version;
        identity = c.identity;
        fields = c.fields;
        relations = [];
        unique = [];
      }
      ∷ [];
  requirements = [];
  prerequisites = [];
}

-- `Config::contract`.
unfoldable pub contract : Config → Text → ℕ → Option Schema
unfolding first
contract c name version = elim (first (λ m. same m.name name && m.version == version) c.models) [
  | none ↦ none
  | some m ↦ m.contract
]

abbrev is_ok : {A : Type 0} → Result A → Bool
is_ok (ok a) = true
is_ok (err e) = false

-- `Config::check_declared`.
unfoldable pub check_declared : Config → List (Text × ℕ) → Outcome (Unit {0})
unfolding contract model
check_declared c [] = done tt
check_declared c ((name, version) ∷ rest) = do
  refuse_code (not (is_ok (model c.schema name))) model_version_unsupported
  refuse_code (not (is_some (contract c name version))) model_version_unsupported
  check_declared c rest

-- The version that a mutation names: 1 where it names none.
unfoldable pub version_of : Value → Option ℕ
version_of body =
    let v : Value = elim (get body (codes "version")) [ none ↦ num (natural 1) | some w ↦ w ] in
    elim (read_counter v true) [ err e ↦ none | ok n ↦ some n ]

-- `Config::descriptor`.
unfoldable pub descriptor : Config → Value → Outcome Mutation
unfolding first version_of
descriptor c body = do
  name ← or_code (as_str (index body (codes "name"))) mutation_invalid
  version ← or_code (version_of body) mutation_invalid
  or_code (first (λ m. same m.name name && m.version == version) c.mutations) mutation_invalid

-- The rest of `machine_name`, when the name so far is empty or not.
abbrev machine_from : Bool → Text → Text
machine_from started [] = []
machine_from started (c ∷ cs) =
    let rest = machine_from true cs in
    if leb b'A' c && leb c b'Z'
    then (if started then b'_' ∷ (c + 32) ∷ rest else (c + 32) ∷ rest)
    else c ∷ rest

unfoldable pub machine_name : Text → Text
machine_name name = machine_from false name
