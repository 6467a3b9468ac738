-- ===== src/Examples/Encoding.antt =====
-- Encoding and normalizing values of crates/core at concrete inputs.
use ahead.Common.{◌≡◌, ◌≢◌, refl, true, false, List, [], ◌∷◌, none, some, ok, each, All, any}
use ahead.Common.Text.{Text, codes, as_bytes}
use ahead.Common.Order.{lex, text_ord, same}
use ahead.Common.Map.{insert, lookup, contains_key}
use ahead.Common.Map.Sorted.{IsSorted}
use ahead.Common.Sort.{sort_by}
use ahead.Core.Json.{Value, null, obj, text, field, end, of_entries}
use ahead.Core.Counter.{counter}
use ahead.Core.Record.{unique_records, unique_from}
use ahead.Core.Page.{
  PullRequest, validate_page, decode_page, decode_request, check_request, check_models,
}
use ahead.Core.Encode.{page_value, request_value}
use ahead.Core.Encode.RoundTrip.{decode_page-page_value, decode_request-request_value}
use ahead.Core.Subscribe.{same_texts}
use ahead.Core.Schema.{
  scalar_type, string, int, uuid, FieldDescriptor, ModelDescriptor, Schema, Scalars,
  normalize_value, value, scalar, uuid_value, state, state_from, model, first, content_fields,
}
use ahead.Core.Schema.Values.{Hyphenated, normalize_value-again}
use ahead.Core.Schema.Fields.{state-fields}
use ahead.Core.Schema.Check.{same_type}
use ahead.Core.Schema.Compatibility.{
  Reason, compatibility, incompatible, compare_models, compare_model, old_fields, new_fields,
  added_models, same_lists, same_relations, additive, add_field,
}
use ahead.Core.Schema.Compatibility.Laws.{compatibility-keeps, ModelKept}
use ahead.Examples.Protocol.{decoded, one_page}

decode_page-page_value_example : decode_page one_page (page_value decoded) ≡ ok decoded
unfolding validate_page unique_records unique_from counter each
decode_page-page_value_example = decode_page-page_value one_page decoded (tt, tt) refl

abbrev asked : PullRequest
asked = record { models = (codes "Todo", 2) ∷ []; cursors = (codes "a", 3) ∷ (codes "b", 0) ∷ [] }

decode_request-request_value_example : decode_request (request_value asked) ≡ ok asked
unfolding check_request check_models each lex
decode_request-request_value_example =
    decode_request-request_value asked (tt, tt) ((refl, tt), (tt, tt)) refl

abbrev pub title : FieldDescriptor
title = record {
  name = codes "title";
  value_type = scalar_type string;
  nullable = false;
  default = none;
}

abbrev pub rank : FieldDescriptor
rank = record { name = codes "rank"; value_type = scalar_type int; nullable = true; default = none }

abbrev pub id_field : FieldDescriptor
id_field = record {
  name = codes "id";
  value_type = scalar_type string;
  nullable = false;
  default = none;
}

abbrev pub todo : List FieldDescriptor → ModelDescriptor
todo fields = record {
  name = codes "Todo";
  version = 1;
  identity = codes "id" ∷ [];
  fields = fields;
  relations = [];
  unique = [];
}

abbrev pub todo_schema : List FieldDescriptor → Schema
todo_schema fields = record {
  enums = [];
  models = todo fields ∷ [];
  requirements = [];
  prerequisites = [];
}

abbrev pub old_schema : Schema
old_schema = todo_schema (id_field ∷ title ∷ [])

abbrev pub new_schema : Schema
new_schema = todo_schema (id_field ∷ title ∷ rank ∷ [])

-- A crate uuid that reads no text.
abbrev pub no_uuids : Scalars
no_uuids = record { parse_uuid = λ s. none; parse_rfc3339 = λ s. none; round = λ n. n }

abbrev zeros : Text
zeros = codes "01234567-89ab-4def-8123-456789abcdef"

-- A crate uuid that reads every text as one UUID.
abbrev one_uuid : Scalars
one_uuid = record {
  parse_uuid = λ s. some (record { hyphenated = zeros; rfc4122 = true; version = 4 });
  parse_rfc3339 = λ s. none;
  round = λ n. n;
}

one_uuid-Hyphenated : Hyphenated one_uuid
unfolding as_bytes
one_uuid-Hyphenated s u h =
    let e : record { hyphenated = zeros; rfc4122 = true; version = 4 } ≡ u = cc in
    rw (← e) (refl, refl)

added_rank :
    compatibility old_schema new_schema ≡ additive (add_field (codes "Todo") (codes "rank") ∷ [])
unfolding compatibility compare_models compare_model old_fields new_fields added_models same_lists
    same_relations first same_type lex sort_by same_texts
added_rank = refl

accepted : (r : Reason) → compatibility old_schema new_schema ≢ incompatible r
accepted r h = let e = added_rank in cc

compatibility-keeps_example : All (ModelKept old_schema new_schema) old_schema.models
compatibility-keeps_example = compatibility-keeps old_schema new_schema accepted

abbrev reference : FieldDescriptor
reference = record {
  name = codes "ref";
  value_type = scalar_type uuid;
  nullable = true;
  default = none;
}

normalize_value-again_example :
    normalize_value one_uuid new_schema reference (text zeros) ≡ ok (text zeros)
unfolding normalize_value value scalar uuid_value as_bytes
normalize_value-again_example =
    normalize_value-again one_uuid one_uuid-Hyphenated new_schema reference (text zeros)
      (text zeros) refl refl

abbrev todo_state : Value
todo_state = obj (field (codes "title") (text (codes "x")) end)

abbrev todo_normal : Value
todo_normal = obj (field (codes "rank") null (field (codes "title") (text (codes "x")) end))

normal : state no_uuids new_schema (codes "Todo") todo_state false ≡ ok todo_normal
unfolding state state_from model first normalize_value value scalar insert lookup lex
normal = refl

state-fields_example :
    (m : ModelDescriptor) × (fields : List (Text × Value)) × (model new_schema (codes "Todo")
      ≡ ok m)
    × (todo_normal ≡ obj (of_entries fields))
    × IsSorted fields
    × ((k : Text) → contains_key k fields ≡ any (λ f. same f.name k) (content_fields m))
state-fields_example =
    state-fields no_uuids new_schema (codes "Todo") todo_state false todo_normal normal
