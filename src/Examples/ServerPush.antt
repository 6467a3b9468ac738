-- ===== src/Examples/ServerPush.antt =====
-- A push and a pull of crates/server/src/lib.rs served by a small host: it keeps one client's receipt, and its
-- handler changes nothing.
use ahead.Common.{ℕ, ◌≡◌, refl, true, [], ◌∷◌, Option, none, some, ok, map, All, arith, ◌∙◌}
use ahead.Common.Text.{Text, codes}
use ahead.Common.Order.{lex, text_ord}
use ahead.Common.Map.{insert, lookup}
use ahead.Common.Sort.{sort_by, sort_insert}
use ahead.Core.Json.{
  Value, num, obj, arr, text, natural, field, end, cons, nil, Serde, get, index, canonical_json,
  same_value,
}
use ahead.Core.Counter.{read_counter, read_models, counter}
use ahead.Core.Push.{PushRequest, decode_push}
use ahead.Core.Page.{PullPage, PullRequest}
use ahead.Core.Record.{
  PushReceipt, validate_receipt, unique_records, unique_from, validate_record, rejections_from, key,
}
use ahead.Core.Encode.{encode_receipt, record_value, receipt_value}
use ahead.Core.Schema.{
  encoded, encoded_identity, state, first, record_key, model, identity_from, normalize_value, value,
  scalar, field_of, state_from,
}
use ahead.Client.Downlink.{answers}
use ahead.Server.Config.{descriptor, version_of, contract, machine_name, Config, Slot, done}
use ahead.Server.Host.{
  claim, save_receipt, head, scan, savepoint, rollback, release, handle, load, advance_stamp,
  ensure_stamp, publish, answered, Host, Claimed, rows, settled, call_typed,
}
use ahead.Server.Host.Monitor.{idle, watched, Triple}
use ahead.Server.Push.{
  process_push, sequenced, accept_batch, run_batch, one_mutation, unserved, run_mutation,
  settle_handled, conclude, keep_results, change_set, keys_from,
}
use ahead.Server.Slots.{
  decode, take_slots, take_operations, create_data, check_slots, check_bindings,
}
use ahead.Server.Readback.{
  members_from, read_back, insert_change, undeclared, allocate_stamps, groups_from, load_groups,
  publish_intents, of_rows, row_records, resolve,
}
use ahead.Server.Push.Batch.{process_push-Idle}
use ahead.Server.Push.Answers.{Keeps, process_push-again, process_push-Claims}
use ahead.Server.Push.Ordered.{Ordered, process_push-Ordered}
use ahead.Server.Push.Rejections.{Picked, accept_batch-Picked}
use ahead.Server.Pull.{
  pull_page, pull_channels, pull_channel, check_rows, load_records, group_records,
}
use ahead.Server.Pull.Ranges.{Moves, pull_page-answers}
use ahead.Examples.Encoding.{no_uuids, old_schema, id_field, title}

abbrev operation : Value
operation = obj (
    field (codes "identity") (obj (field (codes "id") (text (codes "1")) end)) (
      field (codes "model") (text (codes "Todo")) (
        field (codes "op") (text (codes "create"))
          (field (codes "values") (obj (field (codes "title") (text (codes "x")) end)) end))))

abbrev act : Text → ℕ → Value
act name ordinal = obj (
    field (codes "name") (text name) (
      field (codes "operations") (arr (cons operation nil))
        (field (codes "ordinal") (num (natural ordinal)) end)))

-- The first batch of a client: a mutation that is served, and one that is not.
abbrev batch : Value
batch = obj (
    field (codes "batchSequence") (num (natural 1)) (
      field (codes "clientId") (text (codes "c")) (
        field (codes "models") (obj (field (codes "Todo") (num (natural 1)) end)) (
          field (codes "mutations")
            (arr (cons (act (codes "add") 1) (cons (act (codes "drop") 2) nil))) end))))

-- The ninth batch.
abbrev far : Value
far = obj (
    field (codes "batchSequence") (num (natural 9)) (
      field (codes "clientId") (text (codes "c")) (
        field (codes "models") (obj (field (codes "Todo") (num (natural 1)) end))
          (field (codes "mutations") (arr (cons (act (codes "add") 1) nil)) end))))

-- A parser that reads the first batch in an empty text, and the ninth in any other.
abbrev parser : Serde
parser = record {
  from_slice = λ t. some (elim t [ [] ↦ batch | c ∷ cs ↦ far ]);
  repeated = λ t. [];
  quote = λ t. t;
  scalar = λ v. ok [];
}

abbrev request : PushRequest
request = record {
  client_id = codes "c";
  batch_sequence = 1;
  mutations =
      record { ordinal = 1; raw = act (codes "add") 1 }
      ∷ record { ordinal = 2; raw = act (codes "drop") 2 }
      ∷ [];
  models = (codes "Todo", 1) ∷ [];
  raw = batch;
}

abbrev slot : Slot
slot = record {
  name = codes "todo";
  model = codes "Todo";
  operation = codes "create";
  cardinality = codes "single";
  allowed_patch_fields = [];
  bindings = [];
}

abbrev config : Config
config = record {
  schema = old_schema;
  mutations =
      record { name = codes "add"; version = 1; slots = slot ∷ []; input = none; known_fields = [] }
      ∷ [];
  loaders = codes "Todo" ∷ [];
  models =
      record {
        name = codes "Todo";
        version = 1;
        identity = codes "id" ∷ [];
        fields = id_field ∷ title ∷ [];
        enums = [];
        contract = some old_schema;
      }
      ∷ [];
}

abbrev row : Value → Option Value
row identity = some (obj (field (codes "title") (text (codes "x")) end))

-- The last sequence and its receipt.
abbrev Store : Type 0
Store = ℕ × Option Text

abbrev small_host : Host Store
small_host (claim owner client) s =
    (s, answered (record { client_id = client; owner = owner; sequence = s.0; receipt = s.1 }))
small_host (save_receipt owner client sequence receipt) s = ((sequence, some receipt), answered tt)
small_host (head channel) s = (s, answered 7)
small_host (scan channel after limit) s = (s, answered [])
small_host (savepoint ordinal) s = (s, answered tt)
small_host (rollback ordinal) s = (s, answered tt)
small_host (release ordinal) s = (s, answered tt)
small_host (handle name version arguments owner ordinal) s = (s, answered (settled [] []))
small_host (load model version identities owner) s = (s, answered (rows (map row identities)))
small_host (advance_stamp model identity_key) s = (s, answered 1)
small_host (ensure_stamp model identity_key) s = (s, answered 1)
small_host (publish channel model identity identity_key stamp) s =
    (s, answered (record { cursor = 1; stamp = stamp }))

process_push-Idle_example :
    Triple {S = Store} idle idle
      (process_push parser no_uuids config (watched small_host) (codes "o") [])
process_push-Idle_example = process_push-Idle parser no_uuids config small_host (codes "o") []

decodes : decode_push parser [] ≡ ok request
unfolding decode_push index lex read_counter read_models lookup insert
decodes = refl

-- Its parts, where the text of every scalar and of every stamp is empty.
abbrev receipt_text : Text
receipt_text =
    codes
      "{batchSequence:,clientId:,records:[{identity:{id:},model:,stamp:,state:{title:}}],rejections:[{code:,ordinal:}]}"

first_accepted :
    accept_batch parser no_uuids config small_host (codes "o") request (0, none)
    ≡ ((1, some receipt_text), done receipt_text)
unfolding accept_batch run_batch one_mutation unserved descriptor decode run_mutation settle_handled
    conclude keep_results index lex read_counter lookup insert call_typed encoded canonical_json
    members_from read_back encoded_identity state encode_receipt validate_receipt counter get
    version_of first take_slots take_operations create_data record_key model identity_from
    normalize_value value scalar field_of state_from check_slots change_set keys_from insert_change
    undeclared allocate_stamps groups_from load_groups publish_intents of_rows contract row_records
    unique_records unique_from validate_record record_value receipt_value rejections_from sort_by
    sort_insert same_value resolve machine_name key check_bindings
first_accepted = refl

runs :
    process_push parser no_uuids config small_host (codes "o") [] (0, none)
    ≡ ((1, some receipt_text), done receipt_text)
unfolding sequenced lex
runs =
    process_push-Claims parser no_uuids config small_host (codes "o") [] request
      (record { client_id = codes "c"; owner = codes "o"; sequence = 0; receipt = none }) (0, none)
      (0, none) (record { named = refl; decoded = decodes; claimed = refl })
    ∙ first_accepted

keeps : Keeps parser no_uuids config small_host
keeps = record {
  claim_again =
      λ owner client locked s s' h. let same_store : s ≡ s' = cc in rw (← same_store) (s', h);
  claim_saved = λ owner client receipt sequence s s' h.
      let same_store : (sequence, some receipt) ≡ s' = cc in (s', rw (← same_store) refl);
}

-- The first batch, sent again.
process_push-again_example :
    (r : PushRequest) × (locked : Claimed) × (t : Store) × (small_host
        (claim (codes "o") r.client_id)
        (1, some receipt_text)
      ≡ (t, answered locked))
    × (process_push parser no_uuids config small_host (codes "o") [] (1, some receipt_text)
        ≡ (t, done receipt_text))
process_push-again_example =
    process_push-again parser no_uuids config small_host (codes "o") [] receipt_text (0, none)
      (1, some receipt_text) keeps runs

abbrev far_request : PushRequest
far_request = record {
  client_id = codes "c";
  batch_sequence = 9;
  mutations = record { ordinal = 1; raw = act (codes "add") 1 } ∷ [];
  models = (codes "Todo", 1) ∷ [];
  raw = far;
}

decodes_far : decode_push parser (codes "x") ≡ ok far_request
unfolding decode_push index lex read_counter read_models lookup insert
decodes_far = refl

-- The ninth batch after the first.
process_push-Ordered_example :
    (locked : Claimed) × (t : Store) × (small_host
        (claim (codes "o") (codes "c"))
        (1, some receipt_text)
      ≡ (t, answered locked))
    × ((process_push parser no_uuids config small_host
          (codes "o")
          (codes "x")
          (1, some receipt_text)).0
        ≡ t)
    × Ordered parser no_uuids config small_host 1 9 receipt_text
        (process_push parser no_uuids config small_host
          (codes "o")
          (codes "x")
          (1, some receipt_text)).1
process_push-Ordered_example =
    process_push-Ordered parser no_uuids config small_host (codes "o") [] (codes "x") receipt_text
      request far_request (0, none) (1, some receipt_text) keeps runs decodes decodes_far refl
      (λ e. omega (arith, e))

accept_batch-Picked_example :
    (receipt : PushReceipt) × (encode_receipt parser receipt ≡ ok receipt_text)
    × (receipt.client_id ≡ codes "c")
    × (receipt.batch_sequence ≡ 1)
    × Picked receipt.rejections request.mutations
accept_batch-Picked_example =
    accept_batch-Picked parser no_uuids config small_host (codes "o") request (0, none)
      (1, some receipt_text) receipt_text first_accepted

abbrev asked : PullRequest
asked = record { models = (codes "Todo", 1) ∷ []; cursors = (codes "a", 3) ∷ [] }

abbrev page : PullPage
page = record { cursors = (codes "a", record { from = 3; to = 7; head = 7 }) ∷ []; changes = [] }

served :
    pull_page parser no_uuids config small_host (codes "o") asked (0, none) ≡ ((0, none), done page)
unfolding pull_page pull_channels pull_channel check_rows call_typed insert load_records
    group_records
served = refl

pull_page-answers_example : (answers page asked ≡ true) × All (λ e. Moves e.1) page.cursors
pull_page-answers_example =
    pull_page-answers parser no_uuids config small_host (codes "o") asked (0, none) (0, none) page
      (tt, tt) served
