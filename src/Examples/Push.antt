-- ===== src/Examples/Push.antt =====
-- Batches and rejections of the client's queue at concrete inputs.
use ahead.Common.{ℕ, ◌≡◌, ◌↔◌, refl, true, false, List, [], ◌∷◌, none, some, ok, arith, map_ok}
use ahead.Common.Text.{Text, codes}
use ahead.Common.Map.{lookup, insert, contains_key}
use ahead.Common.Order.{nat_ord, text_ord, lex}
use ahead.Common.Sort.{sort_by, sort_insert}
use ahead.Core.Json.{Serde, canonical_json, index, get, find}
use ahead.Core.Counter.{read_counter, read_models, model_entries}
use ahead.Core.Push.{decode_push, encode_request, request_from_value, mutations_from}
use ahead.Core.Record.{Rejection}
use ahead.Client.Queue.{
  Mutation, Queued, Outbox, allocate_push, assign_push, pushes, in_flight, prerequisite_keys,
  add_keys, delete_mutations, insert_mutation, earlier_set, place, resolve_prerequisite,
}
use ahead.Client.Push.{
  freeze, select, takes, fits, is_blocked, unsent_set, encode_push, byte_length, request_json,
  models_value,
}
use ahead.Client.Push.Selection.{IsBatch, select_lem}
use ahead.Client.Push.Retry.{freeze_again}
use ahead.Client.Push.Meanwhile.{here, enqueued, resolved}
use ahead.Client.Rejected.{
  by_ordinal, closure, cascade, orphans, is_orphan, reject_all, mark_rejected, record_rejected,
  touch, refusal, dependency_rejected,
}
use ahead.Client.Rejected.Closure.{Reached, closure_iff}
use ahead.Client.Rejected.Settled.{Settled, mark_rejected-Settled}

abbrev mutation : List ℕ → List ℕ → Mutation
mutation lifecycle sequence = record {
  name = codes "add";
  version = 1;
  operations = [];
  companion = [];
  effects = [];
  prerequisites = [];
  lifecycle_dependencies = lifecycle;
  sequence_dependencies = sequence;
}

abbrev unsent : ℕ → List ℕ → List ℕ → Queued
unsent n lifecycle sequence = record {
  ordinal = n;
  push = none;
  diverged = false;
  mutation = mutation lifecycle sequence;
}

-- The second mutation follows the first; the third waits until the first is sent.
abbrev outbox : Outbox
outbox = record {
  client_id = codes "c";
  next_push = 7;
  push_models = none;
  queue = unsent 1 [] [] ∷ unsent 2 [] (1 ∷ []) ∷ unsent 3 (1 ∷ []) [] ∷ [];
  rejections = [];
}

abbrev declared : List (Text × ℕ)
declared = (codes "todo", 1) ∷ []

abbrev batch : List Queued
batch = unsent 1 [] [] ∷ unsent 2 [] (1 ∷ []) ∷ []

-- A parser that answers the request of this batch.
abbrev echo : Serde
echo = record {
  from_slice = λ t. some (request_json outbox 7 (models_value declared) batch);
  repeated = λ t. [];
  quote = λ t. t;
  scalar = λ v. ok [];
}

selects : select echo outbox (models_value declared) 1000 outbox.queue [] [] ≡ ok batch
unfolding select takes fits is_blocked unsent_set byte_length canonical_json sort_by sort_insert
    insert lookup lex prerequisite_keys add_keys map_ok
selects = refl

select_lem_example : IsBatch echo outbox (models_value declared) 1000 batch
select_lem_example = select_lem echo outbox (models_value declared) 1000 selects

abbrev frozen : Outbox
frozen = record {
  client_id = codes "c";
  next_push = 8;
  push_models = some (models_value declared);
  queue =
      record (unsent 1 [] []) { push = some 7 }
      ∷ record (unsent 2 [] (1 ∷ [])) { push = some 7 }
      ∷ unsent 3 (1 ∷ []) []
      ∷ [];
  rejections = [];
}

abbrev bytes : Text
bytes =
    codes
      "{batchSequence:,clientId:,models:{todo:},mutations:[{name:,operations:[],ordinal:,version:},{name:,operations:[],ordinal:,version:}]}"

freezes : freeze echo outbox declared 1000 ≡ ok (frozen, some bytes)
unfolding freeze in_flight takes is_blocked fits lookup unsent_set insert canonical_json byte_length
    sort_by sort_insert lex assign_push decode_push index read_counter read_models encode_push
    select add_keys allocate_push prerequisite_keys pushes model_entries find get encode_request
    mutations_from request_from_value map_ok
freezes = refl

-- Meanwhile a prerequisite is resolved and a mutation is enqueued.
abbrev grown : Outbox
grown = record frozen {
  queue = place (unsent 4 [] []) (resolve_prerequisite (codes "k") frozen.queue);
}

is_enqueued :
    insert_mutation 4 (mutation [] []) (resolve_prerequisite (codes "k") frozen.queue)
    ≡ ok grown.queue
unfolding insert_mutation earlier_set add_keys place resolve_prerequisite
is_enqueued = refl

freeze_again_example : freeze echo grown [] 5 ≡ ok (grown, some bytes)
freeze_again_example =
    freeze_again echo outbox frozen grown declared [] 1000 5 bytes freezes
      (enqueued 4 (mutation [] []) grown.queue is_enqueued (resolved (codes "k") here))
      (λ e. absurd (ground arith))

-- The first mutation is rejected, and the third with it.
abbrev rejected : List Rejection
rejected = record { ordinal = 1; code = codes "full" } ∷ []

closure_iff_example :
    (contains_key 3 (closure outbox.queue rejected) ≡ true)
    ↔ Reached outbox.queue (by_ordinal rejected []) 3
closure_iff_example = closure_iff outbox.queue rejected 3

abbrev after_rejection : Outbox
after_rejection = record outbox {
  queue = unsent 2 [] [] ∷ [];
  rejections =
      (1, refusal (unsent 1 [] []) (codes "full"))
      ∷ (3, refusal (unsent 3 (1 ∷ []) []) dependency_rejected)
      ∷ [];
}

marks : mark_rejected (λ m v. ok (m, tt {0})) outbox rejected ≡ ok (after_rejection, [])
unfolding mark_rejected lookup insert cascade by_ordinal record_rejected delete_mutations orphans
    is_orphan reject_all touch
marks = refl

mark_rejected-Settled_example : Settled outbox after_rejection rejected
mark_rejected-Settled_example =
    mark_rejected-Settled (λ m v. ok (m, tt {0})) outbox after_rejection rejected [] marks
