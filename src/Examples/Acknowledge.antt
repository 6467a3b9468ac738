-- ===== src/Examples/Acknowledge.antt =====
-- A receipt that accepts one mutation of a push and rejects the other (crates/client/src/push.rs).
use ahead.Common.{ℕ, ◌≡◌, ◌≤◌, ◌⊎◌, refl, true, false, [], ◌∷◌, Option, none, some, ok}
use ahead.Common.Text.{codes}
use ahead.Common.Order.{lex}
use ahead.Common.Sort.{sort_by, sort_insert}
use ahead.Common.Map.{insert, lookup}
use ahead.Core.Json.{Value, canonical_json}
use ahead.Core.Schema.{encoded_identity}
use ahead.Core.Record.{PushReceipt}
use ahead.Client.Report.{ApplyReport, empty_report}
use ahead.Client.Queue.{Operation, Queued, create, in_flight, pushes, delete_mutations}
use ahead.Client.Rejected.{
  by_ordinal, cascade, orphans, is_orphan, reject_all, mark_rejected, record_rejected, touch,
  refusal,
}
use ahead.Client.Authority.{
  Tables, incoming_row, weigh, truth, stage_newer, stage_one, stage_cascade, stage_deletes,
  stage_authority, stage_isolated,
}
use ahead.Client.Rebase.{Queue, replay, rebuild, rebuild_keys, rebuild_held}
use ahead.Client.Acknowledge.{
  Store, keyed, cover, companion_deletes, settle_ops, settle_companions, stage_receipt,
  complete_push, finish, acknowledge,
}
use ahead.Client.Acknowledge.Answered.{Answered, acknowledge-Answered}
use ahead.Examples.Authority.{quiet, message, deletion, todo_key}
use ahead.Examples.Encoding.{no_uuids, old_schema}

-- The row of the one record, its row before, and its stamp.
abbrev Row : Type 0
Row = Option Value × Option Value × ℕ

abbrev tables : Tables (Store Row)
tables = record {
  read_row = λ key s. ok s.rows.0;
  before_get = λ key s. ok s.rows.1;
  main_set = λ key v s. ok (record s { rows = (v, s.rows.1, s.rows.2) });
  before_set = λ key v s. ok (record s { rows = (s.rows.0, v, s.rows.2) });
  stamp = λ m i s. ok s.rows.2;
  set_stamp = λ m i n s. ok (record s { rows = (s.rows.0, s.rows.1, n) });
  dirty = λ key s. ok true;
  descendants = λ key s. ok [];
}

abbrev queue : Queue (Store Row)
queue = record { ops_for = λ key s. ok []; set_diverged = λ n s. ok s; refresh_pending = λ s. ok s }

abbrev creation : Operation
creation = record {
  model = codes "Todo";
  op = create;
  identity = todo_key.identity;
  values = some (todo_key.identity);
}

abbrev sent : ℕ → Queued
sent ordinal = record {
  ordinal = ordinal;
  push = some 7;
  diverged = false;
  mutation = record {
    name = codes "add";
    version = 1;
    operations = creation ∷ [];
    companion = [];
    effects = [];
    prerequisites = [];
    lifecycle_dependencies = [];
    sequence_dependencies = [];
  };
}

abbrev before : Store Row
before = record {
  outbox = record {
    client_id = codes "c";
    next_push = 8;
    push_models = some (todo_key.identity);
    queue = sent 1 ∷ sent 2 ∷ [];
    rejections = [];
  };
  last_completed_push = 6;
  rows = (some (todo_key.identity), none, 0);
}

abbrev receipt : PushReceipt
receipt = record {
  client_id = codes "c";
  batch_sequence = 7;
  rejections = record { ordinal = 2; code = codes "full" } ∷ [];
  records = deletion (codes "1") 9 ∷ [];
}

abbrev after : Store Row
after = record {
  outbox = record {
    client_id = codes "c";
    next_push = 8;
    push_models = none;
    queue = [];
    rejections = (2, refusal (sent 2) (codes "full")) ∷ [];
  };
  last_completed_push = 7;
  rows = (none, none, 9);
}

abbrev report : ApplyReport
report = record empty_report { applied = 1 }

acknowledges :
    acknowledge message quiet no_uuids old_schema tables queue 7 receipt before ≡ ok (after, report)
unfolding acknowledge finish complete_push keyed cover companion_deletes settle_ops
    settle_companions stage_receipt by_ordinal cascade orphans is_orphan reject_all mark_rejected
    record_rejected touch delete_mutations in_flight pushes insert lookup lex stage_isolated
    stage_authority incoming_row weigh truth stage_newer stage_one stage_cascade stage_deletes
    canonical_json sort_by sort_insert encoded_identity replay rebuild rebuild_keys rebuild_held
acknowledges = refl

acknowledge-Answered_example :
    ((7 ≤ 6) × (after ≡ before) × (report.stale ≡ true))
    ⊎ Answered quiet no_uuids old_schema 7 receipt before after
acknowledge-Answered_example =
    acknowledge-Answered quiet no_uuids old_schema message tables queue 7 receipt before after
      report acknowledges
