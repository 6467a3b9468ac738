-- ===== src/Examples/Authority.antt =====
-- Staging records of crates/client/src/authority.rs in tables that keep stamps alone.
use ahead.Common.{ℕ, ◌≡◌, refl, false, ◌&&◌, [], none, ok, Error, if◌then◌else◌}
use ahead.Common.Text.{Text, codes}
use ahead.Common.Order.{same, same_refl, lex, text_ord}
use ahead.Common.Map.{insert, lookup}
use ahead.Common.Sort.{sort_by, sort_insert}
use ahead.Core.Json.{null, obj, text, field, end, Serde, canonical_json}
use ahead.Core.Record.{AuthorityRecord}
use ahead.Core.Schema.{
  RecordKey, record_key, model, first, identity_from, normalize_value, value, scalar, field_of,
  encoded_identity,
}
use ahead.Client.Authority.{Tables, staged, unchanged, older, stage_authority, incoming_row}
use ahead.Client.Authority.Gate.{Stamped, stage_authority-max}
use ahead.Client.Authority.Stamps.{stage_authority-commute, stage_authority-again}
use ahead.Examples.Encoding.{no_uuids, old_schema}

-- The stamp of each record.
abbrev pub Clock : Type 0
Clock = Text → Text → ℕ

abbrev pub set : Text → Text → ℕ → Clock → Clock
set m i n r m' i' = if same m' m && same i' i then n else r m' i'

abbrev pub clocks : Tables Clock
clocks = record {
  read_row = λ key r. ok none;
  before_get = λ key r. ok none;
  main_set = λ key v r. ok r;
  before_set = λ key v r. ok r;
  stamp = λ m i r. ok (r m i);
  set_stamp = λ m i n r. ok (set m i n r);
  dirty = λ key r. ok false;
  descendants = λ key r. ok [];
}

set_read : (m i : Text) (n : ℕ) (r : Clock) → set m i n r m i ≡ n
set_read m i n r = rw (same_refl m, same_refl i) refl

pub clocks-Stamped : Stamped clocks
clocks-Stamped = record {
  stamp_read = λ m i n r r' h. let e : set m i n r ≡ r' = cc in rw (← e, set_read m i n r) refl;
  stamp_other = λ m i m' i' n r r' h other. let e : set m i n r ≡ r' = cc in rw (← e, other) refl;
  main_stamp = λ key v m i r r' h. let e : r ≡ r' = cc in rw (← e) refl;
  before_stamp = λ key v m i r r' h. let e : r ≡ r' = cc in rw (← e) refl;
}

-- A parser of nothing, and texts as they are.
abbrev pub quiet : Serde
quiet = record {
  from_slice = λ t. none;
  repeated = λ t. [];
  quote = λ t. t;
  scalar = λ v. elim v [ text t ↦ ok t | _ ↦ ok [] ];
}

-- The deletion of a record at a stamp.
abbrev pub deletion : Text → ℕ → AuthorityRecord
deletion id stamp = record {
  model = codes "Todo";
  identity = obj (field (codes "id") (text id) end);
  stamp = stamp;
  state = null;
  error = none;
}

abbrev pub fresh : Clock
fresh m i = 0

-- The stamps after a record is at `n`.
abbrev pub todo_at : Text → ℕ → Clock → Clock
todo_at identity n r = set (codes "Todo") identity n r

abbrev pub four : Clock
four = todo_at (codes "{id:1}") 4 fresh

stages :
    (stage_authority quiet no_uuids old_schema clocks (deletion (codes "1") 4) [] fresh).1
    ≡ ok (four, staged)
unfolding stage_authority lex lookup encoded_identity canonical_json insert sort_by sort_insert
stages = refl

abbrev pub message : Error → Text
message e = []

-- The same record again.
stages_again :
    (stage_authority quiet no_uuids old_schema clocks (deletion (codes "1") 4) [] four).1
    ≡ ok (four, unchanged)
unfolding stage_authority lex lookup encoded_identity canonical_json insert sort_by sort_insert
stages_again = refl

stage_authority-again_example : four ≡ four
stage_authority-again_example =
    stage_authority-again message quiet no_uuids old_schema clocks clocks-Stamped
      (deletion (codes "1") 4) [] [] fresh four four staged unchanged stages stages_again

-- An older delivery of the record.
abbrev two : Clock
two = todo_at (codes "{id:1}") 2 fresh

stages_two :
    (stage_authority quiet no_uuids old_schema clocks (deletion (codes "1") 2) [] fresh).1
    ≡ ok (two, staged)
unfolding stage_authority lex lookup encoded_identity canonical_json insert sort_by sort_insert
stages_two = refl

stages_four :
    (stage_authority quiet no_uuids old_schema clocks (deletion (codes "1") 4) [] two).1
    ≡ ok (todo_at (codes "{id:1}") 4 two, staged)
unfolding stage_authority lex lookup encoded_identity canonical_json insert sort_by sort_insert
stages_four = refl

stages_late :
    (stage_authority quiet no_uuids old_schema clocks (deletion (codes "1") 2) [] four).1
    ≡ ok (four, older)
unfolding stage_authority lex lookup encoded_identity canonical_json insert sort_by sort_insert
stages_late = refl

stage_authority-commute_example :
    clocks.stamp (codes "Todo") (codes "{id:1}") (todo_at (codes "{id:1}") 4 two)
    ≡ clocks.stamp (codes "Todo") (codes "{id:1}") four
stage_authority-commute_example =
    stage_authority-commute message quiet no_uuids old_schema clocks clocks-Stamped
      (deletion (codes "1") 2) (deletion (codes "1") 4) [] [] [] [] fresh two
      (todo_at (codes "{id:1}") 4 two) four four staged staged staged older stages_two stages_four
      stages stages_late (codes "Todo") (codes "{id:1}")

abbrev pub todo_key : RecordKey
todo_key = record {
  model = codes "Todo";
  identity = obj (field (codes "id") (text (codes "1")) end);
}

arrives :
    incoming_row quiet no_uuids old_schema clocks (deletion (codes "1") 4)
    ≡ ok (todo_key, codes "{id:1}", none)
unfolding incoming_row lex lookup encoded_identity canonical_json insert sort_by sort_insert
    record_key model first identity_from field_of normalize_value value scalar
arrives = refl

stage_authority-max_example : clocks.stamp (codes "Todo") (codes "{id:1}") four ≡ ok 4
unfolding lex
stage_authority-max_example =
    stage_authority-max quiet no_uuids old_schema clocks clocks-Stamped (deletion (codes "1") 4)
      todo_key (codes "{id:1}") none 0 [] fresh four staged arrives refl stages (codes "Todo")
      (codes "{id:1}")
