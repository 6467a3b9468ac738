-- ===== src/Client/Authority.antt =====
-- crates/client/src/authority.rs: the stamp gate of a delivered record. The tables of the store, and the walk
-- over the declared cascades (`descendants` of crates/client/src/mutate.rs), enter as the record `Tables`.
pub mod Gate
pub mod Stamps
use ahead.Common.{
  Error, suc, ℕ, Bool, true, false, List, [], ◌∷◌, ◌++◌, Option, none, some, Result, ok, err, ◌>>=◌,
  ltb, ◌==◌, if◌then◌else◌, patch_not_an_object, create_exists, create_values_missing,
  update_row_missing, patch_missing,
}
use ahead.Common.Text.{Text, codes}
use ahead.Common.Map.{insert}
use ahead.Common.Order.{text_ord}
use ahead.Core.Json.{
  Value, null, obj, entries, of_entries, as_object, is_null, field, end, text, same_value, Serde,
}
use ahead.Core.Record.{AuthorityRecord}
use ahead.Core.Schema.{
  Schema, Scalars, RecordKey, record_key, encoded, encoded_identity, validate_state, state,
}
use ahead.Client.Report.{Report, ReportKind, new_report, read_failed, skipped}
use ahead.Client.Queue.{Operation, create, update, delete}

-- The columns of the second over those of the first.
abbrev put_entries : List (Text × Value) → List (Text × Value) → List (Text × Value)
put_entries [] row = row
put_entries ((k, v) ∷ fs) row = put_entries fs (insert k v row)

abbrev fields_of : Value → List (Text × Value)
fields_of (obj fs) = entries fs
fields_of _ = []

-- `merge_identity` of crates/client/src/rows.rs.
unfoldable pub merge_identity : Value → Value → Value
merge_identity identity content =
    obj (of_entries (put_entries (fields_of content) (fields_of identity)))

-- `apply_to_row` of crates/client/src/mutate.rs.
unfoldable pub apply_to_row : Option Value → Operation → Result (Option Value)
unfolding merge_identity
apply_to_row row op = elim op.op [
  | create ↦ elim row [
    | some v ↦ err create_exists
    | none ↦ elim op.values [
      | none ↦ err create_values_missing
      | some vs ↦ ok (some (merge_identity op.identity vs))
    ]
  ]
  | update ↦ elim row [
    | none ↦ err update_row_missing
    | some current ↦ elim op.values [
      | none ↦ err patch_missing
      | some vs ↦ elim (as_object vs) [
        | none ↦ err patch_missing
        | some patch ↦ ok (some (obj (of_entries (put_entries patch (fields_of current)))))
      ]
    ]
  ]
  | delete ↦ ok none
]

-- What the code asks of the tables: the visible and the before rows, the stamps, whether operations are
-- pending on a record, and the records that a deletion takes along.
pub record Tables (R : Type 0) : Type 0 where
  pub read_row : RecordKey → R → Result (Option Value)
  pub before_get : RecordKey → R → Result (Option Value)
  pub main_set : RecordKey → Option Value → R → Result R
  pub before_set : RecordKey → Option Value → R → Result R
  pub stamp : Text → Text → R → Result ℕ
  pub set_stamp : Text → Text → ℕ → R → Result R
  pub dirty : RecordKey → R → Result Bool
  pub descendants : RecordKey → R → Result (List RecordKey)

pub data Disposition : Type 0 where
  staged older unchanged : Disposition
  conflict : Option Value → Option Value → Disposition

abbrev pub Held : Type 0
Held = List (Text × RecordKey)

abbrev pub same_row : Option Value → Option Value → Bool
same_row none none = true
same_row (some v) (some w) = same_value v w
same_row _ _ = false

-- The next step, where there was no error.
abbrev pub then_stage :
    {R : Type 0} → Held × Result R → (Held → R → Held × Result R) → Held × Result R
then_stage (held, err e) next = (held, err e)
then_stage (held, ok r) next = next held r

module _ (serde : Serde) (scalars : Scalars) (schema : Schema) {R : Type 0}
    (tables : Tables R) where
  -- The last known server state of a record.
  unfoldable pub truth : RecordKey → R → Result (Option Value)
  truth key r = tables.dirty key r >>= λ pending.
      if pending then tables.before_get key r else tables.read_row key r

  -- The set of held keys outlives an error, which undoes the tables.
  unfoldable pub stage_one : RecordKey → Option Value → Held → R → Held × Result R
  stage_one key value held r = elim (tables.dirty key r) [
    | err e ↦ (held, err e)
    | ok false ↦ (held, tables.main_set key value r)
    | ok true ↦ elim (tables.before_set key value r) [
      | err e ↦ (held, err e)
      | ok r' ↦ elim (encoded serde key) [
        | err e ↦ (held, err e)
        | ok k ↦ (insert k key held, ok r')
      ]
    ]
  ]

  -- The deletion of the descendants.
  unfoldable pub stage_deletes : List RecordKey → Held → R → Held × Result R
  unfolding stage_one
  stage_deletes [] held r = (held, ok r)
  stage_deletes (key ∷ keys) held r = then_stage (stage_one key none held r) (stage_deletes keys)

  unfoldable pub stage_cascade : RecordKey → Option Value → Held → R → Held × Result R
  unfolding stage_deletes
  stage_cascade key (some v) held r = (held, ok r)
  stage_cascade key none held r = elim (tables.descendants key r) [
    | err e ↦ (held, err e)
    | ok keys ↦ stage_deletes keys held r
  ]

  -- A newer record: its content, the deletions it takes along, and its stamp.
  abbrev pub stamped : RecordKey → Text → ℕ → Held × Result R → Held × Result (R × Disposition)
  stamped key identity n (held, err e) = (held, err e)
  stamped key identity n (held, ok r) =
      (held, tables.set_stamp key.model identity n r >>= λ r'. ok (r', staged))

  unfoldable pub stage_newer :
      RecordKey → Text → Option Value → ℕ → Held → R → Held × Result (R × Disposition)
  unfolding stage_one stage_cascade
  stage_newer key identity incoming n held r =
      stamped key identity n
        (then_stage (stage_one key incoming held r) (stage_cascade key incoming))

  abbrev pub compared : Option Value → Option Value → R → R × Disposition
  compared current incoming r =
      (r, if same_row current incoming then unchanged else conflict current incoming)

  -- What a record brings: its key, the text of its identity, and its row.
  unfoldable pub incoming_row : AuthorityRecord → Result (RecordKey × Text × Option Value)
  unfolding merge_identity record_key state
  incoming_row delivered = do
    key ← record_key scalars schema delivered.model delivered.identity
    row ←
        (if is_null delivered.state
          then ok none
          else validate_state scalars schema delivered.model delivered.state >>= λ content.
              ok (some (merge_identity key.identity content)))
    identity ← encoded_identity serde key
    ok (key, identity, row)

  unfoldable pub weigh :
      AuthorityRecord
      → RecordKey
      → Text
      → Option Value
      → ℕ
      → Held
      → R
      → Held × Result (R × Disposition)
  unfolding truth stage_newer
  weigh delivered key identity incoming local held r =
      if ltb delivered.stamp local
      then (held, ok (r, older))
      else if delivered.stamp == local
      then (held, truth key r >>= λ current. ok (compared current incoming r))
      else stage_newer key identity incoming delivered.stamp held r

  unfoldable pub stage_authority : AuthorityRecord → Held → R → Held × Result (R × Disposition)
  unfolding incoming_row weigh
  stage_authority delivered held r = elim (incoming_row delivered) [
    | err e ↦ (held, err e)
    | ok (key, identity, incoming) ↦ elim (tables.stamp key.model identity r) [
      | err e ↦ (held, err e)
      | ok local ↦ weigh delivered key identity incoming local held r
    ]
  ]

abbrev or_null : Option Value → Value
or_null none = null
or_null (some v) = v

-- The report of a record that was not applied; the text of an error is for people, and is a parameter.
abbrev pub entry_of : (Error → Text) → AuthorityRecord → Result Disposition → Option Report
entry_of message a (ok staged) = none
entry_of message a (ok older) = none
entry_of message a (ok unchanged) = none
entry_of message a (ok (conflict local incoming)) =
    some (record (new_report ReportKind.conflict a.model a.identity a.stamp) {
      detail =
          obj (
            field (codes "incoming") (or_null incoming)
              (field (codes "local") (or_null local) end));
    })
entry_of message a (err e) = some (record (new_report skipped a.model a.identity a.stamp) {
  detail = obj (field (codes "error") (text (message e)) end);
})

abbrev is_staged : Disposition → Bool
is_staged staged = true
is_staged _ = false

module _ (message : Error → Text) (serde : Serde) (scalars : Scalars) (schema : Schema) {R : Type 0}
    (tables : Tables R) where
  abbrev isolated :
      AuthorityRecord → R → Held × Result (R × Disposition) → Held × R × Bool × Option Report
  isolated a r (held, err e) = (held, r, false, entry_of message a (err e))
  isolated a r (held, ok (r', d)) = (held, r', is_staged d, entry_of message a (ok d))

  -- One record in a savepoint of its own: an error leaves the tables as they were.
  unfoldable pub stage_isolated : AuthorityRecord → Held → R → Held × R × Bool × Option Report
  unfolding stage_authority
  stage_isolated a held r = elim a.error [
    | some code ↦ (
      held,
      r,
      false,
      some (record (new_report read_failed a.model a.identity a.stamp) { code = some code }),
    )
    | none ↦ isolated a r (stage_authority serde scalars schema tables a held r)
  ]

  abbrev add_entry : Option Report → List Report → List Report
  add_entry none reports = reports
  add_entry (some e) reports = e ∷ reports

  -- The loop of `apply_records`: the held keys, the tables, how many were applied, and the reports.
  unfoldable pub stage_records : List AuthorityRecord → Held → R → Held × R × ℕ × List Report
  unfolding stage_isolated
  stage_records [] held r = (held, r, 0, [])
  stage_records (a ∷ rest) held r =
      let (held', r', applied, entry) = stage_isolated a held r in
      let (held'', r'', n, reports) = stage_records rest held' r' in
      (held'', r'', (if applied then suc n else n), add_entry entry reports)
