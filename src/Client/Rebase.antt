-- ===== src/Client/Rebase.antt =====
-- `rebuild` of crates/client/src/mutate.rs, and `rebuild_held` and `apply_records` of
-- crates/client/src/authority.rs. `refresh_pending` enters with the tables.
pub mod Replay
pub mod Applied
use ahead.Common.{
  Error, ℕ, ◌+◌, Bool, true, false, List, [], ◌∷◌, ◌++◌, Option, none, some, Result, ok, err, ◌>>=◌,
  if◌then◌else◌, is_some,
}
use ahead.Common.Text.{Text}
use ahead.Common.Map.{values}
use ahead.Common.Order.{text_ord}
use ahead.Core.Json.{Value, Serde}
use ahead.Core.Record.{AuthorityRecord}
use ahead.Core.Schema.{Schema, Scalars, RecordKey, encoded_identity}
use ahead.Client.Report.{Report, ReportKind, new_report, ApplyReport, empty_report}
use ahead.Client.Queue.{Operation}
use ahead.Client.Authority.{Tables, Held, apply_to_row, stage_records}

-- The operations that are queued on a record, by the ordinals of their mutations; the mark of a mutation that
-- diverged; and the deletes that are extended to new descendants.
pub record Queue (R : Type 0) : Type 0 where
  pub ops_for : RecordKey → R → Result (List (ℕ × Operation))
  pub set_diverged : ℕ → R → Result R
  pub refresh_pending : R → Result R

-- The operations over a row, up to the first that fails, with its ordinal.
unfoldable pub replay : List (ℕ × Operation) → Option Value → Option Value × Option ℕ
unfolding apply_to_row
replay [] row = (row, none)
replay ((ordinal, op) ∷ ops) row = elim (apply_to_row row op) [
  | err e ↦ (row, some ordinal)
  | ok next ↦ replay ops next
]

abbrev pub no_ops : List (ℕ × Operation) → Bool
no_ops [] = true
no_ops (op ∷ ops) = false

-- What is shown: the replayed row, or the truth where a replay fails.
abbrev pub shown : Option Value → Option Value × Option ℕ → Option Value
shown truth (row, none) = row
shown truth (row, some ordinal) = truth

module _ {R : Type 0} (tables : Tables R) (queue : Queue R) where
  abbrev pub mark_diverged : Option ℕ → R → Result R
  mark_diverged none r = ok r
  mark_diverged (some ordinal) r = queue.set_diverged ordinal r

  -- The row, or the truth where the tables refuse the row.
  abbrev pub show_row : RecordKey → Option Value → Option Value → R → Result R
  show_row key row truth r = elim (tables.main_set key row r) [
    | ok r' ↦ ok r'
    | err e ↦ tables.main_set key truth r
  ]

  unfoldable pub rebuild : RecordKey → R → Result (R × Option ℕ)
  unfolding replay
  rebuild key r = do
    truth ← tables.before_get key r
    ops ← queue.ops_for key r
    let done : Option Value × Option ℕ = replay ops truth
    r1 ← show_row key (shown truth done) truth r
    r2 ← (if no_ops ops then tables.before_set key none r1 else ok r1)
    r3 ← mark_diverged done.1 r2
    ok (r3, done.1)

  module _ (serde : Serde) where
    abbrev diverged_report : RecordKey → ℕ → ℕ → Report
    diverged_report key ordinal stamp =
        record (new_report ReportKind.diverged key.model key.identity stamp) {
          ordinal = some ordinal;
        }

    abbrev pub report_of : RecordKey → R → Option ℕ → Result (List Report)
    report_of key r none = ok []
    report_of key r (some ordinal) = do
      identity ← encoded_identity serde key
      stamp ← tables.stamp key.model identity r
      ok (diverged_report key ordinal stamp ∷ [])

    unfoldable pub rebuild_keys : List RecordKey → R → Result (R × List Report)
    unfolding rebuild
    rebuild_keys [] r = ok (r, [])
    rebuild_keys (key ∷ keys) r = do
      (r1, failed) ← rebuild key r
      here ← report_of key r1 failed
      (r2, others) ← rebuild_keys keys r1
      ok (r2, here ++ others)

    unfoldable pub rebuild_held : Held → R → Result (R × List Report)
    unfolding rebuild_keys
    rebuild_held held r = do
      (r1, reports) ← rebuild_keys (values held) r
      r2 ← queue.refresh_pending r1
      ok (r2, reports)

    unfoldable pub apply_records :
        (Error → Text) → Scalars → Schema → R → List AuthorityRecord → Result (R × ApplyReport)
    unfolding rebuild_held stage_records
    apply_records message scalars schema r rs = do
      let (held, r1, applied, reports) = stage_records message serde scalars schema tables rs [] r
      (r2, diverged) ← rebuild_held held r1
      ok (r2, record empty_report { applied = applied; reports = reports ++ diverged })
