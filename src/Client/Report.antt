-- ===== src/Client/Report.antt =====
-- `Report` and `ApplyReport` of crates/client/src/lib.rs: what a delivery could not apply.
use ahead.Common.{ℕ, Bool, false, List, [], Option, none}
use ahead.Common.Text.{Text}
use ahead.Core.Json.{Value, null}

pub data ReportKind : Type 0 where
  read_failed skipped conflict diverged : ReportKind

pub record Report : Type 0 where
  pub kind : ReportKind
  pub model : Text
  pub identity : Value
  pub stamp : ℕ
  pub code : Option Text
  pub ordinal : Option ℕ
  pub detail : Value

-- `Report::new`.
abbrev pub new_report : ReportKind → Text → Value → ℕ → Report
new_report kind model identity stamp = record {
  kind = kind;
  model = model;
  identity = identity;
  stamp = stamp;
  code = none;
  ordinal = none;
  detail = null;
}

pub record ApplyReport : Type 0 where
  pub applied : ℕ
  pub stale : Bool
  pub cursors : List (Text × ℕ)
  pub reports : List Report

-- `ApplyReport::default()`.
abbrev pub empty_report : ApplyReport
empty_report = record { applied = 0; stale = false; cursors = []; reports = [] }
