-- ===== src/Examples/Rebase.antt =====
-- Rebuilding one record, and applying a page (crates/client).
use ahead.Common.{ℕ, ◌≤◌, ◌≡◌, refl, true, false, List, [], ◌∷◌, Option, none, some, Result, ok}
use ahead.Common.Text.{Text, codes}
use ahead.Common.Order.{lex, text_ord}
use ahead.Common.Map.{insert}
use ahead.Core.Json.{Value, obj, text, field, end}
use ahead.Core.Page.{PullPage}
use ahead.Client.Pulls.{empty_ledger}
use ahead.Client.Queue.{Operation, update}
use ahead.Client.State.{Client}
use ahead.Client.Downlink.{apply_current_page}
use ahead.Client.Authority.{Tables, apply_to_row}
use ahead.Client.Rebase.{Queue, replay, rebuild, apply_records}
use ahead.Client.Rebase.Replay.{Visible, Rebuilt, rebuild-Shows}
use ahead.Client.Rebase.Applied.{Unstamped, apply_current_page-Grown}
use ahead.Examples.Authority.{
  Clock, clocks, clocks-Stamped, quiet, message, four, deletion, todo_key,
}
use ahead.Examples.Encoding.{no_uuids, old_schema}

-- The visible row of the one record, its row before, and the operations that are queued on it.
abbrev OneRow : Type 0
OneRow = Option Value × Option Value × List (ℕ × Operation)

abbrev one_row : Tables OneRow
one_row = record {
  read_row = λ key r. ok r.0;
  before_get = λ key r. ok r.1;
  main_set = λ key v r. ok (v, r.1, r.2);
  before_set = λ key v r. ok (r.0, v, r.2);
  stamp = λ m i r. ok 1;
  set_stamp = λ m i n r. ok r;
  dirty = λ key r. ok true;
  descendants = λ key r. ok [];
}

abbrev one_queue : Queue OneRow
one_queue = record {
  ops_for = λ key r. ok r.2;
  set_diverged = λ n r. ok r;
  refresh_pending = λ r. ok r;
}

one_row-Visible : Visible one_row one_queue
one_row-Visible = record {
  stored = λ key v. v;
  main_read = λ key v r r' h. let e : (v, r.1, r.2) ≡ r' = cc in rw (← e) refl;
  before_row = λ key v r r' h. let e : (r.0, v, r.2) ≡ r' = cc in rw (← e) refl;
  mark_row = λ key n r r' h. let e : r ≡ r' = cc in rw (← e) refl;
}

abbrev todo_row : Text → Value
todo_row title =
    obj (field (codes "id") (text (codes "1")) (field (codes "title") (text title) end))

abbrev rename : Operation
rename = record {
  model = codes "Todo";
  op = update;
  identity = obj (field (codes "id") (text (codes "1")) end);
  values = some (obj (field (codes "title") (text (codes "y")) end));
}

-- A new truth is staged beneath a queued update.
abbrev staged_row : OneRow
staged_row = (some (todo_row (codes "w")), some (todo_row (codes "x")), (1, rename) ∷ [])

abbrev rebuilt_row : OneRow
rebuilt_row = (some (todo_row (codes "y")), some (todo_row (codes "x")), (1, rename) ∷ [])

rebuilds : rebuild one_row one_queue todo_key staged_row ≡ ok (rebuilt_row, none)
unfolding rebuild replay apply_to_row insert lex
rebuilds = refl

rebuild-Shows_example :
    (truth : Option Value) × (ops : List (ℕ × Operation)) × (◌≡◌ {A = Result (Option Value)}
      (ok (some (todo_row (codes "x"))))
      (ok truth))
    × (◌≡◌ {A = Result (List (ℕ × Operation))} (ok ((1, rename) ∷ [])) (ok ops))
    × Rebuilt one_row one_queue one_row-Visible todo_key ops truth none staged_row rebuilt_row
rebuild-Shows_example =
    rebuild-Shows one_row one_queue one_row-Visible todo_key staged_row rebuilt_row none rebuilds

abbrev no_queue : Queue Clock
no_queue = record {
  ops_for = λ key r. ok [];
  set_diverged = λ n r. ok r;
  refresh_pending = λ r. ok r;
}

no_queue-Unstamped : Unstamped clocks no_queue
no_queue-Unstamped = record {
  mark_stamp = λ n m i r r' h. let e : r ≡ r' = cc in rw (← e) refl;
  refresh_stamp = λ m i r r' h. let e : r ≡ r' = cc in rw (← e) refl;
}

abbrev follower : Client Clock
follower = record {
  db = record { subscriptions = (codes "a", 3) ∷ []; generation = 1; rows = four };
  generation = 1;
  session = false;
  pulls = empty_ledger;
  models = [];
}

abbrev news : PullPage
news = record {
  cursors = (codes "a", record { from = 3; to = 5; head = 7 }) ∷ [];
  changes = deletion (codes "1") 9 ∷ [];
}

apply_current_page-Grown_example :
    (n : ℕ) × (clocks.stamp
        (codes "Todo")
        (codes "{id:1}")
        (apply_current_page
          (λ r rs. apply_records clocks no_queue quiet message no_uuids old_schema r rs)
          follower
          news).0.db.rows
      ≡ ok n)
    × (4 ≤ n)
unfolding lex
apply_current_page-Grown_example =
    apply_current_page-Grown message quiet no_uuids old_schema clocks no_queue clocks-Stamped
      no_queue-Unstamped follower news (codes "Todo") (codes "{id:1}") 4 refl
