-- ===== src/Core/Counter.antt =====
-- The counters and limits of crates/core/src/protocol.rs.
use ahead.Common.{
  ℕ, ◌*◌, ◌≤◌, ◌≡◌, Bool, true, false, not, ◌&&◌, ◌||◌, List, [], ◌∷◌, Result, ok, err,
  invalid_counter, counter_not_a_number, counter_unsafe, models_not_an_object, models_empty,
  model_name_empty, cursors_not_an_object, cursors_empty, channel_empty, ◌>>=◌, ◌>>◌, refuse,
  or_fail, leb, ◌==◌, if◌then◌else◌, arith,
}
use ahead.Common.Text.{Text, is_empty}
use ahead.Common.Map.{insert}
use ahead.Common.Order.{text_ord}
use ahead.Core.Json.{Value, num, natural, float_natural, as_object}

-- 2^53 - 1, `MAX_SAFE_INTEGER`.
abbrev pub max_safe_integer : ℕ
max_safe_integer = 9007199254740991

abbrev pub push_mutations : ℕ
push_mutations = 20

abbrev pub push_bytes : ℕ
push_bytes = 256 * 1024

abbrev pub pull_changes : ℕ
pull_changes = 50

unfoldable pub counter : ℕ → Result ℕ
counter value = if leb value max_safe_integer then ok value else err counter_unsafe

abbrev pub read_natural : ℕ → Bool → Result ℕ
read_natural f positive =
    if not (leb f max_safe_integer) || (positive && f == 0) then err invalid_counter else ok f

-- Through `as_f64`, so that a float token of an integral value counts too.
unfoldable pub read_counter : Value → Bool → Result ℕ
read_counter (num (natural f)) positive = read_natural f positive
read_counter (num (float_natural f)) positive = read_natural f positive
read_counter (num _) positive = err invalid_counter
read_counter _ positive = err counter_not_a_number

pub read_counter-safe :
    (v : Value) (positive : Bool) {n : ℕ} → read_counter v positive ≡ ok n → n ≤ max_safe_integer
unfolding read_counter
read_counter-safe (num (natural f)) positive h = ground arith
read_counter-safe v positive h = ground arith

-- The entries of `read_models`: a nonempty name and a positive version each.
unfoldable pub model_entries : List (Text × Value) → List (Text × ℕ) → Result (List (Text × ℕ))
model_entries [] m = ok m
model_entries ((name, version) ∷ rest) m = do
  refuse (is_empty name) model_name_empty
  v ← read_counter version true
  model_entries rest (insert name v m)

unfoldable pub read_models : Value → Result (List (Text × ℕ))
unfolding model_entries
read_models value = do
  object ← or_fail (as_object value) models_not_an_object
  refuse (elim object [ [] ↦ true | _ ↦ false ]) models_empty
  model_entries object []

-- The entries of `read_cursors`: a nonempty channel and a counter each.
unfoldable pub cursor_entries : List (Text × Value) → List (Text × ℕ) → Result (List (Text × ℕ))
cursor_entries [] m = ok m
cursor_entries ((channel, cursor) ∷ rest) m = do
  refuse (is_empty channel) channel_empty
  c ← read_counter cursor false
  cursor_entries rest (insert channel c m)

unfoldable pub read_cursors : Value → Result (List (Text × ℕ))
unfolding cursor_entries
read_cursors value = do
  object ← or_fail (as_object value) cursors_not_an_object
  refuse (elim object [ [] ↦ true | _ ↦ false ]) cursors_empty
  cursor_entries object []
