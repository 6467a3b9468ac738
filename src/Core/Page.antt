-- ===== src/Core/Page.antt =====
-- `CursorRange`, `PullRequest` and `PullPage` of crates/core/src/protocol.rs.
pub mod Validity
use ahead.Common.{
  models_empty, cursors_empty, model_name_empty, invalid_counter, leb, ◌||◌, ◌==◌, ℕ, ◌*◌, Bool,
  true, false, not, List, [], ◌∷◌, Result, ok, missing_field, wrong_type, channel_empty, page_empty,
  page_backwards, page_past_head, page_too_large, ◌>>=◌, ◌>>◌, refuse, or_fail, map_ok, each, ltb,
  is_some, length,
}
use ahead.Common.Text.{Text, is_empty, codes}
use ahead.Common.Map.{insert}
use ahead.Common.Order.{text_ord}
use ahead.Core.Json.{Value, get, index, is_object, as_array, as_object, Serde}
use ahead.Core.Counter.{
  max_safe_integer, counter, read_counter, read_models, read_cursors, pull_changes,
}
use ahead.Core.Record.{AuthorityRecord, decode_record, unique_records}

pub record CursorRange : Type 0 where
  pub from : ℕ
  pub to : ℕ
  pub head : ℕ

-- Whether the channel holds changes beyond `to`.
abbrev pub continues : CursorRange → Bool
continues r = ltb r.to r.head

pub record PullRequest : Type 0 where
  pub models : List (Text × ℕ)
  pub cursors : List (Text × ℕ)

unfoldable pub decode_request : Value → Result PullRequest
decode_request v = do
  models ← read_models (index v (codes "models"))
  cursors ← read_cursors (index v (codes "cursors"))
  ok (record { models = models; cursors = cursors })

-- `PullRequest::encode` checks what `decode` reads: a named model with a positive version each, and a
-- named channel with a safe cursor each.
abbrev pub model_ok : Text × ℕ → Result (Unit {0})
model_ok (name, version) = do
  refuse (is_empty name) model_name_empty
  refuse (not (leb version max_safe_integer) || version == 0) invalid_counter

abbrev pub cursor_ok : Text × ℕ → Result (Unit {0})
cursor_ok (channel, n) = do
  refuse (is_empty channel) channel_empty
  refuse (not (leb n max_safe_integer)) invalid_counter

unfoldable pub check_models : List (Text × ℕ) → Result (Unit {0})
check_models models = do
  refuse (elim models [ [] ↦ true | _ ↦ false ]) models_empty
  each model_ok models

unfoldable pub check_request : PullRequest → Result (Unit {0})
unfolding each check_models
check_request r = do
  check_models r.models
  refuse (elim r.cursors [ [] ↦ true | _ ↦ false ]) cursors_empty
  each cursor_ok r.cursors

pub record PullPage : Type 0 where
  pub cursors : List (Text × CursorRange)
  pub changes : List AuthorityRecord

-- The loop over the ranges of a page.
unfoldable pub ranges_from :
    List (Text × Value) → List (Text × CursorRange) → Result (List (Text × CursorRange))
ranges_from [] m = ok m
ranges_from ((channel, range) ∷ rest) m = do
  refuse (is_empty channel) channel_empty
  from ← read_counter (index range (codes "from")) false
  to ← read_counter (index range (codes "to")) false
  head ← read_counter (index range (codes "head")) false
  ranges_from rest (insert channel (record { from = from; to = to; head = head }) m)

abbrev pub validate_range : Text × CursorRange → Result (Unit {0})
validate_range (channel, range) = do
  refuse (is_empty channel) channel_empty
  counter range.from
  counter range.to
  counter range.head
  refuse (ltb range.to range.from) page_backwards
  refuse (ltb range.head range.to) page_past_head

module _ (serde : Serde) where
  unfoldable pub validate_page : PullPage → Result (Unit {0})
  unfolding each
  validate_page page = do
    refuse (elim page.cursors [ [] ↦ true | _ ↦ false ]) page_empty
    each validate_range page.cursors
    refuse (ltb (pull_changes * length page.cursors) (length page.changes)) page_too_large
    unique_records serde page.changes

  unfoldable pub decode_page : Value → Result PullPage
  unfolding ranges_from
  decode_page value = do
    refuse (not (is_object value)) wrong_type
    refuse (not (is_some (get value (codes "cursors")))) missing_field
    refuse (not (is_some (get value (codes "changes")))) missing_field
    cursor_values ← or_fail (as_object (index value (codes "cursors"))) wrong_type
    cursors ← ranges_from cursor_values []
    change_values ← or_fail (as_array (index value (codes "changes"))) wrong_type
    changes ← map_ok decode_record change_values
    let page : PullPage = record { cursors = cursors; changes = changes }
    validate_page page
    ok page
