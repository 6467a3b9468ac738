-- ===== src/Core/Subscribe.antt =====
-- The frames of a live session, crates/core/src/protocol.rs: the subscribe request, its
-- acknowledgement, and what a socket delivers.
pub mod Channels
use ahead.Common.{
  ℕ, Bool, true, false, not, ◌&&◌, ◌||◌, List, [], ◌∷◌, Option, none, some, Result, ok, err,
  subscribe_empty, channel_empty, subscribe_frame, ack_invalid, live_frame_invalid,
  live_page_invalid, not_json, missing_field, wrong_type, ◌>>=◌, ◌>>◌, refuse, or_fail, map_err,
  map_ok, if◌then◌else◌, is_some, any,
}
use ahead.Common.Text.{Text, is_empty, codes, utf16_cmp}
use ahead.Common.Map.{insert, keys}
use ahead.Common.Sort.{sort_by}
use ahead.Common.Order.{same, text_ord}
use ahead.Core.Json.{Value, null, get, index, is_object, as_str, as_array, as_object, Serde}
use ahead.Core.Counter.{read_models, read_cursors}
use ahead.Core.Page.{PullPage, decode_page}

pub record SubscribeRequest : Type 0 where
  pub channels : List Text
  pub models : List (Text × ℕ)

-- `collect::<BTreeSet<_>>()`.
unfoldable pub collect_set : List Text → List (Text × Unit {0})
collect_set [] = []
collect_set (c ∷ cs) = insert c tt (collect_set cs)

-- Deduplicated, then sorted by UTF-16 code units.
unfoldable pub normalize_channels : List Text → Result (List Text)
unfolding collect_set
normalize_channels channels = do
  refuse (elim channels [ [] ↦ true | _ ↦ false ]) subscribe_empty
  refuse (any is_empty channels) channel_empty
  ok (sort_by utf16_cmp (keys (collect_set channels)))

-- The frame `{"type":"subscribe","channels":[…],"models":{…}}`, which admits no other field.
abbrev known_field : Text → Bool
known_field k = same k (codes "type") || (same k (codes "channels") || same k (codes "models"))

abbrev text_value : Value → Result Text
text_value v = or_fail (as_str v) wrong_type

abbrev subscribe_of : Value → Value → Value → Result SubscribeRequest
subscribe_of kind_value channels_value models_value = do
  kind ← text_value kind_value
  channel_values ← or_fail (as_array channels_value) wrong_type
  channels ← map_ok text_value channel_values
  refuse (not (same kind (codes "subscribe"))) subscribe_frame
  models ← read_models models_value
  normalized ← normalize_channels channels
  ok (record { channels = normalized; models = models })

-- The fields of the frame in a sequence, of which the last may be left out.
abbrev subscribe_from_sequence : List Value → Result SubscribeRequest
subscribe_from_sequence (kind ∷ channels ∷ []) = subscribe_of kind channels null
subscribe_from_sequence (kind ∷ channels ∷ models ∷ []) = subscribe_of kind channels models
subscribe_from_sequence values = err wrong_type

-- The fields by name, none of them twice.
abbrev subscribe_from_object : List Text → Value → Result SubscribeRequest
subscribe_from_object repeated value = do
  fields ← or_fail (as_object value) wrong_type
  refuse (any (λ kv. not (known_field kv.0)) fields || any known_field repeated) wrong_type
  kind ← or_fail (get value (codes "type")) missing_field
  channels ← or_fail (get value (codes "channels")) missing_field
  subscribe_of kind channels (index value (codes "models"))

pub record SubscriptionAck : Type 0 where
  pub cursors : List (Text × ℕ)

abbrev ack_of : Value → Value → Result SubscriptionAck
ack_of kind_value cursors_value = do
  kind ← or_fail (as_str kind_value) ack_invalid
  refuse (not (same kind (codes "subscribed"))) ack_invalid
  cursors ← map_err ack_invalid (read_cursors cursors_value)
  ok (record { cursors = cursors })

abbrev ack_from_sequence : List Value → Result SubscriptionAck
ack_from_sequence (kind ∷ cursors ∷ []) = ack_of kind cursors
ack_from_sequence values = err ack_invalid

abbrev ack_field : Text → Bool
ack_field k = same k (codes "type") || same k (codes "cursors")

abbrev ack_from_object : List Text → Value → Result SubscriptionAck
ack_from_object repeated value = do
  refuse (any ack_field repeated) ack_invalid
  kind ← or_fail (get value (codes "type")) ack_invalid
  cursors ← or_fail (get value (codes "cursors")) ack_invalid
  ack_of kind cursors

-- `Iterator::eq`.
unfoldable pub same_texts : List Text → List Text → Bool
same_texts [] [] = true
same_texts [] (y ∷ ys) = false
same_texts (x ∷ xs) [] = false
same_texts (x ∷ xs) (y ∷ ys) = same x y && same_texts xs ys

-- The keys in the map's order against the channels in the request's.
unfoldable pub confirms : SubscriptionAck → SubscribeRequest → Bool
unfolding same_texts
confirms ack request = same_texts (keys ack.cursors) request.channels

pub data LiveMessage : Type 0 where
  acknowledged : SubscriptionAck → LiveMessage
  page : PullPage → LiveMessage

module _ (serde : Serde) where
  -- `SubscribeRequest::decode`.
  unfoldable pub decode_subscribe : Text → Result SubscribeRequest
  unfolding normalize_channels
  decode_subscribe bytes = or_fail (serde.from_slice bytes) not_json >>= λ value.
      elim (as_array value) [
        | some values ↦ subscribe_from_sequence values
        | none ↦ subscribe_from_object (serde.repeated bytes) value
      ]

  -- `SubscriptionAck::decode`.
  unfoldable pub decode_ack : Text → Result SubscriptionAck
  decode_ack bytes = or_fail (serde.from_slice bytes) ack_invalid >>= λ value.
      elim (as_array value) [
        | some values ↦ ack_from_sequence values
        | none ↦ ack_from_object (serde.repeated bytes) value
      ]

  unfoldable pub decode_message : Text → Result LiveMessage
  unfolding decode_ack
  decode_message bytes = do
    value ← or_fail (serde.from_slice bytes) not_json
    refuse (not (is_object value)) live_frame_invalid
    if is_some (get value (codes "type"))
        then (decode_ack bytes >>= λ ack. ok (acknowledged ack))
        else (map_err live_page_invalid (decode_page serde value) >>= λ p. ok (page p))
