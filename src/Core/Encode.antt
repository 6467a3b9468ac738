-- ===== src/Core/Encode.antt =====
-- The `encode` methods of crates/core/src/protocol.rs: the derived `Serialize` as a JSON value, checked
-- as the source checks it, and its canonical text.
pub mod RoundTrip
use ahead.Common.{ℕ, Bool, List, [], ◌∷◌, map, Option, none, some, Result, ok, ◌>>=◌, ◌>>◌}
use ahead.Common.Text.{Text, codes}
use ahead.Core.Json.{
  Value, Fields, num, arr, obj, text, natural, field, end, of_items, of_entries, Serde,
  canonical_json,
}
use ahead.Core.Page.{CursorRange, PullPage, PullRequest, validate_page, check_request}
use ahead.Core.Record.{AuthorityRecord, Rejection, PushReceipt, validate_receipt}
use ahead.Core.Subscribe.{SubscribeRequest, SubscriptionAck}

abbrev pub counter_value : ℕ → Value
counter_value n = num (natural n)

-- A map of counters.
unfoldable pub counters_value : List (Text × ℕ) → Value
counters_value m = obj (of_entries (map (λ kv. (kv.0, counter_value kv.1)) m))

-- A record; an absent error is skipped.
abbrev pub record_fields : AuthorityRecord → Fields
record_fields r = field (codes "identity") r.identity (
    field (codes "model") (text r.model)
      (field (codes "stamp") (counter_value r.stamp) (field (codes "state") r.state end)))

unfoldable pub record_value : AuthorityRecord → Value
record_value r = elim r.error [
  | none ↦ obj (record_fields r)
  | some code ↦ obj (field (codes "error") (text code) (record_fields r))
]

unfoldable pub range_value : CursorRange → Value
range_value r = obj (
    field (codes "from") (counter_value r.from)
      (field (codes "head") (counter_value r.head) (field (codes "to") (counter_value r.to) end)))

abbrev pub ranges_value : List (Text × CursorRange) → Value
ranges_value m = obj (of_entries (map (λ kv. (kv.0, range_value kv.1)) m))

unfoldable pub page_value : PullPage → Value
unfolding record_value range_value
page_value p = obj (
    field (codes "changes") (arr (of_items (map record_value p.changes)))
      (field (codes "cursors") (ranges_value p.cursors) end))

abbrev rejection_value : Rejection → Value
rejection_value r =
    obj (field (codes "code") (text r.code) (field (codes "ordinal") (counter_value r.ordinal) end))

unfoldable pub receipt_value : PushReceipt → Value
unfolding record_value
receipt_value p = obj (
    field (codes "batchSequence") (counter_value p.batch_sequence) (
      field (codes "clientId") (text p.client_id) (
        field (codes "records") (arr (of_items (map record_value p.records)))
          (field (codes "rejections") (arr (of_items (map rejection_value p.rejections))) end))))

unfoldable pub request_value : PullRequest → Value
unfolding counters_value
request_value r = obj (
    field (codes "cursors") (counters_value r.cursors)
      (field (codes "models") (counters_value r.models) end))

unfoldable pub subscribe_value : SubscribeRequest → Value
unfolding counters_value
subscribe_value r = obj (
    field (codes "channels") (arr (of_items (map text r.channels))) (
      field (codes "models") (counters_value r.models)
        (field (codes "type") (text (codes "subscribe")) end)))

unfoldable pub ack_value : SubscriptionAck → Value
unfolding counters_value
ack_value a = obj (
    field (codes "cursors") (counters_value a.cursors)
      (field (codes "type") (text (codes "subscribed")) end))

module _ (serde : Serde) where
  unfoldable pub encode_page : PullPage → Result Text
  encode_page p = validate_page serde p >> canonical_json serde (page_value p)

  unfoldable pub encode_receipt : PushReceipt → Result Text
  encode_receipt p = validate_receipt serde p >> canonical_json serde (receipt_value p)

  unfoldable pub encode_pull : PullRequest → Result Text
  encode_pull r = check_request r >> canonical_json serde (request_value r)
