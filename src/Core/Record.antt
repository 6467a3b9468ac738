-- ===== src/Core/Record.antt =====
-- `AuthorityRecord` and `PushReceipt` of crates/core/src/protocol.rs. A decoder takes the parsed JSON
-- value; the fields read by serde's derived `Deserialize` are read by `from_value`.
use ahead.Common.{
  ℕ, Bool, true, false, not, ◌&&◌, ◌||◌, List, [], ◌∷◌, ◌++◌, Option, none, some, Result, ok, err,
  record_model_empty, record_identity_invalid, record_stamp_invalid, record_error_invalid,
  record_state_invalid, record_state_with_error, duplicate_record, missing_field, wrong_type,
  receipt_client_blank, receipt_sequence_invalid, receipt_rejection_invalid, receipt_read_failure,
  ◌>>=◌, ◌>>◌, refuse, or_fail, map_ok, leb, ◌==◌, if◌then◌else◌, any, all, is_some,
}
use ahead.Common.Text.{Text, is_empty, codes}
use ahead.Common.Map.{insert, contains_key}
use ahead.Common.Order.{same, text_ord, nat_ord}
use ahead.Core.Json.{
  Value, null, get, index, is_object, is_null, as_str, as_array, as_u64, Serde, canonical_json,
}
use ahead.Core.Counter.{counter, read_counter}

abbrev pub is_lower : ℕ → Bool
is_lower c = leb b'a' c && leb c b'z'

abbrev pub is_digit : ℕ → Bool
is_digit c = leb b'0' c && leb c b'9'

abbrev pub is_separator : ℕ → Bool
is_separator c = c == b'.' || (c == b'_' || c == b'-')

-- `s.split(['.', '_', '-'])`: the part read so far, and the parts after it.
unfoldable pub split : Text → Text × List Text
split [] = ([], [])
split (c ∷ cs) =
    let (part, parts) = split cs in if is_separator c then ([], part ∷ parts) else (c ∷ part, parts)

abbrev pub starts_lower : Text → Bool
starts_lower [] = false
starts_lower (c ∷ cs) = is_lower c

abbrev pub is_word : Text → Bool
is_word = all (λ c. is_lower c || is_digit c)

unfoldable pub valid_code : Text → Bool
unfolding split
valid_code s =
    let (first, parts) = split s in
    starts_lower first && (is_word first && all (λ p. not (is_empty p) && is_word p) parts)

pub record AuthorityRecord : Type 0 where
  pub model : Text
  pub identity : Value
  pub stamp : ℕ
  pub state : Value
  pub error : Option Text

abbrev pub is_error : AuthorityRecord → Bool
is_error r = is_some r.error

abbrev is_ok {ℓ} : {A : Type ℓ} → Result A → Bool
is_ok (ok a) = true
is_ok (err e) = false

abbrev validate_content : Option Text → Value → Result (Unit {0})
validate_content (some code) state = do
  refuse (not (valid_code code)) record_error_invalid
  refuse (not (is_null state)) record_state_with_error
validate_content none state =
    refuse (not (is_null state) && not (is_object state)) record_state_invalid

unfoldable pub validate_record : AuthorityRecord → Result (Unit {0})
validate_record r = do
  refuse (is_empty r.model) record_model_empty
  refuse (not (is_object r.identity)) record_identity_invalid
  refuse (r.stamp == 0 || not (is_ok (counter r.stamp))) record_stamp_invalid
  validate_content r.error r.state

-- An `Option<String>` field: absent and null are `None`.
abbrev optional_text : Option Value → Result (Option Text)
optional_text none = ok none
optional_text (some null) = ok none
optional_text (some v) = do t ← or_fail (as_str v) wrong_type; ok (some t)

abbrev or_null : Option Value → Value
or_null none = null
or_null (some v) = v

-- The derived `Deserialize`: a required text, value and integer, a state that defaults to null.
unfoldable pub record_from_value : Value → Result AuthorityRecord
record_from_value value = do
  model_value ← or_fail (get value (codes "model")) missing_field
  model ← or_fail (as_str model_value) wrong_type
  identity ← or_fail (get value (codes "identity")) missing_field
  stamp_value ← or_fail (get value (codes "stamp")) missing_field
  stamp ← or_fail (as_u64 stamp_value) wrong_type
  error ← optional_text (get value (codes "error"))
  ok (record {
    model = model;
    identity = identity;
    stamp = stamp;
    state = or_null (get value (codes "state"));
    error = error;
  })

unfoldable pub decode_record : Value → Result AuthorityRecord
decode_record value = do
  refuse (not (is_object value)) wrong_type
  refuse (not (is_some (get value (codes "error"))) && not (is_some (get value (codes "state"))))
      missing_field
  refuse (not (is_some (get value (codes "stamp")))) missing_field
  r ← record_from_value value
  validate_record r
  ok r

module _ (serde : Serde) where
  -- The model, a zero code point, and the canonical identity.
  unfoldable pub key : AuthorityRecord → Result Text
  key r = do identity ← canonical_json serde r.identity; ok (r.model ++ (0 ∷ identity))

  -- The loop of `unique_records` over the keys seen so far.
  unfoldable pub unique_from : List (Text × Unit {0}) → List AuthorityRecord → Result (Unit {0})
  unique_from seen [] = ok tt
  unique_from seen (r ∷ rs) = do
    validate_record r
    k ← key r
    refuse (contains_key k seen) duplicate_record
    unique_from (insert k tt seen) rs

  unfoldable pub unique_records : List AuthorityRecord → Result (Unit {0})
  unfolding unique_from
  unique_records rs = unique_from [] rs

pub record Rejection : Type 0 where
  pub ordinal : ℕ
  pub code : Text

pub record PushReceipt : Type 0 where
  pub client_id : Text
  pub batch_sequence : ℕ
  pub rejections : List Rejection
  pub records : List AuthorityRecord

-- Unicode white space of the Latin-1 range, and the wider spaces, as `str::trim` strips them.
abbrev pub is_space : ℕ → Bool
is_space c =
    (leb 9 c && leb c 13)
    || (c == 32
        || (c == 0x85
            || (c == 0xA0
                || (c == 0x1680
                    || ((leb 0x2000 c && leb c 0x200A)
                        || (c == 0x2028
                            || (c == 0x2029 || (c == 0x202F || (c == 0x205F || c == 0x3000)))))))))

-- `s.trim().is_empty()`.
abbrev pub is_blank : Text → Bool
is_blank = all is_space

-- The loop over the rejections, with the ordinals seen so far.
unfoldable pub rejections_from : List (ℕ × Unit {0}) → List Rejection → Result (Unit {0})
rejections_from seen [] = ok tt
rejections_from seen (r ∷ rs) = do
  counter r.ordinal
  refuse (r.ordinal == 0 || (is_blank r.code || contains_key r.ordinal seen))
      receipt_rejection_invalid
  rejections_from (insert r.ordinal tt seen) rs

module _ (serde : Serde) where
  unfoldable pub validate_receipt : PushReceipt → Result (Unit {0})
  unfolding rejections_from
  validate_receipt p = do
    refuse (is_blank p.client_id) receipt_client_blank
    refuse (p.batch_sequence == 0 || not (is_ok (counter p.batch_sequence)))
        receipt_sequence_invalid
    rejections_from [] p.rejections
    unique_records serde p.records
    refuse (any is_error p.records) receipt_read_failure

-- Whether the receipt answers this batch of this client.
unfoldable pub answers : PushReceipt → Text → ℕ → Bool
answers p client_id batch_sequence =
    same p.client_id client_id && p.batch_sequence == batch_sequence

abbrev rejection_of : Value → Value → Result Rejection
rejection_of ordinal_value code_value = do
  ordinal ← or_fail (as_u64 ordinal_value) wrong_type
  code ← or_fail (as_str code_value) wrong_type
  ok (record { ordinal = ordinal; code = code })

abbrev rejection_from_sequence : List Value → Result Rejection
rejection_from_sequence (ordinal_value ∷ code_value ∷ []) = rejection_of ordinal_value code_value
rejection_from_sequence values = err wrong_type

-- The derived `Deserialize` of a rejection: its fields by name, or in a sequence of exactly two.
abbrev rejection_from_value : Value → Result Rejection
rejection_from_value value = elim (as_array value) [
  | some values ↦ rejection_from_sequence values
  | none ↦ or_fail (get value (codes "ordinal")) missing_field >>= λ ordinal_value.
      or_fail (get value (codes "code")) missing_field >>= λ code_value.
      rejection_of ordinal_value code_value
]

-- The derived `Deserialize` of a receipt.
unfoldable pub receipt_from_value : Value → Result PushReceipt
receipt_from_value value = do
  client_value ← or_fail (get value (codes "clientId")) missing_field
  client_id ← or_fail (as_str client_value) wrong_type
  sequence_value ← or_fail (get value (codes "batchSequence")) missing_field
  batch_sequence ← or_fail (as_u64 sequence_value) wrong_type
  rejections_value ← or_fail (get value (codes "rejections")) missing_field
  rejection_values ← or_fail (as_array rejections_value) wrong_type
  rejections ← map_ok rejection_from_value rejection_values
  records_value ← or_fail (get value (codes "records")) missing_field
  record_values ← or_fail (as_array records_value) wrong_type
  records ← map_ok record_from_value record_values
  ok (record {
    client_id = client_id;
    batch_sequence = batch_sequence;
    rejections = rejections;
    records = records;
  })

module _ (serde : Serde) where
  unfoldable pub decode_receipt : Value → Result PushReceipt
  decode_receipt value = do
    refuse (not (is_object value)) wrong_type
    refuse (not (is_some (get value (codes "clientId")))) missing_field
    refuse (not (is_some (get value (codes "batchSequence")))) missing_field
    refuse (not (is_some (get value (codes "rejections")))) missing_field
    refuse (not (is_some (get value (codes "records")))) missing_field
    batch_sequence ← read_counter (index value (codes "batchSequence")) true
    record_values ← or_fail (as_array (index value (codes "records"))) wrong_type
    records ← map_ok decode_record record_values
    result ← receipt_from_value value
    let receipt : PushReceipt = record result { batch_sequence = batch_sequence; records = records }
    validate_receipt serde receipt
    ok receipt
