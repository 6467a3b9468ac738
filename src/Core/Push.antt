-- ===== src/Core/Push.antt =====
-- `PushRequest` of crates/core/src/protocol.rs. Bytes are texts of code points here.
use ahead.Common.{
  ℕ, Bool, true, false, not, ◌||◌, List, [], ◌∷◌, Result, ok, not_json, not_nonblank,
  mutations_not_an_array, batch_size, mutation_not_an_object, duplicate_ordinal, ◌>>=◌, ◌>>◌,
  refuse, or_fail, ltb, length,
}
use ahead.Common.Text.{Text, codes}
use ahead.Common.Map.{insert, contains_key}
use ahead.Common.Order.{nat_ord}
use ahead.Core.Json.{Value, index, is_object, as_str, as_array, Serde, canonical_json}
use ahead.Core.Counter.{read_counter, read_models, push_mutations}
use ahead.Core.Record.{is_blank}

pub record RawMutation : Type 0 where
  pub ordinal : ℕ
  pub raw : Value

pub record PushRequest : Type 0 where
  pub client_id : Text
  pub batch_sequence : ℕ
  pub mutations : List RawMutation
  pub models : List (Text × ℕ)
  pub raw : Value

abbrev pub nonblank : Value → Result Text
nonblank value = do s ← or_fail (as_str value) not_nonblank; refuse (is_blank s) not_nonblank; ok s

-- The loop over the mutations of a batch, with the ordinals seen so far.
unfoldable pub mutations_from : List Value → List (ℕ × Unit {0}) → Result (List RawMutation)
mutations_from [] seen = ok []
mutations_from (act ∷ acts) seen = do
  refuse (not (is_object act)) mutation_not_an_object
  ordinal ← read_counter (index act (codes "ordinal")) true
  refuse (contains_key ordinal seen) duplicate_ordinal
  rest ← mutations_from acts (insert ordinal tt seen)
  ok (record { ordinal = ordinal; raw = act } ∷ rest)

abbrev none_of : List Value → Bool
none_of [] = true
none_of (v ∷ vs) = false

-- `PushRequest::decode`, once the bytes are parsed.
unfoldable pub request_from_value : Value → Result PushRequest
unfolding mutations_from
request_from_value raw = do
  client_id ← nonblank (index raw (codes "clientId"))
  batch_sequence ← read_counter (index raw (codes "batchSequence")) true
  models ← read_models (index raw (codes "models"))
  acts ← or_fail (as_array (index raw (codes "mutations"))) mutations_not_an_array
  refuse (none_of acts || ltb push_mutations (length acts)) batch_size
  mutations ← mutations_from acts []
  ok (record {
    client_id = client_id;
    batch_sequence = batch_sequence;
    mutations = mutations;
    models = models;
    raw = raw;
  })

module _ (serde : Serde) where
  unfoldable pub decode_push : Text → Result PushRequest
  unfolding request_from_value
  decode_push bytes = or_fail (serde.from_slice bytes) not_json >>= request_from_value

  -- `PushRequest::encode`.
  unfoldable pub encode_request : PushRequest → Result Text
  encode_request r = canonical_json serde r.raw
