-- ===== src/Server/Pull.antt =====
-- `process_pull` of crates/server/src/lib.rs.
pub mod Ranges
use ahead.Common.{
  ℕ, max, Bool, true, false, not, ◌&&◌, ◌||◌, List, [], ◌∷◌, ◌++◌, Option, none, some, Result, ok,
  err, map, if◌then◌else◌, ltb, leb, ◌==◌, length,
}
use ahead.Common.Text.{Text}
use ahead.Common.Map.{lookup, insert}
use ahead.Common.Order.{same, text_ord}
use ahead.Core.Json.{Value, null, Serde}
use ahead.Core.Counter.{pull_changes}
use ahead.Core.Page.{CursorRange, PullPage, PullRequest, decode_request}
use ahead.Core.Encode.{encode_page}
use ahead.Core.Record.{AuthorityRecord}
use ahead.Core.Schema.{
  Schema, Scalars, RecordKey, among, record_key, encoded, encoded_identity, normalize_state, state,
}
use ahead.Server.Config.{
  Outcome, refused, done, under, or_code, refuse_code, Config, contract, check_declared,
  request_invalid, storage_invalid, loader_unregistered, loader_invalid, loader_failed,
  internal_code, model_version_unsupported,
}
use ahead.Server.Host.{
  Host, Server, ◌>>=◌, ◌>>◌, lift, give, call_typed, head, scan, load, Invalidation, Loaded, rows,
  load_refused, load_failed,
}
use ahead.Server.Push.{principal}

-- The changed records by their keys, each with its stamp.
abbrev pub Found : Type 0
Found = List (Text × (RecordKey × ℕ))

-- The later of the stamps that the channels name for a record.
unfoldable pub find_record : Text → RecordKey → ℕ → Found → Found
find_record k key stamp found = elim (lookup k found) [
  | none ↦ insert k (key, stamp) found
  | some (first_key, held) ↦ insert k (first_key, max held stamp) found
]

-- The keys of each model's records, in the order of the keys.
abbrev or_nothing : Option (List (Text × RecordKey)) → List (Text × RecordKey)
or_nothing none = []
or_nothing (some es) = es

unfoldable pub group_records :
    Found → List (Text × List (Text × RecordKey)) → List (Text × List (Text × RecordKey))
group_records [] groups = groups
group_records ((k, (key, stamp)) ∷ found) groups =
    group_records found
      (insert key.model (or_nothing (lookup key.model groups) ++ ((k, key) ∷ [])) groups)

-- What the loaders gave for a record: its state, or the code its read was refused with.
abbrev pub States : Type 0
States = List (Text × Outcome Value)

unfoldable pub zip_states : List (Text × RecordKey) → List (Outcome Value) → States → States
zip_states ((k, key) ∷ es) (o ∷ os) states = zip_states es os (insert k o states)
zip_states _ _ states = states

-- `refusal_code`.
abbrev pub refusal_code : Loaded → Text
refusal_code (load_refused rejection) = rejection
refusal_code (load_failed error) = loader_failed
refusal_code (rows rs) = loader_failed

abbrev pub record_of : States → Text × (RecordKey × ℕ) → AuthorityRecord
record_of states (k, (key, stamp)) = elim (lookup k states) [
  | some (done v) ↦ record {
    model = key.model;
    identity = key.identity;
    stamp = stamp;
    state = v;
    error = none;
  }
  | some (refused code) ↦ record {
    model = key.model;
    identity = key.identity;
    stamp = stamp;
    state = null;
    error = some code;
  }
  | none ↦ record {
    model = key.model;
    identity = key.identity;
    stamp = stamp;
    state = null;
    error = none;
  }
]

module _ (serde : Serde) (scalars : Scalars) (config : Config) where
  -- The key of a row, encoded, where the row is in order and its identity canonical.
  unfoldable pub check_row : Text → ℕ → Invalidation → ℕ → Outcome (Text × RecordKey)
  check_row channel maximum row previous =
      if not (same row.channel channel) || (leb row.cursor previous || ltb maximum row.cursor)
      then refused storage_invalid
      else if not (among row.model config.loaders)
      then refused loader_unregistered
      else elim (record_key scalars config.schema row.model row.identity) [
        | err e ↦ refused storage_invalid
        | ok key ↦ elim (encoded_identity serde key) [
          | err e ↦ refused storage_invalid
          | ok identity ↦
              if not (same row.identity_key identity)
              then refused storage_invalid
              else elim (encoded serde key) [ err e ↦ refused internal_code | ok k ↦ done (k, key) ]
        ]
      ]

  -- The loop over the rows of one channel: the last cursor, and the records found.
  unfoldable pub check_rows : Text → ℕ → List Invalidation → ℕ → Found → Outcome (ℕ × Found)
  unfolding check_row find_record
  check_rows channel maximum [] previous found = done (previous, found)
  check_rows channel maximum (row ∷ rest) previous found =
      elim (check_row channel maximum row previous) [
        | refused c ↦ refused c
        | done (k, key) ↦
            check_rows channel maximum rest row.cursor (find_record k key row.stamp found)
      ]

  abbrev normalize_row : Schema → Text → Option Value → Outcome Value
  normalize_row schema model none = done null
  normalize_row schema model (some v) =
      under loader_invalid (normalize_state scalars schema model v)

  abbrev of_one : Schema → Text → Loaded → Outcome Value
  of_one schema model (rows (row ∷ [])) = normalize_row schema model row
  of_one schema model (rows rs) = refused loader_invalid
  of_one schema model answer = refused (refusal_code answer)

  -- The states of a batched answer that can be matched to its records; none where each is asked alone.
  abbrev of_batch : Schema → Text → ℕ → Loaded → Option (List (Outcome Value))
  of_batch schema model n (rows rs) =
      if length rs == n
      then some (map (normalize_row schema model) rs)
      else (if n == 1 then some (refused loader_invalid ∷ []) else none)
  of_batch schema model n answer =
      if n == 1 then some (refused (refusal_code answer) ∷ []) else none

  module _ {S : Type 0} (host : Host S) where
    -- The range of one channel, and the records found.
    unfoldable pub pull_channel : Text → ℕ → Found → Server S (CursorRange × Found)
    unfolding check_rows
    pull_channel channel from found = do
      maximum ← call_typed host (head channel)
      lift (refuse_code (ltb maximum from) request_invalid)
      scanned ← call_typed host (scan channel from pull_changes)
      lift (refuse_code (ltb pull_changes (length scanned)) storage_invalid)
      (previous, next) ← lift (check_rows channel maximum scanned from found)
      let to : ℕ = if length scanned == pull_changes then previous else maximum
      give (record { from = from; to = to; head = maximum }, next)

    unfoldable pub pull_channels :
        List (Text × ℕ)
        → List (Text × CursorRange)
        → Found
        → Server S (List (Text × CursorRange) × Found)
    unfolding pull_channel
    pull_channels [] cursors found = give (cursors, found)
    pull_channels ((channel, from) ∷ rest) cursors found = do
      (range, next) ← pull_channel channel from found
      pull_channels rest (insert channel range cursors) next

    -- Each record asked alone.
    unfoldable pub load_each :
        Schema → Text → ℕ → Text → List Value → Server S (List (Outcome Value))
    load_each schema model version owner [] = give []
    load_each schema model version owner (identity ∷ rest) = do
      one ← call_typed host (load model version (identity ∷ []) owner)
      others ← load_each schema model version owner rest
      give (of_one schema model one ∷ others)

    unfoldable pub load_records :
        PullRequest → Text → List (Text × List (Text × RecordKey)) → States → Server S States
    unfolding load_each zip_states contract
    load_records request owner [] states = give states
    load_records request owner ((model, es) ∷ groups) states = do
      version ← lift (or_code (lookup model request.models) model_version_unsupported)
      schema ← lift (or_code (contract config model version) internal_code)
      let identities : List Value = map (λ e. e.1.identity) es
      loaded ← call_typed host (load model version identities owner)
      outcomes ← elim (of_batch schema model (length es) loaded) [
        | some os ↦ give os
        | none ↦ load_each schema model version owner identities
      ]
      load_records request owner groups (zip_states es outcomes states)

    -- The page for a request.
    unfoldable pub pull_page : Text → PullRequest → Server S PullPage
    unfolding pull_channels load_records group_records
    pull_page owner request = do
      (cursors, found) ← pull_channels request.cursors [] []
      states ← load_records request owner (group_records found []) []
      give (record { cursors = cursors; changes = map (record_of states) found })

    unfoldable pub process_pull : Text → Text → Server S Text
    unfolding pull_page principal check_declared
    process_pull owner bytes = do
      lift (principal owner)
      value ← lift (or_code (serde.from_slice bytes) request_invalid)
      request ← lift (under request_invalid (decode_request value))
      lift (check_declared config request.models)
      page ← pull_page owner request
      lift (under internal_code (encode_page serde page))
