-- ===== src/Server/Readback.antt =====
-- crates/server/src/readback.rs: the stamps, the readback and the publications of one mutation.
use ahead.Common.{
  ℕ, not, List, [], ◌∷◌, ◌++◌, Option, none, some, Result, ok, err, map, if◌then◌else◌, length,
  ◌==◌, is_some,
}
use ahead.Common.Text.{Text, is_empty}
use ahead.Common.Map.{lookup, insert, values}
use ahead.Common.Order.{text_ord}
use ahead.Core.Json.{Value, null, Serde}
use ahead.Core.Record.{AuthorityRecord}
use ahead.Core.Schema.{
  Schema, Scalars, RecordKey, among, record_key, encoded, encoded_identity, normalize_state,
}
use ahead.Server.Config.{
  Outcome, refused, done, under, or_code, refuse_code, Config, contract, loader_unregistered,
  handler_invalid, internal_code, model_version_unsupported, loader_failed, loader_invalid,
  publish_invalid, host_invalid,
}
use ahead.Server.Host.{
  Host, Server, ◌>>=◌, ◌>>◌, lift, give, call_typed, load, advance_stamp, ensure_stamp, publish,
  Loaded, rows, load_refused, load_failed, RecordRef, PublicationIntent,
}

-- What one mutation's readback produced: its authority, or the code that refused it.
pub data Verdict : Type 0 where
  records : List AuthorityRecord → Verdict
  refusal : Text → Verdict

abbrev pub Changes : Type 0
Changes = List (Text × RecordKey)

-- The records of each model, in the order of their keys.
abbrev or_none : Option Changes → Changes
or_none none = []
or_none (some c) = c

unfoldable pub groups_from : Changes → List (Text × Changes) → List (Text × Changes)
groups_from [] groups = groups
groups_from (e ∷ es) groups =
    groups_from es (insert e.1.model (or_none (lookup e.1.model groups) ++ (e ∷ [])) groups)

abbrev pub or_zero : Option ℕ → ℕ
or_zero none = 0
or_zero (some n) = n

module _ (serde : Serde) (scalars : Scalars) (config : Config) where
  unfoldable pub resolve : RecordRef → Outcome RecordKey
  resolve r =
      if not (among r.model config.loaders)
      then refused loader_unregistered
      else under handler_invalid (record_key scalars config.schema r.model r.identity)

  unfoldable pub insert_change : RecordKey → Changes → Outcome Changes
  insert_change key changes = elim (encoded serde key) [
    | err e ↦ refused internal_code
    | ok k ↦ done (insert k key changes)
  ]

  -- Whether every changed model is loaded here and declared by the client at a version that is served: the
  -- code that refuses the mutation where it is not.
  unfoldable pub undeclared : List (Text × ℕ) → List RecordKey → Outcome (Option Text)
  unfolding contract
  undeclared declared [] = done none
  undeclared declared (key ∷ keys) =
      let rest = undeclared declared keys in
      if not (among key.model config.loaders)
      then refused loader_unregistered
      else elim (lookup key.model declared) [
        | none ↦ done (some model_version_unsupported)
        | some version ↦
            if is_some (contract config key.model version)
            then rest
            else done (some model_version_unsupported)
      ]

  -- The records of the loaded rows; none where the served contract does not accept a row.
  unfoldable pub row_records :
      Schema
      → Text
      → List (Text × ℕ)
      → Changes
      → List (Option Value)
      → Option (List AuthorityRecord)
  row_records schema model stamps ((k, key) ∷ es) (row ∷ rest) =
      let others = row_records schema model stamps es rest in
      let content : Result Value = elim row [
        | none ↦ ok null
        | some v ↦ normalize_state scalars schema model v
      ] in
      elim content [
        | err e ↦ none
        | ok v ↦ elim others [
          | none ↦ none
          | some rs ↦ some (
              record {
                model = key.model;
                identity = key.identity;
                stamp = or_zero (lookup k stamps);
                state = v;
                error = none;
              }
              ∷ rs)
        ]
      ]
  row_records schema model stamps _ _ = some []

  unfoldable pub members_from : List RecordRef → Changes → Outcome Changes
  unfolding resolve insert_change
  members_from [] members = done members
  members_from (r ∷ rs) members = elim (resolve r) [
    | refused c ↦ refused c
    | done key ↦ elim (insert_change key members) [
      | refused c ↦ refused c
      | done next ↦ members_from rs next
    ]
  ]

  -- The records of one group, or the code that refuses the mutation.
  unfoldable pub of_rows : Schema → Text → List (Text × ℕ) → Changes → Loaded → Verdict
  unfolding row_records
  of_rows schema model stamps es (load_refused code) = refusal code
  of_rows schema model stamps es (load_failed error) = refusal loader_failed
  of_rows schema model stamps es (rows rs) =
      if not (length rs == length es)
      then refusal loader_invalid
      else elim (row_records schema model stamps es rs) [
        | none ↦ refusal loader_invalid
        | some found ↦ records found
      ]

  module _ {S : Type 0} (host : Host S) where
    -- One stamp per changed record, in the order of the keys.
    unfoldable pub allocate_stamps : Changes → List (Text × ℕ) → Server S (List (Text × ℕ))
    allocate_stamps [] stamps = give stamps
    allocate_stamps ((k, key) ∷ es) stamps = do
      identity ← lift (under internal_code (encoded_identity serde key))
      stamp ← call_typed host (advance_stamp key.model identity)
      allocate_stamps es (insert k stamp stamps)

    -- The publication carries the stamp that was asked.
    unfoldable pub publish_one : Text → RecordKey → ℕ → Server S (Unit {0})
    publish_one channel key stamp = do
      identity ← lift (under internal_code (encoded_identity serde key))
      published ← call_typed host (publish channel key.model key.identity identity stamp)
      lift (refuse_code (not (published.stamp == stamp)) host_invalid)

    abbrev pub stamp_of : List (Text × ℕ) → Text → RecordKey → Server S ℕ
    stamp_of stamps k key = elim (lookup k stamps) [
      | some stamp ↦ give stamp
      | none ↦ lift (under internal_code (encoded_identity serde key)) >>= λ identity.
          call_typed host (ensure_stamp key.model identity)
    ]

    unfoldable pub publish_members : Text → List (Text × ℕ) → Changes → Server S (Unit {0})
    unfolding publish_one
    publish_members channel stamps [] = give tt
    publish_members channel stamps ((k, key) ∷ es) = do
      stamp ← stamp_of stamps k key
      publish_one channel key stamp
      publish_members channel stamps es

    unfoldable pub publish_intents :
        Changes → List (Text × ℕ) → List PublicationIntent → Server S (Unit {0})
    unfolding publish_members members_from
    publish_intents changes stamps [] = give tt
    publish_intents changes stamps (intent ∷ intents) = do
      lift (refuse_code (is_empty intent.channel) publish_invalid)
      members ← lift (elim intent.records [ none ↦ done changes | some rs ↦ members_from rs [] ])
      publish_members intent.channel stamps members
      publish_intents changes stamps intents

    -- The loaders read the groups one by one, until one refuses.
    unfoldable pub load_groups :
        List (Text × ℕ)
        → Text
        → List (Text × ℕ)
        → List (Text × Changes)
        → List AuthorityRecord
        → Server S Verdict
    unfolding of_rows contract
    load_groups declared owner stamps [] found = give (records found)
    load_groups declared owner stamps ((model, es) ∷ groups) found = do
      let version : ℕ = or_zero (lookup model declared)
      schema ← lift (or_code (contract config model version) internal_code)
      loaded ← call_typed host (load model version (map (λ e. e.1.identity) es) owner)
      elim (of_rows schema model stamps es loaded) [
        | refusal code ↦ give (refusal code)
        | records more ↦ load_groups declared owner stamps groups (found ++ more)
      ]

    unfoldable pub read_back :
        List (Text × ℕ) → Text → Changes → List PublicationIntent → Server S Verdict
    unfolding undeclared allocate_stamps groups_from load_groups publish_intents
    read_back declared owner changes publications = do
      problem ← lift (undeclared declared (values changes))
      elim problem [
        | some code ↦ give (refusal code)
        | none ↦ allocate_stamps changes [] >>= λ stamps.
            load_groups declared owner stamps (groups_from changes []) [] >>= λ verdict.
            elim verdict [
              | refusal code ↦ give (refusal code)
              | records found ↦ publish_intents changes stamps publications >> give (records found)
            ]
      ]
