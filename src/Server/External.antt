-- ===== src/Server/External.antt =====
-- `settle_external` of crates/server/src/lib.rs: a change made outside of a handler. The settlement is given
-- as serde reads it, none where it cannot be read.
use ahead.Common.{ℕ, List, [], ◌∷◌, Option, some}
use ahead.Common.Text.{Text, codes}
use ahead.Common.Map.{lookup}
use ahead.Common.Order.{text_ord}
use ahead.Core.Json.{Value, arr, obj, text, field, end, of_items, Serde}
use ahead.Core.Encode.{counter_value}
use ahead.Core.Schema.{Scalars}
use ahead.Server.Config.{refused, done, Config, Outcome, publish_invalid}
use ahead.Server.Host.{
  Host, Server, ◌>>=◌, ◌>>◌, lift, give, Handled, settled, RecordRef, PublicationIntent,
}
use ahead.Server.Readback.{Changes, members_from, allocate_stamps, publish_intents, or_zero}

-- Each changed record with its stamp.
unfoldable pub stamped_values : List (Text × ℕ) → Changes → List Value
stamped_values stamps [] = []
stamped_values stamps ((k, key) ∷ es) =
    obj (
      field (codes "identity") key.identity (
        field (codes "model") (text key.model)
          (field (codes "stamp") (counter_value (or_zero (lookup k stamps))) end)))
    ∷ stamped_values stamps es

abbrev settlement_of : Option Handled → Outcome (List RecordRef × List PublicationIntent)
settlement_of (some (settled changes publications)) = done (changes, publications)
settlement_of _ = refused publish_invalid

module _ (serde : Serde) (scalars : Scalars) (config : Config) {S : Type 0} (host : Host S) where
  unfoldable pub settle_external : Option Handled → Server S Value
  unfolding members_from allocate_stamps publish_intents stamped_values
  settle_external settlement = do
    (changes, publications) ← lift (settlement_of settlement)
    set ← lift (members_from serde scalars config changes [])
    stamps ← allocate_stamps serde scalars config host set []
    publish_intents serde scalars config host set stamps publications
    give (arr (of_items (stamped_values stamps set)))
