-- ===== src/Client/State.antt =====
-- The client of crates/client/src/lib.rs as far as the downlink and the live session use it: the stored
-- subscriptions (`ahead_subscription`, crates/client/src/ledger.rs), the writer's generation, and the
-- ledger of pulls. `R` stands for the tables of records, which crates/client/src/authority.rs changes.
use ahead.Common.{
  ℕ, ◌+◌, Bool, true, false, List, [], ◌∷◌, Result, ok, err, stale_writer, transaction_active, ◌==◌,
  if◌then◌else◌, is_some,
}
use ahead.Common.Text.{Text}
use ahead.Common.Map.{lookup, insert, remove, keys}
use ahead.Common.Order.{text_ord}
use ahead.Core.Record.{AuthorityRecord}
use ahead.Client.Pulls.{PullLedger, absorb, or_zero}
use ahead.Client.Report.{ApplyReport}

-- The stored state.
pub record Db (R : Type 0) : Type 0 where
  pub subscriptions : List (Text × ℕ)
  pub generation : ℕ
  pub rows : R

pub record Client (R : Type 0) : Type 0 where
  pub db : Db R
  pub generation : ℕ
  pub session : Bool
  pub pulls : PullLedger
  pub models : List (Text × ℕ)

-- `apply_records` of crates/client/src/authority.rs.
abbrev pub Applier : Type 0 → Type 0
Applier R = R → List AuthorityRecord → Result (R × ApplyReport)

abbrev pub Marks : Type 0
Marks = List (Text × Unit {0})

-- `set_channel`, on the stored subscriptions and the marks of the transaction.
unfoldable pub set_channel : Text × Bool → List (Text × ℕ) × Marks → List (Text × ℕ) × Marks
set_channel (channel, true) (subs, marks) =
    if is_some (lookup channel subs)
    then (subs, marks)
    else (insert channel 0 subs, insert channel tt marks)
set_channel (channel, false) (subs, marks) =
    (remove channel subs, if is_some (lookup channel subs) then insert channel tt marks else marks)

abbrev set_channels : List (Text × Bool) → List (Text × ℕ) × Marks → List (Text × ℕ) × Marks
set_channels [] s = s
set_channels (c ∷ cs) s = set_channels cs (set_channel c s)

module _ {R : Type 0} where
  -- `fence`: the stored generation is still this writer's, and moves on.
  unfoldable pub fence : ℕ → Db R → Result (Db R)
  fence generation db =
      if db.generation == generation
      then ok (record db { generation = db.generation + 1 })
      else err stale_writer

  -- The body and the fence in one transaction; an error leaves nothing behind. The second result of the
  -- body is the set of channels that the transaction subscribed or unsubscribed.
  unfoldable pub transact {ℓ} :
      {A : Type ℓ} → Client R → (Db R → Result (Db R × List Text × A)) → Client R × Result A
  unfolding fence
  transact c body = elim (body c.db) [
    | err e ↦ (c, err e)
    | ok (db, marks, a) ↦ elim (fence c.generation db) [
      | err e ↦ (c, err e)
      | ok fenced ↦ (
        record c { db = fenced; generation = c.generation + 1; pulls = absorb c.pulls marks },
        ok a,
      )
    ]
  ]

  -- `Client::write`: refused while the application holds a transaction open.
  unfoldable pub write {ℓ} :
      {A : Type ℓ} → Client R → (Db R → Result (Db R × List Text × A)) → Client R × Result A
  write c body = if c.session then (c, err transaction_active) else transact c body

  -- The cursor of a channel, 0 where it is not subscribed.
  abbrev pub cursor : Client R → Text → ℕ
  cursor c channel = or_zero (lookup channel c.db.subscriptions)

  -- One committed transaction of subscribes and unsubscribes.
  unfoldable pub change_channels : Client R → List (Text × Bool) → Client R × Result (Unit {0})
  unfolding set_channel write transact
  change_channels c changes = write c λ db.
      let (subs, marks) = set_channels changes (db.subscriptions, []) in
      ok (record db { subscriptions = subs }, keys marks, tt)
