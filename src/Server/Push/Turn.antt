-- ===== src/Server/Push/Turn.antt =====
-- The ways one turn of the loop of `process_push` (crates/server/src/lib.rs) goes.
use ahead.Common.{ℕ, Bool, true, false, List, if◌then◌else◌}
use ahead.Common.Text.{Text}
use ahead.Core.Json.{Value, Serde}
use ahead.Core.Push.{RawMutation}
use ahead.Core.Schema.{Scalars, RecordKey}
use ahead.Server.Config.{
  Outcome, refused, done, Config, Mutation, descriptor, mutation_version_unsupported,
}
use ahead.Server.Slots.{decode}
use ahead.Server.Host.{Host, Server, give}
use ahead.Server.Push.{Settled, with_rejection, run_mutation, one_mutation, unserved}

module _ (serde : Serde) (scalars : Scalars) (config : Config) {S : Type 0} (host : Host S) where
  module _ (declared : List (Text × ℕ)) (owner : Text) (m : RawMutation) (b : Settled) where
    abbrev run : Mutation → Value → List RecordKey → Server S Settled
    run d args targets = run_mutation serde scalars config host declared owner m d args targets b

    -- The mutation is rejected before any call, or it is run.
    pub one_mutation-cases :
        (P : Server S Settled → Type 0)
        → ((c : Text) → P (give (with_rejection m c b)))
        → ((d : Mutation) (args : Value) (targets : List RecordKey) → P (run d args targets))
        → P (one_mutation serde scalars config host declared owner m b)
    unfolding one_mutation
    one_mutation-cases P early runs =
        unserved_or _ (unserved config m.raw) (described (descriptor config m.raw))
      where
        decoded :
            (d : Mutation) (o : Outcome (Value × List RecordKey))
            → P (elim o as (λ o. Server S Settled) [
              | refused c ↦ give (with_rejection m c b)
              | done (args, targets) ↦ run d args targets
            ])
        decoded d (refused c) = early c
        decoded d (done (args, targets)) = runs d args targets

        described :
            (o : Outcome Mutation)
            → P (elim o as (λ o. Server S Settled) [
              | refused c ↦ give (with_rejection m c b)
              | done d ↦ elim (decode scalars config m.raw) [
                | refused c ↦ give (with_rejection m c b)
                | done (args, targets) ↦ run d args targets
              ]
            ])
        described (refused c) = early c
        described (done d) = decoded d (decode scalars config m.raw)

        unserved_or :
            (go : Server S Settled) (t : Bool)
            → P go
            → P (if t then give (with_rejection m mutation_version_unsupported b) else go)
        unserved_or go true h = early mutation_version_unsupported
        unserved_or go false h = h
