-- ===== src/Client/Connection/Flight.antt =====
-- The driver of crates/client/src/connection.rs keeps one attempt in flight and loses no wake.
use ahead.Common.{ℕ, suc, ◌+◌, ◌≤◌, ◌≡◌, refl, true, false, List, [], ◌∷◌, arith, All, ◌⊎◌}
use ahead.Client.Connection.{
  ConnectionDriver, sync, Call, starts, stops, completes, step, run, next, wake,
}

-- How many calls of a history answered `sync`.
abbrev pub syncs : ConnectionDriver → List Call → ℕ
syncs d [] = 0
syncs d (c ∷ cs) = elim (step d c).1 [
  | sync ↦ suc (syncs (step d c).0 cs)
  | _ ↦ syncs (step d c).0 cs
]

-- How many attempts a history ended: by a completion, or by dropping them at a start or a stop.
abbrev pub ends : List Call → ℕ
ends [] = 0
ends (completes success now entropy ∷ cs) = suc (ends cs)
ends (starts now ∷ cs) = suc (ends cs)
ends (stops ∷ cs) = suc (ends cs)
ends (_ ∷ cs) = ends cs

abbrev pub outstanding : ConnectionDriver → ℕ
outstanding d = elim d.in_flight [ true ↦ 1 | false ↦ 0 ]

outstanding-step :
    (d : ConnectionDriver) (c : Call) (cs : List Call)
    → syncs d (c ∷ cs) + outstanding d + ends cs
      ≤ syncs (step d c).0 cs + outstanding (step d c).0 + ends (c ∷ cs)
unfolding step
outstanding-step d (starts now) cs = ground arith
outstanding-step d c cs = ground arith

-- In every history of calls, the syncs answered, with the attempt in flight before it, are at most
-- the attempts that the history ended and the one in flight after it: two attempts never overlap.
pub syncs_le_ends :
    (d : ConnectionDriver) (cs : List Call)
    → syncs d cs + outstanding d ≤ ends cs + outstanding (run d cs)
unfolding run
syncs_le_ends d [] = omega arith
syncs_le_ends d (c ∷ cs) = omega (arith, outstanding-step d c cs, syncs_le_ends (step d c).0 cs)

-- A call that neither starts nor stops the driver.
abbrev pub KeepsRunning : Call → Type 0
KeepsRunning (starts now) = ⊥
KeepsRunning stops = ⊥
KeepsRunning _ = Unit

dirty-step :
    (d : ConnectionDriver) (c : Call)
    → KeepsRunning c
    → d.dirty ≡ true
    → ((step d c).1 ≡ sync) ⊎ ((step d c).0.dirty ≡ true)
unfolding step
dirty-step d (starts now) k h = absurd k
dirty-step d c k h = ground arith

dirty-run :
    (d : ConnectionDriver) (cs : List Call)
    → All KeepsRunning cs
    → d.dirty ≡ true
    → syncs d cs ≡ 0
    → (run d cs).dirty ≡ true
unfolding run
dirty-run d [] k h z = h
dirty-run d (c ∷ cs) k h z = ground (arith, dirty-step d c k.0 h, dirty-run (step d c).0 cs k.1)

-- A wake is never lost: after it, through any history that neither starts nor stops the driver and
-- that answered no sync, a driver that runs, is not paused, has nothing in flight and is past its due
-- time answers `sync`, and then is in flight.
pub wake_not_lost :
    (d : ConnectionDriver) (cs : List Call) (now : ℕ)
    → All KeepsRunning cs
    → syncs (wake d) cs ≡ 0
    → let d' = run (wake d) cs in
      d'.running ≡ true
      → d'.paused ≡ false
      → d'.in_flight ≡ false
      → d'.due ≤ now
      → ((next d' now).1 ≡ sync) × ((next d' now).0.in_flight ≡ true)
unfolding next
wake_not_lost d cs now k z r p f t =
    let dirty : (run (wake d) cs).dirty ≡ true = dirty-run (wake d) cs k (unfold wake in refl) z in
    ground (arith, dirty)
