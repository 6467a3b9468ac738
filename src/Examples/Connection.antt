-- ===== src/Examples/Connection.antt =====
-- Runs of the connection driver, crates/client/src/connection.rs.
use ahead.Common.{
  min, ℕ, ◌+◌, ◌*◌, ◌^◌, ◌/◌, ◌%◌, ◌≤◌, ◌≡◌, refl, true, false, List, [], ◌∷◌, arith,
}
use ahead.Client.Connection.{
  ConnectionDriver, default, idle, sync, wait, Call, starts, resumes, asks, stops, pauses, wakes,
  completes, start, wake, next, complete, step, run,
}
use ahead.Client.Connection.Backoff.{wait_bounds, started, failed, called, complete-doubles}
use ahead.Client.Connection.Flight.{syncs, ends, outstanding, syncs_le_ends, wake_not_lost}
use ahead.Client.Connection

-- A driver that sent its first attempt at 10 and heard nothing yet.
abbrev sent : ConnectionDriver
sent = record default { running = true; in_flight = true; due = 10 }

start_syncs : step (start default 10) (asks 10) ≡ (sent, sync)
unfolding step start
start_syncs = refl

wait_bounds_example :
    (millis : ℕ) × ((next (complete sent false 12 7) 12).1 ≡ wait millis)
    × (200 ≤ millis)
    × (millis ≤ 36000)
wait_bounds_example = wait_bounds sent 12 7 refl refl refl (omega arith)

-- A driver whose first attempt failed, in its second.
abbrev second : ConnectionDriver
second = (step (complete (step (start default 10) (asks 10)).0 false 12 0) (asks 500)).0

complete-doubles_example :
    (next (complete second false 600 200) 600).1
    ≡ wait (min (250 * 2 ^ 1) 30000 * (800 + 200 % 401) / 1000)
unfolding step start next complete Connection.base
complete-doubles_example =
    complete-doubles 1 second 600 200
      (called (asks 500) tt (failed 12 0 refl refl (called (asks 10) tt (started default 10)))) refl
      refl refl (omega arith)

abbrev history : List Call
history = asks 10 ∷ wakes ∷ completes false 12 0 ∷ asks 12 ∷ asks 500 ∷ completes true 501 0 ∷ []

syncs_le_ends_example :
    syncs (start default 10) history + outstanding (start default 10)
    ≤ ends history + outstanding (run (start default 10) history)
syncs_le_ends_example = syncs_le_ends (start default 10) history

wake_not_lost_example :
    ((next (run (wake sent) (completes true 12 0 ∷ [])) 12).1 ≡ sync)
    × ((next (run (wake sent) (completes true 12 0 ∷ [])) 12).0.in_flight ≡ true)
unfolding run step wake
wake_not_lost_example =
    wake_not_lost sent (completes true 12 0 ∷ []) 12 (tt, tt) refl refl refl refl (omega arith)
