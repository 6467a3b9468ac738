-- ===== src/Client/Connection.antt =====
-- crates/client/src/connection.rs: the connection driver. A method that takes `&mut self` returns the
-- new driver. Times are milliseconds in `u64`, `attempt` is a `u32`.
pub mod Backoff
pub mod Flight
use ahead.Common.{
  ℕ, ◌+◌, ◌-◌, ◌*◌, ◌/◌, ◌%◌, ◌^◌, min, Bool, true, false, not, ◌||◌, List, [], ◌∷◌, ltb,
  if◌then◌else◌,
}
use ahead.Common.Word.{saturating_add, saturating_mul, saturating_inc32}

pub record ConnectionDriver : Type 0 where
  pub running : Bool
  pub paused : Bool
  pub dirty : Bool
  pub in_flight : Bool
  pub attempt : ℕ
  pub due : ℕ

pub data ConnectionAction : Type 0 where
  idle : ConnectionAction
  sync : ConnectionAction
  wait : ℕ → ConnectionAction

-- `ConnectionDriver::default()`.
abbrev pub default : ConnectionDriver
default = record {
  running = false;
  paused = false;
  dirty = false;
  in_flight = false;
  attempt = 0;
  due = 0;
}

unfoldable pub start : ConnectionDriver → ℕ → ConnectionDriver
start d now = record default { running = true; dirty = true; due = now }

unfoldable pub stop : ConnectionDriver → ConnectionDriver
stop d = default

unfoldable pub pause : ConnectionDriver → ConnectionDriver
pause d = record d { paused = true }

unfoldable pub resume : ConnectionDriver → ℕ → ConnectionDriver
resume d now = record d { paused = false; dirty = true; due = now }

unfoldable pub wake : ConnectionDriver → ConnectionDriver
wake d = record d { dirty = true }

unfoldable pub next : ConnectionDriver → ℕ → ConnectionDriver × ConnectionAction
next d now =
    if not d.running || d.paused || d.in_flight || not d.dirty
    then (d, idle)
    else if ltb now d.due
    then (d, wait (d.due - now))
    else (record d { dirty = false; in_flight = true }, sync)

-- The delay before jitter: 250 ms doubled at most seven times, and never above 30 s.
unfoldable pub base : ℕ → ℕ
base attempt = min (saturating_mul 250 (2 ^ min attempt 7)) 30000

unfoldable pub complete : ConnectionDriver → Bool → ℕ → ℕ → ConnectionDriver
unfolding base
complete d success now entropy =
    if not d.running || not d.in_flight
    then d
    else if success
    then record d { in_flight = false; attempt = 0; due = now }
    else record d {
      in_flight = false;
      attempt = saturating_inc32 d.attempt;
      due = saturating_add now (base d.attempt * (800 + entropy % 401) / 1000);
      dirty = true;
    }

-- The calls a host can make, and their effect; `next` is the one that answers an action.
pub data Call : Type 0 where
  starts resumes asks : ℕ → Call
  stops pauses wakes : Call
  completes : Bool → ℕ → ℕ → Call

unfoldable pub step : ConnectionDriver → Call → ConnectionDriver × ConnectionAction
unfolding start stop pause resume wake next complete
step d (starts now) = (start d now, idle)
step d (resumes now) = (resume d now, idle)
step d (asks now) = next d now
step d stops = (stop d, idle)
step d pauses = (pause d, idle)
step d wakes = (wake d, idle)
step d (completes success now entropy) = (complete d success now entropy, idle)

unfoldable pub run : ConnectionDriver → List Call → ConnectionDriver
run d [] = d
run d (c ∷ cs) = run (step d c).0 cs
