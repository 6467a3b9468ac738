-- ===== src/Client/Connection/Backoff.antt =====
-- The retry delay of crates/client/src/connection.rs: how it grows with the failures, and its bounds.
use ahead.Common.{
  ℕ, zero, suc, ◌+◌, ◌*◌, ◌/◌, ◌%◌, min, ◌≤◌, ◌≡◌, ◌^◌, refl, ap, ◌∙◌, true, false, arith,
}
use native.Mathlib.Numerals.{unary_clauses}
use ahead.Common.Word.{u64_max, u32_max}
use ahead.Client.Connection.{
  ConnectionDriver, Call, starts, resumes, asks, stops, pauses, wakes, completes, start, resume,
  pause, wake, wait, next, complete, base, step,
}

base-bounds : (attempt : ℕ) → (250 ≤ base attempt) × (base attempt ≤ 30000)
unfolding base
base-bounds zero = omega arith
base-bounds (suc zero) = omega arith
base-bounds (suc (suc zero)) = omega arith
base-bounds (suc (suc (suc zero))) = omega arith
base-bounds (suc (suc (suc (suc zero)))) = omega arith
base-bounds (suc (suc (suc (suc (suc zero))))) = omega arith
base-bounds (suc (suc (suc (suc (suc (suc zero)))))) = omega arith
base-bounds (suc (suc (suc (suc (suc (suc (suc n))))))) =
    let e : min (suc (suc (suc (suc (suc (suc (suc n))))))) 7 ≡ 7 = omega arith in
    rw (e, base) (omega arith)

base-doubles : (n : ℕ) → base (suc n) ≡ min (2 * base n) 30000
unfolding base
base-doubles zero = refl
base-doubles (suc zero) = refl
base-doubles (suc (suc zero)) = refl
base-doubles (suc (suc (suc zero))) = refl
base-doubles (suc (suc (suc (suc zero)))) = refl
base-doubles (suc (suc (suc (suc (suc zero))))) = refl
base-doubles (suc (suc (suc (suc (suc (suc zero)))))) = refl
base-doubles (suc (suc (suc (suc (suc (suc (suc n))))))) =
    let e : min (suc (suc (suc (suc (suc (suc (suc n))))))) 7 ≡ 7 = omega arith in
    let f : min (suc (suc (suc (suc (suc (suc (suc (suc n)))))))) 7 ≡ 7 = omega arith in
    rw (e, base) (rw (f, base) refl)

jitter-bounds :
    (b entropy : ℕ)
    → 250 ≤ b
    → b ≤ 30000
    → (200 ≤ b * (800 + entropy % 401) / 1000) × (b * (800 + entropy % 401) / 1000 ≤ 36000)
jitter-bounds b entropy h k =
    let lo : 250 * 800 ≤ b * (800 + entropy % 401) = grind arith in
    let hi : b * (800 + entropy % 401) ≤ 30000 * 1200 = grind arith in omega arith

-- After a failed attempt of a running, unpaused driver, the next decision at that time is to wait
-- between 200 ms and 36 s, provided that the clock is not within 36 s of the end of `u64`.
pub wait_bounds :
    (d : ConnectionDriver) (now entropy : ℕ)
    → d.running ≡ true
    → d.in_flight ≡ true
    → d.paused ≡ false
    → now + 36000 ≤ u64_max
    → (millis : ℕ) × ((next (complete d false now entropy) now).1 ≡ wait millis)
      × (200 ≤ millis)
      × (millis ≤ 36000)
unfolding next complete
wait_bounds d now entropy r f p fits =
    let b = base-bounds d.attempt in
    let j = jitter-bounds (base d.attempt) entropy b.0 b.1 in
    (base d.attempt * (800 + entropy % 401) / 1000, ground (arith, j), j.0, j.1)

power-suc : (n : ℕ) → 2 ^ suc n ≡ 2 * 2 ^ n
power-suc n = simp unary_clauses (omega arith)

base-power : (n : ℕ) → base n ≡ min (250 * 2 ^ n) 30000
unfolding base
base-power zero = refl
base-power (suc n) =
    let ih = base-power n in
    let e = base-doubles n in let f = power-suc n in omega (arith, ih, e, f)

-- An attempt counter that stopped at the end of `u32` has the same delay.
base-saturated : (n : ℕ) → base (min n u32_max) ≡ base n
unfolding base
base-saturated n = let e : min (min n u32_max) 7 ≡ min n 7 = omega arith in rw e refl

-- The calls that neither end an attempt nor start or stop the driver.
abbrev pub KeepsAttempt : Call → Type 0
KeepsAttempt (resumes now) = Unit
KeepsAttempt (asks now) = Unit
KeepsAttempt pauses = Unit
KeepsAttempt wakes = Unit
KeepsAttempt _ = ⊥

-- The drivers whose last `n` attempts failed, after a start or a success.
pub data Failed : ℕ → ConnectionDriver → Type 0 where
  started : (d : ConnectionDriver) (now : ℕ) → Failed 0 (start d now)
  succeeded :
      (d : ConnectionDriver) (now entropy : ℕ)
      → d.running ≡ true
      → d.in_flight ≡ true
      → Failed 0 (complete d true now entropy)
  failed :
      {n : ℕ} {d : ConnectionDriver} (now entropy : ℕ)
      → d.running ≡ true
      → d.in_flight ≡ true
      → Failed n d
      → Failed (suc n) (complete d false now entropy)
  called :
      {n : ℕ} {d : ConnectionDriver} (c : Call)
      → KeepsAttempt c
      → Failed n d
      → Failed n (step d c).0

step-attempt : (d : ConnectionDriver) (c : Call) → KeepsAttempt c → (step d c).0.attempt ≡ d.attempt
unfolding step next resume pause wake
step-attempt d (resumes now) k = refl
step-attempt d (asks now) k = ground arith
step-attempt d pauses k = refl
step-attempt d wakes k = refl
step-attempt d (starts now) k = absurd k
step-attempt d stops k = absurd k
step-attempt d (completes success now entropy) k = absurd k

Failed-attempt : (n : ℕ) (d : ConnectionDriver) → Failed n d → d.attempt ≡ min n u32_max
unfolding start complete
Failed-attempt _ _ (started d now) = refl
Failed-attempt _ _ (succeeded d now entropy r f) = ground (arith, r, f)
Failed-attempt _ _ (failed {n = n} {d = d} now entropy r f before) =
    ground (arith, r, f, Failed-attempt n d before)
Failed-attempt n _ (called {d = d} c k before) = step-attempt d c k ∙ Failed-attempt n d before

-- Where `n` attempts in a row failed and the next of an unpaused driver fails too, the wait after it is
-- 250 ms doubled `n` times, at most 30 s, times a jitter between 0.8 and 1.2, provided that the clock is
-- not within 36 s of the end of `u64`. The calls between the attempts may be any but a start or a stop.
pub complete-doubles :
    (n : ℕ) (d : ConnectionDriver) (now entropy : ℕ)
    → Failed n d
    → d.running ≡ true
    → d.in_flight ≡ true
    → d.paused ≡ false
    → now + 36000 ≤ u64_max
    → (next (complete d false now entropy) now).1
      ≡ wait (min (250 * 2 ^ n) 30000 * (800 + entropy % 401) / 1000)
unfolding next complete
complete-doubles n d now entropy before r f p fits =
    let b = base-bounds d.attempt in
    let j = jitter-bounds (base d.attempt) entropy b.0 b.1 in
    let e : base d.attempt ≡ min (250 * 2 ^ n) 30000 =
      ap base (Failed-attempt n d before) ∙ base-saturated n ∙ base-power n in
    rw (← e) (ground (arith, j))
