-- ===== src/Telemetry/Backoff.antt =====
-- The retry delay.
use power_monitor_sensor_hea.Base.{
  ℕ, zero, suc, ◌+◌, ◌-◌, ◌*◌, ◌/◌, ◌≤◌, ◌<◌, ◌≡◌, refl, arith, true, uint32_max,
}
use power_monitor_sensor_hea.Base.Int.{ℤ, pos, ◌+ℤ◌, ◌≤ℤ◌}
use power_monitor_sensor_hea.Telemetry.{
  BackoffState, backoff_reset, backoff_delay, backoff_fail, backoff_due,
}

-- The delays without jitter: they double from a second, and stay at a minute.
pub nominal_ms : ℕ → ℕ
nominal_ms zero = 1000
nominal_ms (suc zero) = 2000
nominal_ms (suc (suc zero)) = 4000
nominal_ms (suc (suc (suc zero))) = 8000
nominal_ms (suc (suc (suc (suc zero)))) = 16000
nominal_ms (suc (suc (suc (suc (suc zero))))) = 32000
nominal_ms (suc (suc (suc (suc (suc (suc n)))))) = 60000

backoff_delay_range :
    (k r : ℕ)
    → (nominal_ms k - nominal_ms k / 8 ≤ backoff_delay k r)
      × (backoff_delay k r ≤ nominal_ms k + nominal_ms k / 8)
      × (backoff_delay k r ≤ 60000)
unfolding backoff_delay nominal_ms
backoff_delay_range zero r = ground arith
backoff_delay_range (suc zero) r = ground arith
backoff_delay_range (suc (suc zero)) r = ground arith
backoff_delay_range (suc (suc (suc zero))) r = ground arith
backoff_delay_range (suc (suc (suc (suc zero)))) r = ground arith
backoff_delay_range (suc (suc (suc (suc (suc zero))))) r = ground arith
backoff_delay_range (suc (suc (suc (suc (suc (suc zero)))))) r = ground arith
backoff_delay_range (suc (suc (suc (suc (suc (suc (suc k))))))) r = ground arith

-- The state after `n` failures in a row, each at its own time and with its own random value.
pub fail_times : ℕ → (ℕ → ℤ) → (ℕ → ℕ) → BackoffState → BackoffState
fail_times zero times randoms b = b
fail_times (suc n) times randoms b =
    (backoff_fail (fail_times n times randoms b) (times n) (randoms n)).0

fail_times_count :
    (n : ℕ) (times : ℕ → ℤ) (randoms : ℕ → ℕ) (b : BackoffState)
    → b.failures ≡ 0
    → n ≤ uint32_max
    → (fail_times n times randoms b).failures ≡ n
unfolding fail_times backoff_fail
fail_times_count zero times randoms b z h = z
fail_times_count (suc n) times randoms b z h =
    ground (arith, fail_times_count n times randoms b z (omega arith))

-- The delay after the k-th failure in a row is within an eighth of the k-th of the nominal delays
-- and at most a minute, and the next attempt is due exactly from that delay on.
pub backoff_after_failures :
    (k : ℕ) (times : ℕ → ℤ) (randoms : ℕ → ℕ) (start now later : ℤ) (random : ℕ) (b : BackoffState)
    → k < uint32_max
    → let before = fail_times k times randoms (backoff_reset b start) in
      let after = backoff_fail before now random in
      (after.0.failures ≡ k + 1)
      × (nominal_ms k - nominal_ms k / 8 ≤ after.1)
      × (after.1 ≤ nominal_ms k + nominal_ms k / 8)
      × (after.1 ≤ 60000)
      × (backoff_due after.0 later ≡ true → now +ℤ pos (after.1 * 1000) ≤ℤ later)
      × (now +ℤ pos (after.1 * 1000) ≤ℤ later → backoff_due after.0 later ≡ true)
unfolding backoff_fail backoff_due backoff_reset
backoff_after_failures k times randoms start now later random b h =
    let count = fail_times_count k times randoms (backoff_reset b start) refl (omega arith) in
    let range = backoff_delay_range k random in
    rw count (ground arith, range.0, range.1, range.2, λ due. ground arith, λ reached. ground arith)
