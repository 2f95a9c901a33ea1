-- ===== src/Telemetry/Tests.antt =====
-- Runs of the queue, the retry delay and the schedule, and their theorems at concrete inputs.
use power_monitor_sensor_hea.Base.{
  ℕ, ◌+◌, ◌-◌, ◌*◌, ◌/◌, ◌≤◌, ◌<◌, ◌≡◌, refl, ◌⊎◌, arith, true, false, List, [], ◌∷◌, int64_max,
}
use power_monitor_sensor_hea.Base.Int.{pos, ◌+ℤ◌, ◌≤ℤ◌}
use power_monitor_sensor_hea.Meter.{PzemStatus, MeterSample, blank_sample}
use power_monitor_sensor_hea.Telemetry.{
  BackoffState, slot_init, offer, begin_send, complete_send, resident_samples, backoff_reset,
  backoff_fail, backoff_due, backoff_delay, next_fixed_deadline,
}
use power_monitor_sensor_hea.Telemetry.History.{
  Request, offering, sending, completing, handle, serve, unused, length_of, IsFalling, IsNewest,
}
use power_monitor_sensor_hea.Telemetry.Queue.{serve_accounts}
use power_monitor_sensor_hea.Telemetry.Backoff.{nominal_ms, fail_times, backoff_after_failures}
use power_monitor_sensor_hea.Telemetry.Deadline.{next_fixed_deadline_grid}

abbrev sample : PzemStatus → MeterSample
sample = blank_sample

abbrev busy : List Request
busy =
    offering (sample PzemStatus.ok)
    ∷ offering (sample PzemStatus.timeout)
    ∷ sending
    ∷ sending
    ∷ offering (sample PzemStatus.ok)
    ∷ completing 2 false
    ∷ sending
    ∷ []

-- The first sample is replaced, the second sent and failed, the third sent.
busy_runs :
    let h = serve unused busy in
    (h.slot.replaced_pending ≡ 1)
    × (h.slot.failed_transmissions ≡ 1)
    × (h.slot.in_flight.sample_sequence ≡ 3)
unfolding serve handle unused slot_init offer begin_send complete_send
busy_runs = (refl, refl, refl)

serve_accounts_example :
    let h = serve unused busy in
    (length_of h.offered ≡ h.slot.replaced_pending + h.completed + resident_samples h.slot)
    × (h.slot.next_sequence ≡ length_of h.offered + 1)
    × (h.slot.failed_transmissions ≤ h.completed)
    × IsFalling h.sent
    × (h.slot.pending_present ≡ true → IsNewest h.slot.pending h.offered)
serve_accounts_example = serve_accounts busy

abbrev resting : BackoffState
resting = record { failures = 9; next_attempt_us = pos 3 }

delay_after_two : backoff_delay 2 100 ≡ 3600
unfolding backoff_delay
delay_after_two = refl

backoff_after_failures_example :
    let before = fail_times 2 pos (λ n. n) (backoff_reset resting (pos 0)) in
    let after = backoff_fail before (pos 50) 100 in
    (after.0.failures ≡ 2 + 1)
    × (nominal_ms 2 - nominal_ms 2 / 8 ≤ after.1)
    × (after.1 ≤ nominal_ms 2 + nominal_ms 2 / 8)
    × (after.1 ≤ 60000)
    × (backoff_due after.0 (pos 9) ≡ true → pos 50 +ℤ pos (after.1 * 1000) ≤ℤ pos 9)
    × (pos 50 +ℤ pos (after.1 * 1000) ≤ℤ pos 9 → backoff_due after.0 (pos 9) ≡ true)
backoff_after_failures_example =
    backoff_after_failures 2 pos (λ n. n) (pos 0) (pos 50) (pos 9) 100 resting (omega arith)

deadline_skips : next_fixed_deadline (pos 100) (pos 345) (pos 100) ≡ pos 400
unfolding next_fixed_deadline
deadline_skips = refl

next_fixed_deadline_grid_example :
    (345 < 100 × (next_fixed_deadline (pos 100) (pos 345) (pos 100) ≡ pos 100))
    ⊎ ((k : ℕ) × (100 ≤ 345)
        × (345 < 100 + k * 100)
        × (100 + k * 100 ≤ 345 + 100)
        × ((100 + k * 100 ≤ int64_max
              × (next_fixed_deadline (pos 100) (pos 345) (pos 100) ≡ pos (100 + k * 100)))
            ⊎ (int64_max < 100 + k * 100
                × (next_fixed_deadline (pos 100) (pos 345) (pos 100) ≡ pos int64_max))))
next_fixed_deadline_grid_example = next_fixed_deadline_grid 100 345 100 (omega arith) (omega arith)
