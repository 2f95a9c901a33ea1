-- ===== src/Telemetry.antt =====
-- The two-place telemetry queue, the retry delay and the fixed schedule:
-- components/pm_telemetry/pm_telemetry.c and include/pm_telemetry.h.
-- Pointers are never NULL; `offer` returns the sequence that the code writes to `*sample_sequence`
-- (`none` where it writes nothing). The uint64_t counters wrap. An int64_t is an integer.
pub mod History
pub mod Queue
pub mod Backoff
pub mod Deadline
mod Tests
use power_monitor_sensor_hea.Base.{
  ℕ, ◌+◌, ◌-◌, ◌*◌, ◌/◌, ◌%◌, ◌^◌, Bool, true, false, not, ◌&&◌, ◌||◌, ◌==◌, ltb, if◌then◌else◌,
  Option, none, some, List, [], ◌∷◌, uint32_max, uint64_max, int64_max,
}
use power_monitor_sensor_hea.Base.Esp.{EspErr, invalid_arg, invalid_state}
use power_monitor_sensor_hea.Base.Int.{ℤ, pos, ◌+ℤ◌, ◌-ℤ◌, leb_ℤ, ltb_ℤ, pos_part}
use power_monitor_sensor_hea.Meter.{MeterSample, blank_sample, PzemStatus}

-- pm_telemetry_sample_t
pub record TelemetrySample : Type 0 where
  pub measurement : MeterSample
  pub sample_sequence : ℕ  -- uint64_t

-- pm_telemetry_slot_t; the counters are uint64_t.
pub record Slot : Type 0 where
  pub in_flight : TelemetrySample
  pub pending : TelemetrySample
  pub next_sequence : ℕ
  pub replaced_pending : ℕ
  pub failed_transmissions : ℕ
  pub in_flight_present : Bool
  pub pending_present : Bool

-- `memset(…, 0, …)`: the first enumerator of the status is `ok`.
abbrev pub zero_sample : TelemetrySample
zero_sample = record { measurement = blank_sample PzemStatus.ok; sample_sequence = 0 }

unfoldable pub slot_init : Slot
slot_init = record {
  in_flight = zero_sample;
  pending = zero_sample;
  next_sequence = 1;
  replaced_pending = 0;
  failed_transmissions = 0;
  in_flight_present = false;
  pending_present = false;
}

unfoldable pub offer : Slot → MeterSample → Slot × EspErr × Option ℕ
offer slot measurement =
    if slot.next_sequence == 0 || slot.next_sequence == uint64_max
    then (slot, invalid_arg, none)
    else (
      record slot {
        next_sequence = (slot.next_sequence + 1) % 2 ^ 64;
        replaced_pending =
            if slot.pending_present
            then (slot.replaced_pending + 1) % 2 ^ 64
            else slot.replaced_pending;
        pending = record { measurement = measurement; sample_sequence = slot.next_sequence };
        pending_present = true;
      },
      EspErr.ok,
      some slot.next_sequence,
    )

-- `some` sample is the result `true` with what the code writes to `*sample`.
unfoldable pub begin_send : Slot → Slot × Option TelemetrySample
begin_send slot = if slot.in_flight_present || not slot.pending_present then (slot, none) else (
  record slot {
    in_flight = slot.pending;
    in_flight_present = true;
    pending = zero_sample;
    pending_present = false;
  },
  some slot.pending,
)

unfoldable pub complete_send : Slot → ℕ → Bool → Slot × EspErr
complete_send slot sample_sequence accepted =
    if not slot.in_flight_present
      || sample_sequence == 0
      || not (slot.in_flight.sample_sequence == sample_sequence)
    then (slot, invalid_state)
    else (
      record slot {
        failed_transmissions =
            if not accepted
            then (slot.failed_transmissions + 1) % 2 ^ 64
            else slot.failed_transmissions;
        in_flight = zero_sample;
        in_flight_present = false;
      },
      EspErr.ok,
    )

unfoldable pub resident_samples : Slot → ℕ
resident_samples slot =
    (if slot.in_flight_present then 1 else 0) + (if slot.pending_present then 1 else 0)

-- pm_telemetry_backoff_t
pub record BackoffState : Type 0 where
  pub failures : ℕ  -- uint32_t
  pub next_attempt_us : ℤ

unfoldable pub backoff_reset : BackoffState → ℤ → BackoffState
backoff_reset backoff now_us = record { failures = 0; next_attempt_us = now_us }

-- The delay in milliseconds after a number of failures; `1000U << exponent` is a product.
unfoldable pub backoff_delay : ℕ → ℕ → ℕ
backoff_delay failures random_value =
    let exponent = if ltb 6 failures then 6 else failures in
    let base = 1000 * 2 ^ exponent in
    let capped = if ltb 60000 base then 60000 else base in
    let jitter_width = capped / 4 + 1 in
    let delay_ms = capped - capped / 8 + random_value % jitter_width in
    if ltb 60000 delay_ms then 60000 else delay_ms

unfoldable pub backoff_fail : BackoffState → ℤ → ℕ → BackoffState × ℕ
backoff_fail backoff now_us random_value =
    let delay_ms = backoff_delay backoff.failures random_value in
    (
      record backoff {
        failures =
            if not (backoff.failures == uint32_max) then backoff.failures + 1 else backoff.failures;
        next_attempt_us = now_us +ℤ pos (delay_ms * 1000);
      },
      delay_ms,
    )

unfoldable pub backoff_due : BackoffState → ℤ → Bool
backoff_due backoff now_us = leb_ℤ backoff.next_attempt_us now_us

-- Past the first two tests all three values are not negative, and C divides them as ℕ does.
unfoldable pub next_fixed_deadline : ℤ → ℤ → ℤ → ℤ
next_fixed_deadline previous_deadline_us now_us period_us =
    if ltb_ℤ previous_deadline_us (pos 0) || ltb_ℤ now_us (pos 0) || leb_ℤ period_us (pos 0)
    then now_us
    else if ltb_ℤ now_us previous_deadline_us
    then previous_deadline_us
    else let previous = pos_part previous_deadline_us in
      let period = pos_part period_us in
      let elapsed_us = pos_part now_us - previous in
      let periods = elapsed_us / period + 1 in
      if ltb ((int64_max - previous) / period) periods
      then pos int64_max
      else pos (previous + periods * period)
