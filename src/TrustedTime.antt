-- ===== src/TrustedTime.antt =====
-- The trusted clock: components/pm_protocol/pm_time.c, with pm_time_state_t of
-- include/pm_protocol.h.
-- Pointers are never NULL, and the arithmetic on int64_t is exact. What the write of a checkpoint to
-- the flash store answers is an argument here; Checkpoint has the write.
pub mod Monotone
pub mod Checkpoint
mod Slots
pub mod Reload
mod Tests
mod ReloadTests
use power_monitor_sensor_hea.Base.{
  ℕ, Bool, true, false, not, ◌&&◌, ◌||◌, ltb, if◌then◌else◌, Option, none, some,
}
use power_monitor_sensor_hea.Base.Int.{ℤ, pos, ◌+ℤ◌, ◌-ℤ◌, div_ℤ, ltb_ℤ}
use power_monitor_sensor_hea.Base.Esp.{EspErr, ok, invalid_arg, invalid_state}

-- pm_time_source_t, as its number.
abbrev pub untrusted : ℕ
untrusted = 0

abbrev pub persisted_checkpoint : ℕ
persisted_checkpoint = 1

abbrev pub sntp : ℕ
sntp = 2

abbrev pub server_corroborated : ℕ
server_corroborated = 3

-- pm_time_state_t
pub record TimeState : Type 0 where
  pub source : ℕ
  pub utc_checkpoint_ms : ℤ
  pub monotonic_checkpoint_us : ℤ
  pub last_returned_utc_ms : ℤ
  pub maximum_backward_step_ms : ℤ
  pub trusted : Bool

unfoldable pub time_init : ℤ → TimeState
time_init monotonic_us = record {
  source = untrusted;
  utc_checkpoint_ms = pos 0;
  monotonic_checkpoint_us = monotonic_us;
  last_returned_utc_ms = pos 0;
  maximum_backward_step_ms = pos 300000;
  trusted = false;
}

-- The time that the last checkpoint and the monotonic clock give.
abbrev pub projected : TimeState → ℤ → ℤ
projected state monotonic_us =
    state.utc_checkpoint_ms +ℤ div_ℤ (monotonic_us -ℤ state.monotonic_checkpoint_us) 1000

-- The guard on the source and on the range of the time.
abbrev pub refused : ℕ → ℤ → Bool
refused source utc_ms =
    ltb source sntp
    || ltb server_corroborated source
    || ltb_ℤ utc_ms (pos 1704067200000)
    || not (ltb_ℤ utc_ms (pos 4102444800000))

-- The guard on a step back from a time that is trusted.
abbrev pub steps_back : TimeState → ℤ → ℤ → Bool
steps_back state utc_ms monotonic_us =
    state.trusted && ltb_ℤ (utc_ms +ℤ state.maximum_backward_step_ms) (projected state monotonic_us)

abbrev pub observed_state : TimeState → ℕ → ℤ → ℤ → EspErr → TimeState × EspErr × Option ℤ
observed_state state source utc_ms monotonic_us persisted =
    let last =
      if ltb_ℤ state.last_returned_utc_ms utc_ms then utc_ms else state.last_returned_utc_ms in
    (
      record state {
        source = source;
        utc_checkpoint_ms = utc_ms;
        monotonic_checkpoint_us = monotonic_us;
        last_returned_utc_ms = last;
        trusted = true;
      },
      persisted,
      some last,
    )

-- The new state, the result, and the time that is given to the flash store, if any; `persisted` is
-- what the write of it answers.
unfoldable pub time_observe : TimeState → ℕ → ℤ → ℤ → EspErr → TimeState × EspErr × Option ℤ
time_observe state source utc_ms monotonic_us persisted =
    if refused source utc_ms
    then (state, invalid_arg, none)
    else if steps_back state utc_ms monotonic_us
    then (state, invalid_state, none)
    else observed_state state source utc_ms monotonic_us persisted

-- The new state and the time, where the result is true.
unfoldable pub time_now : TimeState → ℤ → TimeState × Option ℤ
time_now state monotonic_us =
    if not state.trusted || ltb_ℤ monotonic_us state.monotonic_checkpoint_us
    then (state, none)
    else (let time = projected state monotonic_us in
        let returned =
          if ltb_ℤ time state.last_returned_utc_ms then state.last_returned_utc_ms else time in
        (record state { last_returned_utc_ms = returned }, some returned))
