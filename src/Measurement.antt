-- ===== src/Measurement.antt =====
-- The measurement interval: components/pm_measurement/pm_measurement.c and include/pm_measurement.h.
-- Pointers are never NULL. An int32_t or int64_t is an integer; sums of them are taken exactly, and
-- the casts to unsigned types and the unsigned arithmetic wrap.
pub mod Reference
pub mod Sums
pub mod Average
pub mod Energy
pub mod Flags
mod Tests
use Prim.Native.Nat.{bit_or}
use power_monitor_sensor_hea.Base.{
  ℕ, suc, ◌+◌, ◌-◌, ◌*◌, ◌/◌, ◌%◌, ◌^◌, Bool, true, false, not, ◌&&◌, ◌||◌, ◌==◌, ltb, leb,
  if◌then◌else◌, Option, none, some, List, [], ◌∷◌,
}
use power_monitor_sensor_hea.Base.Int.{ℤ, pos, negsuc, ◌+ℤ◌, ◌-ℤ◌, leb_ℤ, ltb_ℤ}
use power_monitor_sensor_hea.Meter.{MeterSample, PzemStatus, sample_valid, to_int32}

-- pm_energy_source_t
pub data EnergySource : Type 0 where
  energy_none pzem_delta power_diagnostic : EnergySource

-- pm_interval_flag_t
abbrev pub flag_time_untrusted : ℕ
flag_time_untrusted = 1

abbrev pub flag_missing_sample : ℕ
flag_missing_sample = 2

abbrev pub flag_pzem_reset : ℕ
flag_pzem_reset = 4

abbrev pub flag_pzem_rollover : ℕ
flag_pzem_rollover = 8

abbrev pub flag_implausible_jump : ℕ
flag_implausible_jump = 16

abbrev pub flag_ct_warning_80 : ℕ
flag_ct_warning_80 = 32

abbrev pub flag_ct_critical_90 : ℕ
flag_ct_critical_90 = 64

abbrev pub flag_simulated : ℕ
flag_simulated = 128

-- pm_interval_accumulator_t
pub record Accumulator : Type 0 where
  pub expected_samples : ℕ  -- uint32_t
  pub valid_samples : ℕ  -- uint32_t
  pub sum_voltage_mv : ℕ  -- uint64_t, as the sums below
  pub sum_current_ma : ℕ
  pub sum_power_mw : ℕ
  pub sum_frequency_mhz : ℕ
  pub sum_pf_milli : ℕ
  pub first_energy_wh : ℕ
  pub last_energy_wh : ℕ
  pub trapezoid_power_mw_ms : ℕ
  pub interval_start_utc_ms : ℤ
  pub interval_end_utc_ms : ℤ
  pub interval_start_monotonic_us : ℤ
  pub last_sample_monotonic_us : ℤ
  pub last_power_mw : ℤ
  pub flags : ℕ  -- uint32_t
  pub have_energy : Bool

-- pm_durable_interval_t
pub record DurableInterval : Type 0 where
  pub voltage_mv : ℤ
  pub current_ma : ℤ
  pub active_power_mw : ℤ
  pub frequency_mhz : ℤ
  pub power_factor_milli : ℤ
  pub pzem_energy_start_wh : ℕ
  pub pzem_energy_end_wh : ℕ
  pub selected_energy_mwh : ℕ
  pub diagnostic_energy_mwh : ℕ
  pub sample_count : ℕ
  pub expected_samples : ℕ
  pub completeness_permille : ℕ
  pub selected_energy_source : EnergySource
  pub flags : ℕ
  pub start_utc_ms : ℤ
  pub end_utc_ms : ℤ
  pub start_monotonic_us : ℤ
  pub end_monotonic_us : ℤ

unfoldable pub interval_init : ℕ → Accumulator
interval_init expected = record {
  expected_samples = expected;
  valid_samples = 0;
  sum_voltage_mv = 0;
  sum_current_ma = 0;
  sum_power_mw = 0;
  sum_frequency_mhz = 0;
  sum_pf_milli = 0;
  first_energy_wh = 0;
  last_energy_wh = 0;
  trapezoid_power_mw_ms = 0;
  interval_start_utc_ms = pos 0;
  interval_end_utc_ms = pos 0;
  interval_start_monotonic_us = pos 0;
  last_sample_monotonic_us = pos 0;
  last_power_mw = pos 0;
  flags = 0;
  have_energy = false;
}

-- `(uint32_t)value` and `(uint64_t)value`
abbrev pub to_uint32 : ℤ → ℕ
to_uint32 (pos n) = n % 2 ^ 32
to_uint32 (negsuc n) = 2 ^ 32 - 1 - n % 2 ^ 32

abbrev pub to_uint64 : ℤ → ℕ
to_uint64 (pos n) = n % 2 ^ 64
to_uint64 (negsuc n) = 2 ^ 64 - 1 - n % 2 ^ 64

-- What an elapsed time adds to the integral of the power.
unfoldable pub trapezoid : ℤ → ℤ → ℤ → ℕ
trapezoid elapsed_us last_power_mw active_power_mw =
    if ltb_ℤ (pos 0) elapsed_us && leb_ℤ elapsed_us (pos 60000000)
    then (let mean_power_mw = to_uint64 (last_power_mw +ℤ active_power_mw) / 2 in
        mean_power_mw * to_uint64 elapsed_us % 2 ^ 64 / 1000)
    else 0

-- The first valid sample of an interval, and any later one: energies, times and the integral.
unfoldable pub begin_or_integrate : Accumulator → MeterSample → Accumulator
begin_or_integrate a s =
    if a.valid_samples == 0
    then record a {
      first_energy_wh = s.energy_wh;
      interval_start_utc_ms = s.sample_timestamp_utc_ms;
      interval_start_monotonic_us = s.sample_monotonic_us;
      last_sample_monotonic_us = s.sample_monotonic_us;
      last_power_mw = s.active_power_mw;
      have_energy = true;
    }
    else record a {
      trapezoid_power_mw_ms =
          (a.trapezoid_power_mw_ms
            + trapezoid (s.sample_monotonic_us -ℤ a.last_sample_monotonic_us) a.last_power_mw
                s.active_power_mw)
          % 2 ^ 64;
      last_sample_monotonic_us = s.sample_monotonic_us;
      last_power_mw = s.active_power_mw;
    }

-- The flags after a valid sample.
unfoldable pub sample_flags : ℕ → MeterSample → ℕ → ℕ
sample_flags flags s ct_rating_a =
    let untrusted = if not s.time_trusted then bit_or flags flag_time_untrusted else flags in
    let simulated = if s.simulated then bit_or untrusted flag_simulated else untrusted in
    let current_ma = to_uint32 s.current_ma in
    let rated_ma = ct_rating_a * 1000 % 2 ^ 32 in
    if leb (rated_ma * 9 % 2 ^ 32 / 10) current_ma
    then bit_or simulated flag_ct_critical_90
    else if leb (rated_ma * 8 % 2 ^ 32 / 10) current_ma
    then bit_or simulated flag_ct_warning_80
    else simulated

-- The sums of a valid sample.
unfoldable pub accumulate : Accumulator → MeterSample → ℕ → Accumulator
accumulate a s ct_rating_a = record a {
  last_energy_wh = s.energy_wh;
  interval_end_utc_ms = s.sample_timestamp_utc_ms;
  sum_voltage_mv = (a.sum_voltage_mv + to_uint32 s.voltage_mv) % 2 ^ 64;
  sum_current_ma = (a.sum_current_ma + to_uint32 s.current_ma) % 2 ^ 64;
  sum_power_mw = (a.sum_power_mw + to_uint32 s.active_power_mw) % 2 ^ 64;
  sum_frequency_mhz = (a.sum_frequency_mhz + to_uint32 s.frequency_mhz) % 2 ^ 64;
  sum_pf_milli = (a.sum_pf_milli + to_uint32 s.power_factor_milli) % 2 ^ 64;
  valid_samples = (a.valid_samples + 1) % 2 ^ 32;
  flags = sample_flags a.flags s ct_rating_a;
}

-- `sample->status != PM_PZEM_OK`
abbrev pub status_ok : PzemStatus → Bool
status_ok PzemStatus.ok = true
status_ok _ = false

unfoldable pub interval_add : Accumulator → MeterSample → ℕ → Accumulator × Bool
interval_add a s ct_rating_a =
    if not (status_ok s.status) || not (sample_valid s ct_rating_a)
    then (record a { flags = bit_or a.flags flag_missing_sample }, false)
    else (accumulate (begin_or_integrate a s) s ct_rating_a, true)

-- `count * 1000 / (expected == 0 ? count : expected)`, at most 1000.
unfoldable pub completeness : ℕ → ℕ → ℕ
completeness count expected =
    let permille = count * 1000 / (if expected == 0 then count else expected) in
    if ltb 1000 permille then 1000 else permille

-- The interval before its energy is selected.
unfoldable pub averaged : Accumulator → DurableInterval
averaged a = record {
  voltage_mv = to_int32 (a.sum_voltage_mv / a.valid_samples % 2 ^ 32);
  current_ma = to_int32 (a.sum_current_ma / a.valid_samples % 2 ^ 32);
  active_power_mw = to_int32 (a.sum_power_mw / a.valid_samples % 2 ^ 32);
  frequency_mhz = to_int32 (a.sum_frequency_mhz / a.valid_samples % 2 ^ 32);
  power_factor_milli = to_int32 (a.sum_pf_milli / a.valid_samples % 2 ^ 32);
  pzem_energy_start_wh = a.first_energy_wh;
  pzem_energy_end_wh = a.last_energy_wh;
  selected_energy_mwh = 0;
  diagnostic_energy_mwh = a.trapezoid_power_mw_ms / 3600000;
  sample_count = a.valid_samples;
  expected_samples = a.expected_samples;
  completeness_permille = completeness a.valid_samples a.expected_samples;
  selected_energy_source = energy_none;
  flags = a.flags;
  start_utc_ms = a.interval_start_utc_ms;
  end_utc_ms = a.interval_end_utc_ms;
  start_monotonic_us = a.interval_start_monotonic_us;
  end_monotonic_us = a.last_sample_monotonic_us;
}

abbrev pub add_flag : DurableInterval → ℕ → DurableInterval
add_flag i flag = record i { flags = bit_or i.flags flag }

-- The selection of the energy, from the meter's counter alone.
unfoldable pub select_energy : Accumulator → DurableInterval → ℕ → DurableInterval
select_energy a i maximum_plausible_mwh =
    if not (leb 2 a.valid_samples && ltb_ℤ a.interval_start_monotonic_us a.last_sample_monotonic_us)
    then add_flag i flag_missing_sample
    else if leb a.first_energy_wh a.last_energy_wh
    then (let delta_mwh = (a.last_energy_wh - a.first_energy_wh) * 1000 % 2 ^ 64 in
        if leb delta_mwh maximum_plausible_mwh
        then record i { selected_energy_mwh = delta_mwh; selected_energy_source = pzem_delta }
        else add_flag i flag_implausible_jump)
    else if ltb 0xF0000000 a.first_energy_wh && ltb a.last_energy_wh 0x0FFFFFFF
    then (let delta_wh = (2 ^ 32 + 2 ^ 64 - a.first_energy_wh + a.last_energy_wh) % 2 ^ 64 in
        let i' = add_flag i flag_pzem_rollover in
        if leb (delta_wh * 1000 % 2 ^ 64) maximum_plausible_mwh
        then record i' {
          selected_energy_mwh = delta_wh * 1000 % 2 ^ 64;
          selected_energy_source = pzem_delta;
        }
        else i')
    else add_flag i flag_pzem_reset

-- The new accumulator, and the interval where the result is `true`.
unfoldable pub interval_finalize : Accumulator → ℕ → Accumulator × Option DurableInterval
interval_finalize a maximum_plausible_mwh = if a.valid_samples == 0 then (a, none) else (
  interval_init a.expected_samples,
  some (select_energy a (averaged a) maximum_plausible_mwh),
)
