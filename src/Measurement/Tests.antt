-- ===== src/Measurement/Tests.antt =====
-- A run of an interval, and the theorems about intervals at concrete inputs.
use power_monitor_sensor_hea.Base.{
  ℕ, ◌*◌, ◌<◌, ◌≡◌, refl, ◌⊎◌, arith, true, not, ◌&&◌, leb, ltb, some, List, [], ◌∷◌, length,
}
use power_monitor_sensor_hea.Base.Int.{pos}
use power_monitor_sensor_hea.Base.Bits.{digit}
use power_monitor_sensor_hea.Meter.{PzemStatus, MeterSample, blank_sample, sample_valid}
use power_monitor_sensor_hea.Measurement.{
  Accumulator, DurableInterval, sample_flags, interval_init, completeness, averaged, select_energy,
  interval_finalize,
}
use power_monitor_sensor_hea.Measurement.Reference.{add_all, usable}
use power_monitor_sensor_hea.Measurement.Average.{IsMean, interval_finalize_means}
use power_monitor_sensor_hea.Measurement.Energy.{Measured, Unmeasured, select_energy_sound}
use power_monitor_sensor_hea.Measurement.Flags.{raised, sample_flags-raised}

-- A reading of 230 V and 50 Hz.
abbrev reading : ℕ → ℕ → ℕ → MeterSample
reading current energy at = record (blank_sample PzemStatus.ok) {
  voltage_mv = pos 230000;
  current_ma = pos current;
  active_power_mw = pos 1200000;
  frequency_mhz = pos 50000;
  power_factor_milli = pos 970;
  energy_wh = energy;
  sample_monotonic_us = pos at;
}

-- The newest first; the second of them was a timeout.
abbrev readings : List MeterSample
readings =
    reading 6000 1010 20000000 ∷ blank_sample PzemStatus.timeout ∷ reading 5000 1000 10000000 ∷ []

two_usable : 0 < length (usable readings 100)
unfolding usable sample_valid
two_usable = omega arith

interval_finalize_means_example :
    (i : DurableInterval) × (interval_finalize (add_all (interval_init 3) readings 100) 20000
      ≡ (interval_init 3, some i))
    × IsMean i (usable readings 100)
interval_finalize_means_example =
    interval_finalize_means 3 readings 100 20000 (omega arith) (omega arith) two_usable

abbrev filled : Accumulator
filled = record {
  expected_samples = 3;
  valid_samples = 2;
  sum_voltage_mv = 460000;
  sum_current_ma = 11000;
  sum_power_mw = 2400000;
  sum_frequency_mhz = 100000;
  sum_pf_milli = 1940;
  first_energy_wh = 0xFFFFFFF0;
  last_energy_wh = 4;
  trapezoid_power_mw_ms = 0;
  interval_start_utc_ms = pos 0;
  interval_end_utc_ms = pos 0;
  interval_start_monotonic_us = pos 1;
  last_sample_monotonic_us = pos 9;
  last_power_mw = pos 0;
  flags = 0;
  have_energy = true;
}

-- The counter went over its end: 20 Wh.
rollover_counts : (select_energy filled (averaged filled) 100000).selected_energy_mwh ≡ 20000
unfolding select_energy averaged completeness
rollover_counts = refl

select_energy_sound_example :
    Measured filled 100000 (select_energy filled (averaged filled) 100000)
    ⊎ Unmeasured filled 100000 (select_energy filled (averaged filled) 100000)
select_energy_sound_example = select_energy_sound filled 100000 (omega arith) (omega arith)

sample_flags-raised_example :
    let s = reading 85000 0 0 in
    let after = sample_flags 2 s 100 in
    (digit 6 after ≡ raised (leb (900 * 100) 85000) (digit 6 2))
    × (digit 5 after ≡ raised (leb (800 * 100) 85000 && ltb 85000 (900 * 100)) (digit 5 2))
    × (digit 0 after ≡ raised (not s.time_trusted) (digit 0 2))
    × (digit 7 after ≡ raised s.simulated (digit 7 2))
    × (digit 1 after ≡ digit 1 2)
    × (digit 2 after ≡ digit 2 2)
    × (digit 3 after ≡ digit 3 2)
    × (digit 4 after ≡ digit 4 2)
sample_flags-raised_example =
    sample_flags-raised 2 100 85000 (reading 85000 0 0) (omega arith) (omega arith) refl
