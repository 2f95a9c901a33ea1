-- ===== src/Measurement/Average.antt =====
-- The averages of an interval.
use power_monitor_sensor_hea.Base.{
  ℕ, ◌*◌, ◌/◌, ◌%◌, ◌^◌, ◌≤◌, ◌<◌, ◌≡◌, refl, ◌∙◌, arith, List, [], ◌∷◌, length, IsU16, some,
}
use power_monitor_sensor_hea.Base.Int.{ℤ, pos}
use power_monitor_sensor_hea.Meter.{MeterSample, to_int32}
use power_monitor_sensor_hea.Measurement.{
  Accumulator, interval_init, interval_add, interval_finalize, accumulate, begin_or_integrate,
  averaged, select_energy, DurableInterval, completeness,
}
use power_monitor_sensor_hea.Measurement.Reference.{add_all, usable, total}
use native.Mathlib.Nat.{div-add-mod}
use power_monitor_sensor_hea.Measurement.Sums.{Holds, add_all-Holds}

-- The reference: the mean of a field over the samples that counted, rounded down.
abbrev pub mean : (MeterSample → ℤ) → List MeterSample → ℤ
mean field used = pos (total field used / length used)

div-le_of_le-mul : (sum n bound : ℕ) → 0 < n → sum ≤ bound * n → sum / n ≤ bound
div-le_of_le-mul sum n bound hn h = grind (arith, div-add-mod sum n)

to_int32-mean :
    (sum n bound : ℕ)
    → 0 < n
    → sum ≤ bound * n
    → bound < 2 ^ 31
    → to_int32 (sum / n % 2 ^ 32) ≡ pos (sum / n)
to_int32-mean sum n bound hn h hb = ground (arith, div-le_of_le-mul sum n bound hn h)

-- Nothing but the energy and the flags of an interval depends on the selection.
record SameReadings (i j : DurableInterval) : Type 0 where
  voltage : i.voltage_mv ≡ j.voltage_mv
  current : i.current_ma ≡ j.current_ma
  power : i.active_power_mw ≡ j.active_power_mw
  frequency : i.frequency_mhz ≡ j.frequency_mhz
  factor : i.power_factor_milli ≡ j.power_factor_milli
  count : i.sample_count ≡ j.sample_count
  complete : i.completeness_permille ≡ j.completeness_permille

select_energy-SameReadings :
    (a : Accumulator) (i : DurableInterval) (maximum : ℕ)
    → SameReadings (select_energy a i maximum) i
unfolding select_energy
select_energy-SameReadings a i maximum = ground arith

interval_add_expected :
    (a : Accumulator) (s : MeterSample) (ct : ℕ)
    → (interval_add a s ct).0.expected_samples ≡ a.expected_samples
unfolding interval_add accumulate begin_or_integrate
interval_add_expected a s ct = ground arith

add_all_expected :
    (expected : ℕ) (samples : List MeterSample) (ct : ℕ)
    → (add_all (interval_init expected) samples ct).expected_samples ≡ expected
unfolding add_all interval_init
add_all_expected expected [] ct = refl
add_all_expected expected (s ∷ older) ct =
    interval_add_expected _ s ct ∙ add_all_expected expected older ct

completeness-le : (count expected : ℕ) → completeness count expected ≤ 1000
unfolding completeness
completeness-le count expected = ground arith

-- The readings of an interval against the reference.
pub record IsMean (i : DurableInterval) (used : List MeterSample) : Type 0 where
  pub voltage : i.voltage_mv ≡ mean (λ s. s.voltage_mv) used
  pub current : i.current_ma ≡ mean (λ s. s.current_ma) used
  pub power : i.active_power_mw ≡ mean (λ s. s.active_power_mw) used
  pub frequency : i.frequency_mhz ≡ mean (λ s. s.frequency_mhz) used
  pub factor : i.power_factor_milli ≡ mean (λ s. s.power_factor_milli) used
  pub count : i.sample_count ≡ length used
  pub complete : i.completeness_permille ≤ 1000

averaged-IsMean :
    (a : Accumulator) (used : List MeterSample)
    → 0 < length used
    → Holds a used
    → IsMean (averaged a) used
unfolding averaged
averaged-IsMean a used hn h = rw (h.count) (record {
  voltage = to_int32-mean _ _ _ hn h.voltage_bound (omega arith) ∙ rw (h.voltage);
  current = to_int32-mean _ _ _ hn h.current_bound (omega arith) ∙ rw (h.current);
  power = to_int32-mean _ _ _ hn h.power_bound (omega arith) ∙ rw (h.power);
  frequency = to_int32-mean _ _ _ hn h.frequency_bound (omega arith) ∙ rw (h.frequency);
  factor = to_int32-mean _ _ _ hn h.factor_bound (omega arith) ∙ rw (h.factor);
  count = refl;
  complete = completeness-le _ _;
})

-- An interval that was given samples, the newest first, and at least one that is in order and in
-- range, yields the means of those samples and their number, and starts anew. No sum wraps.
pub interval_finalize_means :
    (expected : ℕ) (samples : List MeterSample) (ct maximum : ℕ)
    → IsU16 ct
    → length samples < 2 ^ 32
    → 0 < length (usable samples ct)
    → (i : DurableInterval) × (interval_finalize
          (add_all (interval_init expected) samples ct)
          maximum
        ≡ (interval_init expected, some i))
      × IsMean i (usable samples ct)
unfolding interval_finalize
interval_finalize_means expected samples ct maximum hc few some_used =
    let a = add_all (interval_init expected) samples ct in
    let h = add_all-Holds expected samples ct hc few in
    let i = select_energy a (averaged a) maximum in
    let same = select_energy-SameReadings a (averaged a) maximum in
    let m = averaged-IsMean a (usable samples ct) some_used h in
    (
      i,
      ground (arith, h.count, add_all_expected expected samples ct),
      record {
        voltage = same.voltage ∙ m.voltage;
        current = same.current ∙ m.current;
        power = same.power ∙ m.power;
        frequency = same.frequency ∙ m.frequency;
        factor = same.factor ∙ m.factor;
        count = same.count ∙ m.count;
        complete = rw (same.complete) (m.complete);
      },
    )
