-- ===== src/Measurement/Sums.antt =====
-- The sums of an interval are those of the samples that counted.
use Prim.Native.Nat.{bit_or}
use power_monitor_sensor_hea.Base.{
  ◌⊎◌, ℕ, suc, ◌+◌, ◌*◌, ◌%◌, ◌^◌, ◌≤◌, ◌<◌, ◌≡◌, arith, true, false, ◌&&◌, List, [], ◌∷◌, length,
  inl, inr, IsU16,
}
use power_monitor_sensor_hea.Base.Int.{ℤ, pos, negsuc, ◌≤ℤ◌, pos_part}
use power_monitor_sensor_hea.Meter.{MeterSample, sample_valid}
use power_monitor_sensor_hea.Meter.Frame.{InRange, sample_valid-InRange}
use power_monitor_sensor_hea.Measurement.{
  Accumulator, interval_init, interval_add, accumulate, begin_or_integrate, status_ok, to_uint32,
  flag_missing_sample,
}
use power_monitor_sensor_hea.Measurement.Reference.{add_all, usable, total}

-- What the accumulator holds of the samples that counted; no sum has wrapped.
pub record Holds (a : Accumulator) (used : List MeterSample) : Type 0 where
  pub count : a.valid_samples ≡ length used
  pub voltage : a.sum_voltage_mv ≡ total (λ s. s.voltage_mv) used
  pub current : a.sum_current_ma ≡ total (λ s. s.current_ma) used
  pub power : a.sum_power_mw ≡ total (λ s. s.active_power_mw) used
  pub frequency : a.sum_frequency_mhz ≡ total (λ s. s.frequency_mhz) used
  pub factor : a.sum_pf_milli ≡ total (λ s. s.power_factor_milli) used
  pub voltage_bound : a.sum_voltage_mv ≤ 300000 * length used
  pub current_bound : a.sum_current_ma ≤ 72088500 * length used
  pub power_bound : a.sum_power_mw ≤ 30000000 * length used
  pub frequency_bound : a.sum_frequency_mhz ≤ 70000 * length used
  pub factor_bound : a.sum_pf_milli ≤ 1000 * length used

-- One more value of a field goes into its sum without wrapping.
add_value :
    (v : ℤ) (sum bound n : ℕ)
    → pos 0 ≤ℤ v
    → v ≤ℤ pos bound
    → bound < 2 ^ 32
    → sum ≤ bound * n
    → bound * n + bound < 2 ^ 64
    → ((sum + to_uint32 v) % 2 ^ 64 ≡ sum + pos_part v) × (sum + pos_part v ≤ bound * suc n)
add_value (pos v) sum bound n lo hi b h fits = (omega arith, omega arith)
add_value (negsuc v) sum bound n lo hi b h fits = absurd (omega arith)

begin-Holds :
    (a : Accumulator) (s : MeterSample) (used : List MeterSample)
    → Holds a used
    → Holds (begin_or_integrate a s) used
unfolding begin_or_integrate
begin-Holds a s used h = ground arith

accumulate-Holds :
    (a : Accumulator) (s : MeterSample) (ct : ℕ) (used : List MeterSample)
    → IsU16 ct
    → InRange s ct
    → length used + 1 < 2 ^ 32
    → Holds a used
    → Holds (accumulate a s ct) (s ∷ used)
unfolding accumulate total
accumulate-Holds a s ct used hc r few h =
    let n = length used in
    let v =
      add_value s.voltage_mv a.sum_voltage_mv 300000 n r.voltage_low r.voltage_high (omega arith)
        h.voltage_bound (omega arith) in
    let c =
      add_value s.current_ma a.sum_current_ma 72088500 n r.current_low
        (omega (arith, r.current_high)) (omega arith) h.current_bound (omega arith) in
    let p =
      add_value s.active_power_mw a.sum_power_mw 30000000 n r.power_low r.power_high (omega arith)
        h.power_bound (omega arith) in
    let f =
      add_value s.frequency_mhz a.sum_frequency_mhz 70000 n (omega (arith, r.frequency_low))
        r.frequency_high (omega arith) h.frequency_bound (omega arith) in
    let q =
      add_value s.power_factor_milli a.sum_pf_milli 1000 n r.factor_low r.factor_high (omega arith)
        h.factor_bound (omega arith) in
    record {
      count = omega (arith, h.count);
      voltage = omega (arith, v, h.voltage);
      current = omega (arith, c, h.current);
      power = omega (arith, p, h.power);
      frequency = omega (arith, f, h.frequency);
      factor = omega (arith, q, h.factor);
      voltage_bound = rw (v.0) (v.1);
      current_bound = rw (c.0) (c.1);
      power_bound = rw (p.0) (p.1);
      frequency_bound = rw (f.0) (f.1);
      factor_bound = rw (q.0) (q.1);
    }

length-usable : (samples : List MeterSample) (ct : ℕ) → length (usable samples ct) ≤ length samples
unfolding usable
length-usable [] ct = omega arith
length-usable (s ∷ older) ct = ground (arith, length-usable older ct)

refused-Holds :
    (a : Accumulator) (flags : ℕ) (used : List MeterSample)
    → Holds a used
    → Holds (record a { flags = flags }) used
refused-Holds a flags used h = record {
  count = h.count;
  voltage = h.voltage;
  current = h.current;
  power = h.power;
  frequency = h.frequency;
  factor = h.factor;
  voltage_bound = h.voltage_bound;
  current_bound = h.current_bound;
  power_bound = h.power_bound;
  frequency_bound = h.frequency_bound;
  factor_bound = h.factor_bound;
}

-- A sample is added if it is in order and in range, and otherwise leaves a flag.
pub interval_add_cases :
    (a : Accumulator) (s : MeterSample) (ct : ℕ)
    → ((status_ok s.status && sample_valid s ct ≡ true)
        × ((interval_add a s ct).0 ≡ accumulate (begin_or_integrate a s) s ct))
      ⊎ ((status_ok s.status && sample_valid s ct ≡ false)
          × ((interval_add a s ct).0 ≡ record a { flags = bit_or a.flags flag_missing_sample }))
unfolding interval_add
interval_add_cases a s ct = ground arith

pub add_all-Holds :
    (expected : ℕ) (samples : List MeterSample) (ct : ℕ)
    → IsU16 ct
    → length samples < 2 ^ 32
    → Holds (add_all (interval_init expected) samples ct) (usable samples ct)
unfolding add_all usable
add_all-Holds expected [] ct hc few = unfold interval_init total in ground arith
add_all-Holds expected (s ∷ older) ct hc few =
    let a = add_all (interval_init expected) older ct in
    let h : Holds a (usable older ct) = add_all-Holds expected older ct hc (omega arith) in
    elim (interval_add_cases a s ct) [
      | inl (good, e) ↦
          rw (good, e)
            (accumulate-Holds _ s ct _ hc (sample_valid-InRange s ct (ground arith))
              (omega (arith, length-usable older ct)) (begin-Holds a s _ h))
      | inr (bad, e) ↦ rw (bad, e) (refused-Holds a _ _ h)
    ]
