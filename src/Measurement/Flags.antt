-- ===== src/Measurement/Flags.antt =====
-- The flags that a sample leaves in its interval, each read as a binary digit.
use Prim.Native.Nat.{bit_or}
use power_monitor_sensor_hea.Base.{
  ℕ, ◌*◌, ◌≡◌, refl, arith, Bool, true, false, not, ◌&&◌, leb, ltb, if◌then◌else◌, IsU16, IsU32,
}
use power_monitor_sensor_hea.Base.Int.{pos}
use power_monitor_sensor_hea.Base.Bits.{digit, digit-bit_or, digit-le}
use power_monitor_sensor_hea.Meter.{MeterSample}
use power_monitor_sensor_hea.Measurement.{
  sample_flags, flag_time_untrusted, flag_simulated, flag_ct_critical_90, flag_ct_warning_80,
}

-- The digit of a flag that is raised where a test passes, and otherwise kept.
abbrev pub raised : Bool → ℕ → ℕ
raised b old = if b then 1 else old

-- Raising a flag makes its digit 1, and keeps the digit of each other flag.
digit-raised :
    (k flags flag : ℕ) (b : Bool)
    → digit k flag ≡ 1
    → digit k (if b then bit_or flags flag else flags) ≡ raised b (digit k flags)
digit-raised k flags flag true e = omega (arith, digit-bit_or k flags flag, digit-le k flags)
digit-raised k flags flag false e = refl

digit_kept :
    (k flags flag : ℕ) (b : Bool)
    → digit k flag ≡ 0
    → digit k (if b then bit_or flags flag else flags) ≡ digit k flags
digit_kept k flags flag true e = omega (arith, digit-bit_or k flags flag)
digit_kept k flags flag false e = refl

-- The flags of the current: at most one of the two is raised.
current_flags :
    (flags : ℕ) (critical warning : Bool)
    → let after =
        (if critical
          then bit_or flags flag_ct_critical_90
          else if warning
          then bit_or flags flag_ct_warning_80
          else flags) in
      (digit 6 after ≡ raised critical (digit 6 flags))
      × (digit 5 after ≡ raised (not critical && warning) (digit 5 flags))
      × (digit 0 after ≡ digit 0 flags)
      × (digit 7 after ≡ digit 7 flags)
      × (digit 1 after ≡ digit 1 flags)
      × (digit 2 after ≡ digit 2 flags)
      × (digit 3 after ≡ digit 3 flags)
      × (digit 4 after ≡ digit 4 flags)
current_flags flags true w = (
  digit-raised 6 flags flag_ct_critical_90 true (unfold digit in refl),
  digit_kept 5 flags flag_ct_critical_90 true (unfold digit in refl),
  digit_kept 0 flags flag_ct_critical_90 true (unfold digit in refl),
  digit_kept 7 flags flag_ct_critical_90 true (unfold digit in refl),
  digit_kept 1 flags flag_ct_critical_90 true (unfold digit in refl),
  digit_kept 2 flags flag_ct_critical_90 true (unfold digit in refl),
  digit_kept 3 flags flag_ct_critical_90 true (unfold digit in refl),
  digit_kept 4 flags flag_ct_critical_90 true (unfold digit in refl),
)
current_flags flags false w = (
  digit_kept 6 flags flag_ct_warning_80 w (unfold digit in refl),
  digit-raised 5 flags flag_ct_warning_80 w (unfold digit in refl),
  digit_kept 0 flags flag_ct_warning_80 w (unfold digit in refl),
  digit_kept 7 flags flag_ct_warning_80 w (unfold digit in refl),
  digit_kept 1 flags flag_ct_warning_80 w (unfold digit in refl),
  digit_kept 2 flags flag_ct_warning_80 w (unfold digit in refl),
  digit_kept 3 flags flag_ct_warning_80 w (unfold digit in refl),
  digit_kept 4 flags flag_ct_warning_80 w (unfold digit in refl),
)

-- A valid sample of current `current_ma` in a transformer rated at `ct` amperes raises the critical
-- flag from 90 per cent of the rating on, and the warning flag from 80 to below 90 per cent. It
-- raises the two flags of an untrusted time and of a simulation where they apply. It changes none of
-- the other four flags, and what was raised stays raised.
pub sample_flags-raised :
    (flags ct current : ℕ) (s : MeterSample)
    → IsU16 ct
    → IsU32 current
    → s.current_ma ≡ pos current
    → let after = sample_flags flags s ct in
      (digit 6 after ≡ raised (leb (900 * ct) current) (digit 6 flags))
      × (digit 5 after ≡ raised (leb (800 * ct) current && ltb current (900 * ct)) (digit 5 flags))
      × (digit 0 after ≡ raised (not s.time_trusted) (digit 0 flags))
      × (digit 7 after ≡ raised s.simulated (digit 7 flags))
      × (digit 1 after ≡ digit 1 flags)
      × (digit 2 after ≡ digit 2 flags)
      × (digit 3 after ≡ digit 3 flags)
      × (digit 4 after ≡ digit 4 flags)
unfolding sample_flags
sample_flags-raised flags ct current s hc hu e =
    let u = if not s.time_trusted then bit_or flags flag_time_untrusted else flags in
    let m = if s.simulated then bit_or u flag_simulated else u in
    let c = current_flags m (leb (900 * ct) current) (leb (800 * ct) current) in
    ground (
      arith,
      c,
      digit_kept 6 u flag_simulated s.simulated (unfold digit in refl),
      digit_kept 6 flags flag_time_untrusted (not s.time_trusted) (unfold digit in refl),
      digit_kept 5 u flag_simulated s.simulated (unfold digit in refl),
      digit_kept 5 flags flag_time_untrusted (not s.time_trusted) (unfold digit in refl),
      digit_kept 0 u flag_simulated s.simulated (unfold digit in refl),
      digit-raised 0 flags flag_time_untrusted (not s.time_trusted) (unfold digit in refl),
      digit-raised 7 u flag_simulated s.simulated (unfold digit in refl),
      digit_kept 7 flags flag_time_untrusted (not s.time_trusted) (unfold digit in refl),
      digit_kept 1 u flag_simulated s.simulated (unfold digit in refl),
      digit_kept 1 flags flag_time_untrusted (not s.time_trusted) (unfold digit in refl),
      digit_kept 2 u flag_simulated s.simulated (unfold digit in refl),
      digit_kept 2 flags flag_time_untrusted (not s.time_trusted) (unfold digit in refl),
      digit_kept 3 u flag_simulated s.simulated (unfold digit in refl),
      digit_kept 3 flags flag_time_untrusted (not s.time_trusted) (unfold digit in refl),
      digit_kept 4 u flag_simulated s.simulated (unfold digit in refl),
      digit_kept 4 flags flag_time_untrusted (not s.time_trusted) (unfold digit in refl),
    )
