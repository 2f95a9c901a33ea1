-- ===== src/Meter/Frame.antt =====
-- What the parser makes of a frame.
use power_monitor_sensor_hea.Base.{
  ◌⊎◌, ℕ, ◌-◌, ◌*◌, ◌%◌, ◌^◌, ◌≤◌, ◌<◌, ◌≡◌, ◌≢◌, refl, sym, ◌∙◌, ap, arith, true, false, ltb, not,
  ◌||◌, ◌==◌, if◌then◌else◌, Bool-cases, inl, inr, List, length, get_or, take, ==_iff,
}
use power_monitor_sensor_hea.Base.Int.{ℤ, pos, negsuc, ◌≤ℤ◌}
use power_monitor_sensor_hea.Meter.{
  PzemStatus, MeterSample, blank_sample, modbus_crc16, sample_valid, low_high_words, to_int32,
  decode_frame, received_crc, parse_response,
}

-- The ranges that the meter is specified for, with a transformer of `ct_rating_a` amperes.
pub record InRange (s : MeterSample) (ct_rating_a : ℕ) : Type 0 where
  pub rated : 0 < ct_rating_a
  pub voltage_low : pos 0 ≤ℤ s.voltage_mv
  pub voltage_high : s.voltage_mv ≤ℤ pos 300000
  pub current_low : pos 0 ≤ℤ s.current_ma
  pub current_high : s.current_ma ≤ℤ pos (ct_rating_a * 1100)
  pub power_low : pos 0 ≤ℤ s.active_power_mw
  pub power_high : s.active_power_mw ≤ℤ pos 30000000
  pub frequency_low : pos 40000 ≤ℤ s.frequency_mhz
  pub frequency_high : s.frequency_mhz ≤ℤ pos 70000
  pub factor_low : pos 0 ≤ℤ s.power_factor_milli
  pub factor_high : s.power_factor_milli ≤ℤ pos 1000

-- The test of the code decides the ranges.
pub sample_valid-InRange : (s : MeterSample) (ct : ℕ) → sample_valid s ct ≡ true → InRange s ct
unfolding sample_valid
sample_valid-InRange s ct h = ground arith

pub InRange-sample_valid : (s : MeterSample) (ct : ℕ) → InRange s ct → sample_valid s ct ≡ true
unfolding sample_valid
InRange-sample_valid s ct h = ground arith

-- What makes a frame the answer of the meter at the address `slave`.
pub record IsGenuine (slave : ℕ) (frame : List ℕ) : Type 0 where
  pub size : length frame ≡ 25
  pub checked : modbus_crc16 (take 23 frame) ≡ received_crc frame
  pub from_slave : get_or frame 0 0 ≡ slave
  pub function : get_or frame 1 0 ≡ 4
  pub count : get_or frame 2 0 ≡ 20

-- 100 times the power register, an int32_t, fits an int32_t, as C demands of the product.
abbrev pub PowerFits : List ℕ → Type 0
PowerFits frame =
    let r = low_high_words frame 9 in (r ≤ 21474836) ⊎ ((2 ^ 32 - 21474836 ≤ r) × (r < 2 ^ 32))

-- 100 times a word that is read as an int32_t.
abbrev pub hundredfold : ℕ → ℤ
hundredfold r = if ltb r (2 ^ 31) then pos (r * 100) else negsuc ((2 ^ 32 - r) * 100 - 1)

scaled :
    (r : ℕ)
    → (r ≤ 21474836) ⊎ ((2 ^ 32 - 21474836 ≤ r) × (r < 2 ^ 32))
    → to_int32 (r * 100 % 2 ^ 32) ≡ hundredfold r
scaled r (inl low) =
    let fits : r * 100 % 2 ^ 32 ≡ r * 100 = omega arith in
    let small : ltb r (2 ^ 31) ≡ true = ground arith in
    let small2 : ltb (r * 100) (2 ^ 31) ≡ true = ground arith in rw (fits, small, small2) refl
scaled r (inr (high, top)) =
    let wraps : r * 100 % 2 ^ 32 ≡ 2 ^ 32 - (2 ^ 32 - r) * 100 = omega arith in
    let big : ltb r (2 ^ 31) ≡ false = ground arith in
    let big2 : ltb (2 ^ 32 - (2 ^ 32 - r) * 100) (2 ^ 31) ≡ false = ground arith in
    rw (wraps, big, big2) (ap negsuc (omega arith))

power_exact :
    (frame : List ℕ)
    → PowerFits frame
    → (decode_frame frame).active_power_mw ≡ hundredfold (low_high_words frame 9)
unfolding decode_frame
power_exact frame h = let r = low_high_words frame 9 in scaled r h

abbrev pub Rejected : ℕ → List ℕ → MeterSample → Type 0
Rejected slave frame s =
    (¬ IsGenuine slave frame) × (s.status ≢ PzemStatus.ok) × (s ≡ blank_sample s.status)

abbrev pub OutOfRange : ℕ → List ℕ → MeterSample → Type 0
OutOfRange slave frame s =
    IsGenuine slave frame
    × ((decode_frame frame).active_power_mw ≡ hundredfold (low_high_words frame 9))
    × (¬ InRange (decode_frame frame) 100)
    × (s ≡ record (decode_frame frame) { status = PzemStatus.invalid_range })

abbrev pub Accepted : ℕ → List ℕ → MeterSample → Type 0
Accepted slave frame s =
    IsGenuine slave frame
    × ((decode_frame frame).active_power_mw ≡ hundredfold (low_high_words frame 9))
    × InRange (decode_frame frame) 100
    × (s ≡ decode_frame frame)

pub parse_genuine :
    (slave : ℕ) (frame : List ℕ)
    → IsGenuine slave frame
    → parse_response slave frame ≡ (
        if not (sample_valid (decode_frame frame) 100)
        then record (decode_frame frame) { status = PzemStatus.invalid_range }
        else decode_frame frame)
unfolding parse_response
parse_genuine slave frame g = ground (arith, g.size)

all_but_crc : (frame : List ℕ) → length frame ≡ 25 → take (length frame - 2) frame ≡ take 23 frame
all_but_crc frame h =
    ap (λ (n : ℕ). take n frame) (let e : length frame - 2 ≡ 23 = omega arith in e)

parse_response_split :
    (slave : ℕ) (frame : List ℕ)
    → IsGenuine slave frame ⊎ Rejected slave frame (parse_response slave frame)
unfolding parse_response
parse_response_split slave frame = elim (Bool-cases (length frame == 25)) [
  | inr e ↦ rw e (inr (λ g. ground (arith, g.size), λ q. cc, refl))
  | inl e1 ↦
      elim (Bool-cases (modbus_crc16 (take (length frame - 2) frame) == received_crc frame)) [
        | inr e ↦
            rw (e1, e)
              (inr (
                λ g. ground (arith, g.checked, ap modbus_crc16 (all_but_crc frame g.size)),
                λ q. cc,
                refl,
              ))
        | inl e2 ↦ elim (Bool-cases (get_or frame 0 0 == slave)) [
          | inr e ↦ rw (e1, e2, e) (inr (λ g. ground (arith, g.from_slave), λ q. cc, refl))
          | inl e3 ↦
              elim (Bool-cases (not (get_or frame 1 0 == 4) || not (get_or frame 2 0 == 20))) [
                | inl e ↦
                    rw (e1, e2, e3, e)
                      (inr (λ g. ground (arith, g.function, g.count), λ q. cc, refl))
                | inr e4 ↦ inl (record {
                  size = ground arith;
                  checked =
                      ap modbus_crc16 (sym (all_but_crc frame (ground arith))) ∙ (==_iff _ _).0 e2;
                  from_slave = ground arith;
                  function = ground arith;
                  count = ground arith;
                })
              ]
        ]
      ]
]

-- A frame that is not genuine leaves no value in the sample; a genuine one is decoded, and accepted
-- exactly if the values are in range for a transformer of 100 A. The power is exactly 100 times what
-- the register says. A genuine frame is taken to have a power register for which that product fits an
-- int32_t.
pub parse_response_cases :
    (slave : ℕ) (frame : List ℕ)
    → (IsGenuine slave frame → PowerFits frame)
    → Rejected slave frame (parse_response slave frame)
      ⊎ OutOfRange slave frame (parse_response slave frame)
      ⊎ Accepted slave frame (parse_response slave frame)
parse_response_cases slave frame fits = elim (parse_response_split slave frame) [
  | inr r ↦ inl r
  | inl g ↦
      let power = power_exact frame (fits g) in
      elim (Bool-cases (sample_valid (decode_frame frame) 100)) [
        | inl v ↦
            inr (inr (g, power, sample_valid-InRange _ 100 v, parse_genuine slave frame g ∙ rw v))
        | inr v ↦ inr (
            inl (
              g,
              power,
              λ r. cc (InRange-sample_valid _ 100 r),
              parse_genuine slave frame g ∙ rw v,
            ))
      ]
]
