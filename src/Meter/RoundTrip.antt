-- ===== src/Meter/RoundTrip.antt =====
-- Frames that a meter sends, and frames with an error in one byte.
use power_monitor_sensor_hea.Base.{
  ℕ, ◌+◌, ◌*◌, ◌/◌, ◌%◌, ◌^◌, ◌≤◌, ◌<◌, ◌≡◌, refl, sym, ◌∙◌, arith, true, List, [], ◌∷◌, ◌++◌,
  get_or, All, IsU8, IsU16, IsU32,
}
use power_monitor_sensor_hea.Base.Int.{pos}
use power_monitor_sensor_hea.Base.Bits.{bit_or_comm, bit_or-add}
use power_monitor_sensor_hea.Meter.{
  PzemStatus, MeterSample, blank_sample, modbus_crc16, word_be, low_high_words, sample_valid,
  decode_frame, received_crc, parse_response,
}
use power_monitor_sensor_hea.Meter.Crc.{crc_bytes, modbus_crc16-lt}
use power_monitor_sensor_hea.Meter.Frame.{IsGenuine, parse_genuine, InRange-sample_valid}

-- The bytes of a 16-bit register, and of a 32-bit one.
abbrev pub be16 : ℕ → List ℕ
be16 w = w / 256 ∷ w % 256 ∷ []

abbrev pub lh32 : ℕ → List ℕ
lh32 w = w % 65536 / 256 ∷ w % 256 ∷ w / 16777216 ∷ w / 65536 % 256 ∷ []

word_be_arith :
    (frame : List ℕ) (at : ℕ)
    → get_or frame at 0 < 256
    → get_or frame (at + 1) 0 < 256
    → word_be frame at ≡ get_or frame at 0 * 256 + get_or frame (at + 1) 0
unfolding word_be
word_be_arith frame at hh hl = omega (
  arith,
  bit_or_comm (get_or frame at 0 * 256) (get_or frame (at + 1) 0),
  bit_or-add 8 (get_or frame (at + 1) 0) (get_or frame at 0) hl,
)

low_high_arith :
    (frame : List ℕ) (at : ℕ)
    → IsU16 (word_be frame at)
    → IsU16 (word_be frame (at + 2))
    → low_high_words frame at ≡ word_be frame at + word_be frame (at + 2) * 65536
unfolding low_high_words
low_high_arith frame at hl hh =
    let e : word_be frame (at + 2) * 2 ^ 16 % 2 ^ 32 ≡ word_be frame (at + 2) * 2 ^ 16 =
      omega arith in
    rw e (bit_or-add 16 (word_be frame at) (word_be frame (at + 2)) hl)

-- A word, and a double word, whose bytes stand at an offset of the frame.
word_be_lem :
    (frame : List ℕ) (at w : ℕ)
    → IsU16 w
    → get_or frame at 0 ≡ w / 256
    → get_or frame (at + 1) 0 ≡ w % 256
    → word_be frame at ≡ w
word_be_lem frame at w hw h l = omega (arith, word_be_arith frame at (omega arith) (omega arith))

low_high_words_lem :
    (frame : List ℕ) (at w : ℕ)
    → IsU32 w
    → get_or frame at 0 ≡ w % 65536 / 256
    → get_or frame (at + 1) 0 ≡ w % 256
    → get_or frame (at + 2) 0 ≡ w / 16777216
    → get_or frame (at + 2 + 1) 0 ≡ w / 65536 % 256
    → low_high_words frame at ≡ w
low_high_words_lem frame at w hw a b c d =
    let l : word_be frame at ≡ w % 65536 =
      word_be_lem frame at (w % 65536) (omega arith) (omega arith) (omega arith) in
    let h : word_be frame (at + 2) ≡ w / 65536 =
      word_be_lem frame (at + 2) (w / 65536) (omega arith) (omega arith) (omega arith) in
    omega (arith, low_high_arith frame at (omega arith) (omega arith))

-- The registers of the meter, in its units: 0.1 V, mA, 0.1 W, Wh, 0.1 Hz and 0.01.
pub record Registers : Type 0 where
  pub voltage : ℕ
  pub current : ℕ
  pub power : ℕ
  pub energy : ℕ
  pub frequency : ℕ
  pub factor : ℕ
  pub alarm : ℕ

pub record IsPlausible (r : Registers) : Type 0 where
  pub voltage_ok : r.voltage ≤ 3000
  pub current_ok : r.current ≤ 110000
  pub power_ok : r.power ≤ 300000
  pub energy_ok : IsU32 r.energy
  pub frequency_low : 400 ≤ r.frequency
  pub frequency_high : r.frequency ≤ 700
  pub factor_ok : r.factor ≤ 100
  pub alarm_ok : IsU16 r.alarm

-- The answer of the meter at an address, before its check sum and with it.
unfoldable pub answer_body : ℕ → Registers → List ℕ
answer_body slave r =
    slave
    ∷ 4
    ∷ 20
    ∷ (be16 r.voltage
        ++ (lh32 r.current
            ++ (lh32 r.power
                ++ (lh32 r.energy ++ (be16 r.frequency ++ (be16 r.factor ++ be16 r.alarm))))))

unfoldable pub answer : ℕ → Registers → List ℕ
unfolding answer_body
answer slave r =
    let crc = modbus_crc16 (answer_body slave r) in
    answer_body slave r ++ (crc % 256 ∷ crc / 256 ∷ [])

answer_body-bytes :
    (slave : ℕ) (r : Registers) → IsU8 slave → IsPlausible r → All IsU8 (answer_body slave r)
unfolding answer_body
answer_body-bytes slave r h p = omega arith

pub answer-IsGenuine :
    (slave : ℕ) (r : Registers) → IsU8 slave → IsPlausible r → IsGenuine slave (answer slave r)
unfolding answer received_crc
answer-IsGenuine slave r h p = record {
  size = refl;
  checked = sym (crc_bytes _ (modbus_crc16-lt _ (answer_body-bytes slave r h p)));
  from_slave = refl;
  function = refl;
  count = refl;
}

-- The sample that stands for the registers, in the units of the program.
abbrev pub sample_of : Registers → MeterSample
sample_of r = record (blank_sample PzemStatus.ok) {
  voltage_mv = pos (r.voltage * 100);
  current_ma = pos r.current;
  active_power_mw = pos (r.power * 100);
  energy_wh = r.energy;
  frequency_mhz = pos (r.frequency * 100);
  power_factor_milli = pos (r.factor * 10);
  alarm_status = r.alarm;
}

decode_frame-answer :
    (slave : ℕ) (r : Registers)
    → IsU8 slave
    → IsPlausible r
    → decode_frame (answer slave r) ≡ sample_of r
unfolding answer decode_frame
decode_frame-answer slave r h p =
    let f = answer slave r in
    ground (
      arith,
      word_be_lem f 3 r.voltage (omega arith) refl refl,
      low_high_words_lem f 5 r.current (omega arith) refl refl refl refl,
      low_high_words_lem f 9 r.power (omega arith) refl refl refl refl,
      low_high_words_lem f 13 r.energy (omega arith) refl refl refl refl,
      word_be_lem f 17 r.frequency (omega arith) refl refl,
      word_be_lem f 19 r.factor (omega arith) refl refl,
      word_be_lem f 21 r.alarm (omega arith) refl refl,
    )

-- What a meter answers, with plausible registers, is accepted and read back.
pub parse_response-answer :
    (slave : ℕ) (r : Registers)
    → IsU8 slave
    → IsPlausible r
    → parse_response slave (answer slave r) ≡ sample_of r
parse_response-answer slave r h p =
    let e = decode_frame-answer slave r h p in
    let v : sample_valid (decode_frame (answer slave r)) 100 ≡ true =
      InRange-sample_valid _ 100 (rw e (omega arith)) in
    parse_genuine slave _ (answer-IsGenuine slave r h p) ∙ rw v e
