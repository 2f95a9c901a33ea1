-- ===== src/Meter.antt =====
-- The meter's samples and the frames of the PZEM-004T V4 classic:
-- components/pm_meter/include/pm_meter.h and components/pm_meter/pm_meter_pzem_v4_classic.c.
-- A byte is a number below 256 and a frame the list of its bytes, as many as the `length` that the
-- code is given. Pointers are never NULL. The int32_t fields are integers; the product that the code
-- makes of an int32_t power register by 100 is taken to wrap around, as the target's multiplication
-- does.
pub mod Frame
pub mod Crc
pub mod Detect
pub mod RoundTrip
mod Tests
use Prim.Native.Nat.{bit_and, bit_or, bit_xor}
use power_monitor_sensor_hea.Base.{
  ℕ, suc, zero, ◌+◌, ◌-◌, ◌*◌, ◌/◌, ◌%◌, ◌^◌, Bool, true, false, not, ◌&&◌, ◌||◌, ◌==◌, ltb,
  if◌then◌else◌, List, [], ◌∷◌, ◌++◌, length, get_or, take, drop,
}
use power_monitor_sensor_hea.Base.Int.{ℤ, pos, negsuc, leb_ℤ}

-- pm_pzem_status_t
pub data PzemStatus : Type 0 where
  ok timeout short_frame bad_crc wrong_slave wrong_function invalid_range : PzemStatus
  not_verified uart_error : PzemStatus

-- pm_meter_sample_t
pub record MeterSample : Type 0 where
  pub voltage_mv : ℤ  -- int32_t
  pub current_ma : ℤ  -- int32_t
  pub active_power_mw : ℤ  -- int32_t
  pub frequency_mhz : ℤ  -- int32_t
  pub power_factor_milli : ℤ  -- int32_t
  pub energy_wh : ℕ  -- uint64_t
  pub alarm_status : ℕ  -- uint16_t
  pub status : PzemStatus
  pub error_code : ℕ  -- uint16_t
  pub sample_timestamp_utc_ms : ℤ  -- int64_t
  pub sample_monotonic_us : ℤ  -- int64_t
  pub time_trusted : Bool
  pub simulated : Bool

-- `(pm_meter_sample_t){.status = status}`
abbrev pub blank_sample : PzemStatus → MeterSample
blank_sample status = record {
  voltage_mv = pos 0;
  current_ma = pos 0;
  active_power_mw = pos 0;
  frequency_mhz = pos 0;
  power_factor_milli = pos 0;
  energy_wh = 0;
  alarm_status = 0;
  status = status;
  error_code = 0;
  sample_timestamp_utc_ms = pos 0;
  sample_monotonic_us = pos 0;
  time_trusted = false;
  simulated = false;
}

abbrev pub pzem_request_size : ℕ
pzem_request_size = 8

abbrev pub pzem_response_size : ℕ
pzem_response_size = 25

-- One round of the inner loop.
pub crc16_bit : ℕ → ℕ
crc16_bit crc = if not (bit_and crc 1 == 0) then bit_xor (crc / 2) 0xA001 else crc / 2

-- The inner loop: `rounds` rounds of it.
pub crc16_bits : ℕ → ℕ → ℕ
unfolding crc16_bit
crc16_bits zero crc = crc
crc16_bits (suc rounds) crc = crc16_bits rounds (crc16_bit crc)

-- The outer loop.
pub crc16_from : ℕ → List ℕ → ℕ
unfolding crc16_bits
crc16_from crc [] = crc
crc16_from crc (b ∷ bs) = crc16_from (crc16_bits 8 (bit_xor crc b)) bs

unfoldable pub modbus_crc16 : List ℕ → ℕ
unfolding crc16_from
modbus_crc16 bytes = crc16_from 0xFFFF bytes

-- The bytes that the code writes to `request`; it returns their number.
unfoldable pub build_request : ℕ → List ℕ
build_request slave =
    let prefix = slave ∷ 0x04 ∷ 0x00 ∷ 0x00 ∷ 0x00 ∷ 0x0A ∷ [] in
    let crc = modbus_crc16 prefix in prefix ++ (bit_and crc 0xFF % 256 ∷ crc / 256 % 256 ∷ [])

-- A big-endian word, at an offset of the frame.
unfoldable pub word_be : List ℕ → ℕ → ℕ
word_be frame at = bit_or (get_or frame at 0 * 256) (get_or frame (at + 1) 0) % 2 ^ 16

-- A double word: the low word first.
unfoldable pub low_high_words : List ℕ → ℕ → ℕ
low_high_words frame at =
    let low = word_be frame at in
    let high = word_be frame (at + 2) in bit_or low (high * 2 ^ 16 % 2 ^ 32)

-- `(int32_t)word`
abbrev pub to_int32 : ℕ → ℤ
to_int32 word = if ltb word (2 ^ 31) then pos word else negsuc (2 ^ 32 - word - 1)

unfoldable pub sample_valid : MeterSample → ℕ → Bool
sample_valid sample ct_rating_a =
    if ct_rating_a == 0
    then false
    else leb_ℤ (pos 0) sample.voltage_mv
      && leb_ℤ sample.voltage_mv (pos 300000)
      && leb_ℤ (pos 0) sample.current_ma
      && leb_ℤ sample.current_ma (pos (ct_rating_a * 1100))
      && leb_ℤ (pos 0) sample.active_power_mw
      && leb_ℤ sample.active_power_mw (pos 30000000)
      && leb_ℤ (pos 40000) sample.frequency_mhz
      && leb_ℤ sample.frequency_mhz (pos 70000)
      && leb_ℤ (pos 0) sample.power_factor_milli
      && leb_ℤ sample.power_factor_milli (pos 1000)

-- The fields that a frame of the right length, check sum, slave and function carries. Where the product
-- of the power does not fit an int32_t, C leaves it undefined; here it wraps.
pub decode_frame : List ℕ → MeterSample
decode_frame frame = record (blank_sample PzemStatus.ok) {
  voltage_mv = pos (word_be frame 3 * 100);
  current_ma = to_int32 (low_high_words frame 5);
  active_power_mw = to_int32 (low_high_words frame 9 * 100 % 2 ^ 32);
  energy_wh = low_high_words frame 13;
  frequency_mhz = pos (word_be frame 17 * 100);
  power_factor_milli = pos (word_be frame 19 * 10);
  alarm_status = word_be frame 21;
}

-- The check sum that the last two bytes hold.
unfoldable pub received_crc : List ℕ → ℕ
received_crc frame =
    bit_or (get_or frame (length frame - 2) 0) (get_or frame (length frame - 1) 0 * 256 % 2 ^ 16)

-- The code also returns the status of the sample that it writes.
unfoldable pub parse_response : ℕ → List ℕ → MeterSample
parse_response slave frame =
    if not (length frame == pzem_response_size)
    then blank_sample short_frame
    else if not (modbus_crc16 (take (length frame - 2) frame) == received_crc frame)
    then blank_sample bad_crc
    else if not (get_or frame 0 0 == slave)
    then blank_sample wrong_slave
    else if not (get_or frame 1 0 == 0x04) || not (get_or frame 2 0 == 20)
    then blank_sample wrong_function
    else let sample = decode_frame frame in
      if not (sample_valid sample 100) then record sample { status = invalid_range } else sample
