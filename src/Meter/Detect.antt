-- ===== src/Meter/Detect.antt =====
-- A request carries its check sum, and an error in one byte of an answer is noticed.
use Prim.Native.Nat.{bit_and}
use power_monitor_sensor_hea.Base.{
  ℕ, ◌-◌, ◌/◌, ◌%◌, ◌<◌, ◌≡◌, ◌≢◌, refl, sym, ◌∙◌, ap, arith, List, [], ◌∷◌, length, length-set,
  take-set, get_or-set_lt, get_or-take, length-take, All-take, set, get_or, take, All, IsU8, IsU16,
}
use power_monitor_sensor_hea.Base.Bits.{bit_and_byte}
use power_monitor_sensor_hea.Meter.{
  PzemStatus, blank_sample, modbus_crc16, build_request, received_crc, parse_response,
}
use power_monitor_sensor_hea.Meter.Crc.{crc_bytes, modbus_crc16-lt, modbus_crc16_detects}
use power_monitor_sensor_hea.Meter.Frame.{IsGenuine}

-- The last two bytes do not see a write before them.
received_crc-set :
    (frame : List ℕ) (i v : ℕ)
    → length frame ≡ 25
    → i < 23
    → received_crc (set frame i v) ≡ received_crc frame
unfolding received_crc
received_crc-set frame i v n h =
    rw
      (
        length-set,
        get_or-set_lt i (length frame - 2) frame v 0 (omega arith),
        get_or-set_lt i (length frame - 1) frame v 0 (omega arith),
      )
      refl

parse_bad_crc :
    (slave : ℕ) (frame : List ℕ)
    → length frame ≡ 25
    → modbus_crc16 (take 23 frame) ≢ received_crc frame
    → parse_response slave frame ≡ blank_sample PzemStatus.bad_crc
unfolding parse_response
parse_bad_crc slave frame n ne =
    let e : length frame - 2 ≡ 23 = omega arith in
    ground (arith, ap (λ (k : ℕ). modbus_crc16 (take k frame)) e)

-- A frame of a genuine answer, whoever reads it, in which one byte before the check sum has
-- changed is refused with `bad_crc`, and no value of it is kept.
pub parse_response_detects :
    (slave reader : ℕ) (frame : List ℕ) (i v : ℕ)
    → IsGenuine slave frame
    → All IsU8 frame
    → IsU8 v
    → i < 23
    → get_or frame i 0 ≢ v
    → parse_response reader (set frame i v) ≡ blank_sample PzemStatus.bad_crc
parse_response_detects slave reader frame i v g bytes hv hi ne =
    parse_bad_crc reader (set frame i v) (length-set frame i v ∙ g.size) λ same.
      modbus_crc16_detects (take 23 frame) i v (All-take IsU8 23 frame bytes) hv
        (rw (length-take 23 frame (omega (arith, g.size))) hi)
        (λ q. ne (sym (get_or-take 23 i frame 0 hi) ∙ q))
        (ap modbus_crc16 (sym (take-set 23 i frame v hi))
          ∙ same
          ∙ received_crc-set frame i v g.size hi
          ∙ sym g.checked)

-- A request asks the slave to read ten registers from the first, and ends in the check sum of
-- what stands before it, its low byte first.
build_request_framed :
    (slave : ℕ)
    → IsU8 slave
    → (take 6 (build_request slave) ≡ slave ∷ 4 ∷ 0 ∷ 0 ∷ 0 ∷ 10 ∷ [])
      × (length (build_request slave) ≡ 8)
      × All IsU8 (build_request slave)
      × (received_crc (build_request slave) ≡ modbus_crc16 (take 6 (build_request slave)))
unfolding build_request received_crc
build_request_framed slave h =
    let crc = modbus_crc16 (slave ∷ 4 ∷ 0 ∷ 0 ∷ 0 ∷ 10 ∷ []) in
    let fits : IsU16 crc = modbus_crc16-lt _ (omega arith) in
    let low : bit_and crc 255 % 256 ≡ crc % 256 = omega (arith, bit_and_byte crc) in
    let high : crc / 256 % 256 ≡ crc / 256 = omega arith in
    (refl, refl, omega arith, rw (low, high) (crc_bytes crc fits))
