-- ===== src/Meter/Crc.antt =====
-- The check sum of the frames detects an error in one byte.
use Prim.Native.Nat.{bit_or, bit_xor}
use power_monitor_sensor_hea.Base.{
  ℕ, zero, suc, ◌*◌, ◌/◌, ◌%◌, ◌^◌, ◌<◌, ◌≡◌, ◌≢◌, sym, ◌∙◌, arith, ◌==◌, if◌then◌else◌, List, [],
  ◌∷◌, length, set, get_or, All, IsU8, IsU16,
}
use power_monitor_sensor_hea.Base.Bits.{bit_and-one, bit_or-add}
use power_monitor_sensor_hea.Base.Xor.{bit_xor-lt, le-bit_xor, bit_xor_injective, bit_xor_comm}
use power_monitor_sensor_hea.Meter.{crc16_bit, crc16_bits, crc16_from, modbus_crc16}

crc16_bit_arith :
    (crc : ℕ) → crc16_bit crc ≡ (if crc % 2 == 0 then crc / 2 else bit_xor (crc / 2) 0xA001)
unfolding crc16_bit
crc16_bit_arith crc = rw bit_and-one (ground arith)

pub crc16_bit-lt : (crc : ℕ) → IsU16 crc → IsU16 (crc16_bit crc)
crc16_bit-lt crc h = rw crc16_bit_arith (ground (arith, bit_xor-lt 16 (crc / 2) 0xA001))

-- A round can be undone: its highest digit tells which branch it took.
crc16_bit_injective : (c d : ℕ) → IsU16 c → IsU16 d → crc16_bit c ≡ crc16_bit d → c ≡ d
crc16_bit_injective c d hc hd e = ground (
  arith,
  crc16_bit_arith c,
  crc16_bit_arith d,
  le-bit_xor 15 (c / 2) 0xA001,
  le-bit_xor 15 (d / 2) 0xA001,
  bit_xor_injective (c / 2) (d / 2) 0xA001,
)

crc16_bits-lt : (k c : ℕ) → IsU16 c → IsU16 (crc16_bits k c)
unfolding crc16_bits
crc16_bits-lt zero c h = h
crc16_bits-lt (suc k) c h = crc16_bits-lt k (crc16_bit c) (crc16_bit-lt c h)

crc16_bits_injective : (k c d : ℕ) → IsU16 c → IsU16 d → crc16_bits k c ≡ crc16_bits k d → c ≡ d
unfolding crc16_bits
crc16_bits_injective zero c d hc hd e = e
crc16_bits_injective (suc k) c d hc hd e =
    crc16_bit_injective c d hc hd
      (crc16_bits_injective k (crc16_bit c) (crc16_bit d) (crc16_bit-lt c hc) (crc16_bit-lt d hd) e)

-- One byte goes in.
byte_step : ℕ → ℕ → ℕ
byte_step crc b = crc16_bits 8 (bit_xor crc b)

xor_byte-lt : (c b : ℕ) → IsU16 c → IsU8 b → IsU16 (bit_xor c b)
xor_byte-lt c b hc hb = bit_xor-lt 16 c b hc (omega arith)

-- The check sum after more bytes tells the check sums before them apart.
crc16_from_injective :
    (bs : List ℕ) (c d : ℕ)
    → All IsU8 bs
    → IsU16 c
    → IsU16 d
    → crc16_from c bs ≡ crc16_from d bs
    → c ≡ d
unfolding crc16_from
crc16_from_injective [] c d hs hc hd e = e
crc16_from_injective (b ∷ bs) c d (hb, hs) hc hd e =
    let xc = xor_byte-lt c b hc hb in
    let xd = xor_byte-lt d b hd hb in
    bit_xor_injective c d b (
      crc16_bits_injective 8 _ _ xc xd
        (crc16_from_injective bs _ _ hs (crc16_bits-lt 8 _ xc) (crc16_bits-lt 8 _ xd) e))

pub crc16_from-lt : (bs : List ℕ) (c : ℕ) → All IsU8 bs → IsU16 c → IsU16 (crc16_from c bs)
unfolding crc16_from
crc16_from-lt [] c hs hc = hc
crc16_from-lt (b ∷ bs) c (hb, hs) hc =
    crc16_from-lt bs _ hs (crc16_bits-lt 8 _ (xor_byte-lt c b hc hb))

pub modbus_crc16-lt : (bs : List ℕ) → All IsU8 bs → IsU16 (modbus_crc16 bs)
unfolding modbus_crc16
modbus_crc16-lt bs hs = crc16_from-lt bs 0xFFFF hs (omega arith)

crc16_from-set :
    (bs : List ℕ) (i v c : ℕ)
    → All IsU8 bs
    → IsU16 c
    → IsU8 v
    → i < length bs
    → crc16_from c (set bs i v) ≡ crc16_from c bs
    → get_or bs i 0 ≡ v
unfolding crc16_from
crc16_from-set [] i v c hs hc hv hi e = absurd (omega arith)
crc16_from-set (b ∷ bs) zero v c (hb, hs) hc hv hi e =
    let xb = xor_byte-lt c b hc hb in
    let xv = xor_byte-lt c v hc hv in
    let same =
      crc16_bits_injective 8 _ _ xv xb
        (crc16_from_injective bs _ _ hs (crc16_bits-lt 8 _ xv) (crc16_bits-lt 8 _ xb) e) in
    sym (bit_xor_injective v b c (bit_xor_comm v c ∙ same ∙ bit_xor_comm c b))
crc16_from-set (b ∷ bs) (suc i) v c (hb, hs) hc hv hi e =
    crc16_from-set bs i v _ hs (crc16_bits-lt 8 _ (xor_byte-lt c b hc hb)) hv (omega arith) e

-- Of bytes that differ in one place the check sums differ.
pub modbus_crc16_detects :
    (bs : List ℕ) (i v : ℕ)
    → All IsU8 bs
    → IsU8 v
    → i < length bs
    → get_or bs i 0 ≢ v
    → modbus_crc16 (set bs i v) ≢ modbus_crc16 bs
unfolding modbus_crc16
modbus_crc16_detects bs i v hs hv hi ne e =
    ne (crc16_from-set bs i v 0xFFFF hs (omega arith) hv hi e)

-- The two bytes of a check sum make it up.
pub crc_bytes : (c : ℕ) → IsU16 c → bit_or (c % 256) (c / 256 * 256 % 2 ^ 16) ≡ c
crc_bytes c h =
    let e : c / 256 * 256 % 2 ^ 16 ≡ c / 256 * 2 ^ 8 = omega arith in
    rw e (omega (arith, bit_or-add 8 (c % 256) (c / 256) (omega arith)))
