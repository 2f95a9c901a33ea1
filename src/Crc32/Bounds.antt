-- ===== src/Crc32/Bounds.antt =====
-- The check sum of bytes is a 32-bit word.
use Prim.Native.Nat.{bit_and}
use power_monitor_sensor_hea.Base.{
  ℕ, zero, suc, ◌/◌, ◌^◌, ◌<◌, ◌==◌, arith, List, [], ◌∷◌, All, IsU8, IsU32, if_cases,
}
use power_monitor_sensor_hea.Base.Xor.{bit_xor-lt}
use power_monitor_sensor_hea.Crc32.{crc32_bit, crc32_bits, crc32_from, crc32_ieee}

crc32_bit-lt : (crc : ℕ) → IsU32 crc → IsU32 (crc32_bit crc)
unfolding crc32_bit
crc32_bit-lt crc h = bit_xor-lt 32 (crc / 2) _ (omega arith) (
    if_cases (λ (x : ℕ). x < 2 ^ 32) (bit_and crc 1 == 0) 0 0xEDB88320 (λ _. omega arith)
      (λ _. omega arith))

crc32_bits-lt : (rounds crc : ℕ) → IsU32 crc → IsU32 (crc32_bits rounds crc)
unfolding crc32_bits
crc32_bits-lt zero crc h = h
crc32_bits-lt (suc rounds) crc h = crc32_bits-lt rounds (crc32_bit crc) (crc32_bit-lt crc h)

crc32_from-lt :
    (bytes : List ℕ) (crc : ℕ) → IsU32 crc → All IsU8 bytes → IsU32 (crc32_from crc bytes)
unfolding crc32_from
crc32_from-lt [] crc h hs = h
crc32_from-lt (b ∷ bytes) crc h (hb, hs) =
    crc32_from-lt bytes _ (crc32_bits-lt 8 _ (bit_xor-lt 32 crc b h (omega arith))) hs

pub crc32_ieee-lt : (bytes : List ℕ) → All IsU8 bytes → IsU32 (crc32_ieee bytes)
unfolding crc32_ieee
crc32_ieee-lt bytes hs =
    bit_xor-lt 32 _ 0xFFFFFFFF (crc32_from-lt bytes 0xFFFFFFFF (omega arith) hs) (omega arith)
