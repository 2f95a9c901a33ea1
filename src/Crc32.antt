-- ===== src/Crc32.antt =====
-- The check sum of the stores: pm_crc32_ieee of components/pm_config/pm_config.c.
pub mod Bounds
use Prim.Native.Nat.{bit_and, bit_xor}
use power_monitor_sensor_hea.Base.{ℕ, zero, suc, ◌/◌, ◌==◌, if◌then◌else◌, List, [], ◌∷◌}

-- pm_crc32_ieee: one round of the inner loop, `rounds` rounds, the outer loop, the whole.
unfoldable pub crc32_bit : ℕ → ℕ
crc32_bit crc = bit_xor (crc / 2) (if bit_and crc 1 == 0 then 0 else 0xEDB88320)

unfoldable pub crc32_bits : ℕ → ℕ → ℕ
crc32_bits zero crc = crc
crc32_bits (suc rounds) crc = crc32_bits rounds (crc32_bit crc)

unfoldable pub crc32_from : ℕ → List ℕ → ℕ
crc32_from crc [] = crc
crc32_from crc (b ∷ bs) = crc32_from (crc32_bits 8 (bit_xor crc b)) bs

unfoldable pub crc32_ieee : List ℕ → ℕ
crc32_ieee bytes = bit_xor (crc32_from 0xFFFFFFFF bytes) 0xFFFFFFFF
