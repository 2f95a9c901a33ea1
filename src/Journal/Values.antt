-- ===== src/Journal/Values.antt =====
-- Values as words, and byte arrays of a known length.
use power_monitor_sensor_hea.Base.{
  ℕ, zero, suc, ◌^◌, ◌<◌, ◌≡◌, refl, ap, ◌∙◌, arith, List, [], ◌∷◌, length, IsU32, IsU64,
}
use power_monitor_sensor_hea.Base.Int.{ℤ, pos, negsuc}
use power_monitor_sensor_hea.Meter.{to_int32}
use power_monitor_sensor_hea.Measurement.{to_uint32, to_uint64}
use power_monitor_sensor_hea.Journal.Defs.{put_u32, put_u64, get_word, to_int64}
use power_monitor_sensor_hea.Journal.Words.{get_word-put_u32, get_word-put_u64}

abbrev pub head_or : List ℕ → ℕ
head_or [] = 0
head_or (x ∷ xs) = x

abbrev pub tail_of : List ℕ → List ℕ
tail_of [] = []
tail_of (x ∷ xs) = xs

-- A list of a known length, element by element.
abbrev pub listed : ℕ → List ℕ → List ℕ
listed zero xs = []
listed (suc n) xs = head_or xs ∷ listed n (tail_of xs)

pub length-listed : (n : ℕ) (xs : List ℕ) → length xs ≡ n → listed n xs ≡ xs
length-listed zero [] h = refl
length-listed zero (x ∷ xs) h = absurd (omega arith)
length-listed (suc n) [] h = absurd (omega arith)
length-listed (suc n) (x ∷ xs) h = ap (λ (ys : List ℕ). x ∷ ys) (length-listed n xs (omega arith))

abbrev pub IsI32 : ℤ → Type 0
IsI32 (pos n) = n < 2 ^ 31
IsI32 (negsuc n) = n < 2 ^ 31

abbrev pub IsI64 : ℤ → Type 0
IsI64 (pos n) = n < 2 ^ 63
IsI64 (negsuc n) = n < 2 ^ 63

to_int32-to_uint32 : (z : ℤ) → IsI32 z → to_int32 (to_uint32 z) ≡ z
to_int32-to_uint32 (pos n) h = ground arith
to_int32-to_uint32 (negsuc n) h = ground arith

to_int64-to_uint64 : (z : ℤ) → IsI64 z → to_int64 (to_uint64 z) ≡ z
to_int64-to_uint64 (pos n) h = ground arith
to_int64-to_uint64 (negsuc n) h = ground arith

to_uint32-IsU32 : (z : ℤ) → IsU32 (to_uint32 z)
to_uint32-IsU32 (pos n) = omega arith
to_uint32-IsU32 (negsuc n) = omega arith

to_uint64-IsU64 : (z : ℤ) → IsU64 (to_uint64 z)
to_uint64-IsU64 (pos n) = omega arith
to_uint64-IsU64 (negsuc n) = omega arith

-- Signed numbers as words.
pub int32_kept : (z : ℤ) → IsI32 z → to_int32 (get_word (put_u32 (to_uint32 z))) ≡ z
int32_kept z h =
    ap (λ (w : ℕ). to_int32 w) (get_word-put_u32 _ (to_uint32-IsU32 z)) ∙ to_int32-to_uint32 z h

pub int64_kept : (z : ℤ) → IsI64 z → to_int64 (get_word (put_u64 (to_uint64 z))) ≡ z
int64_kept z h =
    ap (λ (w : ℕ). to_int64 w) (get_word-put_u64 _ (to_uint64-IsU64 z)) ∙ to_int64-to_uint64 z h
