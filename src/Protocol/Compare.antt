-- ===== src/Protocol/Compare.antt =====
-- The comparison in constant time is equality.
use Prim.Native.Nat.{bit_or, bit_xor}
use power_monitor_sensor_hea.Base.{
  ℕ, zero, suc, ◌+◌, ◌/◌, ◌≤◌, ◌≡◌, refl, sym, ap, ◌∙◌, arith, true, List, [], ◌∷◌, length,
}
use power_monitor_sensor_hea.Base.Bits.{bit_or_step, zero-bit_or}
use power_monitor_sensor_hea.Base.Xor.{bit_xor_injective, bit_xor_step, zero-bit_xor}
use power_monitor_sensor_hea.Protocol.{difference_from, constant_time_equal}

bit_or-zero_upto : (n a b : ℕ) → a + b ≤ n → bit_or a b ≡ 0 → (a ≡ 0) × (b ≡ 0)
bit_or-zero_upto zero a b h e = (omega arith, omega arith)
bit_or-zero_upto (suc n) zero b h e = (refl, omega (arith, zero-bit_or b))
bit_or-zero_upto (suc n) (suc a) b h e =
    let half : bit_or (suc a / 2) (b / 2) ≡ 0 = omega (arith, bit_or_step (suc a) b) in
    let (l, r) = bit_or-zero_upto n (suc a / 2) (b / 2) (omega arith) half in
    (omega (arith, bit_or_step (suc a) b), omega (arith, bit_or_step (suc a) b))

pub bit_or-zero : (a b : ℕ) → bit_or a b ≡ 0 → (a ≡ 0) × (b ≡ 0)
bit_or-zero a b = bit_or-zero_upto (a + b) a b (omega arith)

bit_xor_self_upto : (n a : ℕ) → a ≤ n → bit_xor a a ≡ 0
bit_xor_self_upto n zero h = zero-bit_xor 0
bit_xor_self_upto zero (suc a) h = absurd (omega arith)
bit_xor_self_upto (suc n) (suc a) h =
    omega (arith, bit_xor_step (suc a) (suc a), bit_xor_self_upto n (suc a / 2) (omega arith))

bit_xor_self : (a : ℕ) → bit_xor a a ≡ 0
bit_xor_self a = bit_xor_self_upto a a (omega arith)

bit_xor-zero : (a b : ℕ) → bit_xor a b ≡ 0 → a ≡ b
bit_xor-zero a b h = bit_xor_injective a b b (h ∙ sym (bit_xor_self b))

difference_from-zero :
    (d : ℕ) (left right : List ℕ)
    → length left ≡ length right
    → difference_from d left right ≡ 0
    → (d ≡ 0) × (left ≡ right)
unfolding difference_from
difference_from-zero d [] [] same h = (h, refl)
difference_from-zero d [] (r ∷ right) same h = absurd (omega arith)
difference_from-zero d (l ∷ left) [] same h = absurd (omega arith)
difference_from-zero d (l ∷ left) (r ∷ right) same h =
    let (step, tail) = difference_from-zero (bit_or d (bit_xor l r)) left right (omega arith) h in
    let (before, here) = bit_or-zero d (bit_xor l r) step in
    let head = bit_xor-zero l r here in (before, cc)

difference_from_refl : (bytes : List ℕ) → difference_from 0 bytes bytes ≡ 0
unfolding difference_from
difference_from_refl [] = refl
difference_from_refl (b ∷ bytes) =
    ap (λ (d : ℕ). difference_from d bytes bytes) (zero-bit_or (bit_xor b b) ∙ bit_xor_self b)
    ∙ difference_from_refl bytes

pub constant_time_equal_refl : (bytes : List ℕ) → constant_time_equal bytes bytes ≡ true
unfolding constant_time_equal
constant_time_equal_refl bytes = rw (difference_from_refl bytes) refl

-- For operands of one length the comparison tells exactly whether they are the same bytes.
pub constant_time_equal-equality :
    (left right : List ℕ)
    → length left ≡ length right
    → (constant_time_equal left right ≡ true → left ≡ right)
      × (left ≡ right → constant_time_equal left right ≡ true)
unfolding constant_time_equal
constant_time_equal-equality left right same = (
  λ h. (difference_from-zero 0 left right same (ground arith)).1,
  λ e. rw (e, difference_from_refl right) refl,
)
