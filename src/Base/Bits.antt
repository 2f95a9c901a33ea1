-- ===== src/Base/Bits.antt =====
-- Laws of `|`, `&` on words of any width, from the recursion on binary digits.
use Prim.Native.Nat.{
  ℕ, zero, suc, ◌+◌, ◌*◌, ◌/◌, ◌%◌, ◌^◌, ◌≤◌, ◌<◌, min, max, bit_and, bit_or, digits,
  bit_and-bitwise, bit_or-bitwise,
}
use mathlib.Core.Path.{◌≡◌, refl, ap, ◌∙◌}
use native.Mathlib.Decide.{dec_le}
use native.Mathlib.Omega.{arith}
use native.Mathlib.Nat.{pow-suc}

-- The native operations mean a recursion on digits with fuel; fuel that is not needed is idle.
module _ (z : ℕ → ℕ) (f : ℕ → ℕ → ℕ) where
  idle_round : (n x y : ℕ) → x ≤ n → digits z f (suc n) x y ≡ digits z f n x y
  idle_round zero zero y h = refl
  idle_round zero (suc x) y h = absurd (omega arith)
  idle_round (suc n) zero y h = refl
  idle_round (suc n) (suc x) y h =
      let rest = idle_round n (suc x / 2) (y / 2) (omega arith) in
      ap (λ (t : ℕ). t * 2 + f (suc x % 2) (y % 2)) rest

  idle_fuel : (n x y : ℕ) → x ≤ n → digits z f n x y ≡ digits z f x x y
  idle_fuel zero zero y h = refl
  idle_fuel zero (suc x) y h = absurd (omega arith)
  idle_fuel (suc n) x y h = elim (dec_le x n) [
    | yes spare ↦ idle_round n x y spare ∙ idle_fuel n x y spare
    | no last ↦ let same : suc n ≡ x = omega arith in ap (λ (k : ℕ). digits z f k x y) same
  ]

  -- The lowest digit, and the rest.
  pub lowest_digit :
      (x y : ℕ)
      → digits z f (suc x) (suc x) y
        ≡ digits z f (suc x / 2) (suc x / 2) (y / 2) * 2 + f (suc x % 2) (y % 2)
  lowest_digit x y =
      ap (λ (t : ℕ). t * 2 + f (suc x % 2) (y % 2)) (idle_fuel x (suc x / 2) (y / 2) (omega arith))

pub zero-bit_or : (y : ℕ) → bit_or 0 y ≡ y
zero-bit_or y = bit_or-bitwise 0 y

pub zero-bit_and : (y : ℕ) → bit_and 0 y ≡ 0
zero-bit_and y = bit_and-bitwise 0 y

pub bit_or_step : (x y : ℕ) → bit_or x y ≡ max (x % 2) (y % 2) + 2 * bit_or (x / 2) (y / 2)
bit_or_step zero y = omega (arith, zero-bit_or y, zero-bit_or (y / 2))
bit_or_step (suc x) y = omega (
  arith,
  lowest_digit (λ b. b) max x y,
  bit_or-bitwise (suc x) y,
  bit_or-bitwise (suc x / 2) (y / 2),
)

pub bit_and_step : (x y : ℕ) → bit_and x y ≡ min (x % 2) (y % 2) + 2 * bit_and (x / 2) (y / 2)
bit_and_step zero y = omega (arith, zero-bit_and y, zero-bit_and (y / 2))
bit_and_step (suc x) y = omega (
  arith,
  lowest_digit (λ b. zero) min x y,
  bit_and-bitwise (suc x) y,
  bit_and-bitwise (suc x / 2) (y / 2),
)

-- `&` keeps some digits of the mask at most.
pub bit_and-le_upto : (n x mask : ℕ) → x ≤ n → bit_and x mask ≤ mask
bit_and-le_upto n zero mask h = omega (arith, zero-bit_and mask)
bit_and-le_upto zero (suc x) mask h = absurd (omega arith)
bit_and-le_upto (suc n) (suc x) mask h =
    omega (arith, bit_and_step (suc x) mask, bit_and-le_upto n (suc x / 2) (mask / 2) (omega arith))

-- A mask that ends in a one keeps the lowest digit.
pub odd_mask : (x mask : ℕ) → bit_and x (2 * mask + 1) ≡ x % 2 + 2 * bit_and (x / 2) mask
odd_mask x mask =
    let half : (2 * mask + 1) / 2 ≡ mask = omega arith in
    omega (arith, bit_and_step x (2 * mask + 1), ap (bit_and (x / 2)) half)

pub bit_and-one : (x : ℕ) → bit_and x 1 ≡ x % 2
bit_and-one x = omega (arith, odd_mask x 0, bit_and-le_upto (x / 2) (x / 2) 0 (omega arith))

pub bit_and_byte : (x : ℕ) → bit_and x 255 ≡ x % 256
bit_and_byte x =
    let x4 = x / 2 / 2 / 2 / 2 in
    omega (
      arith,
      odd_mask x 127,
      odd_mask (x / 2) 63,
      odd_mask (x / 2 / 2) 31,
      odd_mask (x / 2 / 2 / 2) 15,
      odd_mask x4 7,
      odd_mask (x4 / 2) 3,
      odd_mask (x4 / 2 / 2) 1,
      bit_and-one (x4 / 2 / 2 / 2),
    )

-- A law of digits holds of words: the recursion is on a bound for the sum of the operands.
bit_or_comm_fuel : (n a b : ℕ) → a + b ≤ n → bit_or a b ≡ bit_or b a
bit_or_comm_fuel zero zero zero h = refl
bit_or_comm_fuel zero zero (suc b) h = absurd (omega arith)
bit_or_comm_fuel zero (suc a) b h = absurd (omega arith)
bit_or_comm_fuel (suc n) a b h =
    omega
      (arith, bit_or_step a b, bit_or_step b a, bit_or_comm_fuel n (a / 2) (b / 2) (omega arith))

pub bit_or_comm : (a b : ℕ) → bit_or a b ≡ bit_or b a
bit_or_comm a b = bit_or_comm_fuel (a + b) a b (omega arith)

bit_and-bit_or_fuel : (n a b : ℕ) → a + b ≤ n → bit_and (bit_or a b) b ≡ b
bit_and-bit_or_fuel zero zero zero h = refl
bit_and-bit_or_fuel zero zero (suc b) h = absurd (omega arith)
bit_and-bit_or_fuel zero (suc a) b h = absurd (omega arith)
bit_and-bit_or_fuel (suc n) a b h =
    let e : bit_or a b / 2 ≡ bit_or (a / 2) (b / 2) = omega (arith, bit_or_step a b) in
    omega (
      arith,
      bit_or_step a b,
      bit_and_step (bit_or a b) b,
      ap (λ (t : ℕ). bit_and t (b / 2)) e,
      bit_and-bit_or_fuel n (a / 2) (b / 2) (omega arith),
    )

pub bit_and-bit_or : (a b : ℕ) → bit_and (bit_or a b) b ≡ b
bit_and-bit_or a b = bit_and-bit_or_fuel (a + b) a b (omega arith)

-- Bits that do not overlap are added.
pub bit_or-add : (k a c : ℕ) → a < 2 ^ k → bit_or a (c * 2 ^ k) ≡ a + c * 2 ^ k
bit_or-add zero zero c h = rw zero-bit_or (omega arith)
bit_or-add zero (suc a) c h = absurd (omega arith)
bit_or-add (suc k) a c h =
    let p : 2 ^ suc k ≡ 2 ^ k * 2 = omega (arith, pow-suc 2 k) in
    let e : c * 2 ^ suc k ≡ c * 2 ^ k * 2 = omega (arith, ap (λ (t : ℕ). c * t) p) in
    let half : c * 2 ^ suc k / 2 ≡ c * 2 ^ k = omega arith in
    omega (
      arith,
      bit_or_step a (c * 2 ^ suc k),
      ap (λ (t : ℕ). bit_or (a / 2) t) half,
      bit_or-add k (a / 2) c (omega arith),
    )

-- The k-th binary digit, from 0.
unfoldable pub digit : ℕ → ℕ → ℕ
digit zero a = a % 2
digit (suc k) a = digit k (a / 2)

pub digit-bit_or : (k a b : ℕ) → digit k (bit_or a b) ≡ max (digit k a) (digit k b)
unfolding digit
digit-bit_or zero a b = omega (arith, bit_or_step a b)
digit-bit_or (suc k) a b =
    let half : bit_or a b / 2 ≡ bit_or (a / 2) (b / 2) = omega (arith, bit_or_step a b) in
    ap (digit k) half ∙ digit-bit_or k (a / 2) (b / 2)

pub digit-bit_and : (k a b : ℕ) → digit k (bit_and a b) ≡ min (digit k a) (digit k b)
unfolding digit
digit-bit_and zero a b = omega (arith, bit_and_step a b)
digit-bit_and (suc k) a b =
    let half : bit_and a b / 2 ≡ bit_and (a / 2) (b / 2) = omega (arith, bit_and_step a b) in
    ap (digit k) half ∙ digit-bit_and k (a / 2) (b / 2)

pub digit-le : (k a : ℕ) → digit k a ≤ 1
unfolding digit
digit-le zero a = omega arith
digit-le (suc k) a = digit-le k (a / 2)
