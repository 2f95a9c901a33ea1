-- ===== src/Journal/Words.antt =====
-- A word that is written and read again.
use Prim.Native.Nat.{bit_or}
use native.Mathlib.Nat.{
  div-add-mod, div-div-eq-div-mul, mul-add, mul_assoc, mod-lt, mod-eq_of_lt, pow-suc,
}
use power_monitor_sensor_hea.Base.{
  ℕ, zero, suc, ◌+◌, ◌*◌, ◌/◌, ◌%◌, ◌^◌, ◌<◌, ◌≡◌, sym, ap, ◌∙◌, arith,
}
use power_monitor_sensor_hea.Base.Bits.{bit_or-add}
use power_monitor_sensor_hea.Journal.Defs.{
  bytes_from, word_from, get_word, put_u16, put_u32, put_u64,
}

-- A byte above the lower ones.
mod_mul_step : (v m : ℕ) → v % (m * 256) ≡ v % m + v / m % 256 * m
mod_mul_step v m =
    let q = v / m in
    let whole = div-add-mod v m in
    let large = div-add-mod v (m * 256) in
    let digits = div-add-mod q 256 in
    let nested = ap (λ (x : ℕ). m * 256 * x) (sym (div-div-eq-div-mul v m 256)) in
    let spread = ap (λ (x : ℕ). m * x) (sym digits) ∙ mul-add m (256 * (q / 256)) (q % 256) in
    let grouped = mul_assoc m 256 (q / 256) in omega arith

pow_sum : (k n : ℕ) → 2 ^ (k + n) ≡ 2 ^ k * 2 ^ n
pow_sum k zero = let e : k + zero ≡ k = omega arith in ap (λ (x : ℕ). 2 ^ x) e ∙ omega arith
pow_sum k (suc n) =
    let e : k + suc n ≡ suc (k + n) = omega arith in
    ap (λ (x : ℕ). 2 ^ x) e
    ∙ pow-suc 2 (k + n)
    ∙ ap (λ (p : ℕ). p * 2) (pow_sum k n)
    ∙ mul_assoc (2 ^ k) (2 ^ n) 2
    ∙ ap (λ (p : ℕ). 2 ^ k * p) (sym (pow-suc 2 n))

pow_positive : (n : ℕ) → 0 < 2 ^ n
pow_positive zero = omega arith
pow_positive (suc n) = omega (arith, pow-suc 2 n, pow_positive n)

pow_byte : (i : ℕ) → 2 ^ (8 * suc i) ≡ 2 ^ (8 * i) * 256
pow_byte i =
    let e : 8 * suc i ≡ 8 * i + 8 = omega arith in ap (λ (k : ℕ). 2 ^ k) e ∙ pow_sum (8 * i) 8

word_from-bytes_from :
    (n i value : ℕ)
    → word_from i (value % 2 ^ (8 * i)) (bytes_from i n value) ≡ value % 2 ^ (8 * (i + n))
unfolding word_from bytes_from
word_from-bytes_from zero i value =
    let e : i ≡ i + zero = omega arith in ap (λ (k : ℕ). value % 2 ^ (8 * k)) e
word_from-bytes_from (suc n) i value =
    let m = 2 ^ (8 * i) in
    let byte = value / m % 256 in
    let joined : bit_or (value % m) (byte * m) ≡ value % 2 ^ (8 * suc i) =
      bit_or-add (8 * i) (value % m) byte (mod-lt value (pow_positive (8 * i)))
      ∙ sym (mod_mul_step value m)
      ∙ ap (λ (k : ℕ). value % k) (sym (pow_byte i)) in
    let e : suc i + n ≡ i + suc n = omega arith in
    ap (λ (w : ℕ). word_from (suc i) w (bytes_from (suc i) n value)) joined
    ∙ word_from-bytes_from n (suc i) value
    ∙ ap (λ (k : ℕ). value % 2 ^ (8 * k)) e

-- A word that fits is read as it was written.
get_word-bytes_from : (n value : ℕ) → value < 2 ^ (8 * n) → get_word (bytes_from 0 n value) ≡ value
unfolding get_word
get_word-bytes_from n value h =
    let start : 0 ≡ value % 2 ^ (8 * 0) = omega arith in
    let e : 0 + n ≡ n = omega arith in
    ap (λ (w : ℕ). word_from 0 w (bytes_from 0 n value)) start
    ∙ word_from-bytes_from n 0 value
    ∙ ap (λ (k : ℕ). value % 2 ^ (8 * k)) e
    ∙ mod-eq_of_lt h

pub get_word-put_u16 : (value : ℕ) → value < 2 ^ 16 → get_word (put_u16 value) ≡ value
unfolding put_u16
get_word-put_u16 value h = get_word-bytes_from 2 value h

pub get_word-put_u32 : (value : ℕ) → value < 2 ^ 32 → get_word (put_u32 value) ≡ value
unfolding put_u32
get_word-put_u32 value h = get_word-bytes_from 4 value h

pub get_word-put_u64 : (value : ℕ) → value < 2 ^ 64 → get_word (put_u64 value) ≡ value
unfolding put_u64
get_word-put_u64 value h = get_word-bytes_from 8 value h
