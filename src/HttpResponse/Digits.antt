-- ===== src/HttpResponse/Digits.antt =====
-- The flags of the captured headers as binary digits.
use Prim.Native.Nat.{bit_and, bit_or}
use power_monitor_sensor_hea.Base.{
  ℕ, zero, suc, ◌*◌, ◌/◌, ◌^◌, ◌≡◌, ◌≤◌, ◌∙◌, refl, ap, arith, ◌==◌, if◌then◌else◌,
}
use native.Mathlib.Nat.{pow-suc}
use power_monitor_sensor_hea.Base.Bits.{
  digit, digit-le, digit-bit_or, digit-bit_and, bit_and_step, bit_and-le_upto, odd_mask,
}
use power_monitor_sensor_hea.HttpResponse.{
  Field, protocol, device_id, timestamp, nonce, content_sha256, signature, etag, field_index,
  field_flag, same_field,
}

-- A mask of one digit picks it.
pub bit_and-pow : (k x : ℕ) → bit_and x (2 ^ k) ≡ digit k x * 2 ^ k
unfolding digit
bit_and-pow zero x = omega (arith, odd_mask x 0, bit_and-le_upto (x / 2) (x / 2) 0 (omega arith))
bit_and-pow (suc k) x =
    let p : 2 ^ suc k ≡ 2 * 2 ^ k = omega (arith, pow-suc 2 k) in
    let half : 2 ^ suc k / 2 ≡ 2 ^ k = omega arith in
    omega (
      arith,
      bit_and_step x (2 ^ suc k),
      ap (bit_and (x / 2)) half,
      bit_and-pow k (x / 2),
      ap (λ (t : ℕ). digit k (x / 2) * t) p,
    )

digit-field_flag :
    (f g : Field) → digit (field_index g) (field_flag f) ≡ (if same_field f g then 1 else 0)
unfolding digit
digit-field_flag protocol protocol = refl
digit-field_flag protocol device_id = refl
digit-field_flag protocol timestamp = refl
digit-field_flag protocol nonce = refl
digit-field_flag protocol content_sha256 = refl
digit-field_flag protocol signature = refl
digit-field_flag protocol etag = refl
digit-field_flag device_id protocol = refl
digit-field_flag device_id device_id = refl
digit-field_flag device_id timestamp = refl
digit-field_flag device_id nonce = refl
digit-field_flag device_id content_sha256 = refl
digit-field_flag device_id signature = refl
digit-field_flag device_id etag = refl
digit-field_flag timestamp protocol = refl
digit-field_flag timestamp device_id = refl
digit-field_flag timestamp timestamp = refl
digit-field_flag timestamp nonce = refl
digit-field_flag timestamp content_sha256 = refl
digit-field_flag timestamp signature = refl
digit-field_flag timestamp etag = refl
digit-field_flag nonce protocol = refl
digit-field_flag nonce device_id = refl
digit-field_flag nonce timestamp = refl
digit-field_flag nonce nonce = refl
digit-field_flag nonce content_sha256 = refl
digit-field_flag nonce signature = refl
digit-field_flag nonce etag = refl
digit-field_flag content_sha256 protocol = refl
digit-field_flag content_sha256 device_id = refl
digit-field_flag content_sha256 timestamp = refl
digit-field_flag content_sha256 nonce = refl
digit-field_flag content_sha256 content_sha256 = refl
digit-field_flag content_sha256 signature = refl
digit-field_flag content_sha256 etag = refl
digit-field_flag signature protocol = refl
digit-field_flag signature device_id = refl
digit-field_flag signature timestamp = refl
digit-field_flag signature nonce = refl
digit-field_flag signature content_sha256 = refl
digit-field_flag signature signature = refl
digit-field_flag signature etag = refl
digit-field_flag etag protocol = refl
digit-field_flag etag device_id = refl
digit-field_flag etag timestamp = refl
digit-field_flag etag nonce = refl
digit-field_flag etag content_sha256 = refl
digit-field_flag etag signature = refl
digit-field_flag etag etag = refl

-- Raising a header's flag.
pub digit-raise :
    (mask : ℕ) (f g : Field)
    → digit (field_index g) (bit_or mask (field_flag f))
      ≡ (if same_field f g then 1 else digit (field_index g) mask)
digit-raise mask f g = ground (
  arith,
  digit-bit_or (field_index g) mask (field_flag f),
  digit-field_flag f g,
  digit-le (field_index g) mask,
)

flag-pow : (f : Field) → field_flag f ≡ 2 ^ field_index f
flag-pow protocol = refl
flag-pow device_id = refl
flag-pow timestamp = refl
flag-pow nonce = refl
flag-pow content_sha256 = refl
flag-pow signature = refl
flag-pow etag = refl

scaled_test : (d w : ℕ) → d ≤ 1 → 1 ≤ w → (d * w == 0) ≡ (d == 0)
scaled_test zero w h p = ground arith
scaled_test (suc zero) zero h p = absurd (omega arith)
scaled_test (suc zero) (suc w) h p = ground arith
scaled_test (suc (suc d)) w h p = absurd (omega arith)

pow_pos : (k : ℕ) → 1 ≤ 2 ^ k
pow_pos zero = omega arith
pow_pos (suc k) = omega (arith, pow-suc 2 k, pow_pos k)

-- The code's test for a flag that is not raised.
pub unseen :
    (mask : ℕ) (f : Field) → (bit_and mask (field_flag f) == 0) ≡ (digit (field_index f) mask == 0)
unseen mask f =
    ap (λ (w : ℕ). bit_and mask w == 0) (flag-pow f)
    ∙ ap (λ (t : ℕ). t == 0) (bit_and-pow (field_index f) mask)
    ∙ scaled_test (digit (field_index f) mask) (2 ^ field_index f) (digit-le (field_index f) mask)
        (pow_pos (field_index f))

-- A required flag is raised when the test of the whole mask passes.
pub required_seen :
    (f : Field) (mask required : ℕ)
    → bit_and mask required ≡ required
    → digit (field_index f) required ≡ 1
    → digit (field_index f) mask ≡ 1
required_seen f mask required h r = omega (
  arith,
  digit-bit_and (field_index f) mask required,
  ap (digit (field_index f)) h,
  digit-le (field_index f) mask,
)
