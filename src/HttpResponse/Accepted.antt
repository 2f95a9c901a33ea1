-- ===== src/HttpResponse/Accepted.antt =====
-- The final test of the authentication headers: pm_http_response_capture_validate.
use Prim.Native.Nat.{bit_and, bit_or}
use power_monitor_sensor_hea.Base.{
  ℕ, ◌≡◌, refl, ◌/◌, arith, ◌⊎◌, inl, inr, Bool, true, false, if◌then◌else◌, List, [], ◌∷◌,
}
use power_monitor_sensor_hea.Base.Bits.{digit, odd_mask, bit_and-one}
use power_monitor_sensor_hea.Base.Esp.{ok}
use power_monitor_sensor_hea.HttpResponse.{
  Field, protocol, device_id, timestamp, nonce, content_sha256, signature, etag, field_index,
  field_flag, Capture, capture_init, capture_validate, required_auth_mask,
}
use power_monitor_sensor_hea.HttpResponse.Step.{fits}
use power_monitor_sensor_hea.HttpResponse.Unique.{Header, feed, values, Open, feed-fresh, feed-Open}

-- Only the ETag is optional.
abbrev pub required : Bool → Field → Bool
required require_etag etag = require_etag
required require_etag protocol = true
required require_etag device_id = true
required require_etag timestamp = true
required require_etag nonce = true
required require_etag content_sha256 = true
required require_etag signature = true

abbrev mask_of : Bool → ℕ
mask_of require_etag =
    if require_etag then bit_or required_auth_mask (field_flag etag) else required_auth_mask

low_digits :
    (mask : ℕ)
    → digit 0 mask ≡ 1
    → digit 1 mask ≡ 1
    → digit 2 mask ≡ 1
    → digit 3 mask ≡ 1
    → digit 4 mask ≡ 1
    → digit 5 mask ≡ 1
    → (bit_and mask 63 ≡ 63) × (digit 6 mask ≡ 1 → bit_and mask 127 ≡ 127)
unfolding digit
low_digits mask h0 h1 h2 h3 h4 h5 =
    let m4 = mask / 2 / 2 / 2 / 2 in
    (
      omega (
        arith,
        odd_mask mask 31,
        odd_mask (mask / 2) 15,
        odd_mask (mask / 2 / 2) 7,
        odd_mask (mask / 2 / 2 / 2) 3,
        odd_mask m4 1,
        bit_and-one (m4 / 2),
      ),
      λ h6. omega (
        arith,
        odd_mask mask 63,
        odd_mask (mask / 2) 31,
        odd_mask (mask / 2 / 2) 15,
        odd_mask (mask / 2 / 2 / 2) 7,
        odd_mask m4 3,
        odd_mask (m4 / 2) 1,
        bit_and-one (m4 / 2 / 2),
      ),
    )

fresh_digit : (f : Field) → digit (field_index f) capture_init.seen_mask ≡ 0
unfolding digit capture_init
fresh_digit protocol = refl
fresh_digit device_id = refl
fresh_digit timestamp = refl
fresh_digit nonce = refl
fresh_digit content_sha256 = refl
fresh_digit signature = refl
fresh_digit etag = refl

-- What is required of the headers of one field.
abbrev pub Proper : Bool → List Header → Field → Type 0
Proper require_etag hs f =
    ((values f hs ≡ []) × (required require_etag f ≡ false))
    ⊎ ((v : List ℕ) × (values f hs ≡ v ∷ []) × (fits f v ≡ true))

Proper-Open :
    (b : Bool) (hs : List Header) (f : Field) → Proper b hs f → Open capture_init f (values f hs)
Proper-Open b hs f (inl (nothing, off)) = inl (fresh_digit f, nothing)
Proper-Open b hs f (inr (v, one, fit)) = inr (inl (fresh_digit f, v, one, fit))

Proper-digit :
    (b : Bool) (hs : List Header) (f : Field)
    → Proper b hs f
    → (feed capture_init hs).invalid ≡ false
    → required b f ≡ true
    → digit (field_index f) (feed capture_init hs).seen_mask ≡ 1
Proper-digit b hs f h good need = elim (feed-fresh hs capture_init f (fresh_digit f) good) [
  | inl (nothing, _) ↦ elim h [ inl (_, off) ↦ cc | inr (v, one, _) ↦ cc ]
  | inr (v, one, fit, seen, text) ↦ seen
]

capture_validate_pass :
    (c : Capture) (b : Bool)
    → c.invalid ≡ false
    → bit_and c.seen_mask (mask_of b) ≡ mask_of b
    → capture_validate c b ≡ ok
unfolding capture_validate
capture_validate_pass c true good e = rw (good, e) refl
capture_validate_pass c false good e = rw (good, e) refl

whole_mask :
    (b : Bool) (mask : ℕ)
    → bit_and mask 63 ≡ 63
    → (b ≡ true → bit_and mask 127 ≡ 127)
    → bit_and mask (mask_of b) ≡ mask_of b
whole_mask true mask auth all_of = all_of refl
whole_mask false mask auth all_of = auth

-- The headers of a response are accepted whenever every required field has exactly one header, the
-- ETag at most one, and the values are not empty and fit into their arrays, in any order and with any
-- other headers between them.
pub capture_validate-Proper :
    (hs : List Header) (require_etag : Bool)
    → ((f : Field) → Proper require_etag hs f)
    → capture_validate (feed capture_init hs) require_etag ≡ ok
capture_validate-Proper hs require_etag h =
    let good =
      feed-Open hs capture_init (unfold capture_init in refl)
        (λ f. Proper-Open require_etag hs f (h f)) in
    let seen = λ (f : Field). Proper-digit require_etag hs f (h f) good in
    let (auth, all_of) =
      low_digits (feed capture_init hs).seen_mask (seen protocol refl) (seen device_id refl)
        (seen timestamp refl) (seen nonce refl) (seen content_sha256 refl) (seen signature refl) in
    capture_validate_pass (feed capture_init hs) require_etag good (
      whole_mask require_etag (feed capture_init hs).seen_mask auth
        (λ need. all_of (seen etag need)))
