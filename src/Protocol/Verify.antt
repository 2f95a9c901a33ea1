-- ===== src/Protocol/Verify.antt =====
-- The verification of a response: pm_hex_lower, pm_verify_response_digest and pm_verify_response.
-- HMAC (pm_hmac_sha256 over the cryptography library), SHA-256 and the decoding of base64 are parameters.
use power_monitor_sensor_hea.Base.{
  ℕ, zero, suc, ◌+◌, ◌-◌, ◌*◌, ◌/◌, ◌%◌, Bool, true, false, not, ◌&&◌, ◌||◌, ◌==◌, ltb, leb,
  if◌then◌else◌, Option, none, some, List, [], ◌∷◌, length, get_or, int64_max,
}
use power_monitor_sensor_hea.Base.Int.{ℤ, pos, negsuc, ◌-ℤ◌, div_ℤ, ltb_ℤ, pos_part, neg_part}
use power_monitor_sensor_hea.Base.Esp.{
  EspErr, ok, other, invalid_arg, invalid_state, invalid_response, invalid_crc, is_ok,
}
use power_monitor_sensor_hea.HttpResponse.{codes}
use power_monitor_sensor_hea.Protocol.{constant_time_equal}
use power_monitor_sensor_hea.Protocol.Nonces.{NonceCache, nonce_accept}
use power_monitor_sensor_hea.Protocol.Canonical.{build_canonical}

-- ESP_ERR_INVALID_MAC
abbrev pub invalid_mac : EspErr
invalid_mac = other 0x10B

abbrev pub sha256_hex_size : ℕ
sha256_hex_size = 64

abbrev pub signature_base64_size : ℕ
signature_base64_size = 44

abbrev pub response_nonce_max : ℕ
response_nonce_max = 128

abbrev pub canonical_max : ℕ
canonical_max = 1024

-- pm_response_auth_headers_t, each array as a string
pub record ResponseHeaders : Type 0 where
  pub protocol : List ℕ
  pub device_id : List ℕ
  pub timestamp : List ℕ
  pub nonce : List ℕ
  pub content_sha256 : List ℕ
  pub signature : List ℕ

pub record Crypto : Type 0 where
  pub sha256 : List ℕ → List ℕ
  pub hmac_sha256 : List ℕ → List ℕ → Option (List ℕ)
  pub base64_decode : List ℕ → Option (List ℕ)

abbrev pub hex_digits : List ℕ
hex_digits = codes "0123456789abcdef"

unfoldable pub hex_lower : List ℕ → List ℕ
hex_lower [] = []
hex_lower (b ∷ bytes) =
    get_or hex_digits (b / 16) 0 ∷ get_or hex_digits (b % 16) 0 ∷ hex_lower bytes

abbrev pub is_decimal : ℕ → Bool
is_decimal c = leb b'0' c && leb c b'9'

abbrev pub all_lower_hex : List ℕ → Bool
all_lower_hex [] = true
all_lower_hex (c ∷ cs) = not (not (is_decimal c) && (ltb c b'a' || ltb b'f' c)) && all_lower_hex cs

unfoldable pub lowercase_hex_sha256 : List ℕ → Bool
lowercase_hex_sha256 value = length value == sha256_hex_size && all_lower_hex value

-- strcmp(left, right) == 0
abbrev pub same_text : List ℕ → List ℕ → Bool
same_text [] [] = true
same_text [] (r ∷ right) = false
same_text (l ∷ left) [] = false
same_text (l ∷ left) (r ∷ right) = l == r && same_text left right

-- strtoll in base 10, where it takes the whole text: the spaces, the sign, the digits, the limits.
abbrev pub is_space : ℕ → Bool
is_space c = c == 32 || (leb 9 c && leb c 13)

abbrev pub digits_value : ℕ → List ℕ → Option ℕ
digits_value value [] = some value
digits_value value (c ∷ cs) =
    let rest = digits_value (value * 10 + (c - b'0')) cs in if is_decimal c then rest else none

abbrev pub some_digits : List ℕ → Option ℕ
some_digits [] = none
some_digits (c ∷ cs) = digits_value 0 (c ∷ cs)

abbrev pub limited : Option ℕ → Option ℤ
limited none = none
limited (some n) = some (pos (if ltb int64_max n then int64_max else n))

abbrev pub limited_negative : Option ℕ → Option ℤ
limited_negative none = none
limited_negative (some zero) = some (pos 0)
limited_negative (some (suc n)) = some (negsuc (if ltb int64_max n then int64_max else n))

abbrev pub signed_digits : List ℕ → Option ℤ
signed_digits [] = none
signed_digits (c ∷ cs) =
    if c == b'-'
    then limited_negative (some_digits cs)
    else if c == b'+'
    then limited (some_digits cs)
    else limited (some_digits (c ∷ cs))

unfoldable pub whole_strtoll : List ℕ → Option ℤ
whole_strtoll [] = none
whole_strtoll (c ∷ cs) =
    let rest = whole_strtoll cs in if is_space c then rest else signed_digits (c ∷ cs)

-- The test on the timestamp passes.
abbrev pub timestamp_fits : Option ℤ → ℤ → Bool
timestamp_fits none now_utc_ms = false
timestamp_fits (some seconds) now_utc_ms =
    let difference = seconds -ℤ div_ℤ now_utc_ms 1000 in
    not (ltb_ℤ seconds (pos 0))
    && not (ltb_ℤ now_utc_ms (pos 0))
    && leb (pos_part difference + neg_part difference) 300

-- The signature is the code of the canonical text.
abbrev pub code_matches : Option (List ℕ) → Option (List ℕ) → Bool
code_matches none presented = false
code_matches (some expected) none = false
code_matches (some expected) (some presented) =
    length presented == 32 && constant_time_equal expected presented

module _ (crypto : Crypto) where
  -- All tests before the one on the nonce.
  unfoldable pub response_checks :
      List ℕ → List ℕ → List ℕ → List ℕ → ℤ → ResponseHeaders → List ℕ → EspErr
  response_checks key expected_device_id path query now_utc_ms headers expected_content_sha256 =
      let (error, canonical) =
        build_canonical (codes "RESPONSE") path query headers.timestamp headers.nonce
          headers.content_sha256 canonical_max in
      if not (lowercase_hex_sha256 expected_content_sha256)
        || not (same_text headers.protocol (codes "pm-protocol/1.0.0"))
        || not (same_text headers.device_id expected_device_id)
        || not (lowercase_hex_sha256 headers.content_sha256)
      then invalid_arg
      else if not (timestamp_fits (whole_strtoll headers.timestamp) now_utc_ms)
      then invalid_response
      else if ltb (length headers.nonce) 16
          || ltb response_nonce_max (length headers.nonce)
          || not (length headers.signature == signature_base64_size)
      then invalid_response
      else if not (constant_time_equal expected_content_sha256 headers.content_sha256)
      then invalid_crc
      else if not (is_ok error)
      then error
      else if not
          (code_matches (crypto.hmac_sha256 key canonical) (crypto.base64_decode headers.signature))
      then invalid_mac
      else ok

  unfoldable pub verify_response_digest :
      List ℕ
      → List ℕ
      → List ℕ
      → List ℕ
      → ℤ
      → ResponseHeaders
      → List ℕ
      → NonceCache
      → EspErr × NonceCache
  verify_response_digest key expected_device_id path query now_utc_ms headers
        expected_content_sha256 cache =
      let error =
        response_checks key expected_device_id path query now_utc_ms headers
          expected_content_sha256 in
      let (fresh, cache1) = nonce_accept crypto.sha256 cache headers.nonce in
      if not (is_ok error)
      then (error, cache)
      else if fresh
      then (ok, cache1)
      else (invalid_state, cache)

  unfoldable pub verify_response :
      List ℕ
      → List ℕ
      → List ℕ
      → List ℕ
      → ℤ
      → ResponseHeaders
      → List ℕ
      → NonceCache
      → EspErr × NonceCache
  verify_response key expected_device_id path query now_utc_ms headers body cache =
      verify_response_digest key expected_device_id path query now_utc_ms headers
        (hex_lower (crypto.sha256 body)) cache
