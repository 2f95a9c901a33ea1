-- ===== src/HttpResponse.antt =====
-- The authentication headers of a response: components/pm_protocol/pm_http_response.c and
-- include/pm_http_response.h, with the sizes of pm_response_auth_headers_t in pm_protocol.h.
-- A C string is the list of its bytes before the NUL, so it has no zero byte. Pointers are never
-- NULL. The seven character arrays of a capture are a function of the header; an array that is
-- cleared holds the empty string.
pub mod Digits
pub mod Step
pub mod Unique
pub mod Accepted
pub mod Names
mod Tests
use Prim.Native.Char.{code}
use Prim.Native.Nat.{bit_and, bit_or}
use Prim.Native.String.{String}
use power_monitor_sensor_hea.Base.{
  ℕ, zero, suc, ◌+◌, ◌-◌, Bool, true, false, not, ◌&&◌, ◌||◌, ◌==◌, leb, if◌then◌else◌, Option,
  none, some, List, [], ◌∷◌, take,
}
use power_monitor_sensor_hea.Base.Esp.{EspErr, invalid_response}

-- The headers that are captured, in the order of PM_HTTP_SEEN_….
pub data Field : Type 0 where
  protocol device_id timestamp nonce content_sha256 signature etag : Field

-- The place of a header's flag in `seen_mask`, and the flag.
abbrev pub field_index : Field → ℕ
field_index protocol = 0
field_index device_id = 1
field_index timestamp = 2
field_index nonce = 3
field_index content_sha256 = 4
field_index signature = 5
field_index etag = 6

abbrev pub field_flag : Field → ℕ
field_flag protocol = 1
field_flag device_id = 2
field_flag timestamp = 4
field_flag nonce = 8
field_flag content_sha256 = 16
field_flag signature = 32
field_flag etag = 64

abbrev pub required_auth_mask : ℕ
required_auth_mask = 63

-- The size of the array.
abbrev pub capacity : Field → ℕ
capacity protocol = 18
capacity device_id = 37
capacity timestamp = 24
capacity nonce = 129
capacity content_sha256 = 65
capacity signature = 45
capacity etag = 68

-- pm_http_response_capture_t
pub record Capture : Type 0 where
  pub text : Field → List ℕ
  pub seen_mask : ℕ  -- uint8_t
  pub invalid : Bool

-- The bytes of a literal.
abbrev pub codes : String → List ℕ
codes String.[] = []
codes (String.◌∷◌ c s) = code c ∷ codes s

unfoldable pub ascii_lower : ℕ → ℕ
ascii_lower c = if leb b'A' c && leb c b'Z' then c + (b'a' - b'A') else c

unfoldable pub header_name_equal : List ℕ → List ℕ → Bool
header_name_equal [] [] = true
header_name_equal (a ∷ as_) [] = false
header_name_equal [] (e ∷ es) = false
header_name_equal (a ∷ as_) (e ∷ es) =
    let rest = header_name_equal as_ es in
    if not (ascii_lower a == ascii_lower e) then false else rest

unfoldable pub bounded_value_length : List ℕ → ℕ → ℕ
bounded_value_length value zero = zero
bounded_value_length [] (suc n) = zero
bounded_value_length (c ∷ cs) (suc n) = suc (bounded_value_length cs n)

abbrev pub field_name : Field → List ℕ
field_name protocol = codes "X-PM-Protocol"
field_name device_id = codes "X-PM-Device-ID"
field_name timestamp = codes "X-PM-Timestamp"
field_name nonce = codes "X-PM-Nonce"
field_name content_sha256 = codes "X-PM-Content-SHA256"
field_name signature = codes "X-PM-Signature"
field_name etag = codes "ETag"

-- The ladder of names; `none` is a header that is not captured.
unfoldable pub classify : List ℕ → Option Field
classify name =
    if header_name_equal name (field_name protocol)
    then some protocol
    else if header_name_equal name (field_name device_id)
    then some device_id
    else if header_name_equal name (field_name timestamp)
    then some timestamp
    else if header_name_equal name (field_name nonce)
    then some nonce
    else if header_name_equal name (field_name content_sha256)
    then some content_sha256
    else if header_name_equal name (field_name signature)
    then some signature
    else if header_name_equal name (field_name etag)
    then some etag
    else none

unfoldable pub capture_init : Capture
capture_init = record { text = λ f. []; seen_mask = 0; invalid = false }

abbrev pub same_field : Field → Field → Bool
same_field f g = field_index f == field_index g

abbrev pub write : (Field → List ℕ) → Field → List ℕ → Field → List ℕ
write text f value g = if same_field f g then value else text g

-- A captured header goes into its array, once.
unfoldable pub capture_field : Capture → Field → List ℕ → Capture × EspErr
capture_field c f value =
    let length = bounded_value_length value (capacity f) in
    if not (bit_and c.seen_mask (field_flag f) == 0) || length == 0 || leb (capacity f) length
    then (record c { text = write c.text f []; invalid = true }, invalid_response)
    else (
      record c {
        text = write c.text f (take length value);
        seen_mask = bit_or c.seen_mask (field_flag f);
      },
      EspErr.ok,
    )

-- A header of no known name is skipped.
abbrev pub capture_named : Capture → Option Field → List ℕ → Capture × EspErr
capture_named c none value = (c, EspErr.ok)
capture_named c (some f) value = capture_field c f value

unfoldable pub capture_header : Capture → List ℕ → List ℕ → Capture × EspErr
capture_header c name value =
    if c.invalid then (c, invalid_response) else capture_named c (classify name) value

unfoldable pub capture_validate : Capture → Bool → EspErr
capture_validate c require_etag =
    let required =
      if require_etag then bit_or required_auth_mask (field_flag etag) else required_auth_mask in
    if not c.invalid && bit_and c.seen_mask required == required
    then EspErr.ok
    else invalid_response
