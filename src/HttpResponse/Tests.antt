-- ===== src/HttpResponse/Tests.antt =====
-- A response with all its headers, and the runs at it.
use power_monitor_sensor_hea.Base.{◌≡◌, refl, inl, inr, true, false, List, [], ◌∷◌}
use power_monitor_sensor_hea.Base.Esp.{ok, invalid_response}
use power_monitor_sensor_hea.HttpResponse.{
  Field, protocol, device_id, timestamp, nonce, content_sha256, signature, etag, codes, classify,
  ascii_lower, header_name_equal, bounded_value_length, capture_init, capture_field, capture_header,
  capture_validate,
}
use power_monitor_sensor_hea.HttpResponse.Names.{SameName, header_name_equal-SameName}
use power_monitor_sensor_hea.HttpResponse.Step.{fits}
use power_monitor_sensor_hea.HttpResponse.Unique.{Header, feed, values}
use power_monitor_sensor_hea.HttpResponse.Accepted.{Proper, capture_validate-Proper}

abbrev signed : List Header
signed =
    (codes "x-pm-protocol", codes "pm/1")
    ∷ (codes "Content-Type", codes "text")
    ∷ (codes "X-PM-Device-ID", codes "dev")
    ∷ (codes "X-PM-TIMESTAMP", codes "17")
    ∷ (codes "X-PM-Nonce", codes "n0")
    ∷ (codes "X-PM-Content-SHA256", codes "5a")
    ∷ (codes "X-PM-Signature", codes "sig")
    ∷ []

signed-Proper : (f : Field) → Proper false signed f
unfolding values fits classify header_name_equal ascii_lower
signed-Proper protocol = inr (codes "pm/1", refl, refl)
signed-Proper device_id = inr (codes "dev", refl, refl)
signed-Proper timestamp = inr (codes "17", refl, refl)
signed-Proper nonce = inr (codes "n0", refl, refl)
signed-Proper content_sha256 = inr (codes "5a", refl, refl)
signed-Proper signature = inr (codes "sig", refl, refl)
signed-Proper etag = inl (refl, refl)

-- A second nonce is refused.
repeated :
    capture_validate (feed capture_init ((codes "X-PM-Nonce", codes "n1") ∷ signed)) false
    ≡ invalid_response
unfolding feed capture_init capture_header capture_field capture_validate classify header_name_equal
    ascii_lower bounded_value_length
repeated = refl

capture_validate-Proper_example : capture_validate (feed capture_init signed) false ≡ ok
capture_validate-Proper_example = capture_validate-Proper signed false signed-Proper

header_name_equal-SameName_example :
    (header_name_equal (codes "etag") (codes "ETag") ≡ true
      → SameName (codes "etag") (codes "ETag"))
    × (SameName (codes "etag") (codes "ETag")
        → header_name_equal (codes "etag") (codes "ETag") ≡ true)
header_name_equal-SameName_example = header_name_equal-SameName (codes "etag") (codes "ETag")
