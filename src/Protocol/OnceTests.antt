-- ===== src/Protocol/OnceTests.antt =====
-- Responses with the codes of a stand-in for the cryptography.
use power_monitor_sensor_hea.Base.{ℕ, ◌≡◌, refl, arith, true, false, some, List, [], ◌∷◌, replicate}
use power_monitor_sensor_hea.Base.Int.{pos, ◌-ℤ◌, div_ℤ}
use power_monitor_sensor_hea.Base.Esp.{is_ok, ok}
use power_monitor_sensor_hea.HttpResponse.{codes}
use power_monitor_sensor_hea.Protocol.{constant_time_equal, difference_from}
use power_monitor_sensor_hea.Protocol.Nonces.{empty_cache, nonce_accept, is_cached}
use power_monitor_sensor_hea.Protocol.Canonical.{
  valid_encoded_component, upper_escapes, query_parts, parts_valid, string_le, insert_part,
  sort_parts, join_parts, canonical_query, build_canonical,
}
use power_monitor_sensor_hea.Protocol.Verify.{
  Crypto, hex_lower, lowercase_hex_sha256, whole_strtoll, response_checks, verify_response_digest,
}
use power_monitor_sensor_hea.Protocol.Once.{Response, verified, verify_all, response_accepted_once}

-- The parts are sorted, and the escapes are in upper case.
sorted_query : canonical_query (codes "b=%2f&a=1") 384 ≡ (ok, codes "a=1&b=%2F")
unfolding canonical_query query_parts parts_valid valid_encoded_component upper_escapes sort_parts
    insert_part string_le join_parts
sorted_query = refl

hex : hex_lower (0 ∷ 175 ∷ []) ≡ codes "00af"
unfolding hex_lower
hex = refl

abbrev crypto : Crypto
crypto = record {
  sha256 = λ bytes. bytes;
  hmac_sha256 = λ key text. some (replicate 32 1);
  base64_decode = λ text. some (replicate 32 1);
}

abbrev response_with : List ℕ → Response
response_with nonce = record {
  key = replicate 32 9;
  expected_device_id = codes "dev";
  path = codes "/v1/t";
  query = [];
  now_utc_ms = pos 1710000000000;
  headers = record {
    protocol = codes "pm-protocol/1.0.0";
    device_id = codes "dev";
    timestamp = codes "1710000100";
    nonce = nonce;
    content_sha256 = replicate 64 b'a';
    signature = replicate 44 b'x';
  };
  expected_content_sha256 = replicate 64 b'a';
}

abbrev first_response : Response
first_response = response_with (replicate 16 b'1')

abbrev other_responses : List Response
other_responses = response_with (replicate 20 b'2') ∷ first_response ∷ []

first_accepted : is_ok (verified crypto first_response empty_cache).0 ≡ true
unfolding verify_response_digest response_checks build_canonical canonical_query
    lowercase_hex_sha256 whole_strtoll ◌-ℤ◌ div_ℤ constant_time_equal difference_from nonce_accept
    is_cached query_parts
first_accepted = refl

one_accepted :
    (verify_all crypto other_responses (verified crypto first_response empty_cache).1).0 ≡ 1
unfolding verify_all verify_response_digest response_checks build_canonical canonical_query
    lowercase_hex_sha256 whole_strtoll ◌-ℤ◌ div_ℤ constant_time_equal difference_from nonce_accept
    is_cached query_parts
one_accepted = refl

nothing_before : verify_all crypto [] empty_cache ≡ (0, empty_cache)
unfolding verify_all
nothing_before = refl

response_accepted_once_example :
    is_ok
      (verified crypto first_response
        (verify_all crypto other_responses
          (verified crypto first_response (verify_all crypto [] empty_cache).1).1).1).0
    ≡ false
response_accepted_once_example =
    response_accepted_once crypto [] first_response other_responses first_response
      (rw nothing_before first_accepted) (rw nothing_before (omega (arith, one_accepted))) refl
