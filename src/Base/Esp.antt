-- ===== src/Base/Esp.antt =====
-- The result codes of ESP-IDF that the components return, and the C enumeration's fallback.
use Prim.Native.Nat.{ℕ}
use mathlib.Core.Bool.{Bool, true, false}

-- esp_err_t; `other` is any further code that a callee of the components may return.
pub data EspErr : Type 0 where
  ok fail no_mem invalid_arg invalid_state invalid_size not_found not_supported timeout : EspErr
  invalid_response invalid_crc nvs_not_found : EspErr
  other : ℕ → EspErr

-- `error == ESP_OK`
abbrev pub is_ok : EspErr → Bool
is_ok ok = true
is_ok _ = false

-- `error == ESP_ERR_NVS_NOT_FOUND`
abbrev pub is_nvs_not_found : EspErr → Bool
is_nvs_not_found nvs_not_found = true
is_nvs_not_found _ = false
