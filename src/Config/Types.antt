-- ===== src/Config/Types.antt =====
-- Configurations, their validity and the transactions on them.
use power_monitor_sensor_hea.Base.{
  ℕ, Bool, true, false, not, ◌&&◌, ◌||◌, ◌==◌, ltb, if◌then◌else◌, Option, none, some, List, [],
  ◌∷◌, replicate,
}
use power_monitor_sensor_hea.Base.Esp.{
  EspErr, ok, invalid_arg, invalid_size, invalid_crc, not_supported,
}
use power_monitor_sensor_hea.Crc32.{crc32_ieee}
use power_monitor_sensor_hea.HttpResponse.{codes}
use power_monitor_sensor_hea.Nvs.{NvsKey, slot_a, slot_b}

-- pm_config_t
pub record DeviceConfig : Type 0 where
  pub schema_version : ℕ  -- uint32_t
  pub generation : ℕ  -- uint32_t
  pub device_id : List ℕ
  pub friendly_name : List ℕ
  pub wifi_ssid : List ℕ
  pub wifi_password : List ℕ
  pub ipv4_mode : ℕ
  pub ipv4_address : ℕ  -- uint32_t
  pub ipv4_gateway : ℕ  -- uint32_t
  pub ipv4_netmask : ℕ  -- uint32_t
  pub dns_primary : ℕ  -- uint32_t
  pub dns_secondary : ℕ  -- uint32_t
  pub server_origin : List ℕ
  pub ca_pem : List ℕ
  pub timezone : List ℕ
  pub ct_rating_a : ℕ  -- uint16_t
  pub meter_variant : ℕ
  pub device_secret : List ℕ
  pub device_secret_len : ℕ  -- uint8_t
  pub sequence_floor : ℕ  -- uint64_t
  pub acknowledged_sequence : ℕ  -- uint64_t
  pub reset_generation : ℕ  -- uint32_t
  pub crc32 : ℕ  -- uint32_t

abbrev pub schema : ℕ
schema = 1

abbrev pub secret_max : ℕ
secret_max = 32

abbrev pub ipv4_static : ℕ
ipv4_static = 1

abbrev pub pzem004t_v4_classic : ℕ
pzem004t_v4_classic = 1

-- secure_zero(config, sizeof(*config))
abbrev pub zero_config : DeviceConfig
zero_config = record {
  schema_version = 0;
  generation = 0;
  device_id = replicate 16 0;
  friendly_name = replicate 49 0;
  wifi_ssid = replicate 33 0;
  wifi_password = replicate 64 0;
  ipv4_mode = 0;
  ipv4_address = 0;
  ipv4_gateway = 0;
  ipv4_netmask = 0;
  dns_primary = 0;
  dns_secondary = 0;
  server_origin = replicate 193 0;
  ca_pem = replicate 4097 0;
  timezone = replicate 65 0;
  ct_rating_a = 0;
  meter_variant = 0;
  device_secret = replicate 32 0;
  device_secret_len = 0;
  sequence_floor = 0;
  acknowledged_sequence = 0;
  reset_generation = 0;
  crc32 = 0;
}

-- pm_config_stage_t
pub data ConfigStage : Type 0 where
  stage_none validated written_inactive readback_verified network_tested committed : ConfigStage

-- pm_config_transaction_t; `candidate_slot` is a character.
pub record Transaction : Type 0 where
  pub stage : ConfigStage
  pub candidate_generation : ℕ  -- uint32_t
  pub transaction_id : ℕ  -- uint32_t
  pub candidate_slot : ℕ
  pub candidate_sha256 : List ℕ

abbrev pub zero_transaction : Transaction
zero_transaction = record {
  stage = stage_none;
  candidate_generation = 0;
  transaction_id = 0;
  candidate_slot = 0;
  candidate_sha256 = replicate 32 0;
}

abbrev pub is_readback_verified : ConfigStage → Bool
is_readback_verified readback_verified = true
is_readback_verified _ = false

abbrev pub is_network_tested : ConfigStage → Bool
is_network_tested network_tested = true
is_network_tested _ = false

-- What is not the repository's: `crc_bytes` are the bytes before `crc32`.
pub record Target : Type 0 where
  pub crc_bytes : DeviceConfig → List ℕ
  pub object_bytes : DeviceConfig → List ℕ
  pub size : ℕ
  pub sha256 : List ℕ → List ℕ

-- memchr(value, '\0', capacity) != NULL
abbrev pub nul_terminated : List ℕ → Bool
nul_terminated [] = false
nul_terminated (c ∷ cs) = c == 0 || nul_terminated cs

-- value[0] == '\0'
abbrev pub is_blank : List ℕ → Bool
is_blank [] = true
is_blank (c ∷ cs) = c == 0

-- strncmp(value, prefix, strlen(prefix)) == 0
abbrev pub has_prefix : List ℕ → List ℕ → Bool
has_prefix [] text = true
has_prefix (p ∷ ps) [] = false
has_prefix (p ∷ ps) (c ∷ cs) = c == p && has_prefix ps cs

-- memcmp(a, b, size) == 0
abbrev pub same_bytes : List ℕ → List ℕ → Bool
same_bytes [] [] = true
same_bytes [] (b ∷ bs) = false
same_bytes (a ∷ as_) [] = false
same_bytes (a ∷ as_) (b ∷ bs) = a == b && same_bytes as_ bs

unfoldable pub slot_key : ℕ → Option NvsKey
slot_key slot = if slot == b'A' then some slot_a else if slot == b'B' then some slot_b else none

-- The names for which a log or a report shows no value.
abbrev pub secrets : List (List ℕ)
secrets =
    codes "wifi_password"
    ∷ codes "enrollment_token"
    ∷ codes "device_secret"
    ∷ codes "hmac_key"
    ∷ codes "private_key"
    ∷ codes "session_cookie"
    ∷ codes "administrator_credential"
    ∷ []

abbrev pub is_one_of : List ℕ → List (List ℕ) → Bool
is_one_of name [] = false
is_one_of name (s ∷ ss) = let rest = is_one_of name ss in if same_bytes name s then true else rest

unfoldable pub secret_field_name : List ℕ → Bool
secret_field_name name = is_one_of name secrets

module _ (target : Target) where
  unfoldable pub config_crc : DeviceConfig → ℕ
  config_crc config = crc32_ieee (target.crc_bytes config)

  -- The tests of the strings, of the values, and of a fixed address.
  abbrev pub strings_end : DeviceConfig → Bool
  strings_end c =
      nul_terminated c.friendly_name
      && nul_terminated c.wifi_ssid
      && nul_terminated c.wifi_password
      && nul_terminated c.server_origin
      && nul_terminated c.ca_pem
      && nul_terminated c.timezone

  abbrev pub values_wrong : DeviceConfig → Bool
  values_wrong c =
      is_blank c.friendly_name
      || is_blank c.wifi_ssid
      || not (has_prefix (codes "https://") c.server_origin)
      || is_blank c.ca_pem
      || is_blank c.timezone
      || c.ct_rating_a == 0
      || ltb 100 c.ct_rating_a
      || ltb secret_max c.device_secret_len
      || ltb c.sequence_floor c.acknowledged_sequence

  abbrev pub address_wrong : DeviceConfig → Bool
  address_wrong c =
      c.ipv4_mode == ipv4_static
      && (c.ipv4_address == 0 || c.ipv4_gateway == 0 || c.ipv4_netmask == 0 || c.dns_primary == 0)

  unfoldable pub config_validate : DeviceConfig → Bool → EspErr
  config_validate c production_gate =
      if not (c.schema_version == schema) || not (c.crc32 == config_crc c)
      then invalid_crc
      else if not (strings_end c)
      then invalid_size
      else if values_wrong c
      then invalid_arg
      else if production_gate && not (c.meter_variant == pzem004t_v4_classic)
      then not_supported
      else if address_wrong c
      then invalid_arg
      else ok
