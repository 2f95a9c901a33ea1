-- ===== src/Commands.antt =====
-- The ledger of commands: components/pm_commands/pm_commands.c and include/pm_commands.h.
-- A pointer to a command is its place among the ledger's entries, and pointers are never NULL. A
-- command_id or idempotency_key is the bytes before its NUL; the payload is the whole array. An
-- enumeration is its number. What the code gets from outside is the parameter `platform`: the bytes
-- of an object before its `crc32`, SHA-256, and the flash store. Whether malloc finds memory and what
-- the lock answers are arguments.
pub mod Steps
pub mod Changes
pub mod Entries
pub mod Accept
pub mod Replay
pub mod Search
pub mod Once
pub mod Change
pub mod Boot
pub mod Load
pub mod Locked
pub mod Names
mod Tests
use power_monitor_sensor_hea.Base.{
  ℕ, zero, suc, ◌+◌, ◌-◌, ◌/◌, ◌%◌, Bool, true, false, not, ◌&&◌, ◌||◌, ◌==◌, ltb, leb,
  if◌then◌else◌, Option, none, some, List, [], ◌∷◌, map, length, get_or, set, uint32_max,
}
use power_monitor_sensor_hea.Base.Int.{ℤ, pos, ltb_ℤ}
use power_monitor_sensor_hea.Base.Esp.{
  EspErr, ok, no_mem, invalid_arg, invalid_state, invalid_crc, not_found, timeout, is_ok,
}

-- pm_command_type_t: the types that the code names, and their number.
abbrev pub type_reboot : ℕ
type_reboot = 0

abbrev pub type_diagnostics_snapshot : ℕ
type_diagnostics_snapshot = 3

abbrev pub type_network_self_test : ℕ
type_network_self_test = 4

abbrev pub type_meter_self_test : ℕ
type_meter_self_test = 5

abbrev pub type_ota_install : ℕ
type_ota_install = 11

abbrev pub type_count : ℕ
type_count = 15

-- pm_command_state_t; `queued` is 0 and `delivered` is 1.
abbrev pub accepted : ℕ
accepted = 2

abbrev pub running : ℕ
running = 3

abbrev pub succeeded : ℕ
succeeded = 4

abbrev pub failed : ℕ
failed = 5

abbrev pub expired : ℕ
expired = 6

abbrev pub cancelled : ℕ
cancelled = 7

abbrev pub superseded : ℕ
superseded = 8

abbrev pub awaiting_reboot : ℕ
awaiting_reboot = 9

abbrev pub awaiting_heartbeat : ℕ
awaiting_heartbeat = 10

abbrev pub rolled_back : ℕ
rolled_back = 11

abbrev pub ledger_size : ℕ
ledger_size = 8

abbrev pub id_max : ℕ
id_max = 36

abbrev pub result_max : ℕ
result_max = 160

-- pm_command_t
pub record Command : Type 0 where
  pub command_id : List ℕ
  pub idempotency_key : List ℕ
  pub type : ℕ
  pub state : ℕ
  pub issued_utc_ms : ℤ
  pub not_before_utc_ms : ℤ
  pub expires_utc_ms : ℤ
  pub progress_percent : ℕ  -- uint8_t
  pub attempt : ℕ  -- uint8_t
  pub result_ack_required : Bool
  pub payload_redacted : Bool
  pub payload_sha256 : List ℕ
  pub payload : List ℕ
  pub result_text : List ℕ
  pub evidence_json : List ℕ
  pub result_code : ℤ
  pub crc32 : ℕ  -- uint32_t

-- pm_command_ledger_t
pub record Ledger : Type 0 where
  pub entries : List Command
  pub generation : ℕ  -- uint32_t
  pub next : ℕ  -- uint8_t
  pub crc32 : ℕ  -- uint32_t

-- pm_command_boot_action_t
pub data BootAction : Type 0 where
  ignore requeue fail_interrupted complete_reboot complete_wake reconcile_ota : BootAction

-- The two keys of the store.
pub data Slot : Type 0 where
  slot_a slot_b : Slot

-- The code outside: `S` is the state of the flash store.
pub record Platform (S : Type 0) : Type 0 where
  pub command_bytes : Command → List ℕ
  pub ledger_bytes : Ledger → List ℕ
  pub sha256 : List ℕ → List ℕ
  pub nvs_open : S → EspErr × S
  pub nvs_set_blob : Slot → Ledger → S → EspErr × S
  pub nvs_commit : S → EspErr × S
