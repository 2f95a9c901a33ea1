-- ===== src/Config/Tests.antt =====
-- Configurations on a flash store in memory.
use Prim.Native.String.{String}
use power_monitor_sensor_hea.Base.{ℕ, ◌≡◌, refl, true, false, none, some, List, [], ◌∷◌, ◌++◌}
use power_monitor_sensor_hea.Base.Esp.{EspErr, ok, invalid_state}
use power_monitor_sensor_hea.Crc32.{crc32_ieee, crc32_from, crc32_bits, crc32_bit}
use power_monitor_sensor_hea.HttpResponse.{codes}
use power_monitor_sensor_hea.Protocol.{constant_time_equal, difference_from}
use power_monitor_sensor_hea.Nvs.Memory.{
  Memory, memory, memory-IsNvs, memory-IsNvs_selected, memory-IsNvs_held,
}
use power_monitor_sensor_hea.Nvs.{slot_a}
use power_monitor_sensor_hea.Config.Types.{
  DeviceConfig, zero_config, Target, Transaction, zero_transaction, readback_verified,
  is_network_tested, config_crc, config_validate, secret_field_name,
}
use power_monitor_sensor_hea.Config.Lock.{
  Lock, initial_lock, claim_new_transaction, claim_transaction_mutation, claim_unowned_mutation,
  finish_mutation, release_transaction, transaction_is_active,
}
use power_monitor_sensor_hea.Config.Steps.{
  read_slot, config_load, stamped, restaging, claim_begin, inactive_slot, selector_error,
  verify_staged, write_staged, stage_candidate, config_begin, mark_network_tested, check_candidate,
  select_candidate, config_commit,
}
use power_monitor_sensor_hea.Config.Staged.{
  erase_and_commit, unowned, discard_inactive_work, erase_inactive_work,
  discard_inactive_generation, erase_inactive,
}
use power_monitor_sensor_hea.Config.InForce.{Bootable}
use power_monitor_sensor_hea.Config.Always.{
  Operation, begins, marks_tested, commits, discards_inactive, erases_inactive, perform,
  perform_all, CanRead, always_starts,
}
use power_monitor_sensor_hea.Config.Claims.{Owns}
use power_monitor_sensor_hea.Config.Owner.{lock_follows_transaction}
use power_monitor_sensor_hea.Config.Committed.{HoldsCandidate, config_commit_selects_tested}

-- Two numbers stand for the bytes of a configuration.
abbrev target : Target
target = record {
  crc_bytes = λ c. c.generation ∷ c.ct_rating_a ∷ [];
  object_bytes = λ c. c.generation ∷ c.ct_rating_a ∷ [];
  size = 4096;
  sha256 = λ bytes. bytes;
}

-- A text with its end.
abbrev text : String → List ℕ
text t = codes t ++ 0 ∷ []

abbrev candidate : DeviceConfig
candidate = record zero_config {
  generation = 7;
  friendly_name = text "Hall";
  wifi_ssid = text "home";
  server_origin = text "https://a";
  ca_pem = text "pem";
  timezone = text "UTC";
  ct_rating_a = 100;
  meter_variant = 1;
}

abbrev next_candidate : DeviceConfig
next_candidate = record candidate { generation = 8 }

abbrev Flash : Type 0
Flash = Memory DeviceConfig

-- The first configuration is in force.
abbrev in_force : Flash
in_force = record {
  blob_a = some (4096, stamped target candidate);
  blob_b = none;
  byte = some b'A';
}

abbrev replacement : List Operation
replacement =
    begins true next_candidate
    ∷ marks_tested
    ∷ commits true
    ∷ discards_inactive true 7
    ∷ erases_inactive
    ∷ []

in_force-Bootable :
    Bootable target (memory 4096 zero_config) (memory-IsNvs 4096 zero_config) in_force
unfolding Bootable stamped config_crc config_validate crc32_ieee crc32_from crc32_bits crc32_bit
in_force-Bootable = (
  b'A',
  stamped target candidate,
  memory-IsNvs_selected 4096 zero_config in_force,
  refl,
  memory-IsNvs_held 4096 zero_config in_force slot_a,
  refl,
)

abbrev after_replacement : Transaction × Lock × Flash
after_replacement =
    perform_all target (memory 4096 zero_config) replacement zero_transaction initial_lock in_force

-- The second configuration has replaced the first, and its slot is the only one left.
replaced : after_replacement.2 ≡ record {
  blob_a = none;
  blob_b = some (4096, stamped target next_candidate);
  byte = some b'B';
}
unfolding perform_all perform config_begin stage_candidate write_staged verify_staged read_slot
    inactive_slot selector_error claim_begin restaging stamped claim_new_transaction
    claim_transaction_mutation claim_unowned_mutation finish_mutation release_transaction
    transaction_is_active mark_network_tested config_commit select_candidate check_candidate
    constant_time_equal difference_from discard_inactive_generation discard_inactive_work
    erase_inactive erase_inactive_work erase_and_commit unowned config_crc config_validate
    crc32_ieee crc32_from crc32_bits crc32_bit
replaced = refl

can_read : CanRead target (memory 4096 zero_config) after_replacement.2
can_read = rw replaced (refl, refl, refl)

always_starts_example :
    ((config_load target (memory 4096 zero_config) after_replacement.2).0 ≡ ok)
    × (config_validate target
          (config_load target (memory 4096 zero_config) after_replacement.2).1
          false
        ≡ ok)
always_starts_example =
    always_starts target (memory 4096 zero_config) (memory-IsNvs 4096 zero_config) replacement
      zero_transaction initial_lock in_force in_force-Bootable can_read

unlocked : Owns zero_transaction initial_lock
unfolding Owns
unlocked = (refl, refl)

lock_follows_transaction_example : Owns after_replacement.0 after_replacement.1
lock_follows_transaction_example =
    lock_follows_transaction target (memory 4096 zero_config) replacement zero_transaction
      initial_lock in_force unlocked

abbrev tested : Transaction × Lock × Flash
tested =
    perform_all target (memory 4096 zero_config) (begins true next_candidate ∷ marks_tested ∷ [])
      zero_transaction initial_lock in_force

abbrev tested_commit : EspErr × Transaction × Lock × Flash
tested_commit = config_commit target (memory 4096 zero_config) true tested.0 tested.1 tested.2

commits_tested : tested_commit.0 ≡ ok
unfolding perform_all perform config_begin stage_candidate write_staged verify_staged read_slot
    inactive_slot selector_error claim_begin restaging stamped claim_new_transaction
    claim_transaction_mutation finish_mutation release_transaction transaction_is_active
    mark_network_tested config_commit select_candidate check_candidate constant_time_equal
    difference_from config_crc config_validate crc32_ieee crc32_from crc32_bits crc32_bit
commits_tested = refl

config_commit_selects_tested_example :
    (is_network_tested tested.0.stage ≡ true)
    × ((memory-IsNvs 4096 zero_config).selected tested_commit.3 ≡ some tested.0.candidate_slot)
    × HoldsCandidate target
        (memory 4096 zero_config)
        (memory-IsNvs 4096 zero_config)
        tested.0
        tested_commit.3
config_commit_selects_tested_example =
    config_commit_selects_tested target (memory 4096 zero_config) (memory-IsNvs 4096 zero_config)
      true tested.0 tested.1 tested.2 commits_tested

-- A configuration that is not marked as tested cannot be committed.
refuses_untested :
    (config_commit target
      (memory 4096 zero_config)
      true
      (record zero_transaction { stage = readback_verified })
      initial_lock
      in_force).0
    ≡ invalid_state
unfolding config_commit
refuses_untested = refl

hides_secret : secret_field_name (codes "hmac_key") ≡ true
unfolding secret_field_name
hides_secret = refl
