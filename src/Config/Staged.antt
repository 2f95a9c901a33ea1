-- ===== src/Config/Staged.antt =====
-- The operations on a staged slot that no transaction owns.
use power_monitor_sensor_hea.Base.{
  ℕ, Bool, not, ◌&&◌, ◌||◌, ◌==◌, if◌then◌else◌, Option, none, some,
}
use power_monitor_sensor_hea.Base.Esp.{
  EspErr, ok, no_mem, invalid_arg, invalid_state, is_ok, is_nvs_not_found,
}
use power_monitor_sensor_hea.Nvs.{Nvs, NvsKey, slot_a, slot_b, on_ok}
use power_monitor_sensor_hea.Config.Lock.{Lock, claim_unowned_mutation, finish_mutation}
use power_monitor_sensor_hea.Config.Types.{DeviceConfig, zero_config, Target, slot_key}
use power_monitor_sensor_hea.Config.Steps.{is_slot, read_slot}

-- The key that is not selected.
abbrev pub other_key : ℕ → NvsKey
other_key active = if active == b'A' then slot_b else slot_a

module _ {S : Type 0} (target : Target) (nvs : Nvs S DeviceConfig) where
  unfoldable pub erase_and_commit : NvsKey → S → EspErr × S
  erase_and_commit key store = on_ok (nvs.erase_key key store) nvs.commit

  -- Claim, open, work, finish.
  unfoldable pub unowned : (S → EspErr × S) → Lock → S → EspErr × Lock × S
  unowned work lock store =
      let (claimed, lock1) = claim_unowned_mutation lock in
      let (opened, store1) = nvs.open_nvs store in
      let (error, store2) = work store1 in
      if not claimed
      then (invalid_state, lock, store)
      else if not (is_ok opened)
      then (opened, finish_mutation lock1, store1)
      else (error, finish_mutation lock1, store2)

  abbrev pub load_key : Option NvsKey → ℕ → S → EspErr × DeviceConfig × S
  load_key none generation store = (invalid_arg, zero_config, store)
  load_key (some key) generation store =
      let (opened, store1) = nvs.open_nvs store in
      let (error, config, store2) = read_slot target nvs key store1 in
      if generation == 0
      then (invalid_arg, zero_config, store)
      else if not (is_ok opened)
      then (opened, zero_config, store1)
      else if is_ok error && not (config.generation == generation)
      then (invalid_state, zero_config, store2)
      else (error, config, store2)

  -- Where the arguments are wrong, `*config` is left alone: the configuration counts only with the others.
  unfoldable pub load_staged : ℕ → ℕ → S → EspErr × DeviceConfig × S
  load_staged slot expected_generation store = load_key (slot_key slot) expected_generation store

  unfoldable pub activate_work : NvsKey → ℕ → ℕ → S → EspErr × S
  activate_work key slot generation store =
      let (error, candidate, store1) = read_slot target nvs key store in
      let (found, active, store2) = nvs.get_u8 store1 in
      if not (is_ok error)
      then (error, store1)
      else if not (candidate.generation == generation)
      then (invalid_state, store1)
      else if is_ok found && not (active == slot)
      then on_ok (nvs.set_u8 slot store2) nvs.commit
      else (found, store2)

  unfoldable pub discard_work : NvsKey → ℕ → ℕ → S → EspErr × S
  discard_work key slot generation store =
      let (found, active, store1) = nvs.get_u8 store in
      let (error, candidate, store2) = read_slot target nvs key store1 in
      if not (is_ok found)
      then (found, store1)
      else if active == slot
      then (invalid_state, store1)
      else if is_nvs_not_found error
      then (ok, store2)
      else if is_ok error && not (candidate.generation == generation)
      then (invalid_state, store2)
      else if is_ok error
      then erase_and_commit key store2
      else (error, store2)

  unfoldable pub discard_inactive_work : ℕ → S → EspErr × S
  discard_inactive_work generation store =
      let (found, active, store1) = nvs.get_u8 store in
      let (error, candidate, store2) = read_slot target nvs (other_key active) store1 in
      if not (is_ok found)
      then (found, store1)
      else if not (is_slot active)
      then (invalid_state, store1)
      else if is_nvs_not_found error || (is_ok error && not (candidate.generation == generation))
      then (ok, store2)
      else if is_ok error
      then erase_and_commit (other_key active) store2
      else (error, store2)

  -- A key that was not there counts as erased.
  unfoldable pub erase_inactive_work : S → EspErr × S
  erase_inactive_work store =
      let (found, active, store1) = nvs.get_u8 store in
      let (erased, store2) = nvs.erase_key (other_key active) store1 in
      if not (is_ok found)
      then (found, store1)
      else if not (is_slot active)
      then (invalid_state, store1)
      else on_ok (if is_nvs_not_found erased then ok else erased, store2) nvs.commit

  -- The tests on the arguments and the heap come before the claim.
  abbrev pub checked_work :
      Option NvsKey → ℕ → Bool → (NvsKey → S → EspErr × S) → Lock → S → EspErr × Lock × S
  checked_work none generation memory work lock store = (invalid_arg, lock, store)
  checked_work (some key) generation memory work lock store =
      if generation == 0
      then (invalid_arg, lock, store)
      else if not memory
      then (no_mem, lock, store)
      else unowned (work key) lock store

  unfoldable pub activate_staged : Bool → ℕ → ℕ → Lock → S → EspErr × Lock × S
  activate_staged memory slot expected_generation lock store =
      checked_work (slot_key slot) expected_generation memory
        (λ key. activate_work key slot expected_generation) lock store

  unfoldable pub discard_staged : Bool → ℕ → ℕ → Lock → S → EspErr × Lock × S
  discard_staged memory slot expected_generation lock store =
      checked_work (slot_key slot) expected_generation memory
        (λ key. discard_work key slot expected_generation) lock store

  unfoldable pub discard_inactive_generation : Bool → ℕ → Lock → S → EspErr × Lock × S
  discard_inactive_generation memory expected_generation lock store =
      if expected_generation == 0
      then (invalid_arg, lock, store)
      else if not memory
      then (no_mem, lock, store)
      else unowned (discard_inactive_work expected_generation) lock store

  unfoldable pub erase_inactive : Lock → S → EspErr × Lock × S
  erase_inactive lock store = unowned erase_inactive_work lock store
