-- ===== src/Config/Steps.antt =====
-- Loading, staging and committing a configuration.
use power_monitor_sensor_hea.Base.{ℕ, Bool, false, not, ◌&&◌, ◌||◌, ◌==◌, if◌then◌else◌}
use power_monitor_sensor_hea.Base.Esp.{
  EspErr, ok, fail, no_mem, invalid_state, invalid_size, not_found, is_ok, is_nvs_not_found,
}
use power_monitor_sensor_hea.Nvs.{Nvs, NvsKey, slot_a, slot_b, on_ok}
use power_monitor_sensor_hea.Protocol.{constant_time_equal}
use power_monitor_sensor_hea.Config.Lock.{
  Lock, claim_new_transaction, claim_transaction_mutation, finish_mutation, release_transaction,
  transaction_is_active,
}
use power_monitor_sensor_hea.Config.Types.{
  DeviceConfig, zero_config, Target, Transaction, zero_transaction, readback_verified,
  network_tested, committed, is_readback_verified, is_network_tested, same_bytes, schema,
  config_crc, config_validate,
}

abbrev pub is_slot : ℕ → Bool
is_slot slot = slot == b'A' || slot == b'B'

-- The key of a selector that was tested.
abbrev pub active_key : ℕ → NvsKey
active_key active = if active == b'B' then slot_b else slot_a

-- The copy that is staged.
unfoldable pub stamped : Target → DeviceConfig → DeviceConfig
stamped target candidate =
    let staged = record candidate { schema_version = schema } in
    record staged { crc32 = config_crc target staged }

unfoldable pub restaging : Transaction → Bool
restaging t =
    is_readback_verified t.stage && not (t.transaction_id == 0) && is_slot t.candidate_slot

unfoldable pub claim_begin : Transaction → Lock → Bool × ℕ × Lock
claim_begin t lock =
    if restaging t
    then (let (claimed, lock1) = claim_transaction_mutation t.transaction_id lock in
        (claimed, t.transaction_id, lock1))
    else claim_new_transaction lock

-- The slot to write, and whether it may be written, from the result of reading the selector.
unfoldable pub inactive_slot : Transaction → ℕ → ℕ
inactive_slot t active =
    if restaging t then t.candidate_slot else if active == b'A' then b'B' else b'A'

unfoldable pub selector_error : Transaction → EspErr → ℕ → EspErr
selector_error t found active =
    if restaging t && active == inactive_slot t active
    then invalid_state
    else if is_nvs_not_found found
    then ok
    else if not (is_ok found)
    then found
    else if not (is_slot active)
    then invalid_state
    else ok

unfoldable pub mark_network_tested : Transaction → Lock → EspErr × Transaction
mark_network_tested t lock =
    if is_readback_verified t.stage && transaction_is_active t.transaction_id lock
    then (ok, record t { stage = network_tested })
    else (invalid_state, t)

unfoldable pub config_abort : Transaction → Lock → Transaction × Lock
config_abort t lock = (zero_transaction, release_transaction t.transaction_id lock)

module _ {S : Type 0} (target : Target) (nvs : Nvs S DeviceConfig) where
  unfoldable pub read_slot : NvsKey → S → EspErr × DeviceConfig × S
  read_slot key store =
      let (error, length, config, store1) = nvs.get_blob key store in
      let checked =
        if not (is_ok error)
        then error
        else if length == target.size
        then config_validate target config false
        else invalid_size in
      (checked, if is_ok checked then config else zero_config, store1)

  unfoldable pub config_load : S → EspErr × DeviceConfig × S
  config_load store =
      let (opened, store1) = nvs.open_nvs store in
      let (found, active, store2) = nvs.get_u8 store1 in
      if not (is_ok opened)
      then (opened, zero_config, store1)
      else if is_nvs_not_found found
      then (not_found, zero_config, store2)
      else if not (is_ok found)
      then (found, zero_config, store2)
      else if not (is_slot active)
      then (invalid_state, zero_config, store2)
      else read_slot (active_key active) store2

  -- The read back of what was staged.
  unfoldable pub verify_staged : NvsKey → DeviceConfig → S → EspErr × S
  verify_staged key staged store =
      let (error, verified, store1) = read_slot key store in
      (
        if is_ok error
              && not (same_bytes (target.object_bytes verified) (target.object_bytes staged))
            then fail
            else error,
        store1,
      )

  unfoldable pub write_staged : NvsKey → DeviceConfig → S → EspErr × S
  write_staged key staged store =
      on_ok (on_ok (nvs.set_blob key staged store) nvs.commit) (verify_staged key staged)

  -- The work between the claim and its release: the slot that was chosen comes with the result.
  unfoldable pub stage_candidate : Transaction → DeviceConfig → S → EspErr × ℕ × S
  stage_candidate t staged store =
      let (opened, store1) = nvs.open_nvs store in
      let (found, selector, store2) = nvs.get_u8 store1 in
      let active = if is_ok found then selector else b'A' in
      let inactive = inactive_slot t active in
      let refused = selector_error t found active in
      let (error, store3) = write_staged (active_key inactive) staged store2 in
      if not (is_ok opened)
      then (opened, inactive, store1)
      else if not (is_ok refused)
      then (refused, inactive, store2)
      else (error, inactive, store3)

  unfoldable pub config_begin :
      Bool → DeviceConfig → Transaction → Lock → S → EspErr × Transaction × Lock × S
  config_begin memory candidate t lock store =
      let staged = stamped target candidate in
      let valid = config_validate target staged false in
      let (claimed, transaction_id, lock1) = claim_begin t lock in
      let (error, slot, store1) = stage_candidate t staged store in
      if not memory
      then (no_mem, t, lock, store)
      else if not (is_ok valid)
      then (valid, t, lock, store)
      else if not claimed
      then (invalid_state, t, lock, store)
      else if is_ok error
      then (
        ok,
        record {
          stage = readback_verified;
          candidate_generation = staged.generation;
          transaction_id = transaction_id;
          candidate_slot = slot;
          candidate_sha256 = target.sha256 (target.object_bytes staged);
        },
        finish_mutation lock1,
        store1,
      )
      else (error, zero_transaction, release_transaction transaction_id lock1, store1)

  -- The candidate is read again, and is the one that was staged.
  unfoldable pub check_candidate : Transaction → S → EspErr × S
  check_candidate t store =
      let (error, candidate, store1) = read_slot (active_key t.candidate_slot) store in
      (
        if not (is_ok error)
            then error
            else if candidate.generation == t.candidate_generation
                && constant_time_equal (target.sha256 (target.object_bytes candidate))
                    t.candidate_sha256
            then ok
            else invalid_state,
        store1,
      )

  unfoldable pub select_candidate : Transaction → S → EspErr × S
  select_candidate t store =
      on_ok (on_ok (on_ok (nvs.open_nvs store) (check_candidate t)) (nvs.set_u8 t.candidate_slot))
        nvs.commit

  unfoldable pub config_commit : Bool → Transaction → Lock → S → EspErr × Transaction × Lock × S
  config_commit memory t lock store =
      let (claimed, lock1) = claim_transaction_mutation t.transaction_id lock in
      let (error, store1) = select_candidate t store in
      if not (is_network_tested t.stage) || t.transaction_id == 0 || not (is_slot t.candidate_slot)
      then (invalid_state, t, lock, store)
      else if not memory
      then (no_mem, t, lock, store)
      else if not claimed
      then (invalid_state, t, lock, store)
      else (
        error,
        if is_ok error then record zero_transaction { stage = committed } else zero_transaction,
        release_transaction t.transaction_id lock1,
        store1,
      )
