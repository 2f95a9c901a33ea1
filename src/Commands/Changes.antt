-- ===== src/Commands/Changes.antt =====
-- Changes of a command that is in the ledger, and what is done with one after a reset.
use power_monitor_sensor_hea.Base.{
  ℕ, suc, Bool, true, false, not, ◌&&◌, ◌||◌, ◌==◌, ltb, leb, if◌then◌else◌, Option, none, some,
  List, [], ◌∷◌, map, length, get_or, set,
}
use power_monitor_sensor_hea.Base.Int.{ℤ}
use power_monitor_sensor_hea.Base.Esp.{
  EspErr, ok, no_mem, invalid_arg, invalid_state, not_found, is_ok,
}
use power_monitor_sensor_hea.Commands.{
  Command, Ledger, Platform, BootAction, ignore, requeue, fail_interrupted, complete_reboot,
  reconcile_ota, type_reboot, type_diagnostics_snapshot, type_network_self_test,
  type_meter_self_test, type_ota_install, type_count, accepted, running, succeeded, failed, expired,
  cancelled, awaiting_reboot, awaiting_heartbeat, rolled_back, id_max, result_max,
}
use power_monitor_sensor_hea.Commands.Steps.{blank, is_empty, same_text, command_terminal, persist}

-- The test that command_transition_locked makes in its place: without `superseded`.
unfoldable pub transition_terminal : ℕ → Bool
transition_terminal state =
    state == succeeded
    || state == failed
    || state == expired
    || state == cancelled
    || state == rolled_back

unfoldable pub boot_action : Command → BootAction
boot_action command =
    if leb type_count command.type
    then ignore
    else if command.state == accepted || command.state == running
    then (if command.state == running && command.type == type_ota_install
        then reconcile_ota
        else if command.type == type_diagnostics_snapshot
            || command.type == type_network_self_test
            || command.type == type_meter_self_test
        then requeue
        else fail_interrupted)
    else if command.state == awaiting_reboot
    then (if command.type == type_reboot
        then complete_reboot
        else if command.type == type_ota_install
        then reconcile_ota
        else fail_interrupted)
    else if command.state == awaiting_heartbeat
    then fail_interrupted
    else ignore

-- The first entry with the id.
unfoldable pub find_id : List Command → ℕ → List ℕ → Option ℕ
find_id [] i id = none
find_id (e ∷ es) i id =
    let rest = find_id es (suc i) id in if same_text e.command_id id then some i else rest

module _ {S : Type 0} (platform : Platform S) where
  -- A change of one entry that is taken back when it cannot be written.
  unfoldable pub change_entry : Bool → Ledger → ℕ → Command → S → EspErr × Ledger × S
  change_entry memory ledger i changed store =
      if not memory
      then (no_mem, ledger, store)
      else (let previous = get_or ledger.entries i blank in
          let (error, written, store1) =
            persist platform (record ledger { entries = set ledger.entries i changed }) store in
          if not (is_ok error)
          then (
            error,
            record written {
              entries = set written.entries i previous;
              generation = ledger.generation;
              crc32 = ledger.crc32;
            },
            store1,
          )
          else (ok, written, store1))

  unfoldable pub command_transition : Bool → Ledger → ℕ → ℕ → ℕ → ℤ → S → EspErr × Ledger × S
  command_transition memory ledger i state progress_percent result_code store =
      let command = get_or ledger.entries i blank in
      if ltb rolled_back state
        || ltb 100 progress_percent
        || ltb progress_percent command.progress_percent
      then (invalid_arg, ledger, store)
      else if transition_terminal command.state && not (state == command.state)
      then (invalid_state, ledger, store)
      else change_entry memory ledger i
          (record command {
            state = state;
            progress_percent = progress_percent;
            result_code = result_code;
          })
          store

  unfoldable pub command_acknowledge_result : Ledger → List ℕ → S → EspErr × Ledger × S
  command_acknowledge_result ledger id store =
      if not (length id == id_max)
      then (invalid_arg, ledger, store)
      else elim (find_id ledger.entries 0 id) [
        | none ↦ (not_found, ledger, store)
        | some i ↦
            let command = get_or ledger.entries i blank in
            if not (command.state == succeeded)
            then (invalid_state, ledger, store)
            else if not command.result_ack_required
            then (ok, ledger, store)
            else change_entry true ledger i (record command { result_ack_required = false }) store
      ]

  unfoldable pub command_zeroize_payload : Ledger → ℕ → S → EspErr × Ledger × S
  command_zeroize_payload ledger i store =
      let command = get_or ledger.entries i blank in
      if is_empty command.command_id
      then (invalid_arg, ledger, store)
      else if command.payload_redacted
      then persist platform ledger store
      else persist platform
          (record ledger {
            entries = set ledger.entries i (record command {
              payload = map (λ b. 0) command.payload;
              payload_redacted = true;
            });
          })
          store

  unfoldable pub command_reconcile_boot :
      Bool → Ledger → ℕ → ℕ → ℤ → List ℕ → S → EspErr × Ledger × S
  command_reconcile_boot memory ledger i state result_code text store =
      let command = get_or ledger.entries i blank in
      if ltb result_max (length text)
        || not (state == succeeded || state == failed || state == rolled_back)
        || command_terminal command.state
      then (invalid_arg, ledger, store)
      else change_entry memory ledger i
          (record command {
            state = state;
            progress_percent = if state == succeeded then 100 else command.progress_percent;
            result_code = result_code;
            result_text = text;
            evidence_json = [];
          })
          store
