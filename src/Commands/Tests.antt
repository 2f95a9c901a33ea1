-- ===== src/Commands/Tests.antt =====
-- A flash store that logs what is written, a ledger with a running command, and the runs at them.
use power_monitor_sensor_hea.Base.{
  ◌≤◌, ◌≡◌, refl, arith, ◌⊎◌, true, false, List, [], ◌∷◌, get_or, replicate, some,
}
use power_monitor_sensor_hea.Base.Int.{pos}
use power_monitor_sensor_hea.Base.Esp.{ok}
use power_monitor_sensor_hea.Commands.{
  Command, Ledger, Platform, ignore, requeue, complete_reboot, reconcile_ota, accepted, running,
  awaiting_reboot, type_reboot, type_ota_install,
}
use power_monitor_sensor_hea.Commands.Steps.{
  blank, available, same_text, before_nul, command_terminal, find_entry, find_available, write_slot,
  sealed, persist, candidate, place_candidate, store_candidate, command_accept,
}
use power_monitor_sensor_hea.Commands.Changes.{boot_action}
use power_monitor_sensor_hea.Commands.Once.{Call, accept_all, accept_again_duplicate}
use power_monitor_sensor_hea.Commands.Boot.{boot_action_ignores, boot_action_replays}

abbrev flash : Platform (List Ledger)
flash = record {
  command_bytes = λ c. c.command_id;
  ledger_bytes = λ l. l.generation ∷ [];
  sha256 = λ text. text;
  nvs_open = λ s. (ok, s);
  nvs_set_blob = λ slot l s. (ok, l ∷ s);
  nvs_commit = λ s. (ok, s);
}

abbrev runs : Command
runs = record blank {
  command_id = 7 ∷ [];
  idempotency_key = 8 ∷ [];
  type = type_ota_install;
  state = running;
  progress_percent = 40;
}

abbrev held : Ledger
held = record { entries = runs ∷ replicate 7 blank; generation = 5; next = 0; crc32 = 0 }

abbrev arrives : Command
arrives = record blank {
  command_id = 1 ∷ [];
  idempotency_key = 2 ∷ [];
  type = 4;
  payload = 65 ∷ 0 ∷ 0 ∷ [];
  expires_utc_ms = pos 100;
}

-- It gets the first place that is free.
placed : (command_accept flash true held arrives (pos 10) []).1 ≡ some (1, false)
unfolding command_accept store_candidate place_candidate candidate persist write_slot sealed
    find_entry find_available same_text before_nul command_terminal
placed = refl

-- Another command, and one without an id.
abbrev calls : List Call
calls =
    (true, record arrives { command_id = 5 ∷ []; idempotency_key = 6 ∷ [] }, pos 11)
    ∷ (true, blank, pos 12)
    ∷ []

waits :
    available (get_or (command_accept flash true held arrives (pos 10) []).2.entries 1 blank)
    ≡ false
unfolding command_accept store_candidate place_candidate candidate persist write_slot sealed
    find_entry find_available same_text before_nul command_terminal
waits = refl

accept_again_duplicate_example :
    let written = (command_accept flash true held arrives (pos 10) []).2 in
    let (ledger3, store3) = accept_all flash calls written [] in
    command_accept flash true ledger3 arrives (pos 999) store3
    ≡ (ok, some (1, true), ledger3, store3)
accept_again_duplicate_example =
    accept_again_duplicate flash true true held arrives (pos 10) (pos 999) [] [] calls 1 refl placed
      waits

boot_action_ignores_example :
    (boot_action runs ≡ ignore → (command_terminal running ≡ true) ⊎ (running ≤ 1))
    × ((command_terminal running ≡ true) ⊎ (running ≤ 1) → boot_action runs ≡ ignore)
boot_action_ignores_example = boot_action_ignores runs (omega arith) (omega arith)

boot_action_replays_example :
    (boot_action runs ≡ requeue
      → ((running ≡ accepted) ⊎ (running ≡ running))
        × (3 ≤ type_ota_install)
        × (type_ota_install ≤ 5))
    × (boot_action runs ≡ complete_reboot
        → (running ≡ awaiting_reboot) × (type_ota_install ≡ type_reboot))
    × (boot_action runs ≡ reconcile_ota
        → ((running ≡ running) ⊎ (running ≡ awaiting_reboot))
          × (type_ota_install ≡ type_ota_install))
    × ((running ≡ running) ⊎ (running ≡ awaiting_reboot)
        → type_ota_install ≡ type_ota_install
        → boot_action runs ≡ reconcile_ota)
boot_action_replays_example = boot_action_replays runs
