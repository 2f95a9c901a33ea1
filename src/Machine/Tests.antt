-- ===== src/Machine/Tests.antt =====
-- Runs of the state machine, and its theorems at concrete inputs.
use power_monitor_sensor_hea.Base.{◌≡◌, refl, ◌⊎◌, true, false, if◌then◌else◌, List, [], ◌∷◌}
use power_monitor_sensor_hea.Base.Int.{ℤ, pos}
use power_monitor_sensor_hea.Machine.{
  State, Event, Machine, boot, self_test, running, network, meter, bootstrap, ota_available,
  ota_started, ota_finished, self_test_ok, wifi_connected, transition, init, run, health_set,
}
use power_monitor_sensor_hea.Machine.Edges.{
  Edge, begin, Noted, Edge-transition, transition-Edge, transition_bookkeeping,
}
use power_monitor_sensor_hea.Machine.Traces.{Seen, reboot_needs_update}
use power_monitor_sensor_hea.Machine.Health.{is_healthy, same_flag, is_healthy-health_set}

abbrev fresh : Machine
fresh = record {
  state = boot;
  health_flags = 0;
  transition_count = 0;
  entered_monotonic_us = pos 5;
}

abbrev updated : List (Event × ℤ)
updated =
    (bootstrap, pos 10)
    ∷ (self_test_ok, pos 20)
    ∷ (wifi_connected, pos 30)
    ∷ (ota_available, pos 40)
    ∷ (ota_started, pos 50)
    ∷ (ota_finished, pos 60)
    ∷ []

updated_reboots : (run (init (pos 5)) updated).state ≡ State.safe_reboot
unfolding run transition init
updated_reboots = refl

boots_to_running :
    (run
      (init (pos 5))
      ((bootstrap, pos 10) ∷ (self_test_ok, pos 20) ∷ (wifi_connected, pos 30) ∷ []))
    ≡ record {
      state = running;
      health_flags = 0;
      transition_count = 3;
      entered_monotonic_us = pos 30;
    }
unfolding run transition init
boots_to_running = refl

Edge-transition_example :
    ((transition fresh bootstrap (pos 9)).1 ≡ true)
    × ((transition fresh bootstrap (pos 9)).0.state ≡ self_test)
Edge-transition_example = Edge-transition fresh (pos 9) begin

transition-Edge_example : Edge boot bootstrap (transition fresh bootstrap (pos 9)).0.state
transition-Edge_example = transition-Edge fresh bootstrap (pos 9) (unfold transition in refl)

transition_bookkeeping_example :
    ((transition fresh bootstrap (pos 9)).1 ≡ false
      → (transition fresh bootstrap (pos 9)).0 ≡ fresh)
    × Noted fresh (pos 9) (transition fresh bootstrap (pos 9)).0
transition_bookkeeping_example = transition_bookkeeping fresh bootstrap (pos 9)

reboot_needs_update_example :
    Seen (Event.safe_reboot ∷ []) updated
    ⊎ Seen (ota_available ∷ ota_started ∷ ota_finished ∷ []) updated
reboot_needs_update_example = reboot_needs_update (pos 5) updated updated_reboots

is_healthy-health_set_example :
    (is_healthy (health_set fresh network true) meter
      ≡ (if same_flag network meter then true else is_healthy fresh meter))
    × ((health_set fresh network true).state ≡ boot)
    × ((health_set fresh network true).transition_count ≡ 0)
    × ((health_set fresh network true).entered_monotonic_us ≡ pos 5)
is_healthy-health_set_example = is_healthy-health_set fresh network meter true
