-- ===== src/Machine.antt =====
-- The device's operating state machine: components/pm_config/pm_state.c and include/pm_state.h.
-- `now_us` is an int64_t, taken as an integer. The machine that a caller passes is never NULL, and
-- its state and the event are enumerators, so the tests for an invalid enumerator are left out.
pub mod Edges
pub mod Traces
pub mod Health
mod Tests
use Prim.Native.Nat.{bit_and, bit_or}
use power_monitor_sensor_hea.Base.{
  ℕ, ◌+◌, ◌-◌, ◌%◌, ◌^◌, Bool, true, false, not, ◌||◌, ◌==◌, if◌then◌else◌, List, [], ◌∷◌,
  uint32_max,
}
use power_monitor_sensor_hea.Base.Int.{ℤ}

-- pm_operating_state_t
pub data State : Type 0 where
  boot self_test unprovisioned_com connecting_wifi enrolling running : State
  degraded_network degraded_server degraded_meter ota_pending : State
  ota_installing recovery_com safe_reboot : State

-- pm_state_event_t
pub data Event : Type 0 where
  bootstrap self_test_ok self_test_failed config_missing config_valid wifi_connected : Event
  wifi_failed enrollment_required enrolled server_failed server_recovered meter_failed : Event
  meter_recovered ota_available ota_started ota_finished physical_recovery safe_reboot : Event

-- pm_health_flag_t
pub data HealthFlag : Type 0 where
  network server meter time : HealthFlag

pub State-discrete : Discrete State
State-discrete = hlevel

-- pm_state_machine_t; the counter and the flags are uint32_t.
pub record Machine : Type 0 where
  pub state : State
  pub health_flags : ℕ
  pub transition_count : ℕ
  pub entered_monotonic_us : ℤ

-- The enumerator's value.
abbrev pub flag_value : HealthFlag → ℕ
flag_value network = 1
flag_value server = 2
flag_value meter = 4
flag_value time = 8

-- The enumerator's value; `==` of two states compares these.
abbrev pub state_value : State → ℕ
state_value boot = 0
state_value self_test = 1
state_value unprovisioned_com = 2
state_value connecting_wifi = 3
state_value enrolling = 4
state_value running = 5
state_value degraded_network = 6
state_value degraded_server = 7
state_value degraded_meter = 8
state_value ota_pending = 9
state_value ota_installing = 10
state_value recovery_com = 11
state_value State.safe_reboot = 12

infix 50 ◌is◌
abbrev pub ◌is◌ : State → State → Bool
s is t = state_value s == state_value t

pub transition_to : Machine → State → ℤ → Machine
transition_to m next now_us =
    if not (m.state is next)
    then record m {
      state = next;
      transition_count = (m.transition_count + 1) % 2 ^ 32;
      entered_monotonic_us = now_us;
    }
    else m

unfoldable pub init : ℤ → Machine
init now_us = record {
  state = boot;
  health_flags = 0;
  transition_count = 0;
  entered_monotonic_us = now_us;
}

-- `condition && transition_to(machine, next, now_us)`
pub guarded : Bool → Machine → State → ℤ → Machine × Bool
guarded condition m next now_us =
    if condition then (transition_to m next now_us, true) else (m, false)

-- The `switch` of pm_state_transition.
unfoldable pub transition : Machine → Event → ℤ → Machine × Bool
unfolding guarded transition_to
transition m bootstrap now = guarded (m.state is boot) m self_test now
transition m self_test_ok now = guarded (m.state is self_test) m connecting_wifi now
transition m self_test_failed now = guarded (m.state is self_test) m recovery_com now
transition m config_missing now =
    guarded (m.state is boot || m.state is self_test) m unprovisioned_com now
transition m config_valid now =
    guarded
      (m.state is boot
        || m.state is self_test
        || m.state is recovery_com
        || m.state is unprovisioned_com)
      m connecting_wifi now
transition m wifi_connected now =
    guarded (m.state is connecting_wifi || m.state is degraded_network) m running now
transition m wifi_failed now = (transition_to m degraded_network now, true)
transition m enrollment_required now = (transition_to m enrolling now, true)
transition m enrolled now = guarded (m.state is enrolling) m running now
transition m server_failed now = (transition_to m degraded_server now, true)
transition m server_recovered now = (transition_to m running now, true)
transition m meter_recovered now = (transition_to m running now, true)
transition m meter_failed now = (transition_to m degraded_meter now, true)
transition m ota_available now = (transition_to m ota_pending now, true)
transition m ota_started now = guarded (m.state is ota_pending) m ota_installing now
transition m ota_finished now = guarded (m.state is ota_installing) m State.safe_reboot now
transition m physical_recovery now = (transition_to m recovery_com now, true)
transition m Event.safe_reboot now = (transition_to m State.safe_reboot now, true)

-- `|= flag`, and `&= ~flag` on 32 bits.
unfoldable pub health_set : Machine → HealthFlag → Bool → Machine
health_set m flag healthy =
    if healthy
    then record m { health_flags = bit_or m.health_flags (flag_value flag) }
    else record m { health_flags = bit_and m.health_flags (uint32_max - flag_value flag) }

-- A caller that feeds events with their times, one after the other.
unfoldable pub run : Machine → List (Event × ℤ) → Machine
run m [] = m
run m ((e, now) ∷ es) = run (transition m e now).0 es
