-- ===== src/Machine/Edges.antt =====
-- The state machine against its diagram.
use power_monitor_sensor_hea.Base.{◌+◌, ◌%◌, ◌^◌, ◌≡◌, refl, ◌≢◌, ◌⊎◌, true, false, arith}
use power_monitor_sensor_hea.Base.Int.{ℤ}
use power_monitor_sensor_hea.Machine.{
  State, Event, Machine, boot, self_test, unprovisioned_com, connecting_wifi, enrolling, running,
  degraded_network, degraded_server, degraded_meter, ota_pending, ota_installing, recovery_com,
  bootstrap, self_test_ok, self_test_failed, config_missing, config_valid, wifi_connected,
  wifi_failed, enrollment_required, enrolled, server_failed, server_recovered, meter_failed,
  meter_recovered, ota_available, ota_started, ota_finished, physical_recovery, transition,
}

-- The events that each state takes, and where they lead.
pub data Edge : State → Event → State → Type 0 where
  begin : Edge boot bootstrap self_test
  tested : Edge self_test self_test_ok connecting_wifi
  test_failed : Edge self_test self_test_failed recovery_com
  boot_unconfigured : Edge boot config_missing unprovisioned_com
  test_unconfigured : Edge self_test config_missing unprovisioned_com
  boot_configured : Edge boot config_valid connecting_wifi
  test_configured : Edge self_test config_valid connecting_wifi
  recovery_configured : Edge recovery_com config_valid connecting_wifi
  com_configured : Edge unprovisioned_com config_valid connecting_wifi
  connected : Edge connecting_wifi wifi_connected running
  reconnected : Edge degraded_network wifi_connected running
  accepted : Edge enrolling enrolled running
  install : Edge ota_pending ota_started ota_installing
  installed : Edge ota_installing ota_finished State.safe_reboot
  lose_wifi : {s : State} → Edge s wifi_failed degraded_network
  enroll : {s : State} → Edge s enrollment_required enrolling
  lose_server : {s : State} → Edge s server_failed degraded_server
  find_server : {s : State} → Edge s server_recovered running
  find_meter : {s : State} → Edge s meter_recovered running
  lose_meter : {s : State} → Edge s meter_failed degraded_meter
  offer : {s : State} → Edge s ota_available ota_pending
  recover : {s : State} → Edge s physical_recovery recovery_com
  restart : {s : State} → Edge s Event.safe_reboot State.safe_reboot

ruleset starting = (begin, tested, test_failed, boot_unconfigured, test_unconfigured)

ruleset configuring = (boot_configured, test_configured, recovery_configured, com_configured)

ruleset working = (connected, reconnected, accepted, install, installed)

ruleset anywhere =
    (lose_wifi, enroll, lose_server, find_server, find_meter, lose_meter, offer, recover, restart)

Edge-transition_at :
    {s t : State} {e : Event} (m : Machine) (now : ℤ)
    → m.state ≡ s
    → Edge s e t
    → ((transition m e now).1 ≡ true) × ((transition m e now).0.state ≡ t)
unfolding transition
Edge-transition_at m now p begin = ground arith
Edge-transition_at m now p tested = ground arith
Edge-transition_at m now p test_failed = ground arith
Edge-transition_at m now p boot_unconfigured = ground arith
Edge-transition_at m now p test_unconfigured = ground arith
Edge-transition_at m now p boot_configured = ground arith
Edge-transition_at m now p test_configured = ground arith
Edge-transition_at m now p recovery_configured = ground arith
Edge-transition_at m now p com_configured = ground arith
Edge-transition_at m now p connected = ground arith
Edge-transition_at m now p reconnected = ground arith
Edge-transition_at m now p accepted = ground arith
Edge-transition_at m now p install = ground arith
Edge-transition_at m now p installed = ground arith
Edge-transition_at m now p lose_wifi = ground arith
Edge-transition_at m now p enroll = ground arith
Edge-transition_at m now p lose_server = ground arith
Edge-transition_at m now p find_server = ground arith
Edge-transition_at m now p find_meter = ground arith
Edge-transition_at m now p lose_meter = ground arith
Edge-transition_at m now p offer = ground arith
Edge-transition_at m now p recover = ground arith
Edge-transition_at m now p restart = ground arith

-- An event of the diagram is accepted, and leads where the diagram says.
pub Edge-transition :
    {t : State} {e : Event} (m : Machine) (now : ℤ)
    → Edge m.state e t
    → ((transition m e now).1 ≡ true) × ((transition m e now).0.state ≡ t)
Edge-transition m now d = Edge-transition_at m now refl d

-- An accepted event is one of the diagram.
pub transition-Edge :
    (m : Machine) (e : Event) (now : ℤ)
    → (transition m e now).1 ≡ true
    → Edge m.state e (transition m e now).0.state
unfolding transition
transition-Edge m e now h = grind (arith, starting, configuring, working, anywhere)

-- The machine as it was, or with another state, one more transition and the time of the change.
abbrev pub Noted : Machine → ℤ → Machine → Type 0
Noted m now m' =
    (m' ≡ m)
    ⊎ ((m'.state ≢ m.state)
        × (m'.transition_count ≡ (m.transition_count + 1) % 2 ^ 32)
        × (m'.entered_monotonic_us ≡ now)
        × (m'.health_flags ≡ m.health_flags))

transition-Noted : (m : Machine) (e : Event) (now : ℤ) → Noted m now (transition m e now).0
unfolding transition
transition-Noted m bootstrap now = ground arith
transition-Noted m _ now = ground arith

-- A rejected event changes nothing. An accepted one that leads to another state counts one
-- transition, modulo 2^32, and notes its time; one that leads to the same state changes nothing.
pub transition_bookkeeping :
    (m : Machine) (e : Event) (now : ℤ)
    → ((transition m e now).1 ≡ false → (transition m e now).0 ≡ m)
      × Noted m now (transition m e now).0
transition_bookkeeping m e now = (λ h. unfold transition in ground arith, transition-Noted m e now)
