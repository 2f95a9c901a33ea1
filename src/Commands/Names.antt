-- ===== src/Commands/Names.antt =====
-- The names of the command types and states.
use power_monitor_sensor_hea.Base.{
  ℕ, leb, ltb, if◌then◌else◌, Option, none, some, List, [], ◌∷◌, get_or,
}
use power_monitor_sensor_hea.Commands.{
  type_count, rolled_back, type_reboot, type_diagnostics_snapshot, type_network_self_test,
  type_meter_self_test, type_ota_install,
}
use power_monitor_sensor_hea.Commands.Steps.{same_text}
use power_monitor_sensor_hea.HttpResponse.{codes}

abbrev pub unsupported : List ℕ
unsupported = codes "unsupported"

abbrev pub type_names : List (List ℕ)
type_names =
    codes "reboot"
    ∷ unsupported
    ∷ unsupported
    ∷ codes "diagnostics_snapshot"
    ∷ codes "network_self_test"
    ∷ codes "meter_self_test"
    ∷ unsupported
    ∷ unsupported
    ∷ unsupported
    ∷ unsupported
    ∷ unsupported
    ∷ codes "ota_install"
    ∷ unsupported
    ∷ unsupported
    ∷ unsupported
    ∷ []

abbrev pub state_names : List (List ℕ)
state_names =
    codes "queued"
    ∷ codes "delivered"
    ∷ codes "accepted"
    ∷ codes "running"
    ∷ codes "succeeded"
    ∷ codes "failed"
    ∷ codes "expired"
    ∷ codes "cancelled"
    ∷ codes "superseded"
    ∷ codes "awaiting_reboot"
    ∷ codes "awaiting_heartbeat"
    ∷ codes "rolled_back"
    ∷ []

unfoldable pub command_type_name : ℕ → List ℕ
command_type_name t = if ltb t type_count then get_or type_names t [] else codes "invalid"

unfoldable pub command_state_name : ℕ → List ℕ
command_state_name s = if leb s rolled_back then get_or state_names s [] else codes "invalid"

abbrev pub supported : List (List ℕ × ℕ)
supported =
    (codes "reboot", type_reboot)
    ∷ (codes "diagnostics_snapshot", type_diagnostics_snapshot)
    ∷ (codes "network_self_test", type_network_self_test)
    ∷ (codes "meter_self_test", type_meter_self_test)
    ∷ (codes "ota_install", type_ota_install)
    ∷ []

unfoldable pub find_type : List (List ℕ × ℕ) → List ℕ → Option ℕ
find_type [] name = none
find_type ((known, t) ∷ rest) name =
    let later = find_type rest name in if same_text name known then some t else later

unfoldable pub command_type_from_name : List ℕ → Option ℕ
command_type_from_name name = find_type supported name
