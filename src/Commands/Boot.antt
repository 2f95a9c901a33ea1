-- ===== src/Commands/Boot.antt =====
-- What is done with a command after a reset.
use power_monitor_sensor_hea.Base.{◌≤◌, ◌<◌, ◌≡◌, arith, ◌⊎◌, true}
use power_monitor_sensor_hea.Commands.{
  Command, ignore, requeue, complete_reboot, reconcile_ota, type_count, rolled_back, accepted,
  running, awaiting_reboot, type_reboot, type_ota_install,
}
use power_monitor_sensor_hea.Commands.Steps.{command_terminal}
use power_monitor_sensor_hea.Commands.Changes.{boot_action}

-- A known command with a known state is left alone after a reset exactly when it is finished or was
-- never accepted.
pub boot_action_ignores :
    (c : Command)
    → c.type < type_count
    → c.state ≤ rolled_back
    → (boot_action c ≡ ignore → (command_terminal c.state ≡ true) ⊎ (c.state ≤ 1))
      × ((command_terminal c.state ≡ true) ⊎ (c.state ≤ 1) → boot_action c ≡ ignore)
unfolding boot_action command_terminal
boot_action_ignores c ht hs = (λ h. ground arith, λ h. ground arith)

-- Only the diagnostics and the self tests run a second time after a reset: a command that is queued
-- again is accepted or running and neither a reboot nor an installation; a reboot is completed only
-- while it awaits one; and an installation that runs or awaits the reboot is settled from its own
-- checkpoint.
pub boot_action_replays :
    (c : Command)
    → (boot_action c ≡ requeue
        → ((c.state ≡ accepted) ⊎ (c.state ≡ running)) × (3 ≤ c.type) × (c.type ≤ 5))
      × (boot_action c ≡ complete_reboot → (c.state ≡ awaiting_reboot) × (c.type ≡ type_reboot))
      × (boot_action c ≡ reconcile_ota
          → ((c.state ≡ running) ⊎ (c.state ≡ awaiting_reboot)) × (c.type ≡ type_ota_install))
      × ((c.state ≡ running) ⊎ (c.state ≡ awaiting_reboot)
          → c.type ≡ type_ota_install
          → boot_action c ≡ reconcile_ota)
unfolding boot_action
boot_action_replays c =
    (λ h. ground arith, λ h. ground arith, λ h. ground arith, λ h k. ground arith)
