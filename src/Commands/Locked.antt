-- ===== src/Commands/Locked.antt =====
-- The public operations of the ledger, each of which takes the lock; `lock` is what it answers.
use power_monitor_sensor_hea.Base.{ℕ, Bool, Option, none, List}
use power_monitor_sensor_hea.Base.Int.{ℤ}
use power_monitor_sensor_hea.Base.Esp.{EspErr}
use power_monitor_sensor_hea.Commands.{Command, Ledger, Platform}
use power_monitor_sensor_hea.Commands.Steps.{with_lock, command_accept}
use power_monitor_sensor_hea.Commands.Changes.{
  command_transition, command_acknowledge_result, command_zeroize_payload, command_reconcile_boot,
}

module _ {S : Type 0} (platform : Platform S) (lock : EspErr) (ledger : Ledger) (store : S) where
  unfoldable pub locked_accept : Bool → Command → ℤ → EspErr × Option (ℕ × Bool) × Ledger × S
  locked_accept memory incoming now =
      with_lock lock (lock, none, ledger, store)
        (command_accept platform memory ledger incoming now store)

  unfoldable pub locked_transition : Bool → ℕ → ℕ → ℕ → ℤ → EspErr × Ledger × S
  locked_transition memory i state progress_percent result_code =
      with_lock lock (lock, ledger, store)
        (command_transition platform memory ledger i state progress_percent result_code store)

  unfoldable pub locked_acknowledge_result : List ℕ → EspErr × Ledger × S
  locked_acknowledge_result id =
      with_lock lock (lock, ledger, store) (command_acknowledge_result platform ledger id store)

  unfoldable pub locked_zeroize_payload : ℕ → EspErr × Ledger × S
  locked_zeroize_payload i =
      with_lock lock (lock, ledger, store) (command_zeroize_payload platform ledger i store)

  unfoldable pub locked_reconcile_boot : Bool → ℕ → ℕ → ℤ → List ℕ → EspErr × Ledger × S
  locked_reconcile_boot memory i state result_code text =
      with_lock lock (lock, ledger, store)
        (command_reconcile_boot platform memory ledger i state result_code text store)
