-- ===== src/Config/Unowned.antt =====
-- What the operations on a staged slot leave in the flash store.
use power_monitor_sensor_hea.Base.{ℕ, ◌≡◌, refl, Bool, not, ◌==◌, if_cases, Option, none, some}
use power_monitor_sensor_hea.Base.Esp.{EspErr, is_ok}
use power_monitor_sensor_hea.Nvs.{
  Nvs, IsNvs, NvsKey, AfterValue, after_value, of-After, of-AfterValue,
}
use power_monitor_sensor_hea.Config.Types.{DeviceConfig, Target, slot_key}
use power_monitor_sensor_hea.Config.Lock.{Lock, claim_unowned_mutation}
use power_monitor_sensor_hea.Config.Staged.{
  unowned, checked_work, activate_staged, discard_staged, discard_inactive_generation,
  erase_inactive,
}
use power_monitor_sensor_hea.Config.InForce.{open-Same}
use power_monitor_sensor_hea.Config.Works.{
  Fine, Same-Fine, Fine-Same, activate_work_after, discard_work_after, discard_inactive_work_after,
  erase_inactive_work_after,
}

module _ {S : Type 0} (target : Target) (nvs : Nvs S DeviceConfig)
    (laws : IsNvs target.size nvs) where
  unowned_after :
      (work : S → EspErr × S) (lock : Lock) (s : S)
      → ((t : S) → Fine target nvs laws t (work t).1)
      → AfterValue (Fine target nvs laws s) (unowned target nvs work lock s)
  unfolding unowned
  unowned_after work lock s fine =
      let s1 = (nvs.open_nvs s).1 in
      let same1 = open-Same target nvs laws s in
      let P = AfterValue (Fine target nvs laws s) in
      if_cases P (not (claim_unowned_mutation lock).0) _ _
        (λ _. after_value _ _ (Same-Fine target nvs laws s s (refl, λ j. refl)))
        (λ _.
          if_cases P (not (is_ok (nvs.open_nvs s).0)) _ _
            (λ _. after_value _ _ (Same-Fine target nvs laws s s1 same1))
            (λ _. after_value _ _ (Fine-Same target nvs laws s s1 _ same1 (fine s1))))

  checked_work_after :
      (key : Option NvsKey) (generation : ℕ) (memory : Bool) (work : NvsKey → S → EspErr × S)
      (lock : Lock) (s : S)
      → ((k : NvsKey) (t : S) → key ≡ some k → Fine target nvs laws t (work k t).1)
      → AfterValue
          (Fine target nvs laws s)
          (checked_work target nvs key generation memory work lock s)
  checked_work_after none generation memory work lock s fine =
      after_value _ _ (Same-Fine target nvs laws s s (refl, λ j. refl))
  checked_work_after (some k) generation memory work lock s fine =
      let P = AfterValue (Fine target nvs laws s) in
      let idle = Same-Fine target nvs laws s s (refl, λ j. refl) in
      if_cases P (generation == 0) _ _ (λ _. after_value _ _ idle)
        (λ _.
          if_cases P (not memory) _ _ (λ _. after_value _ _ idle)
            (λ _. unowned_after (work k) lock s (λ t. fine k t refl)))

  pub activate_staged-Fine :
      (memory : Bool) (slot generation : ℕ) (lock : Lock) (s : S)
      → Fine target nvs laws s (activate_staged target nvs memory slot generation lock s).2
  unfolding activate_staged
  activate_staged-Fine memory slot generation lock s = of-AfterValue _ _ (
      checked_work_after (slot_key slot) generation memory _ lock s
        (λ k t h. of-After _ _ (activate_work_after target nvs laws k slot generation t h)))

  pub discard_staged-Fine :
      (memory : Bool) (slot generation : ℕ) (lock : Lock) (s : S)
      → Fine target nvs laws s (discard_staged target nvs memory slot generation lock s).2
  unfolding discard_staged
  discard_staged-Fine memory slot generation lock s = of-AfterValue _ _ (
      checked_work_after (slot_key slot) generation memory _ lock s
        (λ k t h. of-After _ _ (discard_work_after target nvs laws k slot generation t h)))

  discard_inactive_after :
      (memory : Bool) (generation : ℕ) (lock : Lock) (s : S)
      → AfterValue
          (Fine target nvs laws s)
          (discard_inactive_generation target nvs memory generation lock s)
  unfolding discard_inactive_generation
  discard_inactive_after memory generation lock s =
      let P = AfterValue (Fine target nvs laws s) in
      let idle = Same-Fine target nvs laws s s (refl, λ j. refl) in
      if_cases P (generation == 0) _ _ (λ _. after_value _ _ idle)
        (λ _.
          if_cases P (not memory) _ _ (λ _. after_value _ _ idle)
            (λ _.
              unowned_after _ lock s
                (λ t. of-After _ _ (discard_inactive_work_after target nvs laws generation t))))

  pub discard_inactive_generation-Fine :
      (memory : Bool) (generation : ℕ) (lock : Lock) (s : S)
      → Fine target nvs laws s (discard_inactive_generation target nvs memory generation lock s).2
  discard_inactive_generation-Fine memory generation lock s =
      of-AfterValue _ _ (discard_inactive_after memory generation lock s)

  pub erase_inactive-Fine :
      (lock : Lock) (s : S) → Fine target nvs laws s (erase_inactive target nvs lock s).2
  unfolding erase_inactive
  erase_inactive-Fine lock s =
      of-AfterValue _ _
        (unowned_after _ lock s (λ t. of-After _ _ (erase_inactive_work_after target nvs laws t)))
