-- ===== src/Config/Writes.antt =====
-- What each operation on configurations leaves in the flash store.
use power_monitor_sensor_hea.Base.{
  ℕ, ◌≡◌, refl, sym, ◌∙◌, arith, ◌⊎◌, inl, inr, true, false, not, ◌&&◌, ◌==◌, if◌then◌else◌,
  if_cases, Bool-cases, Option, none, some,
}
use power_monitor_sensor_hea.Base.Esp.{EspErr, ok, is_ok, is_nvs_not_found}
use power_monitor_sensor_hea.Nvs.{
  Nvs, IsNvs, NvsKey, on_ok, on_ok_keeps, AfterValue, after_value, of-AfterValue,
}
use power_monitor_sensor_hea.Config.Types.{
  DeviceConfig, Target, Transaction, config_validate, slot_key,
}
use power_monitor_sensor_hea.Config.Steps.{
  is_slot, active_key, read_slot, config_load, stage_candidate, check_candidate, select_candidate,
  inactive_slot, selector_error,
}
use power_monitor_sensor_hea.Config.Staged.{load_key, load_staged}
use power_monitor_sensor_hea.Config.InForce.{
  Same, Keeps, Bootable, Same-trans, Keeps-Same, Keeps-trans, open-Same, commit-Same, get_u8-Same,
  read_slot-Same, read_slot_ok, write_staged-Keeps, away_from_selected, Bootable-Keeps,
}

module _ {S : Type 0} (target : Target) (nvs : Nvs S DeviceConfig)
    (laws : IsNvs target.size nvs) where
  config_load_after : (s : S) → AfterValue (Same target nvs laws s) (config_load target nvs s)
  unfolding config_load
  config_load_after s =
      let s1 = (nvs.open_nvs s).1 in
      let same1 = open-Same target nvs laws s in
      let (found, active, s2) = nvs.get_u8 s1 in
      let same2 = Same-trans target nvs laws s s1 s2 same1 (get_u8-Same target nvs laws s1) in
      let same3 =
        Same-trans target nvs laws s s2 _ same2
          (read_slot-Same target nvs laws (active_key active) s2) in
      let P = AfterValue (Same target nvs laws s) in
      if_cases P (not (is_ok (nvs.open_nvs s).0)) _ _ (λ _. after_value _ _ same1)
        (λ _.
          if_cases P (is_nvs_not_found found) _ _ (λ _. after_value _ _ same2)
            (λ _.
              if_cases P (not (is_ok found)) _ _ (λ _. after_value _ _ same2)
                (λ _.
                  if_cases P (not (is_slot active)) _ _ (λ _. after_value _ _ same2)
                    (λ _. after_value _ _ same3))))

  pub config_load-Same : (s : S) → Same target nvs laws s (config_load target nvs s).2
  config_load-Same s = of-AfterValue _ _ (config_load_after s)

  load_key_after :
      (o : Option NvsKey) (generation : ℕ) (s : S)
      → AfterValue (Same target nvs laws s) (load_key target nvs o generation s)
  load_key_after none generation s = after_value _ _ (refl, λ j. refl)
  load_key_after (some key) generation s =
      let s1 = (nvs.open_nvs s).1 in
      let same1 = open-Same target nvs laws s in
      let same2 = Same-trans target nvs laws s s1 _ same1 (read_slot-Same target nvs laws key s1) in
      let (error, config, s2) = read_slot target nvs key s1 in
      let P = AfterValue (Same target nvs laws s) in
      if_cases P (generation == 0) _ _ (λ _. after_value _ _ (refl, λ j. refl))
        (λ _.
          if_cases P (not (is_ok (nvs.open_nvs s).0)) _ _ (λ _. after_value _ _ same1)
            (λ _.
              if_cases P (is_ok error && not (config.generation == generation)) _ _
                (λ _. after_value _ _ same2) (λ _. after_value _ _ same2)))

  pub load_staged-Same :
      (slot generation : ℕ) (s : S)
      → Same target nvs laws s (load_staged target nvs slot generation s).2
  unfolding load_staged
  load_staged-Same slot generation s =
      of-AfterValue _ _ (load_key_after (slot_key slot) generation s)

  stage_candidate_after :
      (t : Transaction) (c : DeviceConfig) (s : S)
      → AfterValue (Keeps target nvs laws s) (stage_candidate target nvs t c s)
  unfolding stage_candidate
  stage_candidate_after t c s =
      let s1 = (nvs.open_nvs s).1 in
      let same1 = open-Same target nvs laws s in
      let (found, selector, s2) = nvs.get_u8 s1 in
      let same2 = Same-trans target nvs laws s s1 s2 same1 (get_u8-Same target nvs laws s1) in
      let active = if is_ok found then selector else b'A' in
      let key = active_key (inactive_slot t active) in
      let P = AfterValue (Keeps target nvs laws s) in
      if_cases P (not (is_ok (nvs.open_nvs s).0)) _ _
        (λ _. after_value _ _ (Keeps-Same target nvs laws s s1 same1))
        (λ _.
          if_cases P (not (is_ok (selector_error t found active))) _ _
            (λ _. after_value _ _ (Keeps-Same target nvs laws s s2 same2))
            (λ free. after_value _ _ (
              Keeps-trans target nvs laws s s2 _ (Keeps-Same target nvs laws s s2 same2) (
                write_staged-Keeps target nvs laws key c s2 (λ v h k.
                  away_from_selected target nvs laws t s1 (ground arith) v
                    (sym (laws.get_u8-selected s1) ∙ h) k)))))

  pub stage_candidate-Keeps :
      (t : Transaction) (c : DeviceConfig) (s : S)
      → Keeps target nvs laws s (stage_candidate target nvs t c s).2
  stage_candidate-Keeps t c s = of-AfterValue _ _ (stage_candidate_after t c s)

  -- A selector written to a slot that holds a valid configuration.
  pub set_selector :
      (slot : ℕ) (c : DeviceConfig) (s t : S)
      → is_slot slot ≡ true
      → laws.held t (active_key slot) ≡ some (target.size, c)
      → config_validate target c false ≡ ok
      → Keeps target nvs laws s t
      → Keeps target nvs laws s (nvs.set_u8 slot t).1
        ⊎ Bootable target nvs laws (nvs.set_u8 slot t).1
  unfolding Bootable
  set_selector slot c s t good held valid (sel, kept) = elim (laws.set_u8_either slot t) [
    | inl old ↦ inl (old ∙ sel, λ v h k. laws.set_u8-held slot t (active_key v) ∙ kept v h k)
    | inr new ↦ inr (slot, c, new, good, laws.set_u8-held slot t (active_key slot) ∙ held, valid)
  ]

  pub then_commit :
      (s : S) (r : EspErr × S)
      → Keeps target nvs laws s r.1 ⊎ Bootable target nvs laws r.1
      → Keeps target nvs laws s (on_ok r nvs.commit).1
        ⊎ Bootable target nvs laws (on_ok r nvs.commit).1
  then_commit s r h =
      on_ok_keeps (λ t. Keeps target nvs laws s t ⊎ Bootable target nvs laws t) r nvs.commit h
        (λ t k.
          let same =
            Keeps-Same target nvs laws t (nvs.commit t).1 (commit-Same target nvs laws t) in
          elim k [
            | inl keeps ↦ inl (Keeps-trans target nvs laws s t _ keeps same)
            | inr boots ↦ inr (Bootable-Keeps target nvs laws t _ same boots)
          ])

  -- The candidate that passes is held, and valid.
  check_candidate_ok :
      (t : Transaction) (s : S)
      → is_ok (check_candidate target nvs t s).0 ≡ true
      → (c : DeviceConfig) × (laws.held s (active_key t.candidate_slot) ≡ some (target.size, c))
        × (config_validate target c false ≡ ok)
  unfolding check_candidate
  check_candidate_ok t s h =
      elim (Bool-cases (is_ok (read_slot target nvs (active_key t.candidate_slot) s).0)) [
        | inr bad ↦ absurd (ground arith)
        | inl good ↦
            let (held, valid) = read_slot_ok target nvs laws (active_key t.candidate_slot) s good in
            (_, held, valid)
      ]

  check_candidate-Same :
      (t : Transaction) (s : S) → Same target nvs laws s (check_candidate target nvs t s).1
  unfolding check_candidate
  check_candidate-Same t s = read_slot-Same target nvs laws (active_key t.candidate_slot) s

  pub select_candidate-outcome :
      (t : Transaction) (s : S)
      → is_slot t.candidate_slot ≡ true
      → let u = (select_candidate target nvs t s).1 in
        Keeps target nvs laws s u ⊎ Bootable target nvs laws u
  unfolding select_candidate
  select_candidate-outcome t s good =
      let opened = nvs.open_nvs s in
      let checked = on_ok opened (check_candidate target nvs t) in
      let P : EspErr × S → Type 0 =
        λ r. Keeps target nvs laws s r.1 ⊎ Bootable target nvs laws r.1 in
      let same1 = open-Same target nvs laws s in
      let same2 =
        on_ok_keeps (Same target nvs laws s) opened (check_candidate target nvs t) same1
          (λ u h. Same-trans target nvs laws s u _ h (check_candidate-Same t u)) in
      then_commit s (on_ok checked (nvs.set_u8 t.candidate_slot)) (
        if_cases P (is_ok checked.0) _ _
          (λ h.
            let went =
              if_cases
                (λ (r : EspErr × S).
                  is_ok r.0 ≡ true
                  → (c : DeviceConfig) × (laws.held r.1 (active_key t.candidate_slot)
                      ≡ some (target.size, c))
                    × (config_validate target c false ≡ ok))
                (is_ok opened.0) (check_candidate target nvs t opened.1) opened
                (λ _ e.
                  let (c, held, valid) = check_candidate_ok t opened.1 e in
                  (
                    c,
                    (check_candidate-Same t opened.1).1 (active_key t.candidate_slot) ∙ held,
                    valid,
                  ))
                (λ bad e. absurd (ground arith)) in
            let (c, held, valid) = went h in
            set_selector t.candidate_slot c s checked.1 good held valid
              (Keeps-Same target nvs laws s checked.1 same2))
          (λ _. inl (Keeps-Same target nvs laws s checked.1 same2)))
