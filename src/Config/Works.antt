-- ===== src/Config/Works.antt =====
-- What the work on a staged slot leaves in the flash store.
use power_monitor_sensor_hea.Base.{
  ℕ, ◌≡◌, ◌≢◌, sym, ap, ◌∙◌, arith, ◌⊎◌, inl, inr, true, false, not, ◌&&◌, ◌||◌, ◌==◌,
  if◌then◌else◌, if_cases, some,
}
use power_monitor_sensor_hea.Base.Esp.{ok, is_ok, is_nvs_not_found}
use power_monitor_sensor_hea.Nvs.{Nvs, IsNvs, NvsKey, on_ok_keeps, is_ok-ok, After, after}
use power_monitor_sensor_hea.Config.Types.{DeviceConfig, Target, slot_key}
use power_monitor_sensor_hea.Config.Steps.{is_slot, active_key, read_slot}
use power_monitor_sensor_hea.Config.Staged.{
  other_key, erase_and_commit, activate_work, discard_work, discard_inactive_work,
  erase_inactive_work,
}
use power_monitor_sensor_hea.Config.InForce.{
  Same, Keeps, Bootable, Same-trans, Keeps-Same, Keeps-trans, commit-Same, get_u8-Same,
  read_slot-Same, read_slot_ok, erase_key-Keeps,
}
use power_monitor_sensor_hea.Config.Writes.{set_selector, then_commit}

-- The key that a slot's letter names.
slot_key-some :
    (slot : ℕ) (key : NvsKey)
    → slot_key slot ≡ some key
    → (is_slot slot ≡ true) × (key ≡ active_key slot)
unfolding slot_key
slot_key-some slot key h = (ground arith, ground arith)

slot_key_away :
    (slot v : ℕ)
    → is_slot slot ≡ true
    → is_slot v ≡ true
    → (v == slot) ≡ false
    → active_key slot ≢ active_key v
slot_key_away slot v good active differ same = ground arith

other_key_away : (active : ℕ) → is_slot active ≡ true → other_key active ≢ active_key active
other_key_away active good same = ground arith

module _ {S : Type 0} (target : Target) (nvs : Nvs S DeviceConfig)
    (laws : IsNvs target.size nvs) where
  abbrev pub Fine : S → S → Type 0
  Fine s t = Keeps target nvs laws s t ⊎ Bootable target nvs laws t

  pub Same-Fine : (s t : S) → Same target nvs laws s t → Fine s t
  Same-Fine s t same = inl (Keeps-Same target nvs laws s t same)

  -- The steps before the one that writes change nothing.
  pub Fine-Same : (s t u : S) → Same target nvs laws s t → Fine t u → Fine s u
  Fine-Same s t u same h = elim h [
    | inl keeps ↦
        inl (Keeps-trans target nvs laws s t u (Keeps-Same target nvs laws s t same) keeps)
    | inr boots ↦ inr boots
  ]

  erase_and_commit-Keeps :
      (key : NvsKey) (s : S)
      → ((v : ℕ) → laws.selected s ≡ some v → is_slot v ≡ true → key ≢ active_key v)
      → Keeps target nvs laws s (erase_and_commit target nvs key s).1
  unfolding erase_and_commit
  erase_and_commit-Keeps key s away =
      on_ok_keeps (Keeps target nvs laws s) (nvs.erase_key key s) nvs.commit
        (erase_key-Keeps target nvs laws key s away)
        (λ t h.
          Keeps-trans target nvs laws s t _ h
            (Keeps-Same target nvs laws t _ (commit-Same target nvs laws t)))

  pub activate_work_after :
      (key : NvsKey) (slot generation : ℕ) (s : S)
      → slot_key slot ≡ some key
      → After (Fine s) (activate_work target nvs key slot generation s)
  unfolding activate_work
  activate_work_after key slot generation s named =
      let (good, e) = slot_key-some slot key named in
      let (error, candidate, s1) = read_slot target nvs key s in
      let (found, active, s2) = nvs.get_u8 s1 in
      let same1 = read_slot-Same target nvs laws key s in
      let same2 = Same-trans target nvs laws s s1 s2 same1 (get_u8-Same target nvs laws s1) in
      let P = After (Fine s) in
      if_cases P (not (is_ok error)) _ _ (λ _. after _ _ (Same-Fine s s1 same1))
        (λ read.
          if_cases P (not (candidate.generation == generation)) _ _
            (λ _. after _ _ (Same-Fine s s1 same1))
            (λ _.
              if_cases P (is_ok found && not (active == slot)) _ _
                (λ _.
                  let (held, valid) = read_slot_ok target nvs laws key s (ground arith) in
                  let there : laws.held s2 (active_key slot) ≡ some (target.size, candidate) =
                    ap (laws.held s2) (sym e) ∙ same2.1 key ∙ held in
                  after _ _ (
                    then_commit target nvs laws s (nvs.set_u8 slot s2) (
                      set_selector target nvs laws slot candidate s s2 good there valid
                        (Keeps-Same target nvs laws s s2 same2))))
                (λ _. after _ _ (Same-Fine s s2 same2))))

  -- Erasing away from the selector that was read.
  erase_after :
      (key : NvsKey) (active : ℕ) (s t : S)
      → Same target nvs laws s t
      → laws.selected s ≡ some active
      → (is_slot active ≡ true → key ≢ active_key active)
      → Fine s (erase_and_commit target nvs key t).1
  erase_after key active s t same chosen other = Fine-Same s t _ same (
      inl (
        erase_and_commit-Keeps key t (λ v h good k.
          let e : some active ≡ some v = sym chosen ∙ sym same.0 ∙ h in
          let e1 : active ≡ v = cc in
          other (ap is_slot e1 ∙ good) (k ∙ ap (λ (n : ℕ). active_key n) (sym e1)))))

  pub discard_work_after :
      (key : NvsKey) (slot generation : ℕ) (s : S)
      → slot_key slot ≡ some key
      → After (Fine s) (discard_work target nvs key slot generation s)
  unfolding discard_work
  discard_work_after key slot generation s named =
      let (good, e) = slot_key-some slot key named in
      let (found, active, s1) = nvs.get_u8 s in
      let (error, candidate, s2) = read_slot target nvs key s1 in
      let same1 = get_u8-Same target nvs laws s in
      let same2 =
        Same-trans target nvs laws s s1 s2 same1 (read_slot-Same target nvs laws key s1) in
      let P = After (Fine s) in
      if_cases P (not (is_ok found)) _ _ (λ _. after _ _ (Same-Fine s s1 same1))
        (λ f.
          if_cases P (active == slot) _ _ (λ _. after _ _ (Same-Fine s s1 same1))
            (λ differ.
              if_cases P (is_nvs_not_found error) _ _ (λ _. after _ _ (Same-Fine s s2 same2))
                (λ _.
                  if_cases P (is_ok error && not (candidate.generation == generation)) _ _
                    (λ _. after _ _ (Same-Fine s s2 same2))
                    (λ _.
                      if_cases P (is_ok error) _ _
                        (λ _. after _ _ (
                          erase_after key active s s2 same2
                            (laws.get_u8_ok s (is_ok-ok found (ground arith)))
                            (λ in_use k. slot_key_away slot active good in_use differ (sym e ∙ k))))
                        (λ _. after _ _ (Same-Fine s s2 same2))))))

  pub discard_inactive_work_after :
      (generation : ℕ) (s : S) → After (Fine s) (discard_inactive_work target nvs generation s)
  unfolding discard_inactive_work
  discard_inactive_work_after generation s =
      let (found, active, s1) = nvs.get_u8 s in
      let (error, candidate, s2) = read_slot target nvs (other_key active) s1 in
      let same1 = get_u8-Same target nvs laws s in
      let same2 =
        Same-trans target nvs laws s s1 s2 same1
          (read_slot-Same target nvs laws (other_key active) s1) in
      let P = After (Fine s) in
      if_cases P (not (is_ok found)) _ _ (λ _. after _ _ (Same-Fine s s1 same1))
        (λ f.
          if_cases P (not (is_slot active)) _ _ (λ _. after _ _ (Same-Fine s s1 same1))
            (λ _.
              if_cases P
                (is_nvs_not_found error
                  || (is_ok error && not (candidate.generation == generation)))
                _ _ (λ _. after _ _ (Same-Fine s s2 same2))
                (λ _.
                  if_cases P (is_ok error) _ _
                    (λ _. after _ _ (
                      erase_after (other_key active) active s s2 same2
                        (laws.get_u8_ok s (is_ok-ok found (ground arith))) (other_key_away active)))
                    (λ _. after _ _ (Same-Fine s s2 same2)))))

  pub erase_inactive_work_after : (s : S) → After (Fine s) (erase_inactive_work target nvs s)
  unfolding erase_inactive_work
  erase_inactive_work_after s =
      let (found, active, s1) = nvs.get_u8 s in
      let (erased, s2) = nvs.erase_key (other_key active) s1 in
      let same1 = get_u8-Same target nvs laws s in
      let P = After (Fine s) in
      if_cases P (not (is_ok found)) _ _ (λ _. after _ _ (Same-Fine s s1 same1))
        (λ f.
          if_cases P (not (is_slot active)) _ _ (λ _. after _ _ (Same-Fine s s1 same1))
            (λ _.
              let erased_only = erase_key-Keeps target nvs laws (other_key active) s1 (λ v h good.
                let e : some active ≡ some v =
                  sym (laws.get_u8_ok s (is_ok-ok found (ground arith))) ∙ sym same1.0 ∙ h in
                let e1 : active ≡ v = cc in
                λ k.
                  other_key_away active (ap is_slot e1 ∙ good)
                    (k ∙ ap (λ (n : ℕ). active_key n) (sym e1))) in
              after _ _ (
                then_commit target nvs laws s (if is_nvs_not_found erased then ok else erased, s2)
                  (Fine-Same s s1 s2 same1 (inl erased_only)))))
