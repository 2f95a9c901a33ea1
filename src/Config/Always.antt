-- ===== src/Config/Always.antt =====
-- Any operations on configurations, in any order, and a start after them.
use power_monitor_sensor_hea.Base.{
  ==_refl, ℕ, ◌≡◌, refl, sym, ap, ◌∙◌, arith, inl, inr, Bool, true, false, not, ◌||◌, ◌==◌,
  if_cases, Option, some, List, [], ◌∷◌,
}
use power_monitor_sensor_hea.Base.Esp.{EspErr, ok, is_ok}
use power_monitor_sensor_hea.Nvs.{Nvs, IsNvs, NvsKey}
use power_monitor_sensor_hea.Config.Types.{
  DeviceConfig, Target, Transaction, is_network_tested, config_validate,
}
use power_monitor_sensor_hea.Config.Lock.{Lock, claim_transaction_mutation}
use power_monitor_sensor_hea.Config.Steps.{
  is_slot, active_key, read_slot, config_load, stamped, claim_begin, stage_candidate, config_begin,
  mark_network_tested, config_abort, config_commit,
}
use power_monitor_sensor_hea.Config.Staged.{
  load_staged, activate_staged, discard_staged, discard_inactive_generation, erase_inactive,
}
use power_monitor_sensor_hea.Config.InForce.{Bootable, Keeps-Same, Bootable-Keeps}
use power_monitor_sensor_hea.Config.Writes.{
  config_load-Same, load_staged-Same, stage_candidate-Keeps, select_candidate-outcome,
}
use power_monitor_sensor_hea.Config.Works.{Fine}
use power_monitor_sensor_hea.Config.Unowned.{
  activate_staged-Fine, discard_staged-Fine, discard_inactive_generation-Fine, erase_inactive-Fine,
}

-- The calls of the component; a Boolean says whether the heap has memory for the call.
pub data Operation : Type 0 where
  loads : Operation
  begins : Bool → DeviceConfig → Operation
  marks_tested : Operation
  commits : Bool → Operation
  aborts : Operation
  loads_staged : ℕ → ℕ → Operation
  activates_staged : Bool → ℕ → ℕ → Operation
  discards_staged : Bool → ℕ → ℕ → Operation
  discards_inactive : Bool → ℕ → Operation
  erases_inactive : Operation

module _ {S : Type 0} (target : Target) (nvs : Nvs S DeviceConfig) where
  -- A caller with one transaction.
  unfoldable pub perform : Operation → Transaction → Lock → S → Transaction × Lock × S
  perform loads t lock s = (t, lock, (config_load target nvs s).2)
  perform (begins memory c) t lock s =
      let (_, t1, lock1, s1) = config_begin target nvs memory c t lock s in (t1, lock1, s1)
  perform marks_tested t lock s = ((mark_network_tested t lock).1, lock, s)
  perform (commits memory) t lock s =
      let (_, t1, lock1, s1) = config_commit target nvs memory t lock s in (t1, lock1, s1)
  perform aborts t lock s = let (t1, lock1) = config_abort t lock in (t1, lock1, s)
  perform (loads_staged slot g) t lock s = (t, lock, (load_staged target nvs slot g s).2)
  perform (activates_staged memory slot g) t lock s =
      let (_, lock1, s1) = activate_staged target nvs memory slot g lock s in (t, lock1, s1)
  perform (discards_staged memory slot g) t lock s =
      let (_, lock1, s1) = discard_staged target nvs memory slot g lock s in (t, lock1, s1)
  perform (discards_inactive memory g) t lock s =
      let (_, lock1, s1) = discard_inactive_generation target nvs memory g lock s in (t, lock1, s1)
  perform erases_inactive t lock s =
      let (_, lock1, s1) = erase_inactive target nvs lock s in (t, lock1, s1)

  unfoldable pub perform_all : List Operation → Transaction → Lock → S → Transaction × Lock × S
  perform_all [] t lock s = (t, lock, s)
  perform_all (o ∷ more) t lock s =
      let (t1, lock1, s1) = perform o t lock s in perform_all more t1 lock1 s1

  -- All that a start reads can be read.
  abbrev pub CanRead : S → Type 0
  CanRead s =
      let s1 = (nvs.open_nvs s).1 in
      let (found, active, s2) = nvs.get_u8 s1 in
      ((nvs.open_nvs s).0 ≡ ok) × (found ≡ ok) × ((nvs.get_blob (active_key active) s2).0 ≡ ok)

some_pair :
    (m n : ℕ) (c d : DeviceConfig)
    → ◌≡◌ {A = Option (ℕ × DeviceConfig)} (some (m, c)) (some (n, d))
    → (m ≡ n) × (c ≡ d)
some_pair m n c d h = (cc, cc)

module _ {S : Type 0} (target : Target) (nvs : Nvs S DeviceConfig)
    (laws : IsNvs target.size nvs) where
  -- The store, whatever becomes of the transaction and the lock.
  unfoldable FineEnd : S → EspErr × Transaction × Lock × S → Type 0
  FineEnd s r = Fine target nvs laws s r.3

  fine_end :
      (s : S) (r : EspErr × Transaction × Lock × S) → Fine target nvs laws s r.3 → FineEnd s r
  unfolding FineEnd
  fine_end s r h = h

  of-FineEnd :
      (s : S) (r : EspErr × Transaction × Lock × S) → FineEnd s r → Fine target nvs laws s r.3
  unfolding FineEnd
  of-FineEnd s r h = h

  idle : (s : S) → Fine target nvs laws s s
  idle s = inl (Keeps-Same target nvs laws s s (refl, λ j. refl))

  config_begin_end :
      (memory : Bool) (c : DeviceConfig) (t : Transaction) (lock : Lock) (s : S)
      → FineEnd s (config_begin target nvs memory c t lock s)
  unfolding config_begin
  config_begin_end memory c t lock s =
      let staged = stamped target c in
      let P = FineEnd s in
      let kept = inl (stage_candidate-Keeps target nvs laws t staged s) in
      if_cases P (not memory) _ _ (λ _. fine_end s _ (idle s))
        (λ _.
          if_cases P (not (is_ok (config_validate target staged false))) _ _
            (λ _. fine_end s _ (idle s))
            (λ _.
              if_cases P (not (claim_begin t lock).0) _ _ (λ _. fine_end s _ (idle s))
                (λ _.
                  if_cases P (is_ok (stage_candidate target nvs t staged s).0) _ _
                    (λ _. fine_end s _ kept) (λ _. fine_end s _ kept))))

  config_commit_end :
      (memory : Bool) (t : Transaction) (lock : Lock) (s : S)
      → FineEnd s (config_commit target nvs memory t lock s)
  unfolding config_commit
  config_commit_end memory t lock s =
      let P = FineEnd s in
      if_cases P
        (not (is_network_tested t.stage) || t.transaction_id == 0 || not (is_slot t.candidate_slot))
        _ _ (λ _. fine_end s _ (idle s))
        (λ proper.
          if_cases P (not memory) _ _ (λ _. fine_end s _ (idle s))
            (λ _.
              if_cases P (not (claim_transaction_mutation t.transaction_id lock).0) _ _
                (λ _. fine_end s _ (idle s))
                (λ _. fine_end s _ (select_candidate-outcome target nvs laws t s (ground arith)))))

  perform-Fine :
      (o : Operation) (t : Transaction) (lock : Lock) (s : S)
      → Fine target nvs laws s (perform target nvs o t lock s).2
  unfolding perform
  perform-Fine loads t lock s =
      inl (Keeps-Same target nvs laws s _ (config_load-Same target nvs laws s))
  perform-Fine (begins memory c) t lock s = of-FineEnd s _ (config_begin_end memory c t lock s)
  perform-Fine marks_tested t lock s = idle s
  perform-Fine (commits memory) t lock s = of-FineEnd s _ (config_commit_end memory t lock s)
  perform-Fine aborts t lock s = idle s
  perform-Fine (loads_staged slot g) t lock s =
      inl (Keeps-Same target nvs laws s _ (load_staged-Same target nvs laws slot g s))
  perform-Fine (activates_staged memory slot g) t lock s =
      activate_staged-Fine target nvs laws memory slot g lock s
  perform-Fine (discards_staged memory slot g) t lock s =
      discard_staged-Fine target nvs laws memory slot g lock s
  perform-Fine (discards_inactive memory g) t lock s =
      discard_inactive_generation-Fine target nvs laws memory g lock s
  perform-Fine erases_inactive t lock s = erase_inactive-Fine target nvs laws lock s

  perform_all-Bootable :
      (os : List Operation) (t : Transaction) (lock : Lock) (s : S)
      → Bootable target nvs laws s
      → Bootable target nvs laws (perform_all target nvs os t lock s).2
  unfolding perform_all
  perform_all-Bootable [] t lock s h = h
  perform_all-Bootable (o ∷ more) t lock s h =
      let (t1, lock1, s1) = perform target nvs o t lock s in
      perform_all-Bootable more t1 lock1 s1 (elim (perform-Fine o t lock s) [
        | inl keeps ↦ Bootable-Keeps target nvs laws s s1 keeps h
        | inr boots ↦ boots
      ])

  read_slot_reads :
      (key : NvsKey) (s : S) (c : DeviceConfig)
      → (nvs.get_blob key s).0 ≡ ok
      → laws.held s key ≡ some (target.size, c)
      → config_validate target c false ≡ ok
      → ((read_slot target nvs key s).0 ≡ ok) × ((read_slot target nvs key s).1 ≡ c)
  unfolding read_slot
  read_slot_reads key s c read held valid =
      let (length_same, config_same) =
        some_pair _ _ _ _ (sym (laws.get_blob_ok key s read) ∙ held) in
      rw (read, length_same, config_same, ==_refl target.size, valid) (refl, refl)

  -- A start finds the configuration that is in force.
  config_load-Bootable :
      (s : S)
      → Bootable target nvs laws s
      → CanRead target nvs s
      → ((config_load target nvs s).0 ≡ ok)
        × (config_validate target (config_load target nvs s).1 false ≡ ok)
  unfolding Bootable config_load
  config_load-Bootable s (slot, c, chosen, good, held, valid) (opened, found, read) =
      let s1 = (nvs.open_nvs s).1 in
      let (_, active, s2) = nvs.get_u8 s1 in
      let e : some active ≡ some slot =
        sym (laws.get_u8_ok s1 found) ∙ laws.open-selected s ∙ chosen in
      let e1 : active ≡ slot = cc in
      let active_good : is_slot active ≡ true = ap is_slot e1 ∙ good in
      let there : laws.held s2 (active_key active) ≡ some (target.size, c) =
        laws.get_u8-held s1 (active_key active)
        ∙ laws.open-held s (active_key active)
        ∙ ap (λ (n : ℕ). laws.held s (active_key n)) e1
        ∙ held in
      let (loaded, same) = read_slot_reads (active_key active) s2 c read there valid in
      rw (opened, found, active_good)
        (loaded, ap (λ (d : DeviceConfig). config_validate target d false) same ∙ valid)

  -- Whatever operations are called in whatever order, and however calls of the flash store fail, a
  -- store that selects a valid configuration selects a valid one afterwards: where its reads succeed,
  -- loading from what the store then holds, committed or not, yields ESP_OK and a valid configuration.
  pub always_starts :
      (os : List Operation) (t : Transaction) (lock : Lock) (s : S)
      → Bootable target nvs laws s
      → let end = (perform_all target nvs os t lock s).2 in
        CanRead target nvs end
        → ((config_load target nvs end).0 ≡ ok)
          × (config_validate target (config_load target nvs end).1 false ≡ ok)
  always_starts os t lock s h can = config_load-Bootable _ (perform_all-Bootable os t lock s h) can
