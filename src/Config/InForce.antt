-- ===== src/Config/InForce.antt =====
-- The configuration in force: what each operation on the flash store leaves of it.
use power_monitor_sensor_hea.Base.{
  ℕ, ◌≡◌, ◌≢◌, sym, ap, ◌∙◌, arith, inl, inr, true, false, ◌==◌, if◌then◌else◌, Bool-cases, some,
}
use power_monitor_sensor_hea.Base.Esp.{ok, is_ok, is_nvs_not_found}
use power_monitor_sensor_hea.Nvs.{Nvs, IsNvs, NvsKey, on_ok_keeps, is_ok-ok, is_nvs_not_found-equal}
use power_monitor_sensor_hea.Config.Types.{DeviceConfig, Target, Transaction, config_validate}
use power_monitor_sensor_hea.Config.Steps.{
  is_slot, active_key, read_slot, verify_staged, write_staged, restaging, inactive_slot,
  selector_error,
}

module _ {S : Type 0} (target : Target) (nvs : Nvs S DeviceConfig)
    (laws : IsNvs target.size nvs) where
  -- Nothing is written.
  abbrev pub Same : S → S → Type 0
  Same s t = (laws.selected t ≡ laws.selected s) × ((j : NvsKey) → laws.held t j ≡ laws.held s j)

  -- The selector stays, and so does what it selects.
  abbrev pub Keeps : S → S → Type 0
  Keeps s t =
      (laws.selected t ≡ laws.selected s)
      × ((v : ℕ)
          → laws.selected s ≡ some v
          → is_slot v ≡ true
          → laws.held t (active_key v) ≡ laws.held s (active_key v))

  -- The store selects a valid configuration.
  unfoldable pub Bootable : S → Type 0
  Bootable t =
      (slot : ℕ) × (c : DeviceConfig) × (laws.selected t ≡ some slot)
      × (is_slot slot ≡ true)
      × (laws.held t (active_key slot) ≡ some (target.size, c))
      × (config_validate target c false ≡ ok)

  pub Same-trans : (s t u : S) → Same s t → Same t u → Same s u
  Same-trans s t u (sel1, held1) (sel2, held2) = (sel2 ∙ sel1, λ j. held2 j ∙ held1 j)

  pub Keeps-Same : (s t : S) → Same s t → Keeps s t
  Keeps-Same s t (sel, held) = (sel, λ v _ _. held (active_key v))

  pub Keeps-trans : (s t u : S) → Keeps s t → Keeps t u → Keeps s u
  Keeps-trans s t u (sel1, held1) (sel2, held2) =
      (sel2 ∙ sel1, λ v h k. held2 v (sel1 ∙ h) k ∙ held1 v h k)

  pub Bootable-Keeps : (s t : S) → Keeps s t → Bootable s → Bootable t
  unfolding Bootable
  Bootable-Keeps s t (sel, held) (slot, c, h1, h2, h3, h4) =
      (slot, c, sel ∙ h1, h2, held slot h1 h2 ∙ h3, h4)

  pub open-Same : (s : S) → Same s (nvs.open_nvs s).1
  open-Same s = (laws.open-selected s, laws.open-held s)

  pub commit-Same : (s : S) → Same s (nvs.commit s).1
  commit-Same s = (laws.commit-selected s, laws.commit-held s)

  pub get_u8-Same : (s : S) → Same s (nvs.get_u8 s).2
  get_u8-Same s = (laws.get_u8-selected s, laws.get_u8-held s)

  pub read_slot-Same : (key : NvsKey) (s : S) → Same s (read_slot target nvs key s).2
  unfolding read_slot
  read_slot-Same key s = (laws.get_blob-selected key s, laws.get_blob-held key s)

  -- What is read without an error is held, and valid.
  pub read_slot_ok :
      (key : NvsKey) (s : S)
      → is_ok (read_slot target nvs key s).0 ≡ true
      → let c = (read_slot target nvs key s).1 in
        (laws.held s key ≡ some (target.size, c)) × (config_validate target c false ≡ ok)
  unfolding read_slot
  read_slot_ok key s h =
      let (error, length, config, t) = nvs.get_blob key s in
      elim (Bool-cases (is_ok error)) [
        | inr bad ↦ absurd (ground arith)
        | inl good ↦ elim (Bool-cases (length == target.size)) [
          | inr bad ↦ absurd (ground arith)
          | inl fits ↦
              let valid : is_ok (config_validate target config false) ≡ true = ground arith in
              let long : length ≡ target.size = ground arith in
              rw (good, fits, valid)
                (
                  laws.get_blob_ok key s (is_ok-ok error good)
                      ∙ ap (λ (n : ℕ). some (n, config)) long,
                  is_ok-ok _ valid,
                )
        ]
      ]

  -- A write away from the selected key.
  pub set_blob-Keeps :
      (key : NvsKey) (c : DeviceConfig) (s : S)
      → ((v : ℕ) → laws.selected s ≡ some v → is_slot v ≡ true → key ≢ active_key v)
      → Keeps s (nvs.set_blob key c s).1
  set_blob-Keeps key c s away = (
    laws.set_blob-selected key c s,
    λ v h k. laws.set_blob_other key (active_key v) c s (away v h k),
  )

  pub erase_key-Keeps :
      (key : NvsKey) (s : S)
      → ((v : ℕ) → laws.selected s ≡ some v → is_slot v ≡ true → key ≢ active_key v)
      → Keeps s (nvs.erase_key key s).1
  erase_key-Keeps key s away = (
    laws.erase_key-selected key s,
    λ v h k. laws.erase_key_other key (active_key v) s (away v h k),
  )

  pub verify_staged-Same :
      (key : NvsKey) (c : DeviceConfig) (s : S) → Same s (verify_staged target nvs key c s).1
  unfolding verify_staged
  verify_staged-Same key c s = read_slot-Same key s

  pub write_staged-Keeps :
      (key : NvsKey) (c : DeviceConfig) (s : S)
      → ((v : ℕ) → laws.selected s ≡ some v → is_slot v ≡ true → key ≢ active_key v)
      → Keeps s (write_staged target nvs key c s).1
  unfolding write_staged
  write_staged-Keeps key c s away =
      let next =
        λ (t u : S) (h : Keeps s t) (same : Same t u). Keeps-trans s t u h (Keeps-Same t u same) in
      let committed =
        on_ok_keeps (Keeps s) (nvs.set_blob key c s) nvs.commit (set_blob-Keeps key c s away)
          (λ t h. next t (nvs.commit t).1 h (commit-Same t)) in
      on_ok_keeps (Keeps s) _ (verify_staged target nvs key c) committed
        (λ t h. next t _ h (verify_staged-Same key c t))

  -- The slot that may be written is not the selected one.
  pub away_from_selected :
      (t : Transaction) (s : S)
      → let (found, selector, _) = nvs.get_u8 s in
        let active = if is_ok found then selector else b'A' in
        is_ok (selector_error t found active) ≡ true
        → (v : ℕ) → laws.selected s ≡ some v
        → is_slot v ≡ true
        → active_key (inactive_slot t active) ≢ active_key v
  unfolding selector_error inactive_slot restaging
  away_from_selected t s h v chosen good_slot same =
      let found = (nvs.get_u8 s).0 in
      elim (Bool-cases (is_ok found)) [
        | inl good ↦
            let e : some (nvs.get_u8 s).1 ≡ some v =
              sym (laws.get_u8_ok s (is_ok-ok found good)) ∙ chosen in
            ground arith
        | inr bad ↦ elim (Bool-cases (is_nvs_not_found found)) [
          | inl missing ↦ let e = laws.get_u8_missing s (is_nvs_not_found-equal found missing) in cc
          | inr other ↦ absurd (ground arith)
        ]
      ]
