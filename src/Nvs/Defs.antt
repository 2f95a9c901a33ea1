-- ===== src/Nvs/Defs.antt =====
-- The operations of the flash store, what is documented of them, and chains of them.
use power_monitor_sensor_hea.Base.{
  ℕ, ◌≡◌, ◌≢◌, refl, ◌⊎◌, inl, inr, true, if◌then◌else◌, Option, none, some,
}
use power_monitor_sensor_hea.Base.Esp.{EspErr, ok, nvs_not_found, is_ok, is_nvs_not_found}

-- The keys of the two blobs.
pub data NvsKey : Type 0 where
  slot_a slot_b : NvsKey

-- `get_blob` yields the result, the length and the object; `get_u8` the result and the selector.
pub record Nvs (S Blob : Type 0) : Type 0 where
  pub open_nvs : S → EspErr × S
  pub get_blob : NvsKey → S → EspErr × ℕ × Blob × S
  pub set_blob : NvsKey → Blob → S → EspErr × S
  pub erase_key : NvsKey → S → EspErr × S
  pub get_u8 : S → EspErr × ℕ × S
  pub set_u8 : ℕ → S → EspErr × S
  pub commit : S → EspErr × S

-- While the firmware runs, a read that succeeds yields what is held, and `not found` means that nothing is. A write that
-- succeeds takes place; one that fails leaves the old value or the new one, and no other key changes.
pub record IsNvs {S Blob : Type 0} (size : ℕ) (nvs : Nvs S Blob) : Type 0 where
  pub held : S → NvsKey → Option (ℕ × Blob)
  pub selected : S → Option ℕ
  pub open-held : (s : S) (k : NvsKey) → held (nvs.open_nvs s).1 k ≡ held s k
  pub open-selected : (s : S) → selected (nvs.open_nvs s).1 ≡ selected s
  pub get_blob-held : (k : NvsKey) (s : S) (j : NvsKey) → held (nvs.get_blob k s).3 j ≡ held s j
  pub get_blob-selected : (k : NvsKey) (s : S) → selected (nvs.get_blob k s).3 ≡ selected s
  pub get_blob_ok :
      (k : NvsKey) (s : S)
      → (nvs.get_blob k s).0 ≡ ok
      → held s k ≡ some ((nvs.get_blob k s).1, (nvs.get_blob k s).2)
  pub get_blob_missing :
      (k : NvsKey) (s : S) → (nvs.get_blob k s).0 ≡ nvs_not_found → held s k ≡ none
  pub set_blob_other :
      (k j : NvsKey) (b : Blob) (s : S) → k ≢ j → held (nvs.set_blob k b s).1 j ≡ held s j
  pub set_blob_either :
      (k : NvsKey) (b : Blob) (s : S)
      → (held (nvs.set_blob k b s).1 k ≡ held s k)
        ⊎ (held (nvs.set_blob k b s).1 k ≡ some (size, b))
  pub set_blob_ok :
      (k : NvsKey) (b : Blob) (s : S)
      → (nvs.set_blob k b s).0 ≡ ok
      → held (nvs.set_blob k b s).1 k ≡ some (size, b)
  pub set_blob-selected :
      (k : NvsKey) (b : Blob) (s : S) → selected (nvs.set_blob k b s).1 ≡ selected s
  pub erase_key_other : (k j : NvsKey) (s : S) → k ≢ j → held (nvs.erase_key k s).1 j ≡ held s j
  pub erase_key-selected : (k : NvsKey) (s : S) → selected (nvs.erase_key k s).1 ≡ selected s
  pub get_u8-held : (s : S) (j : NvsKey) → held (nvs.get_u8 s).2 j ≡ held s j
  pub get_u8-selected : (s : S) → selected (nvs.get_u8 s).2 ≡ selected s
  pub get_u8_ok : (s : S) → (nvs.get_u8 s).0 ≡ ok → selected s ≡ some (nvs.get_u8 s).1
  pub get_u8_missing : (s : S) → (nvs.get_u8 s).0 ≡ nvs_not_found → selected s ≡ none
  pub set_u8-held : (v : ℕ) (s : S) (j : NvsKey) → held (nvs.set_u8 v s).1 j ≡ held s j
  pub set_u8_either :
      (v : ℕ) (s : S)
      → (selected (nvs.set_u8 v s).1 ≡ selected s) ⊎ (selected (nvs.set_u8 v s).1 ≡ some v)
  pub set_u8_ok : (v : ℕ) (s : S) → (nvs.set_u8 v s).0 ≡ ok → selected (nvs.set_u8 v s).1 ≡ some v
  pub commit-held : (s : S) (j : NvsKey) → held (nvs.commit s).1 j ≡ held s j
  pub commit-selected : (s : S) → selected (nvs.commit s).1 ≡ selected s

-- `if (error == ESP_OK) { error = …; }`
abbrev pub on_ok : {S : Type 0} → EspErr × S → (S → EspErr × S) → EspErr × S
on_ok r next = if is_ok r.0 then next r.1 else r

pub is_ok-ok : (e : EspErr) → is_ok e ≡ true → e ≡ ok
is_ok-ok EspErr.ok h = refl
is_ok-ok _ h = cc

pub key_cases : (j k : NvsKey) → (j ≡ k) ⊎ (j ≢ k)
key_cases slot_a slot_a = inl refl
key_cases slot_a slot_b = inr (λ e. cc)
key_cases slot_b slot_a = inr (λ e. cc)
key_cases slot_b slot_b = inl refl

pub is_nvs_not_found-equal : (e : EspErr) → is_nvs_not_found e ≡ true → e ≡ nvs_not_found
is_nvs_not_found-equal nvs_not_found h = refl
is_nvs_not_found-equal _ h = cc

pub both_keys : (P : NvsKey → Type 0) → P slot_a → P slot_b → (j : NvsKey) → P j
both_keys P a b slot_a = a
both_keys P a b slot_b = b
