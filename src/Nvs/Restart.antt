-- ===== src/Nvs/Restart.antt =====
-- What a restart finds in the flash store. ESP-IDF promises that a value is stored only once
-- nvs_commit has succeeded: until then a restart may find the value from before.
use power_monitor_sensor_hea.Base.{ℕ, ◌≡◌, ◌≢◌, sym, subst, ◌∙◌, refl, ◌⊎◌, inl, inr, Option, some}
use power_monitor_sensor_hea.Base.Esp.{ok}
use power_monitor_sensor_hea.Nvs.Defs.{NvsKey, slot_a, slot_b, Nvs, IsNvs, key_cases}

-- `stored` is what a restart would find. A write, and a commit that fails, may bring it up to what
-- is held; a commit that succeeds does.
pub record IsFlash {S Blob : Type 0} (size : ℕ) (nvs : Nvs S Blob) (restart : S → S) : Type 0 where
  pub session : IsNvs size nvs
  pub stored : S → NvsKey → Option (ℕ × Blob)
  pub open-stored : (s : S) (j : NvsKey) → stored (nvs.open_nvs s).1 j ≡ stored s j
  pub get_blob-stored :
      (k : NvsKey) (s : S) (j : NvsKey) → stored (nvs.get_blob k s).3 j ≡ stored s j
  pub get_u8-stored : (s : S) (j : NvsKey) → stored (nvs.get_u8 s).2 j ≡ stored s j
  pub set_blob-stored :
      (k : NvsKey) (b : Blob) (s : S) (j : NvsKey)
      → let t = (nvs.set_blob k b s).1 in
        (stored t j ≡ stored s j) ⊎ (stored t j ≡ session.held t j)
  pub set_u8-stored :
      (v : ℕ) (s : S) (j : NvsKey)
      → let t = (nvs.set_u8 v s).1 in (stored t j ≡ stored s j) ⊎ (stored t j ≡ session.held t j)
  pub commit-stored :
      (s : S) (j : NvsKey)
      → let t = (nvs.commit s).1 in (stored t j ≡ stored s j) ⊎ (stored t j ≡ session.held t j)
  pub commit_ok :
      (s : S) (j : NvsKey)
      → (nvs.commit s).0 ≡ ok
      → stored (nvs.commit s).1 j ≡ session.held (nvs.commit s).1 j
  pub restart-held : (s : S) (j : NvsKey) → session.held (restart s) j ≡ stored s j
  pub restart-stored : (s : S) (j : NvsKey) → stored (restart s) j ≡ stored s j

-- What the two keys hold.
abbrev pub View : Type 0 → Type 0
View Blob = NvsKey → Option (ℕ × Blob)

-- The view with another value at a key.
abbrev put : {Blob : Type 0} → View Blob → NvsKey → Option (ℕ × Blob) → View Blob
put v slot_a x slot_a = x
put v slot_a x slot_b = v slot_b
put v slot_b x slot_a = v slot_a
put v slot_b x slot_b = x

put_other :
    {Blob : Type 0} (v : View Blob) (k : NvsKey) (x : Option (ℕ × Blob)) (j : NvsKey)
    → k ≢ j
    → put v k x j ≡ v j
put_other v slot_a x slot_a h = absurd (h refl)
put_other v slot_a x slot_b h = refl
put_other v slot_b x slot_a h = refl
put_other v slot_b x slot_b h = absurd (h refl)

put_all :
    {Blob : Type 0} (P : (j : NvsKey) → Option (ℕ × Blob) → Type 0) (v : View Blob) (k : NvsKey)
    (x : Option (ℕ × Blob))
    → P k x
    → ((j : NvsKey) → k ≢ j → P j (v j))
    → (j : NvsKey) → P j (put v k x j)
put_all P v slot_a x here others slot_a = here
put_all P v slot_a x here others slot_b = others slot_b (λ e. cc)
put_all P v slot_b x here others slot_a = others slot_a (λ e. cc)
put_all P v slot_b x here others slot_b = here

-- A value that is found after a step was found before it, or is what is held now.
found_before :
    {X : Type 0} {x stored_now held_now stored : X}
    → (x ≡ stored_now) ⊎ (x ≡ held_now)
    → (stored_now ≡ stored) ⊎ (stored_now ≡ held_now)
    → (x ≡ stored) ⊎ (x ≡ held_now)
found_before (inl e) (inl old) = inl (e ∙ old)
found_before (inl e) (inr new) = inr (e ∙ new)
found_before (inr e) _ = inr e

then_held :
    {X : Type 0} {x stored held_now held : X}
    → (x ≡ stored) ⊎ (x ≡ held_now)
    → held_now ≡ held
    → (x ≡ stored) ⊎ (x ≡ held)
then_held (inl e) same = inl e
then_held (inr e) same = inr (e ∙ same)

module _ {S Blob : Type 0} (size : ℕ) (nvs : Nvs S Blob) {restart : S → S}
    (flash : IsFlash size nvs restart) where
  -- A view that a restart may find, now or once what is held has been stored in part.
  abbrev pub MayFind : S → View Blob → Type 0
  MayFind s v = (j : NvsKey) → (v j ≡ flash.stored s j) ⊎ (v j ≡ flash.session.held s j)

  -- Nothing more may be found than before.
  abbrev pub NoMore : S → S → Type 0
  NoMore s t = (v : View Blob) → MayFind t v → MayFind s v

  pub same_NoMore :
      (s t : S)
      → ((j : NvsKey) → flash.session.held t j ≡ flash.session.held s j)
      → ((j : NvsKey)
          → (flash.stored t j ≡ flash.stored s j) ⊎ (flash.stored t j ≡ flash.session.held t j))
      → NoMore s t
  same_NoMore s t held stored v finds j = then_held (found_before (finds j) (stored j)) (held j)

  pub restart_NoMore : (s : S) → NoMore s (restart s)
  restart_NoMore s v finds j = elim (finds j) [
    | inl e ↦ inl (e ∙ flash.restart-stored s j)
    | inr e ↦ inl (e ∙ flash.restart-held s j)
  ]

  pub open_NoMore : (s : S) → NoMore s (nvs.open_nvs s).1
  open_NoMore s = same_NoMore s _ (flash.session.open-held s) (λ j. inl (flash.open-stored s j))

  pub get_blob_NoMore : (k : NvsKey) (s : S) → NoMore s (nvs.get_blob k s).3
  get_blob_NoMore k s =
      same_NoMore s _ (flash.session.get_blob-held k s) (λ j. inl (flash.get_blob-stored k s j))

  pub get_u8_NoMore : (s : S) → NoMore s (nvs.get_u8 s).2
  get_u8_NoMore s =
      same_NoMore s _ (flash.session.get_u8-held s) (λ j. inl (flash.get_u8-stored s j))

  pub set_u8_NoMore : (n : ℕ) (s : S) → NoMore s (nvs.set_u8 n s).1
  set_u8_NoMore n s = same_NoMore s _ (flash.session.set_u8-held n s) (flash.set_u8-stored n s)

  pub commit_NoMore : (s : S) → NoMore s (nvs.commit s).1
  commit_NoMore s = same_NoMore s _ (flash.session.commit-held s) (flash.commit-stored s)

  -- What is found is as before, but at `key` it may be the object.
  abbrev pub Changes : S → NvsKey → Blob → S → Type 0
  Changes s key b t =
      (v : View Blob)
      → MayFind t v
      → (w : View Blob) × MayFind s w
        × ((j : NvsKey) → key ≢ j → v j ≡ w j)
        × ((v key ≡ w key) ⊎ (v key ≡ some (size, b)))

  pub set_blob-Changes :
      (key : NvsKey) (b : Blob) (s : S) → Changes s key b (nvs.set_blob key b s).1
  set_blob-Changes key b s v finds =
      let t = (nvs.set_blob key b s).1 in
      let old_at : (j : NvsKey)
          → flash.session.held t j ≡ flash.session.held s j
          → (v j ≡ flash.stored s j) ⊎ (v j ≡ flash.session.held s j) =
        λ j same. then_held (found_before (finds j) (flash.set_blob-stored key b s j)) same in
      let others =
        λ (j : NvsKey) (other : key ≢ j). old_at j (flash.session.set_blob_other key j b s other) in
      let held = flash.session.held s key in
      let replaced : v key ≡ some (size, b)
          → (w : View Blob) × MayFind s w
            × ((j : NvsKey) → key ≢ j → v j ≡ w j)
            × ((v key ≡ w key) ⊎ (v key ≡ some (size, b))) =
        λ new. (
          put v key held,
          put_all (λ j x. (x ≡ flash.stored s j) ⊎ (x ≡ flash.session.held s j)) v key held
              (inr refl) others,
          λ j other. sym (put_other v key held j other),
          inr new,
        ) in
      let kept : ((v key ≡ flash.stored s key) ⊎ (v key ≡ held))
          → (w : View Blob) × MayFind s w
            × ((j : NvsKey) → key ≢ j → v j ≡ w j)
            × ((v key ≡ w key) ⊎ (v key ≡ some (size, b))) =
        λ old. (
          v,
          λ j. elim (key_cases key j) [
            | inl same ↦
                subst (λ (k : NvsKey). (v k ≡ flash.stored s k) ⊎ (v k ≡ flash.session.held s k))
                  same old
            | inr other ↦ others j other
          ],
          λ j other. refl,
          inl refl,
        ) in
      elim (flash.session.set_blob_either key b s) [
        | inl same ↦ kept (old_at key same)
        | inr new ↦ elim (found_before (finds key) (flash.set_blob-stored key b s key)) [
          | inl old ↦ kept (inl old)
          | inr now ↦ replaced (now ∙ new)
        ]
      ]
