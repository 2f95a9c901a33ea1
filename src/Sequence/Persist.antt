-- ===== src/Sequence/Persist.antt =====
-- What `persist` leaves in the flash store.
use power_monitor_sensor_hea.Base.{
  ℕ, ◌≡◌, refl, sym, ap, ◌∙◌, arith, ◌⊎◌, inl, inr, Bool, true, false, not, ◌&&◌, ◌==◌,
  if◌then◌else◌, if_cases, Bool-cases, some, List, uint32_max,
}
use power_monitor_sensor_hea.Base.Esp.{EspErr, invalid_state, is_ok, is_nvs_not_found}
use power_monitor_sensor_hea.Nvs.{
  Nvs, IsFlash, View, MayFind, NoMore, Changes, NvsKey, slot_a, on_ok, on_ok_keeps, on_ok_split,
  is_ok-ok, set_blob-Changes, open_NoMore, get_blob_NoMore, get_u8_NoMore, set_u8_NoMore,
  commit_NoMore,
}
use power_monitor_sensor_hea.Sequence.Defs.{
  SequenceState, SequenceSlot, next_slot, same_state, read_slot, verify_slot, write_slot,
  inactive_key, inactive_name, persist,
}

module _ {S : Type 0} (slot_bytes : SequenceState → List ℕ) (slot_size : ℕ)
    (nvs : Nvs S SequenceSlot) {restart : S → S} (flash : IsFlash slot_size nvs restart) where
  -- The test that `verify_slot` makes.
  abbrev passed : NvsKey → SequenceSlot → S → Bool
  unfolding read_slot
  passed key slot s =
      let (error, verified, t) = read_slot slot_bytes slot_size nvs key s in
      is_ok error && same_state verified.state slot.state && verified.crc32 == slot.crc32

  verify_slot-held :
      (key : NvsKey) (slot : SequenceSlot) (s : S) (j : NvsKey)
      → flash.session.held (verify_slot slot_bytes slot_size nvs key slot s).1 j
        ≡ flash.session.held s j
  unfolding verify_slot read_slot
  verify_slot-held key slot s j = elim (Bool-cases (passed key slot s)) [
    | inl good ↦ rw good (flash.session.get_blob-held key s j)
    | inr bad ↦ rw bad (flash.session.get_blob-held key s j)
  ]

  verify_slot-NoMore :
      (key : NvsKey) (slot : SequenceSlot) (s : S)
      → NoMore slot_size nvs flash s (verify_slot slot_bytes slot_size nvs key slot s).1
  unfolding verify_slot read_slot
  verify_slot-NoMore key slot s =
      if_cases (λ (r : EspErr × S). NoMore slot_size nvs flash s r.1) (passed key slot s) _ _
        (λ _. get_blob_NoMore slot_size nvs flash key s)
        (λ _. get_blob_NoMore slot_size nvs flash key s)

  -- A chain keeps what its first write has left.
  pub write_slot-Changes :
      (key : NvsKey) (name : ℕ) (slot : SequenceSlot) (s : S)
      → Changes slot_size nvs flash s key slot
          (write_slot slot_bytes slot_size nvs key name slot s).1
  unfolding write_slot
  write_slot-Changes key name slot s =
      let P : S → Type 0 = Changes slot_size nvs flash s key slot in
      let wrote : P (nvs.set_blob key slot s).1 = set_blob-Changes slot_size nvs flash key slot s in
      let committed =
        on_ok_keeps P (nvs.set_blob key slot s) nvs.commit wrote
          (λ t h v finds. h v (commit_NoMore slot_size nvs flash t v finds)) in
      let verified =
        on_ok_keeps P _ (verify_slot slot_bytes slot_size nvs key slot) committed
          (λ t h v finds. h v (verify_slot-NoMore key slot t v finds)) in
      let selected =
        on_ok_keeps P _ (nvs.set_u8 name) verified
          (λ t h v finds. h v (set_u8_NoMore slot_size nvs flash name t v finds)) in
      on_ok_keeps P _ nvs.commit selected
        (λ t h v finds. h v (commit_NoMore slot_size nvs flash t v finds))

  -- Where all went well, the slot is held.
  write_slot_held :
      (key : NvsKey) (name : ℕ) (slot : SequenceSlot) (s : S)
      → is_ok (write_slot slot_bytes slot_size nvs key name slot s).0 ≡ true
      → flash.session.held (write_slot slot_bytes slot_size nvs key name slot s).1 key
        ≡ some (slot_size, slot)
  unfolding write_slot
  write_slot_held key name slot s h =
      let set = nvs.set_blob key slot s in
      let verify = verify_slot slot_bytes slot_size nvs key slot in
      let (h1, e1) =
        on_ok_split (on_ok (on_ok (on_ok set nvs.commit) verify) (nvs.set_u8 name)) nvs.commit h in
      let (h2, e2) = on_ok_split (on_ok (on_ok set nvs.commit) verify) (nvs.set_u8 name) h1 in
      let (h3, e3) = on_ok_split (on_ok set nvs.commit) verify h2 in
      let (h4, e4) = on_ok_split set nvs.commit h3 in
      let held_at = λ (r : EspErr × S). flash.session.held r.1 key in
      ap held_at e1
      ∙ flash.session.commit-held _ key
      ∙ ap held_at e2
      ∙ flash.session.set_u8-held name _ key
      ∙ ap held_at e3
      ∙ verify_slot-held key slot _ key
      ∙ ap held_at e4
      ∙ flash.session.commit-held _ key
      ∙ flash.session.set_blob_ok key slot s (is_ok-ok set.0 h4)

  -- The last step is a commit: what is held then is what a restart finds.
  write_slot_stored :
      (key : NvsKey) (name : ℕ) (slot : SequenceSlot) (s : S) (j : NvsKey)
      → let r = write_slot slot_bytes slot_size nvs key name slot s in
        is_ok r.0 ≡ true → flash.stored r.1 j ≡ flash.session.held r.1 j
  unfolding write_slot
  write_slot_stored key name slot s j h =
      let set = nvs.set_blob key slot s in
      let verify = verify_slot slot_bytes slot_size nvs key slot in
      let selected = on_ok (on_ok (on_ok set nvs.commit) verify) (nvs.set_u8 name) in
      let (h1, e1) = on_ok_split selected nvs.commit h in
      let good : is_ok (nvs.commit selected.1).0 ≡ true =
        sym (ap (λ (r : EspErr × S). is_ok r.0) e1) ∙ h in
      ap (λ (r : EspErr × S). flash.stored r.1 j) e1
      ∙ flash.commit_ok selected.1 j (is_ok-ok (nvs.commit selected.1).0 good)
      ∙ sym (ap (λ (r : EspErr × S). flash.session.held r.1 j) e1)

  -- Where all went well, the slot is found.
  pub write_slot_ok :
      (key : NvsKey) (name : ℕ) (slot : SequenceSlot) (s : S)
      → let r = write_slot slot_bytes slot_size nvs key name slot s in
        is_ok r.0 ≡ true
        → (v : View SequenceSlot) → MayFind slot_size nvs flash r.1 v
        → v key ≡ some (slot_size, slot)
  write_slot_ok key name slot s h v finds =
      let held = write_slot_held key name slot s h in
      elim (finds key) [
        | inl e ↦ e ∙ write_slot_stored key name slot s key h ∙ held
        | inr e ↦ e ∙ held
      ]

  -- At one of the keys the next slot may be found, all else is as before; where the result is ESP_OK
  -- it is found there, and it is the state.
  unfoldable pub Outcome : SequenceState → S → EspErr × SequenceState × S → Type 0
  Outcome state s result =
      (key : NvsKey) × Changes slot_size nvs flash s key (next_slot slot_bytes state) result.2
      × (((is_ok result.0 ≡ false) × (result.1 ≡ state))
          ⊎ ((is_ok result.0 ≡ true)
              × (result.1 ≡ (next_slot slot_bytes state).state)
              × ((v : View SequenceSlot)
                  → MayFind slot_size nvs flash result.2 v
                  → v key ≡ some (slot_size, next_slot slot_bytes state))))

  not_written :
      (state : SequenceState) (s t : S) (e : EspErr)
      → is_ok e ≡ false
      → NoMore slot_size nvs flash s t
      → Outcome state s (e, state, t)
  unfolding Outcome
  not_written state s t e h same =
      (slot_a, (λ v finds. (v, same v finds, (λ j _. refl), inl refl)), inl (h, refl))

  written :
      (state : SequenceState) (s t : S) (active : ℕ)
      → NoMore slot_size nvs flash s t
      → let slot = next_slot slot_bytes state in
        let r =
          write_slot slot_bytes slot_size nvs (inactive_key active) (inactive_name active) slot t in
        Outcome state s (r.0, if is_ok r.0 then slot.state else state, r.1)
  unfolding Outcome
  written state s t active same =
      let slot = next_slot slot_bytes state in
      let key = inactive_key active in
      let name = inactive_name active in
      let r = write_slot slot_bytes slot_size nvs key name slot t in
      let changes : Changes slot_size nvs flash s key slot r.1 = λ v finds.
        let (w, finds_w, others, here) = write_slot-Changes key name slot t v finds in
        (w, same w finds_w, others, here) in
      elim (Bool-cases (is_ok r.0)) [
        | inl good ↦ (key, changes, inr (good, rw good refl, write_slot_ok key name slot t good))
        | inr bad ↦ (key, changes, inl (bad, rw bad refl))
      ]

  pub persist-Outcome :
      (state : SequenceState) (s : S) → Outcome state s (persist slot_bytes slot_size nvs state s)
  unfolding persist
  persist-Outcome state s =
      let (opened, s1) = nvs.open_nvs s in
      let (selector_error, selector, s2) = nvs.get_u8 s1 in
      let active = if is_ok selector_error then selector else b'A' in
      let same1 : NoMore slot_size nvs flash s s1 = open_NoMore slot_size nvs flash s in
      let same2 : NoMore slot_size nvs flash s s2 =
        λ v finds. same1 v (get_u8_NoMore slot_size nvs flash s1 v finds) in
      let P = Outcome state s in
      if_cases P (state.generation == uint32_max) _ _
        (λ _. not_written state s s invalid_state refl (λ v finds. finds))
        (λ _.
          if_cases P (not (is_ok opened)) _ _
            (λ h. not_written state s s1 opened (ground arith) same1)
            (λ _.
              if_cases P
                (not (is_ok selector_error)
                  && not (is_nvs_not_found selector_error && state.generation == 0))
                _ _ (λ h. not_written state s s2 selector_error (ground arith) same2)
                (λ _.
                  if_cases P (is_ok selector_error && not (active == b'A') && not (active == b'B'))
                    _ _ (λ h. not_written state s s2 invalid_state refl same2)
                    (λ _. written state s s2 active same2))))
