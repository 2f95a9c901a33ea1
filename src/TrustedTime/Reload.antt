-- ===== src/TrustedTime/Reload.antt =====
-- A checkpoint that was written is loaded after a restart.
use power_monitor_sensor_hea.Base.{
  ℕ, suc, ◌≤◌, ◌<◌, ◌≡◌, ◌≢◌, refl, sym, ap, ◌∙◌, arith, Bool, true, false, not, ◌&&◌, ◌||◌, leb,
  if◌then◌else◌, if_cases, Option, some, List,
}
use power_monitor_sensor_hea.Base.Int.{ℤ}
use power_monitor_sensor_hea.Base.Esp.{EspErr, ok, is_ok}
use power_monitor_sensor_hea.Nvs.{Nvs, IsNvs, IsFlash, NvsKey, slot_a, slot_b, both_keys}
use power_monitor_sensor_hea.TrustedTime.{TimeState}
use power_monitor_sensor_hea.TrustedTime.Checkpoint.{
  TimeCheckpoint, in_range, checkpoint_valid, sealed_checkpoint, generation_key, checkpoint_persist,
  load_slot, load_checkpoint,
}
use power_monitor_sensor_hea.TrustedTime.Slots.{
  content, last_generation_greatest, sealed_valid, load_slot_held, load_slot_valid, next_generation,
  next_checkpoint, ReadsSlots, persist_held, persist_restart,
}

closed : (e : EspErr) → e ≡ ok → not (is_ok e) ≡ true → ⊥
closed e opened h = ground arith

neither : (a b : Bool) → (a || b) ≡ true → (not a && not b) ≡ true → ⊥
neither a b h k = ground arith

or_true : (b : Bool) → (b || true) ≡ true
or_true true = refl
or_true false = refl

lt-le : {m n : ℕ} → m < n → m ≤ n
lt-le h = omega arith

-- The choice between the slots, where one of them has the later generation.
selects_a :
    (valid_a valid_b : Bool) (a b c : TimeCheckpoint)
    → valid_a ≡ true
    → a ≡ c
    → (valid_b ≡ true → b.generation ≤ c.generation)
    → (if valid_a && (not valid_b || leb b.generation a.generation) then a else b) ≡ c
selects_a false valid_b a b c va same later = cc
selects_a true false a b c va same later = same
selects_a true true a b c va same later =
    let le = later refl in
    let e = ap (λ (d : TimeCheckpoint). d.generation) same in
    if_cases (λ (d : TimeCheckpoint). d ≡ c) (leb b.generation a.generation) a b (λ _. same)
      (λ no. absurd (ground arith))

selects_b :
    (valid_a valid_b : Bool) (a b c : TimeCheckpoint)
    → valid_b ≡ true
    → b ≡ c
    → (valid_a ≡ true → a.generation < c.generation)
    → (if valid_a && (not valid_b || leb b.generation a.generation) then a else b) ≡ c
selects_b valid_a false a b c vb same later = cc
selects_b false true a b c vb same later = same
selects_b true true a b c vb same later =
    let lt = later refl in
    let e = ap (λ (d : TimeCheckpoint). d.generation) same in
    if_cases (λ (d : TimeCheckpoint). d ≡ c) (leb b.generation a.generation) a b
      (λ no. absurd (ground arith)) (λ _. same)

module _ {S : Type 0} (checkpoint_bytes : ℤ → ℕ → List ℕ) (checkpoint_size : ℕ)
    (nvs : Nvs S TimeCheckpoint) (laws : IsNvs checkpoint_size nvs) where
  -- What a start takes of the slots.
  abbrev Found : TimeCheckpoint → S → Type 0
  Found c t =
      let s1 = (nvs.open_nvs t).1 in
      let (valid_a, a, s2) = load_slot checkpoint_bytes checkpoint_size nvs slot_a s1 in
      let (valid_b, b, s3) =
        load_slot checkpoint_bytes checkpoint_size nvs slot_b (nvs.get_blob slot_a s1).3 in
      ((valid_a || valid_b) ≡ true)
      × ((if valid_a && (not valid_b || leb b.generation a.generation) then a else b) ≡ c)

  -- A slot that is loaded is of an earlier generation, where its content is.
  earlier_loaded :
      (c : TimeCheckpoint) (key : NvsKey) (s t : S)
      → laws.held s key ≡ laws.held t key
      → (checkpoint_valid checkpoint_bytes (content (laws.held t key)) ≡ true
          → (content (laws.held t key)).generation < c.generation)
      → (load_slot checkpoint_bytes checkpoint_size nvs key s).0 ≡ true
      → (load_slot checkpoint_bytes checkpoint_size nvs key s).1.generation < c.generation
  earlier_loaded c key s t same earlier h =
      let (is_content, valid) = load_slot_valid checkpoint_bytes checkpoint_size nvs laws key s h in
      let e = is_content ∙ ap (λ (o : Option (ℕ × TimeCheckpoint)). content o) same in
      let lt =
        earlier
          (ap (λ (d : TimeCheckpoint). checkpoint_valid checkpoint_bytes d) (sym e) ∙ valid) in
      let g = ap (λ (d : TimeCheckpoint). d.generation) e in omega arith

  found :
      (c : TimeCheckpoint) (key : NvsKey) (t : S)
      → checkpoint_valid checkpoint_bytes c ≡ true
      → ReadsSlots checkpoint_bytes checkpoint_size nvs laws t
      → laws.held t key ≡ some (checkpoint_size, c)
      → ((j : NvsKey)
          → key ≢ j
          → checkpoint_valid checkpoint_bytes (content (laws.held t j)) ≡ true
          → (content (laws.held t j)).generation < c.generation)
      → Found c t
  found c slot_a t valid (reads_a, reads_b) held earlier =
      let s1 = (nvs.open_nvs t).1 in
      let s2 = (nvs.get_blob slot_a s1).3 in
      let (va, same) =
        load_slot_held checkpoint_bytes checkpoint_size nvs laws slot_a s1 c reads_a
          (laws.open-held t slot_a ∙ held) valid in
      let unchanged = laws.get_blob-held slot_a s1 slot_b ∙ laws.open-held t slot_b in
      let later = λ (h : (load_slot checkpoint_bytes checkpoint_size nvs slot_b s2).0 ≡ true).
        lt-le (earlier_loaded c slot_b s2 t unchanged (earlier slot_b (λ e. cc)) h) in
      (rw va refl, selects_a _ _ _ _ c va same later)
  found c slot_b t valid (reads_a, reads_b) held earlier =
      let s1 = (nvs.open_nvs t).1 in
      let s2 = (nvs.get_blob slot_a s1).3 in
      let unchanged = laws.get_blob-held slot_a s1 slot_b ∙ laws.open-held t slot_b in
      let (vb, same) =
        load_slot_held checkpoint_bytes checkpoint_size nvs laws slot_b s2 c reads_b
          (unchanged ∙ held) valid in
      let later =
        earlier_loaded c slot_a s1 t (laws.open-held t slot_a) (earlier slot_a (λ e. cc)) in
      (rw vb (or_true _), selects_b _ _ _ _ c vb same later)

  -- What the other slot holds is of an earlier generation than the next one.
  earlier_others :
      (utc_ms : ℤ) (s t : S) (key : NvsKey)
      → ((j : NvsKey) → key ≢ j → laws.held t j ≡ laws.held s j)
      → (j : NvsKey) → key ≢ j
      → checkpoint_valid checkpoint_bytes (content (laws.held t j)) ≡ true
      → (content (laws.held t j)).generation
        < (next_checkpoint checkpoint_bytes checkpoint_size nvs laws utc_ms s).generation
  unfolding sealed_checkpoint
  earlier_others utc_ms s t key others j other valid =
      let e = ap (λ (o : Option (ℕ × TimeCheckpoint)). content o) (others j other) in
      let valid_before =
        ap (λ (d : TimeCheckpoint). checkpoint_valid checkpoint_bytes d) (sym e) ∙ valid in
      let same = ap (λ (d : TimeCheckpoint). d.generation) e in
      let P : NvsKey → Type 0 = λ k.
        checkpoint_valid checkpoint_bytes (content (laws.held s k)) ≡ true
        → (content (laws.held s k)).generation
          ≤ next_generation checkpoint_bytes checkpoint_size nvs laws s in
      let (of_a, of_b) =
        last_generation_greatest checkpoint_bytes (content (laws.held s slot_a))
          (content (laws.held s slot_b)) in
      let bound = both_keys P of_a of_b j valid_before in omega arith

  -- The state that a start is given.
  unfoldable IsLoaded : ℤ → EspErr × TimeState × S → Type 0
  IsLoaded utc_ms (error, state, s) =
      (error ≡ ok)
      × (state.utc_checkpoint_ms ≡ utc_ms)
      × (state.last_returned_utc_ms ≡ utc_ms)
      × (state.trusted ≡ true)

  is_loaded :
      (c d : TimeCheckpoint) (state : TimeState) (s : S)
      → d ≡ c
      → state.utc_checkpoint_ms ≡ d.utc_ms
      → state.last_returned_utc_ms ≡ d.utc_ms
      → state.trusted ≡ true
      → IsLoaded c.utc_ms (ok, state, s)
  unfolding IsLoaded
  is_loaded c d state s same utc last trust =
      let e = ap (λ (x : TimeCheckpoint). x.utc_ms) same in (refl, utc ∙ e, last ∙ e, trust)

  load_found :
      (c : TimeCheckpoint) (state : TimeState) (monotonic_us : ℤ) (t : S)
      → (nvs.open_nvs t).0 ≡ ok
      → Found c t
      → IsLoaded c.utc_ms
          (load_checkpoint checkpoint_bytes checkpoint_size nvs state monotonic_us t)
  unfolding load_checkpoint load_slot
  load_found c state monotonic_us t opened (some_valid, same) =
      let s1 = (nvs.open_nvs t).1 in
      let (valid_a, a, s2) = load_slot checkpoint_bytes checkpoint_size nvs slot_a s1 in
      let (valid_b, b, s3) = load_slot checkpoint_bytes checkpoint_size nvs slot_b s2 in
      let P = IsLoaded c.utc_ms in
      if_cases P (not (is_ok (nvs.open_nvs t).0)) _ _ (λ h. absurd (closed _ opened h))
        (λ _.
          if_cases P (not valid_a && not valid_b) _ _
            (λ h. absurd (neither valid_a valid_b some_valid h))
            (λ _. is_loaded c _ _ _ same refl refl refl))

module _ {S : Type 0} (checkpoint_bytes : ℤ → ℕ → List ℕ) (checkpoint_size : ℕ)
    (nvs : Nvs S TimeCheckpoint) {restart : S → S}
    (flash : IsFlash checkpoint_size nvs restart) where
  -- Where a write of a time from 2024 to 2099 succeeds, its reads and those of the start after the next
  -- restart are answered, and the generations are not used up, that start is given the time, and
  -- trusts it. The restart may lose whatever was not committed.
  pub checkpoint_reloads :
      (utc_ms monotonic_us : ℤ) (state : TimeState) (s : S)
      → in_range utc_ms ≡ true
      → ReadsSlots checkpoint_bytes checkpoint_size nvs flash.session s
      → next_generation checkpoint_bytes checkpoint_size nvs flash.session s < 4294967295
      → let (persisted, t) = checkpoint_persist checkpoint_bytes checkpoint_size nvs utc_ms s in
        let (error, state1, _) =
          load_checkpoint checkpoint_bytes checkpoint_size nvs state monotonic_us (restart t) in
        persisted ≡ ok
        → (nvs.open_nvs (restart t)).0 ≡ ok
        → ReadsSlots checkpoint_bytes checkpoint_size nvs flash.session (restart t)
        → (error ≡ ok)
          × (state1.utc_checkpoint_ms ≡ utc_ms)
          × (state1.last_returned_utc_ms ≡ utc_ms)
          × (state1.trusted ≡ true)
  unfolding IsLoaded sealed_checkpoint
  checkpoint_reloads utc_ms monotonic_us state s range reads room persisted opened reads_again =
      let laws = flash.session in
      let t = (checkpoint_persist checkpoint_bytes checkpoint_size nvs utc_ms s).1 in
      let g = suc (next_generation checkpoint_bytes checkpoint_size nvs laws s) in
      let c = sealed_checkpoint checkpoint_bytes utc_ms g in
      let key = generation_key g in
      let (here, others) =
        persist_held checkpoint_bytes checkpoint_size nvs laws utc_ms s reads room persisted in
      let kept = λ (j : NvsKey).
        persist_restart checkpoint_bytes checkpoint_size nvs flash utc_ms s j reads room
          persisted in
      load_found checkpoint_bytes checkpoint_size nvs laws c state monotonic_us (restart t) opened (
        found checkpoint_bytes checkpoint_size nvs laws c key (restart t)
          (sealed_valid checkpoint_bytes utc_ms g range) reads_again (kept key ∙ here)
          (earlier_others checkpoint_bytes checkpoint_size nvs laws utc_ms s (restart t) key
            (λ j other. kept j ∙ others j other)))
