-- ===== src/TrustedTime/Slots.antt =====
-- The two slots of the checkpoint: what a write that succeeds leaves, and what a start reads.
use power_monitor_sensor_hea.Base.{
  ℕ, suc, ◌+◌, ◌%◌, ◌^◌, ◌≤◌, ◌<◌, ◌≡◌, ◌≢◌, refl, sym, ap, ◌∙◌, arith, ◌⊎◌, inl, inr, true, false,
  if◌then◌else◌, Bool-cases, ==_refl, Option, none, some, List,
}
use power_monitor_sensor_hea.Base.Int.{ℤ}
use power_monitor_sensor_hea.Base.Esp.{EspErr, ok, nvs_not_found, is_ok}
use power_monitor_sensor_hea.Crc32.{crc32_ieee}
use power_monitor_sensor_hea.Nvs.{
  Nvs, IsNvs, IsFlash, NvsKey, slot_a, slot_b, on_ok, on_ok_split, is_ok-ok,
}
use power_monitor_sensor_hea.TrustedTime.Checkpoint.{
  TimeCheckpoint, zero_checkpoint, in_range, checkpoint_valid, last_generation, sealed_checkpoint,
  generation_key, read_checkpoint, checkpoint_persist, load_slot,
}

-- The answer to a read that did not break.
abbrev pub Answers : EspErr → Type 0
Answers e = (e ≡ ok) ⊎ (e ≡ nvs_not_found)

-- What a slot holds, as a checkpoint that is valid, if it is.
abbrev pub content : Option (ℕ × TimeCheckpoint) → TimeCheckpoint
content none = zero_checkpoint
content (some (n, c)) = c

not_opened :
    {S : Type 0} (opened : EspErr) (s : S) (r : EspErr × S)
    → is_ok opened ≡ false
    → (if is_ok opened then r else (opened, s)).0 ≡ ok
    → ⊥
not_opened opened s r bad h = ground arith

some_pair :
    (m n : ℕ) (c d : TimeCheckpoint)
    → ◌≡◌ {A = Option (ℕ × TimeCheckpoint)} (some (m, c)) (some (n, d))
    → (m ≡ n) × (c ≡ d)
some_pair m n c d h = (cc, cc)

module _ (checkpoint_bytes : ℤ → ℕ → List ℕ) where
  -- Every valid slot is of an earlier generation than the next one.
  pub last_generation_greatest :
      (a b : TimeCheckpoint)
      → (checkpoint_valid checkpoint_bytes a ≡ true
          → a.generation ≤ last_generation checkpoint_bytes a b)
        × (checkpoint_valid checkpoint_bytes b ≡ true
            → b.generation ≤ last_generation checkpoint_bytes a b)
  unfolding last_generation
  last_generation_greatest a b = (λ h. ground arith, λ h. ground arith)

  pub sealed_valid :
      (utc_ms : ℤ) (generation : ℕ)
      → in_range utc_ms ≡ true
      → checkpoint_valid checkpoint_bytes (sealed_checkpoint checkpoint_bytes utc_ms generation)
        ≡ true
  unfolding checkpoint_valid sealed_checkpoint
  sealed_valid utc_ms generation h =
      rw (h, ==_refl (crc32_ieee (checkpoint_bytes utc_ms generation))) refl

module _ {S : Type 0} (checkpoint_bytes : ℤ → ℕ → List ℕ) (checkpoint_size : ℕ)
    (nvs : Nvs S TimeCheckpoint) (laws : IsNvs checkpoint_size nvs) where
  read_checkpoint-content :
      (key : NvsKey) (s : S)
      → Answers (nvs.get_blob key s).0
      → (read_checkpoint checkpoint_bytes checkpoint_size nvs key s).0 ≡ content (laws.held s key)
  unfolding read_checkpoint
  read_checkpoint-content key s h = elim h [
    | inl good ↦ rw (good, laws.get_blob_ok key s good) refl
    | inr missing ↦ rw (missing, laws.get_blob_missing key s missing) refl
  ]

  -- A slot that holds a checkpoint of the right size is loaded as it is.
  pub load_slot_held :
      (key : NvsKey) (s : S) (c : TimeCheckpoint)
      → Answers (nvs.get_blob key s).0
      → laws.held s key ≡ some (checkpoint_size, c)
      → checkpoint_valid checkpoint_bytes c ≡ true
      → ((load_slot checkpoint_bytes checkpoint_size nvs key s).0 ≡ true)
        × ((load_slot checkpoint_bytes checkpoint_size nvs key s).1 ≡ c)
  unfolding load_slot
  load_slot_held key s c h held valid = elim h [
    | inl good ↦
        let (length_same, same) = some_pair _ _ _ _ (sym (laws.get_blob_ok key s good) ∙ held) in
        rw (good, length_same, same, ==_refl checkpoint_size, valid) (refl, refl)
    | inr missing ↦
        let nothing : ◌≡◌ {A = Option (ℕ × TimeCheckpoint)} none (some (checkpoint_size, c)) =
          sym (laws.get_blob_missing key s missing) ∙ held in
        absurd cc
  ]

  -- A slot that is loaded as valid is the content, and valid.
  pub load_slot_valid :
      (key : NvsKey) (s : S)
      → (load_slot checkpoint_bytes checkpoint_size nvs key s).0 ≡ true
      → let c = (load_slot checkpoint_bytes checkpoint_size nvs key s).1 in
        (c ≡ content (laws.held s key)) × (checkpoint_valid checkpoint_bytes c ≡ true)
  unfolding load_slot
  load_slot_valid key s h =
      let good = is_ok-ok (nvs.get_blob key s).0 (ground arith) in
      (rw (laws.get_blob_ok key s good) refl, ground arith)

  -- What a write that succeeds leaves.
  abbrev pub next_generation : S → ℕ
  next_generation s =
      last_generation checkpoint_bytes (content (laws.held s slot_a)) (content (laws.held s slot_b))

  abbrev pub next_checkpoint : ℤ → S → TimeCheckpoint
  next_checkpoint utc_ms s = sealed_checkpoint checkpoint_bytes utc_ms (suc (next_generation s))

  -- The reads that a write makes are answered.
  abbrev pub ReadsSlots : S → Type 0
  ReadsSlots s =
      let s1 = (nvs.open_nvs s).1 in
      Answers (nvs.get_blob slot_a s1).0
      × Answers (nvs.get_blob slot_b (nvs.get_blob slot_a s1).3).0

  -- The store that the write of a checkpoint starts from, and the write.
  abbrev after_reads : S → S
  after_reads s = (nvs.get_blob slot_b (nvs.get_blob slot_a (nvs.open_nvs s).1).3).3

  abbrev write_generation : ℤ → ℕ → S → EspErr × S
  write_generation utc_ms generation t =
      on_ok
        (nvs.set_blob (generation_key generation)
          (sealed_checkpoint checkpoint_bytes utc_ms generation) t)
        nvs.commit

  after_reads_held : (s : S) (j : NvsKey) → laws.held (after_reads s) j ≡ laws.held s j
  after_reads_held s j =
      laws.get_blob-held slot_b _ j ∙ laws.get_blob-held slot_a _ j ∙ laws.open-held s j

  checkpoint_persist-write_generation :
      (utc_ms : ℤ) (s : S)
      → ReadsSlots s
      → next_generation s < 4294967295
      → (checkpoint_persist checkpoint_bytes checkpoint_size nvs utc_ms s).0 ≡ ok
      → checkpoint_persist checkpoint_bytes checkpoint_size nvs utc_ms s
        ≡ write_generation utc_ms (suc (next_generation s)) (after_reads s)
  unfolding checkpoint_persist generation_key sealed_checkpoint read_checkpoint
  checkpoint_persist-write_generation utc_ms s (reads_a, reads_b) room h =
      let s1 = (nvs.open_nvs s).1 in
      let s2 = (nvs.get_blob slot_a s1).3 in
      let of_content = λ (o : Option (ℕ × TimeCheckpoint)). content o in
      let a = read_checkpoint-content slot_a s1 reads_a ∙ ap of_content (laws.open-held s slot_a) in
      let b =
        read_checkpoint-content slot_b s2 reads_b
        ∙ ap of_content (laws.get_blob-held slot_a s1 slot_b ∙ laws.open-held s slot_b) in
      let counted : (next_generation s + 1) % 2 ^ 32 ≡ suc (next_generation s) = omega arith in
      elim (Bool-cases (is_ok (nvs.open_nvs s).0)) [
        | inl good ↦
            rw (good, a, b) (ap (λ (g : ℕ). write_generation utc_ms g (after_reads s)) counted)
        | inr bad ↦ absurd (not_opened _ _ _ bad h)
      ]

  write_generation_held :
      (utc_ms : ℤ) (generation : ℕ) (t : S)
      → (write_generation utc_ms generation t).0 ≡ ok
      → let u = (write_generation utc_ms generation t).1 in
        let key = generation_key generation in
        (laws.held u key
          ≡ some (checkpoint_size, sealed_checkpoint checkpoint_bytes utc_ms generation))
        × ((j : NvsKey) → key ≢ j → laws.held u j ≡ laws.held t j)
  write_generation_held utc_ms generation t h =
      let key = generation_key generation in
      let c = sealed_checkpoint checkpoint_bytes utc_ms generation in
      let set = nvs.set_blob key c t in
      let (set_ok, e) = on_ok_split set nvs.commit (ap is_ok h) in
      let held_at = λ (j : NvsKey) (r : EspErr × S). laws.held r.1 j in
      (
        ap (held_at key) e
            ∙ laws.commit-held set.1 key
            ∙ laws.set_blob_ok key c t (is_ok-ok set.0 set_ok),
        λ j other.
            ap (held_at j) e ∙ laws.commit-held set.1 j ∙ laws.set_blob_other key j c t other,
      )

  pub persist_held :
      (utc_ms : ℤ) (s : S)
      → ReadsSlots s
      → next_generation s < 4294967295
      → (checkpoint_persist checkpoint_bytes checkpoint_size nvs utc_ms s).0 ≡ ok
      → let u = (checkpoint_persist checkpoint_bytes checkpoint_size nvs utc_ms s).1 in
        let key = generation_key (suc (next_generation s)) in
        (laws.held u key ≡ some (checkpoint_size, next_checkpoint utc_ms s))
        × ((j : NvsKey) → key ≢ j → laws.held u j ≡ laws.held s j)
  persist_held utc_ms s reads room h =
      let g = suc (next_generation s) in
      let e = checkpoint_persist-write_generation utc_ms s reads room h in
      let (here, others) =
        write_generation_held utc_ms g (after_reads s) (ap (λ (r : EspErr × S). r.0) (sym e) ∙ h) in
      let held_at = λ (j : NvsKey) (r : EspErr × S). laws.held r.1 j in
      (
        ap (held_at (generation_key g)) e ∙ here,
        λ j other. ap (held_at j) e ∙ others j other ∙ after_reads_held s j,
      )

module _ {S : Type 0} (checkpoint_bytes : ℤ → ℕ → List ℕ) (checkpoint_size : ℕ)
    (nvs : Nvs S TimeCheckpoint) {restart : S → S}
    (flash : IsFlash checkpoint_size nvs restart) where
  -- A write that succeeds has been committed: a restart finds what is held.
  pub persist_restart :
      (utc_ms : ℤ) (s : S) (j : NvsKey)
      → ReadsSlots checkpoint_bytes checkpoint_size nvs flash.session s
      → next_generation checkpoint_bytes checkpoint_size nvs flash.session s < 4294967295
      → (checkpoint_persist checkpoint_bytes checkpoint_size nvs utc_ms s).0 ≡ ok
      → let t = (checkpoint_persist checkpoint_bytes checkpoint_size nvs utc_ms s).1 in
        flash.session.held (restart t) j ≡ flash.session.held t j
  persist_restart utc_ms s j reads room h =
      let session = flash.session in
      let g = suc (next_generation checkpoint_bytes checkpoint_size nvs session s) in
      let c = sealed_checkpoint checkpoint_bytes utc_ms g in
      let set =
        nvs.set_blob (generation_key g) c
          (after_reads checkpoint_bytes checkpoint_size nvs session s) in
      let e =
        checkpoint_persist-write_generation checkpoint_bytes checkpoint_size nvs session utc_ms s
          reads room h in
      let good = ap (λ (r : EspErr × S). r.0) (sym e) ∙ h in
      let (_, last) = on_ok_split set nvs.commit (ap is_ok good) in
      let committed = ap (λ (r : EspErr × S). r.0) (sym (e ∙ last)) ∙ h in
      flash.restart-held _ j
      ∙ ap (λ (r : EspErr × S). flash.stored r.1 j) (e ∙ last)
      ∙ flash.commit_ok set.1 j committed
      ∙ sym (ap (λ (r : EspErr × S). session.held r.1 j) (e ∙ last))
