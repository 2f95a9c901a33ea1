-- ===== src/Sequence/Start.antt =====
-- Starting with what the flash store holds.
use power_monitor_sensor_hea.Base.{
  ℕ, ◌+◌, ◌≤◌, ◌<◌, ◌≡◌, ◌≢◌, refl, sym, ap, subst, ◌∙◌, arith, ◌⊎◌, inl, inr, true, false, not,
  ◌==◌, leb, if_cases, none, some, List, uint64_max,
}
use power_monitor_sensor_hea.Base.Esp.{EspErr, is_ok, is_nvs_not_found}
use power_monitor_sensor_hea.Nvs.{
  Nvs, IsFlash, View, MayFind, open_NoMore, NvsKey, slot_a, slot_b, both_keys,
}
use power_monitor_sensor_hea.Sequence.Defs.{
  SequenceState, SequenceSlot, initial_state, Choice, refuse, first_start, chosen, choose,
  slot_valid, read_slot, persist, skip_reserved, load_choice, sequence_load,
}
use power_monitor_sensor_hea.Sequence.Store.{
  Floor, Bounded, Loads, ViewFloor, choose-chosen, choose-first_start, choose-refuse,
}
use power_monitor_sensor_hea.Sequence.Reading.{
  read_slot-held, read_slot_ok, read_slot_missing, read_slot-NoMore, read_slot-stored,
}
use power_monitor_sensor_hea.Sequence.Running.{Running, persist-Running}

module _ {S : Type 0} (slot_bytes : SequenceState → List ℕ) (slot_size : ℕ)
    (nvs : Nvs S SequenceSlot) {restart : S → S} (flash : IsFlash slot_size nvs restart) where
  -- After a start that succeeds the state runs; after one that is refused the next start is as safe.
  abbrev pub Started : ℕ → EspErr × SequenceState × S → Type 0
  Started h r =
      ((is_ok r.0 ≡ false) × Floor slot_size nvs flash h r.2)
      ⊎ ((is_ok r.0 ≡ true) × Running slot_bytes slot_size nvs flash h r.1 r.2)

  -- What is held is stored, as after a restart.
  abbrev pub Settled : S → Type 0
  Settled s = (j : NvsKey) → flash.stored s j ≡ flash.session.held s j

  found_held :
      (s : S) (v : View SequenceSlot) (j : NvsKey)
      → Settled s
      → MayFind slot_size nvs flash s v
      → v j ≡ flash.session.held s j
  found_held s v j settled finds = elim (finds j) [ inl e ↦ e ∙ settled j | inr e ↦ e ]

  held-ViewFloor :
      (h : ℕ) (s : S) → Floor slot_size nvs flash h s → ViewFloor h (λ j. flash.session.held s j)
  held-ViewFloor h s floor = floor (λ j. flash.session.held s j) (λ j. inr refl)

  first_start-Started :
      (h : ℕ) (s : S)
      → Settled s
      → ((j : NvsKey) → flash.session.held s j ≡ none)
      → Floor slot_size nvs flash h s
      → Started h (persist slot_bytes slot_size nvs initial_state s)
  first_start-Started h s settled nothing floor =
      let seen = held-ViewFloor h s floor initial_state (inr (nothing, refl)) in
      let running : Running slot_bytes slot_size nvs flash h initial_state s = (
        floor,
        λ v finds k x hx. let e = nothing k in let same = found_held s v k settled finds in cc,
        seen,
        omega arith,
      ) in
      elim (persist-Running slot_bytes slot_size nvs flash h h initial_state s running (omega arith)
        seen) [ inl (failed, e, (floor2, _, _, _)) ↦ inl (failed, floor2) | inr good ↦ inr good ]

  chosen-Started :
      (h : ℕ) (st : SequenceState) (s : S)
      → Running slot_bytes slot_size nvs flash h st s
      → Started h (skip_reserved slot_bytes slot_size nvs st s)
  unfolding skip_reserved
  chosen-Started h st s (floor, bounded, seen, counted) =
      if_cases (Started h) (leb st.next_sequence st.reserved_through) _ _
        (λ unused.
          if_cases (Started h) (st.reserved_through == uint64_max) _ _ (λ _. inl (refl, floor))
            (λ _. inr (refl, (floor, bounded, seen, ground arith))))
        (λ _. inr (refl, (floor, bounded, seen, counted)))

  -- What the reading of a slot says of it.
  abbrev Reads : S → NvsKey → EspErr → SequenceSlot → Type 0
  Reads s k e x =
      (is_ok e ≡ true
        → (flash.session.held s k ≡ some (slot_size, x)) × (slot_valid slot_bytes x ≡ true))
      × (is_nvs_not_found e ≡ true → flash.session.held s k ≡ none)

  abbrev At : S → SequenceState → NvsKey → Type 0
  At s st j =
      (x : ℕ × SequenceSlot)
      → flash.session.held s j ≡ some x
      → x.1.state.generation ≤ st.generation + 1

  holds-At :
      (s : S) (st : SequenceState) (j : NvsKey) (y : SequenceSlot)
      → flash.session.held s j ≡ some (slot_size, y)
      → y.state.generation ≤ st.generation
      → At s st j
  holds-At s st j y hy le x hx =
      let same : some (slot_size, y) ≡ some x = sym hy ∙ hx in
      let e : y.state.generation ≡ x.1.state.generation = cc in omega arith

  valid_counted :
      (x : SequenceSlot)
      → slot_valid slot_bytes x ≡ true
      → x.state.maximum_seen < x.state.next_sequence
  unfolding slot_valid
  valid_counted x h = ground arith

  missing-At : (s : S) (st : SequenceState) (j : NvsKey) → flash.session.held s j ≡ none → At s st j
  missing-At s st j nothing x hx = cc

  -- What the slot that is not chosen holds.
  abbrev Rest : S → NvsKey → SequenceSlot → Type 0
  Rest s j x =
      (flash.session.held s j ≡ none)
      ⊎ ((y : SequenceSlot) × (flash.session.held s j ≡ some (slot_size, y))
          × ((y.state.generation < x.state.generation) ⊎ (y.state ≡ x.state)))

  Rest-At : (s : S) (j : NvsKey) (x : SequenceSlot) → Rest s j x → At s x.state j
  Rest-At s j x (inl nothing) = missing-At s x.state j nothing
  Rest-At s j x (inr (y, hy, inl older)) = holds-At s x.state j y hy (omega arith)
  Rest-At s j x (inr (y, hy, inr twin)) =
      let g : y.state.generation ≡ x.state.generation =
        ap (λ (z : SequenceState). z.generation) twin in
      holds-At s x.state j y hy (omega arith)

  Rest-older :
      (s : S) (j : NvsKey) (x : SequenceSlot)
      → Rest s j x
      → (flash.session.held s j ≡ none)
        ⊎ ((y : ℕ × SequenceSlot) × (flash.session.held s j ≡ some y)
            × ((y.1.state.generation < x.state.generation) ⊎ (y.1.state ≡ x.state)))
  Rest-older s j x (inl nothing) = inl nothing
  Rest-older s j x (inr (y, hy, older)) = inr ((slot_size, y), hy, older)

  newest-Running :
      (h : ℕ) (s : S) (key other : NvsKey) (x : SequenceSlot)
      → ((P : NvsKey → Type 0) → P key → P other → (j : NvsKey) → P j)
      → Settled s
      → Floor slot_size nvs flash h s
      → (flash.session.held s key ≡ some (slot_size, x)) × (slot_valid slot_bytes x ≡ true)
      → Rest s other x
      → Running slot_bytes slot_size nvs flash h x.state s
  newest-Running h s key other x split settled floor (here, valid) rest =
      let at =
        split (At s x.state) (holds-At s x.state key x here (omega arith))
          (Rest-At s other x rest) in
      let bounded : Bounded slot_size nvs flash x.state.generation s =
        λ v finds k y hy. at k y (sym (found_held s v k settled finds) ∙ hy) in
      let older =
        split
          (λ j.
            key ≢ j
            → (flash.session.held s j ≡ none)
              ⊎ ((y : ℕ × SequenceSlot) × (flash.session.held s j ≡ some y)
                  × ((y.1.state.generation < x.state.generation) ⊎ (y.1.state ≡ x.state))))
          (λ distinct. absurd (distinct refl)) (λ _. Rest-older s other x rest) in
      let loads : Loads (λ j. flash.session.held s j) x.state =
        inl (key, ((slot_size, x), here, refl, older)) in
      (floor, bounded, held-ViewFloor h s floor x.state loads, valid_counted x valid)

  chosen-Running :
      (h : ℕ) (s : S) (ea eb : EspErr) (a b : SequenceSlot) (st : SequenceState)
      → Settled s
      → Floor slot_size nvs flash h s
      → Reads s slot_a ea a
      → Reads s slot_b eb b
      → choose ea a.state eb b.state ≡ chosen st
      → Running slot_bytes slot_size nvs flash h st s
  chosen-Running h s ea eb a b st settled floor (ok_a, missing_a) (ok_b, missing_b) e =
      let runs : SequenceState → Type 0 = λ z. Running slot_bytes slot_size nvs flash h z s in
      elim (choose-chosen ea eb a.state b.state st e) [
        | inl (good, is_a, inl missing) ↦ subst runs (sym is_a) (
            newest-Running h s slot_a slot_b a both_keys settled floor (ok_a good)
              (inl (missing_b missing)))
        | inl (good, is_a, inr (good_b, older)) ↦ subst runs (sym is_a) (
            newest-Running h s slot_a slot_b a both_keys settled floor (ok_a good)
              (inr (b, (ok_b good_b).0, older)))
        | inr (good, is_b, inl missing) ↦ subst runs (sym is_b) (
            newest-Running h s slot_b slot_a b (λ P y x. both_keys P x y) settled floor (ok_b good)
              (inl (missing_a missing)))
        | inr (good, is_b, inr (good_a, older)) ↦ subst runs (sym is_b) (
            newest-Running h s slot_b slot_a b (λ P y x. both_keys P x y) settled floor (ok_b good)
              (inr (a, (ok_a good_a).0, inl older)))
      ]

  choice-Started :
      (h : ℕ) (st : SequenceState) (s : S) (ea eb : EspErr) (a b : SequenceSlot) (c : Choice)
      → Settled s
      → Floor slot_size nvs flash h s
      → Reads s slot_a ea a
      → Reads s slot_b eb b
      → choose ea a.state eb b.state ≡ c
      → Started h (load_choice slot_bytes slot_size nvs st c s)
  choice-Started h st s ea eb a b (refuse error) settled floor ra rb e =
      inl (choose-refuse ea eb error a.state b.state e, floor)
  choice-Started h st s ea eb a b first_start settled floor ra rb e =
      let (missing_a, missing_b) = choose-first_start ea eb a.state b.state e in
      first_start-Started h s settled (both_keys _ (ra.1 missing_a) (rb.1 missing_b)) floor
  choice-Started h st s ea eb a b (chosen z) settled floor ra rb e =
      chosen-Started h z s (chosen-Running h s ea eb a b z settled floor ra rb e)

  pub load-Started :
      (h : ℕ) (st : SequenceState) (s : S)
      → Settled s
      → Floor slot_size nvs flash h s
      → Started h (sequence_load slot_bytes slot_size nvs st s)
  unfolding sequence_load
  load-Started h st s settled floor =
      let (opened, s1) = nvs.open_nvs s in
      let (ea, a, s2) = read_slot slot_bytes slot_size nvs slot_a s1 in
      let (eb, b, s3) = read_slot slot_bytes slot_size nvs slot_b s2 in
      let back1 : (j : NvsKey) → flash.session.held s2 j ≡ flash.session.held s1 j =
        λ j. read_slot-held slot_bytes slot_size nvs flash slot_a j s1 in
      let back2 : (j : NvsKey) → flash.session.held s3 j ≡ flash.session.held s2 j =
        λ j. read_slot-held slot_bytes slot_size nvs flash slot_b j s2 in
      let floor1 : Floor slot_size nvs flash h s1 =
        λ v finds. floor v (open_NoMore slot_size nvs flash s v finds) in
      let floor3 : Floor slot_size nvs flash h s3 = λ v finds. floor1 v (
        read_slot-NoMore slot_bytes slot_size nvs flash slot_a s1 v
          (read_slot-NoMore slot_bytes slot_size nvs flash slot_b s2 v finds)) in
      let settled3 : Settled s3 = λ j.
        read_slot-stored slot_bytes slot_size nvs flash slot_b j s2
        ∙ read_slot-stored slot_bytes slot_size nvs flash slot_a j s1
        ∙ flash.open-stored s j
        ∙ settled j
        ∙ sym (back2 j ∙ back1 j ∙ flash.session.open-held s j) in
      let ra : Reads s3 slot_a ea a = (
        λ good.
            let (held_a, valid) = read_slot_ok slot_bytes slot_size nvs flash slot_a s1 good in
            (back2 slot_a ∙ back1 slot_a ∙ held_a, valid),
        λ missing.
            back2 slot_a
            ∙ back1 slot_a
            ∙ read_slot_missing slot_bytes slot_size nvs flash slot_a s1 missing,
      ) in
      let rb : Reads s3 slot_b eb b = (
        λ good.
            let (held_b, valid) = read_slot_ok slot_bytes slot_size nvs flash slot_b s2 good in
            (back2 slot_b ∙ held_b, valid),
        λ missing.
            back2 slot_b ∙ read_slot_missing slot_bytes slot_size nvs flash slot_b s2 missing,
      ) in
      if_cases (Started h) (not (is_ok opened)) _ _ (λ bad. inl (ground arith, floor1))
        (λ _.
          choice-Started h st s3 ea eb a b (choose ea a.state eb b.state) settled3 floor3 ra rb
            refl)
