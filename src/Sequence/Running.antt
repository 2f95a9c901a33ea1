-- ===== src/Sequence/Running.antt =====
-- The sequence store at work: each operation keeps the sequences that were handed out below the next.
use power_monitor_sensor_hea.Base.{
  ℕ, suc, ◌+◌, ◌-◌, ◌≤◌, ◌<◌, ◌≡◌, ◌≢◌, refl, sym, ap, subst, arith, ◌⊎◌, inl, inr, true, false,
  not, ◌||◌, ◌==◌, ltb, if_cases, Option, some, List, uint64_max,
}
use power_monitor_sensor_hea.Base.Esp.{EspErr, ok, is_ok}
use power_monitor_sensor_hea.Nvs.{Nvs, IsFlash, is_ok-ok}
use power_monitor_sensor_hea.Sequence.Defs.{
  SequenceState, SequenceSlot, next_slot, persist, reserve, allocate, sequence_next, keep_written,
  sequence_acknowledge, sequence_raise_floor, reservation_block,
}
use power_monitor_sensor_hea.Sequence.Persist.{Outcome, persist-Outcome}
use power_monitor_sensor_hea.Sequence.Store.{Floor, Bounded, stored-Floor, Changes-Floor}

module _ {S : Type 0} (slot_bytes : SequenceState → List ℕ) (slot_size : ℕ)
    (nvs : Nvs S SequenceSlot) {restart : S → S} (flash : IsFlash slot_size nvs restart) where
  -- All that was handed out is below `h`: in the state that runs, and in each that a start may load.
  abbrev pub Running : ℕ → SequenceState → S → Type 0
  Running h st s =
      Floor slot_size nvs flash h s
      × Bounded slot_size nvs flash st.generation s
      × (h ≤ st.maximum_seen + 1)
      × (st.maximum_seen < st.next_sequence)

  -- Writing a state that has seen as much: a failure keeps the bound, a success may raise it.
  pub persist-Running :
      (h h2 : ℕ) (c : SequenceState) (s : S)
      → Running h c s
      → h ≤ h2
      → h2 ≤ c.maximum_seen + 1
      → let r = persist slot_bytes slot_size nvs c s in
        ((is_ok r.0 ≡ false) × (r.1 ≡ c) × Running h c r.2)
        ⊎ ((is_ok r.0 ≡ true) × Running h2 r.1 r.2)
  unfolding Outcome next_slot
  persist-Running h h2 c s (floor, bounded, seen, counted) le le2 =
      let (key, changes, result) = persist-Outcome slot_bytes slot_size nvs flash c s in
      let t = (persist slot_bytes slot_size nvs c s).2 in
      let (floor2, bounded2) =
        Changes-Floor slot_size nvs flash slot_bytes h s t key c bounded floor seen changes in
      elim result [
        | inl (failed, same) ↦ inl (failed, same, (floor2, bounded2, seen, counted))
        | inr (good, e, here) ↦
            let slot = next_slot slot_bytes c in
            let floor3 =
              stored-Floor slot_size nvs flash slot_bytes h2 s t key c bounded le2 changes here in
            let is_running : Running h2 slot.state t = (
              floor3,
              (λ v finds k x hx. let b = bounded2 v finds k x hx in omega arith),
              le2,
              counted,
            ) in
            inr (good, subst (λ (z : SequenceState). Running h2 z t) (sym e) is_running)
      ]

  keep_written-Running :
      (h : ℕ) (st c : SequenceState) (s : S)
      → Running h st s
      → c.generation ≡ st.generation
      → st.maximum_seen ≤ c.maximum_seen
      → c.maximum_seen < c.next_sequence
      → let r = keep_written slot_bytes slot_size nvs st c s in Running h r.1 r.2
  unfolding keep_written
  keep_written-Running h st c s (floor, bounded, seen, counted) same_generation grown counted2 =
      let running_c : Running h c s = (
        floor,
        (λ v finds k x hx. let b = bounded v finds k x hx in omega arith),
        omega arith,
        counted2,
      ) in
      elim (persist-Running h h c s running_c (omega arith) (omega arith)) [
        | inl (failed, e, (floor2, bounded2, _, _)) ↦ rw failed (
          floor2,
          (λ v finds k x hx. let b = bounded2 v finds k x hx in omega arith),
          seen,
          counted,
        )
        | inr (good, running) ↦ rw good running
      ]

  reserve-Running :
      (h : ℕ) (st : SequenceState) (s : S)
      → Running h st s
      → let r = reserve slot_bytes slot_size nvs st s in Running h r.1 r.2
  unfolding reserve
  reserve-Running h st s running =
      let P : EspErr × SequenceState × S → Type 0 = λ r. Running h r.1 r.2 in
      if_cases P (ltb st.reserved_through st.next_sequence) _ _
        (λ _.
          if_cases P (ltb (uint64_max - st.next_sequence) (reservation_block - 1)) _ _
            (λ _. running)
            (λ _.
              keep_written-Running h st
                (record st { reserved_through = st.next_sequence + reservation_block - 1 }) s
                running refl (omega arith) (omega arith)))
        (λ _. running)

  -- A sequence that is handed out is none of those before it, and is counted with them.
  allocate-Running :
      (h : ℕ) (st : SequenceState) (s : S)
      → Running h st s
      → let r = allocate slot_bytes slot_size nvs st s in
        ((is_ok r.0 ≡ false) × Running h r.1 r.3)
        ⊎ ((is_ok r.0 ≡ true) × (h ≤ r.2) × Running (suc r.2) r.1 r.3)
  unfolding allocate
  allocate-Running h st s (floor, bounded, seen, counted) =
      let c = record st { next_sequence = suc st.next_sequence; maximum_seen = st.next_sequence } in
      let running_c : Running h c s = (floor, bounded, omega arith, omega arith) in
      elim (persist-Running h (suc st.next_sequence) c s running_c (omega arith) (omega arith)) [
        | inl (failed, e, (floor2, bounded2, _, _)) ↦
            inl (failed, rw failed (floor2, bounded2, seen, counted))
        | inr (good, running) ↦ inr (good, omega arith, rw good running)
      ]

  -- A request for a sequence hands out none, or one that is not below `h` and is counted from now on.
  abbrev pub HandsOut : ℕ → EspErr × SequenceState × Option ℕ × S → Type 0
  HandsOut h r =
      (((n : ℕ) → r.0 ≡ ok → r.2 ≢ some n) × Running h r.1 r.3)
      ⊎ ((n : ℕ) × (r.0 ≡ ok) × (r.2 ≡ some n) × (h ≤ n) × Running (suc n) r.1 r.3)

  pub sequence_next-HandsOut :
      (h : ℕ) (st : SequenceState) (s : S)
      → Running h st s
      → HandsOut h (sequence_next slot_bytes slot_size nvs st s)
  unfolding sequence_next
  sequence_next-HandsOut h st s running =
      let (reserved, state1, store1) = reserve slot_bytes slot_size nvs st s in
      let running1 = reserve-Running h st s running in
      let r = allocate slot_bytes slot_size nvs state1 store1 in
      if_cases (HandsOut h) (st.next_sequence == uint64_max) _ _ (λ _. inl ((λ n e. cc), running))
        (λ _.
          if_cases (HandsOut h) (not (is_ok reserved)) _ _ (λ bad. inl ((λ n e. cc), running1))
            (λ _. elim (allocate-Running h state1 store1 running1) [
              | inl (failed, still) ↦
                  inl ((λ n e. let clash : is_ok r.0 ≡ true = ap is_ok e in cc), still)
              | inr (good, le, next) ↦ inr (r.2, is_ok-ok r.0 good, refl, le, next)
            ]))

  pub sequence_acknowledge-Running :
      (h : ℕ) (st : SequenceState) (n : ℕ) (s : S)
      → Running h st s
      → let r = sequence_acknowledge slot_bytes slot_size nvs st n s in Running h r.1 r.2
  unfolding sequence_acknowledge
  sequence_acknowledge-Running h st n s running =
      let P : EspErr × SequenceState × S → Type 0 = λ r. Running h r.1 r.2 in
      if_cases P (ltb n st.acknowledged || ltb st.maximum_seen n) _ _ (λ _. running)
        (λ _.
          if_cases P (n == st.acknowledged) _ _ (λ _. running)
            (λ _.
              keep_written-Running h st (record st { acknowledged = n }) s running refl
                (omega arith) (omega arith)))

  pub sequence_raise_floor-Running :
      (h : ℕ) (st : SequenceState) (n g : ℕ) (s : S)
      → Running h st s
      → let r = sequence_raise_floor slot_bytes slot_size nvs st n g s in Running h r.1 r.2
  unfolding sequence_raise_floor
  sequence_raise_floor-Running h st n g s running =
      let P : EspErr × SequenceState × S → Type 0 = λ r. Running h r.1 r.2 in
      if_cases P (n == uint64_max) _ _ (λ _. running)
        (λ _.
          if_cases P (g == st.reset_generation) _ _ (λ _. running)
            (λ _.
              if_cases P (ltb n st.maximum_seen || ltb g st.reset_generation) _ _ (λ _. running)
                (λ high.
                  keep_written-Running h st
                    (record st {
                      maximum_seen = n;
                      next_sequence = n + 1;
                      reserved_through = n;
                      acknowledged = n;
                      reset_generation = g;
                    })
                    s running refl (ground arith) (omega arith))))
