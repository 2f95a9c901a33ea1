-- ===== src/Sequence/Store.antt =====
-- Which states a later start may load.
use power_monitor_sensor_hea.Base.{
  ℕ, ◌+◌, ◌≤◌, ◌<◌, ◌≡◌, ◌≢◌, sym, ap, subst, ◌∙◌, arith, ◌⊎◌, inl, inr, true, false, none, some,
  List,
}
use power_monitor_sensor_hea.Base.Esp.{EspErr, is_ok, is_nvs_not_found}
use power_monitor_sensor_hea.Nvs.{Nvs, IsFlash, View, MayFind, Changes, NvsKey, key_cases}
use power_monitor_sensor_hea.Sequence.Defs.{
  SequenceState, SequenceSlot, initial_state, same_state, next_slot, refuse, first_start, chosen,
  choose,
}

same_state-equal : (a b : SequenceState) → same_state a b ≡ true → a ≡ b
unfolding same_state
same_state-equal a b h = ground arith

-- The state that is chosen is the newer one; of two that are equally new neither, unless they agree.
pub choose-chosen :
    (error_a error_b : EspErr) (a b st : SequenceState)
    → choose error_a a error_b b ≡ chosen st
    → ((is_ok error_a ≡ true)
        × (st ≡ a)
        × ((is_nvs_not_found error_b ≡ true)
            ⊎ ((is_ok error_b ≡ true) × ((b.generation < a.generation) ⊎ (b ≡ a)))))
      ⊎ ((is_ok error_b ≡ true)
          × (st ≡ b)
          × ((is_nvs_not_found error_a ≡ true)
              ⊎ ((is_ok error_a ≡ true) × (a.generation < b.generation))))
unfolding choose
choose-chosen error_a error_b a b st h = ground (arith, same_state-equal a b, same_state-equal b a)

pub choose-first_start :
    (error_a error_b : EspErr) (a b : SequenceState)
    → choose error_a a error_b b ≡ first_start
    → (is_nvs_not_found error_a ≡ true) × (is_nvs_not_found error_b ≡ true)
unfolding choose
choose-first_start error_a error_b a b h = ground arith

pub choose-refuse :
    (error_a error_b error : EspErr) (a b : SequenceState)
    → choose error_a a error_b b ≡ refuse error
    → is_ok error ≡ false
unfolding choose
choose-refuse error_a error_b error a b h = ground arith

-- A key holds the state, and the other key nothing, an older state, or the same one.
abbrev pub Newest : View SequenceSlot → NvsKey → SequenceState → Type 0
Newest v key st =
    (x : ℕ × SequenceSlot) × (v key ≡ some x)
    × (st ≡ x.1.state)
    × ((j : NvsKey)
        → key ≢ j
        → (v j ≡ none)
          ⊎ ((y : ℕ × SequenceSlot) × (v j ≡ some y)
              × ((y.1.state.generation < st.generation) ⊎ (y.1.state ≡ st))))

-- The states that a start may take from what it finds.
abbrev pub Loads : View SequenceSlot → SequenceState → Type 0
Loads v st =
    ((key : NvsKey) × Newest v key st) ⊎ (((j : NvsKey) → v j ≡ none) × (st ≡ initial_state))

-- Each of them has seen all sequences below `h`.
abbrev pub ViewFloor : ℕ → View SequenceSlot → Type 0
ViewFloor h v = (st : SequenceState) → Loads v st → h ≤ st.maximum_seen + 1

abbrev pub ViewBounded : ℕ → View SequenceSlot → Type 0
ViewBounded g v = (k : NvsKey) (x : ℕ × SequenceSlot) → v k ≡ some x → x.1.state.generation ≤ g + 1

module _ (slot_size : ℕ) (h g : ℕ) (w v : View SequenceSlot) (key : NvsKey) (slot : SequenceSlot)
    (bounded : ViewBounded g w) (newer : slot.state.generation ≡ g + 1)
    (seen : h ≤ slot.state.maximum_seen + 1) (others : (j : NvsKey) → key ≢ j → v j ≡ w j) where
  -- Once the newest slot is found, it is loaded, or a twin with the same state, or none.
  pub found-Floor : v key ≡ some (slot_size, slot) → ViewFloor h v
  found-Floor here st (inr (nothing, _)) = let e = nothing key in cc
  found-Floor here st (inl (k, (x, hx, e, rest))) = elim (key_cases k key) [
    | inl same ↦
        let same_x : some x ≡ some (slot_size, slot) = sym hx ∙ ap v same ∙ here in
        let is_slot : x.1.state ≡ slot.state = cc in
        let e2 : st.maximum_seen ≡ slot.state.maximum_seen =
          ap (λ (z : SequenceState). z.maximum_seen) (e ∙ is_slot) in
        omega arith
    | inr other ↦
        let flipped : key ≢ k = λ q. other (sym q) in
        let old = bounded k x (sym (others k flipped) ∙ hx) in
        let gen : st.generation ≡ x.1.state.generation =
          ap (λ (z : SequenceState). z.generation) e in
        elim (rest key other) [
          | inl nothing ↦ cc
          | inr (y, hy, inl older) ↦
              let same_y : some y ≡ some (slot_size, slot) = sym hy ∙ here in
              let e2 : y.1.state.generation ≡ slot.state.generation = cc in absurd (omega arith)
          | inr (y, hy, inr twin) ↦
              let same_y : some y ≡ some (slot_size, slot) = sym hy ∙ here in
              let e2 : st.maximum_seen ≡ slot.state.maximum_seen = cc in omega arith
        ]
  ]

  pub found-Bounded : (v key ≡ w key) ⊎ (v key ≡ some (slot_size, slot)) → ViewBounded g v
  found-Bounded here k x hx = elim (key_cases key k) [
    | inr other ↦ bounded k x (sym (others k other) ∙ hx)
    | inl same ↦ elim here [
      | inl old ↦ bounded key x (sym old ∙ ap v same ∙ hx)
      | inr new ↦
          let same_x : some (slot_size, slot) ≡ some x = sym new ∙ ap v same ∙ hx in
          let e : slot.state.generation ≡ x.1.state.generation = cc in omega arith
    ]
  ]

-- The same holds of a view that agrees at both keys.
same-ViewFloor :
    (h : ℕ) (w v : View SequenceSlot) → ((j : NvsKey) → v j ≡ w j) → ViewFloor h w → ViewFloor h v
same-ViewFloor h w v same floor st (inr (nothing, e)) =
    floor st (inr (λ j. sym (same j) ∙ nothing j, e))
same-ViewFloor h w v same floor st (inl (k, (x, hx, e, rest))) = floor st (
    inl (
      k,
      (
        x,
        sym (same k) ∙ hx,
        e,
        λ j other. elim (rest j other) [
          | inl nothing ↦ inl (sym (same j) ∙ nothing)
          | inr (y, hy, older) ↦ inr (y, sym (same j) ∙ hy, older)
        ],
      ),
    ))

same_all :
    (w v : View SequenceSlot) (key : NvsKey)
    → ((j : NvsKey) → key ≢ j → v j ≡ w j)
    → v key ≡ w key
    → (j : NvsKey) → v j ≡ w j
same_all w v key others here j = elim (key_cases key j) [
  | inl same ↦ subst (λ (k : NvsKey). v k ≡ w k) same here
  | inr other ↦ others j other
]

module _ {S : Type 0} (slot_size : ℕ) (nvs : Nvs S SequenceSlot) {restart : S → S}
    (flash : IsFlash slot_size nvs restart) where
  -- Whatever a restart may find has seen all sequences below `h`.
  abbrev pub Floor : ℕ → S → Type 0
  Floor h s = (v : View SequenceSlot) → MayFind slot_size nvs flash s v → ViewFloor h v

  abbrev pub Bounded : ℕ → S → Type 0
  Bounded g s = (v : View SequenceSlot) → MayFind slot_size nvs flash s v → ViewBounded g v

  pub Changes-Floor :
      (slot_bytes : SequenceState → List ℕ) (h : ℕ) (s t : S) (key : NvsKey) (state : SequenceState)
      → Bounded state.generation s
      → Floor h s
      → h ≤ state.maximum_seen + 1
      → Changes slot_size nvs flash s key (next_slot slot_bytes state) t
      → Floor h t × Bounded state.generation t
  unfolding next_slot
  Changes-Floor slot_bytes h s t key state bounded floor seen changes =
      let slot = next_slot slot_bytes state in
      let g = state.generation in
      (
        λ v finds.
            let (w, finds_w, others, here) = changes v finds in
            elim here [
              | inl old ↦ same-ViewFloor h w v (same_all w v key others old) (floor w finds_w)
              | inr new ↦
                  found-Floor slot_size h g w v key slot (bounded w finds_w) (omega arith) seen
                    others new
            ],
        λ v finds.
            let (w, finds_w, others, here) = changes v finds in
            found-Bounded slot_size h g w v key slot (bounded w finds_w) (omega arith) seen others
              here,
      )

  -- Once the newest slot is stored, it has seen what it has seen.
  pub stored-Floor :
      (slot_bytes : SequenceState → List ℕ) (h : ℕ) (s t : S) (key : NvsKey) (state : SequenceState)
      → Bounded state.generation s
      → h ≤ state.maximum_seen + 1
      → Changes slot_size nvs flash s key (next_slot slot_bytes state) t
      → ((v : View SequenceSlot)
          → MayFind slot_size nvs flash t v
          → v key ≡ some (slot_size, next_slot slot_bytes state))
      → Floor h t
  unfolding next_slot
  stored-Floor slot_bytes h s t key state bounded seen changes stored v finds =
      let (w, finds_w, others, here) = changes v finds in
      found-Floor slot_size h state.generation w v key (next_slot slot_bytes state)
        (bounded w finds_w) (omega arith) seen others (stored v finds)
