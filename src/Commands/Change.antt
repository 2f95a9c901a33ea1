-- ===== src/Commands/Change.antt =====
-- A change of a command is written or taken back.
use power_monitor_sensor_hea.Base.{
  ℕ, suc, ◌<◌, ◌≡◌, ◌≢◌, refl, sym, ap, ◌∙◌, arith, ◌⊎◌, inl, inr, Bool, true, false, ◌==◌,
  Bool-cases, length, length-set, get_or, set, uint32_max,
}
use power_monitor_sensor_hea.Base.Int.{ℤ}
use power_monitor_sensor_hea.Base.Esp.{EspErr, is_ok}
use power_monitor_sensor_hea.Commands.{Command, Ledger, Platform}
use power_monitor_sensor_hea.Commands.Steps.{blank, sealed, persist}
use power_monitor_sensor_hea.Commands.Changes.{change_entry}
use power_monitor_sensor_hea.Commands.Entries.{
  content, content_at, content_at-persist, get_or-set_other, get_or-set_same, length-map-seal,
}

-- The ledger is as it was, check sums aside.
abbrev pub Undone : Ledger → Ledger → Type 0
Undone ledger result =
    ((j : ℕ) → content_at result j ≡ content_at ledger j)
    × (result.generation ≡ ledger.generation)
    × (result.next ≡ ledger.next)

-- Only the entry at `i` is another one, and the generation is the next.
abbrev pub Done : Ledger → ℕ → Command → Ledger → Type 0
Done ledger i changed result =
    (content_at result i ≡ content changed)
    × ((j : ℕ) → i ≢ j → content_at result j ≡ content_at ledger j)
    × (result.generation ≡ suc ledger.generation)
    × (result.next ≡ ledger.next)

-- Either of the two, as the result says.
abbrev pub Changed : Ledger → ℕ → Command → EspErr → Ledger → Type 0
Changed ledger i changed error result =
    ((is_ok error ≡ true) × Done ledger i changed result)
    ⊎ ((is_ok error ≡ false) × Undone ledger result)

equal_or_not : (i j : ℕ) → (i ≡ j) ⊎ (i ≢ j)
equal_or_not i j = elim (Bool-cases (i == j)) [
  | inl h ↦ inl (ground arith)
  | inr h ↦ inr (λ e. ground arith)
]

module _ {S : Type 0} (platform : Platform S) where
  persist_parts :
      (ledger : Ledger) (store : S)
      → ((persist platform ledger store).1.next ≡ ledger.next)
        × (is_ok (persist platform ledger store).0 ≡ true
            → (persist platform ledger store).1.generation ≡ suc ledger.generation)
  unfolding persist sealed
  persist_parts ledger store = elim (Bool-cases (ledger.generation == uint32_max)) [
    | inl full ↦ (rw full refl, rw full (λ h. cc))
    | inr room ↦ (rw room refl, rw room (λ h. refl))
  ]

  length-persist :
      (ledger : Ledger) (store : S)
      → length (persist platform ledger store).1.entries ≡ length ledger.entries
  unfolding persist sealed
  length-persist ledger store = elim (Bool-cases (ledger.generation == uint32_max)) [
    | inl full ↦ rw full refl
    | inr room ↦ rw room (length-map-seal platform ledger.entries)
  ]

  -- The ledger with the changed entry, and what writing it leaves.
  abbrev attempt : Ledger → ℕ → Command → S → EspErr × Ledger × S
  attempt ledger i changed store =
      persist platform (record ledger { entries = set ledger.entries i changed }) store

  other_entry :
      (ledger : Ledger) (i : ℕ) (changed : Command) (store : S) (j : ℕ)
      → i ≢ j
      → content_at (attempt ledger i changed store).1 j ≡ content_at ledger j
  other_entry ledger i changed store j other =
      content_at-persist platform (record ledger { entries = set ledger.entries i changed }) store j
      ∙ ap content (get_or-set_other ledger.entries i j changed blank other)

  -- The old entry is put back.
  put_back :
      (ledger : Ledger) (i : ℕ) (changed : Command) (store : S) (j : ℕ)
      → i < length ledger.entries
      → content (
          get_or
            (set (attempt ledger i changed store).1.entries i (get_or ledger.entries i blank))
            j
            blank)
        ≡ content_at ledger j
  put_back ledger i changed store j h =
      let written = (attempt ledger i changed store).1 in
      let previous = get_or ledger.entries i blank in
      let room : i < length written.entries = omega (
        arith,
        length-persist (record ledger { entries = set ledger.entries i changed }) store,
        length-set ledger.entries i changed,
      ) in
      elim (equal_or_not i j) [
        | inl here ↦
            ap (λ (k : ℕ). content (get_or (set written.entries i previous) k blank)) (sym here)
            ∙ ap content (get_or-set_same written.entries i previous blank room)
            ∙ ap (content_at ledger) here
        | inr other ↦
            ap content (get_or-set_other written.entries i j previous blank other)
            ∙ other_entry ledger i changed store j other
      ]

  pub change_entry-Changed :
      (memory : Bool) (ledger : Ledger) (i : ℕ) (changed : Command) (store : S)
      → i < length ledger.entries
      → let result = change_entry platform memory ledger i changed store in
        Changed ledger i changed result.0 result.1
  unfolding change_entry
  change_entry-Changed false ledger i changed store h = inr (refl, (λ j. refl, refl, refl))
  change_entry-Changed true ledger i changed store h =
      let next = record ledger { entries = set ledger.entries i changed } in
      let (same_next, counted) = persist_parts next store in
      elim (Bool-cases (is_ok (persist platform next store).0)) [
        | inl stored ↦
            let here =
              content_at-persist platform next store i
              ∙ ap content (get_or-set_same ledger.entries i changed blank h) in
            rw stored
              (inl (refl, (here, other_entry ledger i changed store, counted stored, same_next)))
        | inr lost ↦
            let back = λ (j : ℕ). put_back ledger i changed store j h in
            rw lost (inr (lost, (back, refl, same_next)))
      ]

  -- The command with the transition made.
  abbrev pub moved : Command → ℕ → ℕ → ℤ → Command
  moved command state progress_percent result_code = record command {
    state = state;
    progress_percent = progress_percent;
    result_code = result_code;
  }
