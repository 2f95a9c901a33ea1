-- ===== src/Commands/Accept.antt =====
-- What accepting a command does to the entries that are there.
use power_monitor_sensor_hea.Base.{
  ℕ, ◌+◌, ◌%◌, ◌≡◌, ◌≢◌, refl, ap, ◌∙◌, ◌⊎◌, inl, inr, Bool, true, false, not, ◌||◌, leb,
  if◌then◌else◌, Bool-cases, Option-cases, Option, none, some, List, get_or, set,
}
use power_monitor_sensor_hea.Base.Int.{ℤ}
use power_monitor_sensor_hea.Base.Esp.{EspErr, ok, no_mem, invalid_crc, is_ok}
use power_monitor_sensor_hea.Commands.{Command, Ledger, Platform, ledger_size, type_count}
use power_monitor_sensor_hea.Commands.Steps.{
  blank, is_empty, available, find_entry, find_available, before_nul, known_same, store_found,
  accept_known, persist, candidate, place_candidate, store_candidate, command_accept,
}
use power_monitor_sensor_hea.Commands.Entries.{
  content, content_at, content_at-persist, find_available-available, get_or-set_other,
}

module _ {S : Type 0} (platform : Platform S) where
  -- Another place keeps its content.
  place_candidate-content_at :
      (memory : Bool) (ledger : Ledger) (new : Command) (selected : ℕ) (store : S) (i : ℕ)
      → selected ≢ i
      → content_at (place_candidate platform memory ledger new selected store).2 i
        ≡ content_at ledger i
  unfolding place_candidate
  place_candidate-content_at false ledger new selected store i other = refl
  place_candidate-content_at true ledger new selected store i other =
      let changed = record ledger {
        entries = set ledger.entries selected new;
        next = (selected + 1) % ledger_size;
      } in
      let written = (persist platform changed store).1 in
      let kept : content_at written i ≡ content_at ledger i =
        content_at-persist platform changed store i
        ∙ ap content (get_or-set_other ledger.entries selected i new blank other) in
      elim (Bool-cases (is_ok (persist platform changed store).0)) [
        | inl stored ↦ rw stored kept
        | inr lost ↦ rw lost (
            ap content (
              get_or-set_other written.entries selected i (get_or ledger.entries selected blank)
                blank other)
            ∙ kept)
      ]

  pub store_candidate_full :
      (memory : Bool) (ledger : Ledger) (new : Command) (store : S)
      → find_available ledger.entries ledger.next 0 ledger_size ≡ none
      → store_candidate platform memory ledger new store ≡ (no_mem, none, ledger, store)
  unfolding store_candidate
  store_candidate_full memory ledger new store full =
      ap (store_found platform memory ledger new store) full

  pub store_candidate-place_candidate :
      (memory : Bool) (ledger : Ledger) (new : Command) (store : S) (selected : ℕ)
      → find_available ledger.entries ledger.next 0 ledger_size ≡ some selected
      → store_candidate platform memory ledger new store
        ≡ place_candidate platform memory ledger new selected store
  unfolding store_candidate
  store_candidate-place_candidate memory ledger new store selected found =
      ap (store_found platform memory ledger new store) found

  store_candidate-content_at :
      (memory : Bool) (ledger : Ledger) (new : Command) (store : S) (i : ℕ)
      → available (get_or ledger.entries i blank) ≡ false
      → content_at (store_candidate platform memory ledger new store).2 i ≡ content_at ledger i
  store_candidate-content_at memory ledger new store i busy =
      let at_i = λ (r : EspErr × Option (ℕ × Bool) × Ledger × S). content_at r.2 i in
      elim (Option-cases (find_available ledger.entries ledger.next 0 ledger_size)) [
        | inl full ↦ ap at_i (store_candidate_full memory ledger new store full)
        | inr (selected, found) ↦
            let (free, _) =
              find_available-available ledger.entries ledger.next 0 ledger_size selected found in
            let other : selected ≢ i = λ e. cc in
            ap at_i (store_candidate-place_candidate memory ledger new store selected found)
            ∙ place_candidate-content_at memory ledger new selected store i other
      ]

  -- Nothing changes, and no new command has a place.
  abbrev pub Unchanged : Ledger → EspErr × Option (ℕ × Bool) × Ledger × S → Type 0
  Unchanged ledger result = (result.2 ≡ ledger) × ((k : ℕ) → result.1 ≢ some (k, false))

  -- Where a command is accepted that is not known, it is well formed and goes to `store_candidate`.
  abbrev pub IsNew : Bool → Ledger → Command → ℤ → S → Type 0
  IsNew memory ledger incoming now store =
      (text : List ℕ) × (before_nul incoming.payload ≡ some text)
      × (find_entry ledger.entries 0 incoming.command_id incoming.idempotency_key ≡ none)
      × ((is_empty incoming.command_id
            || is_empty incoming.idempotency_key
            || leb type_count incoming.type)
          ≡ false)
      × (command_accept platform memory ledger incoming now store
          ≡ store_candidate platform memory ledger (candidate platform incoming text now) store)

  accept_known-Unchanged :
      (memory : Bool) (ledger : Ledger) (incoming : Command) (now : ℤ) (store : S) (text : List ℕ)
      (j : ℕ)
      → Unchanged ledger (accept_known platform memory ledger incoming now store text (some j))
  accept_known-Unchanged memory ledger incoming now store text j =
      go (known_same platform (get_or ledger.entries j blank) incoming text)
    where
      go :
          (b : Bool)
          → Unchanged ledger (
              if not b
              then (invalid_crc, none, ledger, store)
              else (ok, some (j, true), ledger, store))
      go true = (refl, λ k h. cc)
      go false = (refl, λ k h. cc)

  pub command_accept_cases :
      (memory : Bool) (ledger : Ledger) (incoming : Command) (now : ℤ) (store : S)
      → Unchanged ledger (command_accept platform memory ledger incoming now store)
        ⊎ IsNew memory ledger incoming now store
  unfolding command_accept
  command_accept_cases memory ledger incoming now store =
      elim (Bool-cases (
        is_empty incoming.command_id
        || is_empty incoming.idempotency_key
        || leb type_count incoming.type)) [
          | inl malformed ↦ inl (rw malformed (refl, λ k h. cc))
          | inr formed ↦ elim (Option-cases (before_nul incoming.payload)) [
            | inl unended ↦ inl (rw (formed, unended) (refl, λ k h. cc))
            | inr (text, ended) ↦
                elim (Option-cases
                  (find_entry ledger.entries 0 incoming.command_id incoming.idempotency_key)) [
                    | inl unknown ↦
                        inr (text, ended, unknown, formed, rw (formed, ended, unknown) refl)
                    | inr (j, known) ↦ inl (
                        rw (formed, ended, known)
                          (accept_known-Unchanged memory ledger incoming now store text j))
                  ]
          ]
        ]

  pub command_accept-content_at :
      (memory : Bool) (ledger : Ledger) (incoming : Command) (now : ℤ) (store : S) (i : ℕ)
      → available (get_or ledger.entries i blank) ≡ false
      → content_at (command_accept platform memory ledger incoming now store).2 i
        ≡ content_at ledger i
  command_accept-content_at memory ledger incoming now store i busy =
      elim (command_accept_cases memory ledger incoming now store) [
        | inl (same, _) ↦ ap (λ (l : Ledger). content_at l i) same
        | inr (text, _, _, _, e) ↦
            ap (λ (r : EspErr × Option (ℕ × Bool) × Ledger × S). content_at r.2 i) e
            ∙ store_candidate-content_at memory ledger (candidate platform incoming text now) store
                i busy
      ]
