-- ===== src/Commands/Replay.antt =====
-- A new command is found where it was placed, and answered as a duplicate there.
use power_monitor_sensor_hea.Base.{
  ℕ, zero, suc, ◌+◌, ◌%◌, ◌<◌, ◌≡◌, refl, sym, ap, subst, ◌∙◌, arith, inl, inr, Bool, true, false,
  ◌||◌, ◌==◌, leb, if◌then◌else◌, Bool-cases, Option-cases, Option, none, some, List, [], ◌∷◌, map,
  length, get_or, set, uint32_max,
}
use power_monitor_sensor_hea.Base.Int.{ℤ}
use power_monitor_sensor_hea.Base.Esp.{EspErr, ok, invalid_state, is_ok}
use power_monitor_sensor_hea.Protocol.Compare.{constant_time_equal_refl}
use power_monitor_sensor_hea.Commands.{Command, Ledger, Platform, ledger_size, type_count}
use power_monitor_sensor_hea.Commands.Steps.{
  blank, is_empty, same_text, find_entry, find_available, before_nul, known_same, seal, sealed,
  persist, candidate, place_candidate, command_accept,
}
use power_monitor_sensor_hea.Commands.Entries.{
  content, content_at, content_at-persist, content-seal, find_available-available, get_or-set_same,
}
use power_monitor_sensor_hea.Commands.Accept.{
  command_accept_cases, store_candidate_full, store_candidate-place_candidate,
}

same_text_refl : (s : List ℕ) → same_text s s ≡ true
unfolding same_text
same_text_refl [] = refl
same_text_refl (a ∷ s) = let rest = same_text_refl s in ground arith

pub no_hit :
    (b : Bool) (x : ℕ) (r : Option ℕ) → (if b then some x else r) ≡ none → (b ≡ false) × (r ≡ none)
no_hit true x r h = cc
no_hit false x r h = (refl, h)

-- A search that found nothing finds what is put at a place.
find_entry-set :
    (es : List Command) (from selected : ℕ) (new : Command)
    → find_entry es from new.command_id new.idempotency_key ≡ none
    → selected < length es
    → find_entry (set es selected new) from new.command_id new.idempotency_key
      ≡ some (from + selected)
unfolding find_entry
find_entry-set [] from selected new h lt = absurd (omega arith)
find_entry-set (e ∷ es) from zero new h lt =
    rw (same_text_refl new.command_id) (ap some (omega arith))
find_entry-set (e ∷ es) from (suc selected) new h lt =
    let here =
      same_text e.command_id new.command_id || same_text e.idempotency_key new.idempotency_key in
    let (miss, rest) =
      no_hit here from (find_entry es (suc from) new.command_id new.idempotency_key) h in
    let place : suc from + selected ≡ from + suc selected = omega arith in
    rw miss (find_entry-set es (suc from) selected new rest (omega arith) ∙ ap some place)

module _ {S : Type 0} (platform : Platform S) where
  pub find_entry-map-seal :
      (es : List Command) (from : ℕ) (id key : List ℕ)
      → find_entry (map (seal platform) es) from id key ≡ find_entry es from id key
  unfolding find_entry
  find_entry-map-seal [] from id key = refl
  find_entry-map-seal (e ∷ es) from id key =
      let same_id : (seal platform e).command_id ≡ e.command_id =
        ap (λ (c : Command). c.command_id) (content-seal platform e) in
      let same_key : (seal platform e).idempotency_key ≡ e.idempotency_key =
        ap (λ (c : Command). c.idempotency_key) (content-seal platform e) in
      rw (same_id, same_key, find_entry-map-seal es (suc from) id key) refl

  persist_full :
      (ledger : Ledger) (store : S)
      → (ledger.generation == uint32_max) ≡ true
      → (persist platform ledger store).0 ≡ invalid_state
  unfolding persist
  persist_full ledger store full = rw full refl

  entries-persist :
      (ledger : Ledger) (store : S)
      → is_ok (persist platform ledger store).0 ≡ true
      → (persist platform ledger store).1.entries ≡ map (seal platform) ledger.entries
  entries-persist ledger store h = elim (Bool-cases (ledger.generation == uint32_max)) [
    | inl full ↦
        let e : is_ok invalid_state ≡ true = sym (ap is_ok (persist_full ledger store full)) ∙ h in
        cc
    | inr room ↦ unfold persist in unfold sealed in rw room refl
  ]

  -- The ledger with the new command, as it is written.
  abbrev changed : Ledger → Command → ℕ → Ledger
  changed ledger new selected = record ledger {
    entries = set ledger.entries selected new;
    next = (selected + 1) % ledger_size;
  }

  place_candidate_stored :
      (ledger : Ledger) (new : Command) (selected : ℕ) (store : S)
      → is_ok (persist platform (changed ledger new selected) store).0 ≡ true
      → ((place_candidate platform true ledger new selected store).1 ≡ some (selected, false))
        × ((place_candidate platform true ledger new selected store).2
            ≡ (persist platform (changed ledger new selected) store).1)
  unfolding place_candidate
  place_candidate_stored ledger new selected store h = (rw h refl, rw h refl)

  place_candidate_lost :
      (ledger : Ledger) (new : Command) (selected : ℕ) (store : S)
      → is_ok (persist platform (changed ledger new selected) store).0 ≡ false
      → (place_candidate platform true ledger new selected store).1 ≡ none
  unfolding place_candidate
  place_candidate_lost ledger new selected store h = rw h refl

  no_memory :
      (ledger : Ledger) (new : Command) (selected : ℕ) (store : S)
      → (place_candidate platform false ledger new selected store).1 ≡ none
  unfolding place_candidate
  no_memory ledger new selected store = refl

  -- A place that is reported for a new command holds it, in the ledger that was written.
  place_candidate-placed :
      (memory : Bool) (ledger : Ledger) (new : Command) (selected : ℕ) (store : S) (i : ℕ)
      → (place_candidate platform memory ledger new selected store).1 ≡ some (i, false)
      → (selected ≡ i)
        × (is_ok (persist platform (changed ledger new selected) store).0 ≡ true)
        × ((place_candidate platform memory ledger new selected store).2
            ≡ (persist platform (changed ledger new selected) store).1)
  place_candidate-placed false ledger new selected store i h =
      let e = no_memory ledger new selected store in cc
  place_candidate-placed true ledger new selected store i h =
      elim (Bool-cases (is_ok (persist platform (changed ledger new selected) store).0)) [
        | inl stored ↦
            let (at, written) = place_candidate_stored ledger new selected store stored in
            (cc, stored, written)
        | inr lost ↦ let e = place_candidate_lost ledger new selected store lost in cc
      ]

  -- The ledger that holds a command answers it as a duplicate.
  pub held-accept :
      (memory : Bool) (ledger : Ledger) (incoming : Command) (now : ℤ) (store : S) (text : List ℕ)
      (i : ℕ)
      → before_nul incoming.payload ≡ some text
      → (is_empty incoming.command_id
          || is_empty incoming.idempotency_key
          || leb type_count incoming.type)
        ≡ false
      → find_entry ledger.entries 0 incoming.command_id incoming.idempotency_key ≡ some i
      → known_same platform (get_or ledger.entries i blank) incoming text ≡ true
      → command_accept platform memory ledger incoming now store
        ≡ (ok, some (i, true), ledger, store)
  unfolding command_accept
  held-accept memory ledger incoming now store text i ended formed found same =
      rw (formed, ended, found, same) refl

  pub known_same-candidate :
      (known incoming : Command) (text : List ℕ) (now : ℤ)
      → content known ≡ content (candidate platform incoming text now)
      → known_same platform known incoming text ≡ true
  unfolding candidate
  known_same-candidate known incoming text now e =
      let same_type : known.type ≡ incoming.type = ap (λ (c : Command). c.type) e in
      let same_digest : known.payload_sha256 ≡ platform.sha256 text =
        ap (λ (c : Command). c.payload_sha256) e in
      rw (same_type, same_digest, constant_time_equal_refl (platform.sha256 text)) (ground arith)

  found_again :
      (ledger : Ledger) (incoming : Command) (text : List ℕ) (now : ℤ) (store : S) (i : ℕ)
      → let new = candidate platform incoming text now in
        find_entry ledger.entries 0 incoming.command_id incoming.idempotency_key ≡ none
        → i < length ledger.entries
        → is_ok (persist platform (changed ledger new i) store).0 ≡ true
        → find_entry
            (persist platform (changed ledger new i) store).1.entries
            0
            incoming.command_id
            incoming.idempotency_key
          ≡ some i
  unfolding candidate
  found_again ledger incoming text now store i unknown lt stored =
      let new = candidate platform incoming text now in
      ap (λ (es : List Command). find_entry es 0 incoming.command_id incoming.idempotency_key)
        (entries-persist (changed ledger new i) store stored)
      ∙ find_entry-map-seal (set ledger.entries i new) 0 incoming.command_id
          incoming.idempotency_key
      ∙ find_entry-set ledger.entries 0 i new unknown lt
      ∙ ap some (omega arith)

  -- A new command that was given the place `i` is found there, with the content of its candidate.
  abbrev pub FoundAt : Ledger → Command → List ℕ → ℤ → ℕ → Type 0
  FoundAt ledger incoming text now i =
      (find_entry ledger.entries 0 incoming.command_id incoming.idempotency_key ≡ some i)
      × (content_at ledger i ≡ content (candidate platform incoming text now))

  abbrev pub IsFormed : Command → List ℕ → Type 0
  IsFormed incoming text =
      (before_nul incoming.payload ≡ some text)
      × ((is_empty incoming.command_id
            || is_empty incoming.idempotency_key
            || leb type_count incoming.type)
          ≡ false)

  placed-FoundAt :
      (memory : Bool) (ledger : Ledger) (incoming : Command) (text : List ℕ) (now : ℤ) (store : S)
      (selected i : ℕ)
      → find_entry ledger.entries 0 incoming.command_id incoming.idempotency_key ≡ none
      → selected < length ledger.entries
      → let r =
          place_candidate platform memory ledger
            (candidate platform incoming text now)
            selected
            store in
        r.1 ≡ some (i, false) → FoundAt r.2 incoming text now i
  placed-FoundAt memory ledger incoming text now store selected i unknown lt h =
      let new = candidate platform incoming text now in
      let (at, stored, written) = place_candidate-placed memory ledger new selected store i h in
      subst (λ (l : Ledger). FoundAt l incoming text now i) (sym written)
        (subst
          (λ (k : ℕ).
            FoundAt (persist platform (changed ledger new selected) store).1 incoming text now k)
          at
          (
            found_again ledger incoming text now store selected unknown lt stored,
            content_at-persist platform (changed ledger new selected) store selected
                ∙ ap content (get_or-set_same ledger.entries selected new blank lt),
          ))

  pub accepted-FoundAt :
      (memory : Bool) (ledger : Ledger) (incoming : Command) (now : ℤ) (store : S) (i : ℕ)
      → length ledger.entries ≡ ledger_size
      → (command_accept platform memory ledger incoming now store).1 ≡ some (i, false)
      → (text : List ℕ) × IsFormed incoming text
        × FoundAt (command_accept platform memory ledger incoming now store).2 incoming text now i
  accepted-FoundAt memory ledger incoming now store i size h =
      elim (command_accept_cases platform memory ledger incoming now store) [
        | inl (_, never) ↦ absurd (never i h)
        | inr (text, ended, unknown, formed, e) ↦
            let new = candidate platform incoming text now in
            elim (Option-cases (find_available ledger.entries ledger.next 0 ledger_size)) [
              | inl full ↦
                  let none_at =
                    ap (λ (r : EspErr × Option (ℕ × Bool) × Ledger × S). r.1)
                      (e ∙ store_candidate_full platform memory ledger new store full) in
                  cc
              | inr (selected, found) ↦
                  let (_, lt) =
                    find_available-available ledger.entries ledger.next 0 ledger_size selected
                      found in
                  let placed =
                    e
                    ∙ store_candidate-place_candidate platform memory ledger new store selected
                        found in
                  let at_i =
                    sym (ap (λ (r : EspErr × Option (ℕ × Bool) × Ledger × S). r.1) placed) ∙ h in
                  (
                    text,
                    (ended, formed),
                    subst (λ (l : Ledger). FoundAt l incoming text now i)
                        (sym (ap (λ (r : EspErr × Option (ℕ × Bool) × Ledger × S). r.2) placed))
                        (placed-FoundAt memory ledger incoming text now store selected i unknown
                          (omega arith) at_i),
                  )
            ]
      ]
