-- ===== src/Commands/Once.antt =====
-- A command that comes again after others.
use power_monitor_sensor_hea.Base.{
  ℕ, ◌+◌, ◌%◌, ◌≡◌, ◌≢◌, refl, sym, ap, subst, ◌∙◌, arith, inl, inr, Bool, true, false, ◌==◌,
  Bool-cases, Option-cases, Option, none, some, List, [], ◌∷◌, length, get_or, set, uint32_max,
}
use power_monitor_sensor_hea.Base.Int.{ℤ}
use power_monitor_sensor_hea.Base.Esp.{EspErr, ok, is_ok}
use power_monitor_sensor_hea.Commands.{Command, Ledger, Platform, ledger_size}
use power_monitor_sensor_hea.Commands.Steps.{
  blank, available, find_entry, find_available, sealed, persist, candidate, place_candidate,
  command_accept,
}
use power_monitor_sensor_hea.Commands.Entries.{find_available-available}
use power_monitor_sensor_hea.Commands.Accept.{
  command_accept_cases, command_accept-content_at, store_candidate_full,
  store_candidate-place_candidate,
}
use power_monitor_sensor_hea.Commands.Replay.{
  FoundAt, accepted-FoundAt, find_entry-map-seal, held-accept, known_same-candidate,
}
use power_monitor_sensor_hea.Commands.Search.{
  same_text_sym, hits, found-lt, before_no_hit, none_no_hit, find_entry-set_other,
}

-- A call of pm_command_accept: whether there is memory, the command and the time.
abbrev pub Call : Type 0
Call = Bool × Command × ℤ

module _ {S : Type 0} (platform : Platform S) where
  -- Calls one after the other.
  unfoldable pub accept_all : List Call → Ledger → S → Ledger × S
  accept_all [] ledger store = (ledger, store)
  accept_all ((memory, incoming, now) ∷ calls) ledger store =
      let (error, placed, ledger1, store1) =
        command_accept platform memory ledger incoming now store in
      accept_all calls ledger1 store1

  persist_find :
      (ledger : Ledger) (store : S) (id key : List ℕ)
      → find_entry (persist platform ledger store).1.entries 0 id key
        ≡ find_entry ledger.entries 0 id key
  unfolding persist sealed
  persist_find ledger store id key = elim (Bool-cases (ledger.generation == uint32_max)) [
    | inl full ↦ rw full refl
    | inr room ↦ rw room (find_entry-map-seal platform ledger.entries 0 id key)
  ]

  -- A new command at another place, with another id and another key, is not found instead.
  place_candidate_find :
      (memory : Bool) (ledger : Ledger) (new : Command) (selected : ℕ) (store : S) (id key : List ℕ)
      (i : ℕ)
      → find_entry ledger.entries 0 id key ≡ some (0 + i)
      → selected ≢ i
      → hits new id key ≡ false
      → find_entry (place_candidate platform memory ledger new selected store).2.entries 0 id key
        ≡ some (0 + i)
  unfolding place_candidate
  place_candidate_find false ledger new selected store id key i found other miss = found
  place_candidate_find true ledger new selected store id key i found other miss =
      let changed = record ledger {
        entries = set ledger.entries selected new;
        next = (selected + 1) % ledger_size;
      } in
      let written = (persist platform changed store).1 in
      let found2 : find_entry written.entries 0 id key ≡ some (0 + i) =
        persist_find changed store id key
        ∙ find_entry-set_other ledger.entries 0 id key i selected new found other (λ lt. miss) in
      elim (Bool-cases (is_ok (persist platform changed store).0)) [
        | inl stored ↦ rw stored found2
        | inr lost ↦ rw lost (
            find_entry-set_other written.entries 0 id key i selected
              (get_or ledger.entries selected blank) found2 other
              (λ lt. before_no_hit ledger.entries 0 id key i selected found lt))
      ]

  -- A command that the ledger does not know has neither the id nor the key of an entry.
  stranger :
      (ledger : Ledger) (incoming other : Command) (text other_text : List ℕ) (now later : ℤ)
      (i : ℕ)
      → FoundAt platform ledger incoming text now i
      → find_entry ledger.entries 0 other.command_id other.idempotency_key ≡ none
      → hits
          (candidate platform other other_text later)
          incoming.command_id
          incoming.idempotency_key
        ≡ false
  unfolding candidate
  stranger ledger incoming other text other_text now later i (found, held) unknown =
      let at = get_or ledger.entries i blank in
      let lt =
        found-lt ledger.entries 0 incoming.command_id incoming.idempotency_key i
          (found ∙ ap some (omega arith)) in
      let miss = none_no_hit ledger.entries 0 other.command_id other.idempotency_key i unknown lt in
      let same_id : at.command_id ≡ incoming.command_id = ap (λ (c : Command). c.command_id) held in
      let same_key : at.idempotency_key ≡ incoming.idempotency_key =
        ap (λ (c : Command). c.idempotency_key) held in
      rw
        (
          same_text_sym other.command_id incoming.command_id,
          same_text_sym other.idempotency_key incoming.idempotency_key,
          sym same_id,
          sym same_key,
        )
        miss

  -- Another call keeps a command that is not finished or not acknowledged.
  accept-FoundAt :
      (memory : Bool) (ledger : Ledger) (incoming other : Command) (text : List ℕ) (now later : ℤ)
      (store : S) (i : ℕ)
      → available (candidate platform incoming text now) ≡ false
      → FoundAt platform ledger incoming text now i
      → FoundAt platform
          (command_accept platform memory ledger other later store).2
          incoming
          text
          now
          i
  accept-FoundAt memory ledger incoming other text now later store i busy (found, held) =
      let busy_i : available (get_or ledger.entries i blank) ≡ false = ap available held ∙ busy in
      let P : Ledger → Type 0 =
        λ l. find_entry l.entries 0 incoming.command_id incoming.idempotency_key ≡ some i in
      let still : P (command_accept platform memory ledger other later store).2 =
        elim (command_accept_cases platform memory ledger other later store) [
          | inl (same, _) ↦ subst P (sym same) found
          | inr (other_text, _, unknown, _, e) ↦
              let new = candidate platform other other_text later in
              let third = λ (r : EspErr × Option (ℕ × Bool) × Ledger × S). r.2 in
              elim (Option-cases (find_available ledger.entries ledger.next 0 ledger_size)) [
                | inl full ↦
                    subst P
                      (sym
                        (ap third (e ∙ store_candidate_full platform memory ledger new store full)))
                      found
                | inr (selected, place) ↦
                    let (free, _) =
                      find_available-available ledger.entries ledger.next 0 ledger_size selected
                        place in
                    let elsewhere : selected ≢ i = λ q. cc in
                    let miss =
                      stranger ledger incoming other text other_text now later i (found, held)
                        unknown in
                    subst P
                      (sym (
                        ap third (
                          e
                          ∙ store_candidate-place_candidate platform memory ledger new store
                              selected place)))
                      (place_candidate_find memory ledger new selected store incoming.command_id
                          incoming.idempotency_key i (found ∙ ap some (omega arith)) elsewhere miss
                        ∙ ap some (omega arith))
              ]
        ] in
      (still, command_accept-content_at platform memory ledger other later store i busy_i ∙ held)

  accept_all-FoundAt :
      (calls : List Call) (ledger : Ledger) (incoming : Command) (text : List ℕ) (now : ℤ)
      (store : S) (i : ℕ)
      → available (candidate platform incoming text now) ≡ false
      → FoundAt platform ledger incoming text now i
      → FoundAt platform (accept_all calls ledger store).0 incoming text now i
  unfolding accept_all
  accept_all-FoundAt [] ledger incoming text now store i busy found = found
  accept_all-FoundAt ((memory, other, later) ∷ calls) ledger incoming text now store i busy found =
      let (_, _, ledger1, store1) = command_accept platform memory ledger other later store in
      accept_all-FoundAt calls ledger1 incoming text now store1 i busy
        (accept-FoundAt memory ledger incoming other text now later store i busy found)

  -- A command that was given the place `i` as a new one, and is not finished there or waits for the
  -- acknowledgement of its result, is not accepted anew: after any further calls of
  -- pm_command_accept, with any commands, and no other change of the ledger, the same command is
  -- answered as a duplicate with the same place, whatever the time is, and neither the ledger nor the
  -- flash store changes.
  pub accept_again_duplicate :
      (memory again : Bool) (ledger : Ledger) (incoming : Command) (now later : ℤ)
      (store store2 : S) (calls : List Call) (i : ℕ)
      → length ledger.entries ≡ ledger_size
      → (command_accept platform memory ledger incoming now store).1 ≡ some (i, false)
      → let written = (command_accept platform memory ledger incoming now store).2 in
        available (get_or written.entries i blank) ≡ false
        → let (ledger3, store3) = accept_all calls written store2 in
          command_accept platform again ledger3 incoming later store3
          ≡ (ok, some (i, true), ledger3, store3)
  accept_again_duplicate memory again ledger incoming now later store store2 calls i size h busy =
      let written = (command_accept platform memory ledger incoming now store).2 in
      let (text, (ended, formed), (found, held)) =
        accepted-FoundAt platform memory ledger incoming now store i size h in
      let (ledger3, store3) = accept_all calls written store2 in
      let (found3, held3) =
        accept_all-FoundAt calls written incoming text now store2 i (sym (ap available held) ∙ busy)
          (found, held) in
      held-accept platform again ledger3 incoming later store3 text i ended formed found3
        (known_same-candidate platform (get_or ledger3.entries i blank) incoming text now held3)
