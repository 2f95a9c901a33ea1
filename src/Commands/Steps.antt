-- ===== src/Commands/Steps.antt =====
-- The operations of the ledger.
use power_monitor_sensor_hea.Base.{
  ℕ, zero, suc, ◌+◌, ◌%◌, Bool, true, false, not, ◌&&◌, ◌||◌, ◌==◌, ltb, leb, if◌then◌else◌, Option,
  none, some, List, [], ◌∷◌, map, get_or, set, uint32_max,
}
use power_monitor_sensor_hea.Base.Int.{ℤ, pos, ltb_ℤ}
use power_monitor_sensor_hea.Base.Esp.{
  EspErr, ok, no_mem, invalid_arg, invalid_state, invalid_crc, timeout, is_ok,
}
use power_monitor_sensor_hea.Crc32.{crc32_ieee}
use power_monitor_sensor_hea.Protocol.{constant_time_equal}
use power_monitor_sensor_hea.Commands.{
  Command, Ledger, Platform, Slot, slot_a, slot_b, type_count, accepted, succeeded, failed, expired,
  cancelled, superseded, rolled_back, ledger_size,
}

abbrev pub is_empty {ℓ} : {A : Type ℓ} → List A → Bool
is_empty [] = true
is_empty (x ∷ xs) = false

-- strcmp (a, b) == 0
unfoldable pub same_text : List ℕ → List ℕ → Bool
same_text [] [] = true
same_text [] (b ∷ bs) = false
same_text (a ∷ as_) [] = false
same_text (a ∷ as_) (b ∷ bs) = let rest = same_text as_ bs in a == b && rest

-- The bytes before the NUL, where the array has one.
unfoldable pub before_nul : List ℕ → Option (List ℕ)
before_nul [] = none
before_nul (b ∷ bs) =
    let rest = before_nul bs in
    if b == 0 then some [] else elim rest [ none ↦ none | some s ↦ some (b ∷ s) ]

-- An entry that was never used: all bytes zero.
abbrev pub blank : Command
blank = record {
  command_id = [];
  idempotency_key = [];
  type = 0;
  state = 0;
  issued_utc_ms = pos 0;
  not_before_utc_ms = pos 0;
  expires_utc_ms = pos 0;
  progress_percent = 0;
  attempt = 0;
  result_ack_required = false;
  payload_redacted = false;
  payload_sha256 = [];
  payload = [];
  result_text = [];
  evidence_json = [];
  result_code = pos 0;
  crc32 = 0;
}

unfoldable pub command_terminal : ℕ → Bool
command_terminal state =
    state == succeeded
    || state == failed
    || state == expired
    || state == cancelled
    || state == superseded
    || state == rolled_back

-- The first entry with the id or the key, from place `i`.
unfoldable pub find_entry : List Command → ℕ → List ℕ → List ℕ → Option ℕ
find_entry [] i id key = none
find_entry (e ∷ es) i id key =
    let rest = find_entry es (suc i) id key in
    if same_text e.command_id id || same_text e.idempotency_key key then some i else rest

abbrev pub available : Command → Bool
available e = is_empty e.command_id || (command_terminal e.state && not e.result_ack_required)

-- The search for a place, `rounds` rounds from `offset`.
unfoldable pub find_available : List Command → ℕ → ℕ → ℕ → Option ℕ
find_available entries next offset zero = none
find_available entries next offset (suc rounds) =
    let rest = find_available entries next (suc offset) rounds in
    let index = (next + offset) % ledger_size in
    if available (get_or entries index blank) then some index else rest

-- A public operation takes the lock first.
abbrev pub with_lock {ℓ} : {A : Type ℓ} → EspErr → A → A → A
with_lock lock unlocked result = if is_ok lock then result else unlocked

module _ {S : Type 0} (platform : Platform S) where
  unfoldable pub command_crc : Command → ℕ
  command_crc c = crc32_ieee (platform.command_bytes c)

  unfoldable pub ledger_crc : Ledger → ℕ
  ledger_crc l = crc32_ieee (platform.ledger_bytes l)

  abbrev pub seal : Command → Command
  seal c = if is_empty c.command_id then c else record c { crc32 = command_crc c }

  -- Open, write, commit: what follows an error is not done.
  unfoldable pub write_slot : Slot → Ledger → S → EspErr × S
  write_slot slot ledger store =
      let (opened, store1) = platform.nvs_open store in
      if not (is_ok opened)
      then (opened, store1)
      else (let (written, store2) = platform.nvs_set_blob slot ledger store1 in
          if not (is_ok written) then (written, store2) else platform.nvs_commit store2)

  -- The ledger that is written.
  unfoldable pub sealed : Ledger → Ledger
  sealed ledger =
      let numbered = record ledger {
        generation = suc ledger.generation;
        entries = map seal ledger.entries;
      } in
      record numbered { crc32 = ledger_crc numbered }

  unfoldable pub persist : Ledger → S → EspErr × Ledger × S
  persist ledger store =
      if ledger.generation == uint32_max
      then (invalid_state, ledger, store)
      else (let slot = if ltb 0 (suc ledger.generation % 2) then slot_a else slot_b in
          let (error, store1) = write_slot slot (sealed ledger) store in
          (error, sealed ledger, store1))

  unfoldable pub candidate : Command → List ℕ → ℤ → Command
  candidate incoming text now =
      let fresh = record incoming {
        payload_sha256 = platform.sha256 text;
        payload_redacted = false;
        state = if ltb_ℤ incoming.expires_utc_ms now then expired else accepted;
        progress_percent = 0;
      } in
      record fresh { crc32 = command_crc fresh }

  -- The candidate goes to the place `selected`, and is taken out again when it cannot be written.
  -- `*stored` and `*duplicate` are left as they are where the result has none.
  unfoldable pub place_candidate :
      Bool → Ledger → Command → ℕ → S → EspErr × Option (ℕ × Bool) × Ledger × S
  place_candidate memory ledger new selected store =
      if not memory
      then (no_mem, none, ledger, store)
      else (let previous = get_or ledger.entries selected blank in
          let (error, written, store1) =
            persist
              (record ledger {
                entries = set ledger.entries selected new;
                next = (selected + 1) % ledger_size;
              })
              store in
          if not (is_ok error)
          then (
            error,
            none,
            record written {
              entries = set written.entries selected previous;
              next = ledger.next;
              generation = ledger.generation;
              crc32 = ledger.crc32;
            },
            store1,
          )
          else (
            if new.state == expired then timeout else ok,
            some (selected, false),
            written,
            store1,
          ))

  -- By the place that the search has found.
  abbrev pub store_found :
      Bool → Ledger → Command → S → Option ℕ → EspErr × Option (ℕ × Bool) × Ledger × S
  store_found memory ledger new store none = (no_mem, none, ledger, store)
  store_found memory ledger new store (some selected) =
      place_candidate memory ledger new selected store

  unfoldable pub store_candidate :
      Bool → Ledger → Command → S → EspErr × Option (ℕ × Bool) × Ledger × S
  store_candidate memory ledger new store =
      store_found memory ledger new store (find_available ledger.entries ledger.next 0 ledger_size)

  -- `matches`: the known command has the type and the payload of the one that comes in.
  abbrev pub known_same : Command → Command → List ℕ → Bool
  known_same known incoming text =
      known.type == incoming.type && constant_time_equal known.payload_sha256 (platform.sha256 text)

  abbrev pub accept_known :
      Bool → Ledger → Command → ℤ → S → List ℕ → Option ℕ → EspErr × Option (ℕ × Bool) × Ledger × S
  accept_known memory ledger incoming now store text none =
      store_candidate memory ledger (candidate incoming text now) store
  accept_known memory ledger incoming now store text (some i) =
      if not (known_same (get_or ledger.entries i blank) incoming text)
      then (invalid_crc, none, ledger, store)
      else (ok, some (i, true), ledger, store)

  abbrev pub accept_text :
      Bool → Ledger → Command → ℤ → S → Option (List ℕ) → EspErr × Option (ℕ × Bool) × Ledger × S
  accept_text memory ledger incoming now store none = (invalid_arg, none, ledger, store)
  accept_text memory ledger incoming now store (some text) =
      accept_known memory ledger incoming now store text
        (find_entry ledger.entries 0 incoming.command_id incoming.idempotency_key)

  unfoldable pub command_accept :
      Bool → Ledger → Command → ℤ → S → EspErr × Option (ℕ × Bool) × Ledger × S
  command_accept memory ledger incoming now store =
      if is_empty incoming.command_id
        || is_empty incoming.idempotency_key
        || leb type_count incoming.type
      then (invalid_arg, none, ledger, store)
      else accept_text memory ledger incoming now store (before_nul incoming.payload)
