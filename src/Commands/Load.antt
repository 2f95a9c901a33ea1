-- ===== src/Commands/Load.antt =====
-- Loading the ledger from the two slots of the flash store.
use power_monitor_sensor_hea.Base.{
  ℕ, Bool, true, false, not, ◌&&◌, ◌||◌, ◌==◌, ltb, leb, if◌then◌else◌, Option, none, some, List,
  [], ◌∷◌, replicate,
}
use power_monitor_sensor_hea.Base.Esp.{
  EspErr, ok, invalid_state, invalid_crc, is_ok, is_nvs_not_found,
}
use power_monitor_sensor_hea.Protocol.{constant_time_equal}
use power_monitor_sensor_hea.Commands.{
  Command, Ledger, Platform, Slot, slot_a, slot_b, succeeded, rolled_back, type_count, ledger_size,
}
use power_monitor_sensor_hea.Commands.Steps.{
  blank, is_empty, before_nul, command_crc, ledger_crc, persist,
}

-- pm_ledger_slot_status_t
pub data SlotStatus : Type 0 where
  missing invalid valid : SlotStatus

-- pm_ledger_slot_meta_t
pub record SlotMeta : Type 0 where
  pub status : SlotStatus
  pub size : ℕ
  pub generation : ℕ
  pub sha256 : List ℕ

abbrev pub status_index : SlotStatus → ℕ
status_index missing = 0
status_index invalid = 1
status_index valid = 2

abbrev pub zero_meta : SlotMeta
zero_meta = record { status = missing; size = 0; generation = 0; sha256 = replicate 32 0 }

abbrev pub zero_ledger : Ledger
zero_ledger = record { entries = replicate ledger_size blank; generation = 0; next = 0; crc32 = 0 }

abbrev pub of_slot : Slot → SlotMeta → SlotMeta → SlotMeta
of_slot slot_a a b = a
of_slot slot_b a b = b

abbrev pub all_zero : List ℕ → Bool
all_zero [] = true
all_zero (b ∷ bs) = let rest = all_zero bs in if not (b == 0) then false else rest

unfoldable pub slot_meta_equal : SlotMeta → SlotMeta → Bool
slot_meta_equal left right =
    status_index left.status == status_index right.status
    && left.size == right.size
    && left.generation == right.generation
    && constant_time_equal left.sha256 right.sha256

-- What nvs_get_blob leaves: its result, the length, the object, and its bytes as far as they were
-- read. The size of the object is the target's.
pub record Reader (S : Type 0) : Type 0 where
  pub get_blob : Slot → S → EspErr × ℕ × Ledger × List ℕ × S
  pub ledger_bytes_size : ℕ

module _ {S : Type 0} (platform : Platform S) (reader : Reader S) where
  unfoldable pub payload_valid : Command → Option (List ℕ) → Bool
  payload_valid command none = false
  payload_valid command (some text) =
      if command.payload_redacted
      then all_zero command.payload
      else constant_time_equal (platform.sha256 text) command.payload_sha256

  unfoldable pub command_valid : Command → Bool
  command_valid command =
      if is_empty command.command_id
        || leb type_count command.type
        || ltb rolled_back command.state
        || ltb 100 command.progress_percent
        || (command.result_ack_required && not (command.state == succeeded))
        || not (command.crc32 == command_crc platform command)
      then false
      else payload_valid command (before_nul command.payload)

  unfoldable pub entries_valid : List Command → Bool
  entries_valid [] = true
  entries_valid (e ∷ es) =
      let rest = entries_valid es in
      if not (is_empty e.command_id) && not (command_valid e) then false else rest

  unfoldable pub ledger_valid : Ledger → Bool
  ledger_valid ledger =
      if leb ledger_size ledger.next || not (ledger.crc32 == ledger_crc platform ledger)
      then false
      else entries_valid ledger.entries

  unfoldable pub inspect_slot : Slot → S → EspErr × Ledger × SlotMeta × S
  inspect_slot slot store =
      let (error, size, ledger, bytes, store1) = reader.get_blob slot store in
      if is_nvs_not_found error
      then (ok, ledger, zero_meta, store1)
      else if not (is_ok error)
      then (error, ledger, zero_meta, store1)
      else if not (size == reader.ledger_bytes_size)
      then (
        ok,
        ledger,
        record { status = invalid; size = size; generation = 0; sha256 = platform.sha256 bytes },
        store1,
      )
      else (
        ok,
        ledger,
        record {
          status = if ledger_valid ledger then valid else invalid;
          size = size;
          generation = ledger.generation;
          sha256 = platform.sha256 bytes;
        },
        store1,
      )

  -- Both slots are read again, and then the one that is selected.
  unfoldable pub read_again : Slot → SlotMeta → SlotMeta → S → EspErr × Ledger × S
  read_again selected initial_a initial_b store =
      let (error_a, _, final_a, store1) = inspect_slot slot_a store in
      if not (is_ok error_a)
      then (error_a, zero_ledger, store1)
      else (let (error_b, _, final_b, store2) = inspect_slot slot_b store1 in
          if not (is_ok error_b)
          then (error_b, zero_ledger, store2)
          else if not (slot_meta_equal initial_a final_a && slot_meta_equal initial_b final_b)
          then (invalid_state, zero_ledger, store2)
          else (let (error, ledger, final, store3) = inspect_slot selected store2 in
              let initial = of_slot selected initial_a initial_b in
              if not (is_ok error)
              then (error, zero_ledger, store3)
              else if not (status_index final.status == 2) || not (slot_meta_equal initial final)
              then (invalid_state, zero_ledger, store3)
              else (ok, ledger, store3)))

  -- What the first reading of the two slots decides.
  unfoldable pub select_slot : SlotMeta → SlotMeta → S → EspErr × Ledger × S
  select_slot a b store =
      let valid_a = status_index a.status == 2 in
      let valid_b = status_index b.status == 2 in
      if status_index a.status == 0 && status_index b.status == 0
      then persist platform zero_ledger store
      else if not valid_a && not valid_b
      then (invalid_crc, zero_ledger, store)
      else if valid_a
          && valid_b
          && a.generation == b.generation
          && not (constant_time_equal a.sha256 b.sha256)
      then (invalid_state, zero_ledger, store)
      else read_again
          (if valid_a && (not valid_b || leb b.generation a.generation) then slot_a else slot_b) a b
          store

  unfoldable pub commands_load : S → EspErr × Ledger × S
  commands_load store =
      let (opened, store0) = platform.nvs_open store in
      if not (is_ok opened)
      then (opened, zero_ledger, store0)
      else (let (error_a, _, a, store1) = inspect_slot slot_a store0 in
          if not (is_ok error_a)
          then (error_a, zero_ledger, store1)
          else (let (error_b, _, b, store2) = inspect_slot slot_b store1 in
              if not (is_ok error_b)
              then (error_b, zero_ledger, store2)
              else select_slot a b store2))
