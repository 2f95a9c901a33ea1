-- ===== src/Sequence/Defs.antt =====
-- The operations of the sequence store.
use power_monitor_sensor_hea.Base.{
  ℕ, suc, ◌+◌, ◌-◌, Bool, not, ◌&&◌, ◌||◌, ◌==◌, ltb, leb, if◌then◌else◌, Option, none, some, List,
  uint32_max, uint64_max,
}
use power_monitor_sensor_hea.Base.Esp.{
  EspErr, ok, fail, invalid_arg, invalid_state, invalid_size, invalid_crc, is_ok, is_nvs_not_found,
}
use power_monitor_sensor_hea.Crc32.{crc32_ieee}
use power_monitor_sensor_hea.Nvs.{Nvs, NvsKey, slot_a, slot_b, on_ok}

-- pm_sequence_state_t
pub record SequenceState : Type 0 where
  pub next_sequence : ℕ  -- uint64_t
  pub reserved_through : ℕ  -- uint64_t
  pub maximum_seen : ℕ  -- uint64_t
  pub acknowledged : ℕ  -- uint64_t
  pub reset_generation : ℕ  -- uint32_t
  pub generation : ℕ  -- uint32_t

-- sequence_slot_t
pub record SequenceSlot : Type 0 where
  pub state : SequenceState
  pub crc32 : ℕ  -- uint32_t

abbrev pub reservation_block : ℕ
reservation_block = 64

-- memcmp(&a, &b, sizeof(a)) == 0
unfoldable pub same_state : SequenceState → SequenceState → Bool
same_state a b =
    a.next_sequence == b.next_sequence
    && a.reserved_through == b.reserved_through
    && a.maximum_seen == b.maximum_seen
    && a.acknowledged == b.acknowledged
    && a.reset_generation == b.reset_generation
    && a.generation == b.generation

-- The state of a store that was never written.
abbrev pub initial_state : SequenceState
initial_state = record {
  next_sequence = 1;
  reserved_through = 0;
  maximum_seen = 0;
  acknowledged = 0;
  reset_generation = 0;
  generation = 0;
}

-- What the two slots say together.
pub data Choice : Type 0 where
  refuse : EspErr → Choice
  first_start : Choice
  chosen : SequenceState → Choice

module _ (slot_bytes : SequenceState → List ℕ) where
  unfoldable pub slot_crc : SequenceSlot → ℕ
  slot_crc slot = crc32_ieee (slot_bytes slot.state)

  unfoldable pub slot_valid : SequenceSlot → Bool
  slot_valid slot =
      ltb 0 slot.state.next_sequence
      && leb (slot.state.next_sequence - 1) slot.state.reserved_through
      && ltb slot.state.maximum_seen slot.state.next_sequence
      && leb slot.state.acknowledged slot.state.maximum_seen
      && slot.crc32 == slot_crc slot

  -- The slot that `persist` writes.
  unfoldable pub next_slot : SequenceState → SequenceSlot
  next_slot state =
      let counted = record state { generation = suc state.generation } in
      record { state = counted; crc32 = slot_crc record { state = counted; crc32 = 0 } }

-- The error of a slot that cannot be used, unless it is only missing.
abbrev pub present_error : EspErr → EspErr → EspErr
present_error error_a error_b =
    if not (is_ok error_a) && not (is_nvs_not_found error_a) then error_a else error_b

unfoldable pub choose : EspErr → SequenceState → EspErr → SequenceState → Choice
choose error_a a error_b b =
    let valid_a = is_ok error_a in
    let valid_b = is_ok error_b in
    if not valid_a && not valid_b
    then (if not (is_nvs_not_found error_a) || not (is_nvs_not_found error_b)
        then refuse (if not (is_nvs_not_found error_a) then error_a else error_b)
        else first_start)
    else if (not valid_a && not (is_nvs_not_found error_a))
        || (not valid_b && not (is_nvs_not_found error_b))
    then refuse (present_error error_a error_b)
    else if valid_a && valid_b && a.generation == b.generation && not (same_state a b)
    then refuse invalid_state
    else chosen (if valid_a && (not valid_b || leb b.generation a.generation) then a else b)

-- The slot that is not selected.
unfoldable pub inactive_key : ℕ → NvsKey
inactive_key active = if active == b'A' then slot_b else slot_a

unfoldable pub inactive_name : ℕ → ℕ
inactive_name active = if active == b'A' then b'B' else b'A'

module _ {S : Type 0} (slot_bytes : SequenceState → List ℕ) (slot_size : ℕ)
    (nvs : Nvs S SequenceSlot) where
  unfoldable pub read_slot : NvsKey → S → EspErr × SequenceSlot × S
  read_slot key store =
      let (error, length, slot, store1) = nvs.get_blob key store in
      (
        if is_ok error && length == slot_size && slot_valid slot_bytes slot
            then ok
            else if is_ok error
            then invalid_crc
            else error,
        slot,
        store1,
      )

  -- The read back of what was written.
  unfoldable pub verify_slot : NvsKey → SequenceSlot → S → EspErr × S
  verify_slot key slot store =
      let (error, verified, store1) = read_slot key store in
      if is_ok error && same_state verified.state slot.state && verified.crc32 == slot.crc32
      then (ok, store1)
      else (if is_ok error then fail else error, store1)

  unfoldable pub write_slot : NvsKey → ℕ → SequenceSlot → S → EspErr × S
  write_slot key inactive slot store =
      on_ok
        (on_ok (on_ok (on_ok (nvs.set_blob key slot store) nvs.commit) (verify_slot key slot))
          (nvs.set_u8 inactive))
        nvs.commit

  -- `*state` changes where the result is ESP_OK.
  unfoldable pub persist : SequenceState → S → EspErr × SequenceState × S
  persist state store =
      let (opened, store1) = nvs.open_nvs store in
      let (selector_error, selector, store2) = nvs.get_u8 store1 in
      let active = if is_ok selector_error then selector else b'A' in
      if state.generation == uint32_max
      then (invalid_state, state, store)
      else if not (is_ok opened)
      then (opened, state, store1)
      else if not (is_ok selector_error)
          && not (is_nvs_not_found selector_error && state.generation == 0)
      then (selector_error, state, store2)
      else if is_ok selector_error && not (active == b'A') && not (active == b'B')
      then (invalid_state, state, store2)
      else (let slot = next_slot slot_bytes state in
          let (error, store3) =
            write_slot (inactive_key active) (inactive_name active) slot store2 in
          (error, if is_ok error then slot.state else state, store3))

  -- What a reservation that was not used up leaves out.
  unfoldable pub skip_reserved : SequenceState → S → EspErr × SequenceState × S
  skip_reserved state store =
      if leb state.next_sequence state.reserved_through
      then (if state.reserved_through == uint64_max
          then (invalid_state, state, store)
          else (ok, record state { next_sequence = state.reserved_through + 1 }, store))
      else (ok, state, store)

  abbrev pub load_choice : SequenceState → Choice → S → EspErr × SequenceState × S
  load_choice state (refuse error) store = (error, state, store)
  load_choice state first_start store = persist initial_state store
  load_choice state (chosen selected) store = skip_reserved selected store

  unfoldable pub sequence_load : SequenceState → S → EspErr × SequenceState × S
  sequence_load state store =
      let (opened, store1) = nvs.open_nvs store in
      let (error_a, a, store2) = read_slot slot_a store1 in
      let (error_b, b, store3) = read_slot slot_b store2 in
      if not (is_ok opened)
      then (opened, state, store1)
      else load_choice state (choose error_a a.state error_b b.state) store3

  -- A changed state that is kept where it can be written.
  unfoldable pub keep_written : SequenceState → SequenceState → S → EspErr × SequenceState × S
  keep_written state candidate store =
      let (error, written, store1) = persist candidate store in
      (error, if is_ok error then written else state, store1)

  -- The reservation of another block, where the last one is used up.
  unfoldable pub reserve : SequenceState → S → EspErr × SequenceState × S
  reserve state store =
      if ltb state.reserved_through state.next_sequence
      then (if ltb (uint64_max - state.next_sequence) (reservation_block - 1)
          then (invalid_size, state, store)
          else keep_written state
              (record state { reserved_through = state.next_sequence + reservation_block - 1 })
              store)
      else (ok, state, store)

  -- The sequence that `*sequence` gets; it counts only with ESP_OK.
  unfoldable pub allocate : SequenceState → S → EspErr × SequenceState × ℕ × S
  allocate state store =
      let (error, allocated, store1) =
        persist
          (record state {
            next_sequence = suc state.next_sequence;
            maximum_seen = state.next_sequence;
          })
          store in
      (error, if is_ok error then allocated else state, state.next_sequence, store1)

  unfoldable pub sequence_next : SequenceState → S → EspErr × SequenceState × Option ℕ × S
  sequence_next state store =
      let (reserved, state1, store1) = reserve state store in
      let (error, state2, sequence, store2) = allocate state1 store1 in
      if state.next_sequence == uint64_max
      then (invalid_arg, state, none, store)
      else if not (is_ok reserved)
      then (reserved, state1, none, store1)
      else (error, state2, some sequence, store2)

  unfoldable pub sequence_acknowledge : SequenceState → ℕ → S → EspErr × SequenceState × S
  sequence_acknowledge state acknowledged store =
      if ltb acknowledged state.acknowledged || ltb state.maximum_seen acknowledged
      then (invalid_arg, state, store)
      else if acknowledged == state.acknowledged
      then (ok, state, store)
      else keep_written state (record state { acknowledged = acknowledged }) store

  unfoldable pub sequence_raise_floor : SequenceState → ℕ → ℕ → S → EspErr × SequenceState × S
  sequence_raise_floor state floor reset_generation store =
      if floor == uint64_max
      then (invalid_arg, state, store)
      else if reset_generation == state.reset_generation
      then (
        if state.maximum_seen == floor
              && state.next_sequence == floor + 1
              && state.reserved_through == floor
              && state.acknowledged == floor
            then ok
            else invalid_state,
        state,
        store,
      )
      else if ltb floor state.maximum_seen || ltb reset_generation state.reset_generation
      then (invalid_arg, state, store)
      else keep_written state
          (record state {
            maximum_seen = floor;
            next_sequence = floor + 1;
            reserved_through = floor;
            acknowledged = floor;
            reset_generation = reset_generation;
          })
          store
