-- ===== src/Sequence/Tests.antt =====
-- A sequence store on a flash store in memory that keeps what is committed.
use power_monitor_sensor_hea.Base.{ℕ, ◌≡◌, refl, List, [], ◌∷◌, none}
use power_monitor_sensor_hea.Crc32.{crc32_ieee, crc32_from, crc32_bits, crc32_bit}
use power_monitor_sensor_hea.Nvs.Flash.{
  empty_flash, flash_memory, flash_memory-IsFlash, restart_flash,
}
use power_monitor_sensor_hea.Sequence.Defs.{
  SequenceState, SequenceSlot, initial_state, choose, same_state, slot_crc, slot_valid, next_slot,
  read_slot, verify_slot, write_slot, inactive_key, inactive_name, persist, skip_reserved,
  sequence_load, reserve, allocate, keep_written, sequence_next, sequence_acknowledge,
  sequence_raise_floor,
}
use power_monitor_sensor_hea.Sequence.Fresh.{
  Happening, takes, acknowledges, raises_floor, restarts, Ascending, handed_out, sequences_ascend,
}

abbrev bytes : SequenceState → List ℕ
bytes st = st.next_sequence ∷ st.generation ∷ []

abbrev blank_slot : SequenceSlot
blank_slot = record { state = initial_state; crc32 = 0 }

abbrev day : List Happening
day = restarts ∷ takes ∷ takes ∷ acknowledges 1 ∷ restarts ∷ takes ∷ raises_floor 90 1 ∷ takes ∷ []

-- A restart leaves out what was reserved.
day_runs :
    handed_out bytes 48 (flash_memory 48 blank_slot) restart_flash day none empty_flash
    ≡ 1 ∷ 2 ∷ 65 ∷ 91 ∷ []
unfolding handed_out sequence_load sequence_next sequence_acknowledge sequence_raise_floor
    keep_written allocate reserve skip_reserved persist inactive_key inactive_name write_slot
    verify_slot read_slot next_slot slot_valid slot_crc same_state choose crc32_ieee crc32_from
    crc32_bits crc32_bit
day_runs = refl

sequences_ascend_example :
    Ascending 0
      (handed_out bytes 48 (flash_memory 48 blank_slot) restart_flash day none empty_flash)
sequences_ascend_example =
    sequences_ascend bytes 48 (flash_memory 48 blank_slot) (flash_memory-IsFlash 48 blank_slot) day
      empty_flash
