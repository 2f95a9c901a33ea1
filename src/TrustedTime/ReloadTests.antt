-- ===== src/TrustedTime/ReloadTests.antt =====
-- A checkpoint on a flash store in memory that keeps what is committed.
use power_monitor_sensor_hea.Base.{
  ℕ, ◌<◌, ◌≡◌, refl, sym, subst, arith, inl, inr, true, none, some, List, [], ◌∷◌,
}
use power_monitor_sensor_hea.Base.Int.{ℤ, pos}
use power_monitor_sensor_hea.Base.Esp.{EspErr, ok}
use power_monitor_sensor_hea.Crc32.{crc32_ieee, crc32_from, crc32_bits, crc32_bit}
use power_monitor_sensor_hea.Nvs.Memory.{Memory}
use power_monitor_sensor_hea.Nvs.Flash.{
  Flash, flash_memory, flash_memory-IsFlash, flash_memory_held, restart_flash,
}
use power_monitor_sensor_hea.Nvs.{slot_a, slot_b}
use power_monitor_sensor_hea.TrustedTime.{TimeState, time_init}
use power_monitor_sensor_hea.TrustedTime.Checkpoint.{
  TimeCheckpoint, zero_checkpoint, sealed_checkpoint, checkpoint_valid, last_generation,
  generation_key, read_checkpoint, checkpoint_persist, load_checkpoint,
}
use power_monitor_sensor_hea.TrustedTime.Slots.{ReadsSlots, next_generation}
use power_monitor_sensor_hea.TrustedTime.Reload.{checkpoint_reloads}

-- The generation stands for the bytes.
abbrev bytes : ℤ → ℕ → List ℕ
bytes utc_ms generation = generation ∷ []

abbrev earlier_slots : Memory TimeCheckpoint
earlier_slots = record {
  blob_a = some (16, sealed_checkpoint bytes (pos 1710000000000) 1);
  blob_b = none;
  byte = none;
}

abbrev earlier : Flash TimeCheckpoint
earlier = record { written = earlier_slots; committed = earlier_slots }

abbrev later : Flash TimeCheckpoint
later =
    restart_flash
      (checkpoint_persist bytes 16 (flash_memory 16 zero_checkpoint) (pos 1720000000000) earlier).1

abbrev later_slots : Memory TimeCheckpoint
later_slots = record earlier_slots {
  blob_b = some (16, sealed_checkpoint bytes (pos 1720000000000) 2);
}

later_held : later ≡ record { written = later_slots; committed = later_slots }
unfolding checkpoint_persist read_checkpoint last_generation checkpoint_valid generation_key
    sealed_checkpoint crc32_ieee crc32_from crc32_bits crc32_bit
later_held = refl

persists :
    (checkpoint_persist bytes 16 (flash_memory 16 zero_checkpoint) (pos 1720000000000) earlier).0
    ≡ ok
unfolding checkpoint_persist
persists = refl

room :
    next_generation bytes 16
      (flash_memory 16 zero_checkpoint)
      (flash_memory-IsFlash 16 zero_checkpoint).session
      earlier
    < 4294967295
unfolding last_generation checkpoint_valid sealed_checkpoint crc32_ieee crc32_from crc32_bits
    crc32_bit
room =
    rw
      (
        flash_memory_held 16 zero_checkpoint earlier slot_a,
        flash_memory_held 16 zero_checkpoint earlier slot_b,
      )
      (omega arith)

reads_again :
    ReadsSlots bytes 16
      (flash_memory 16 zero_checkpoint)
      (flash_memory-IsFlash 16 zero_checkpoint).session
      later
reads_again =
    subst
      (λ (f : Flash TimeCheckpoint).
        ReadsSlots bytes 16 (flash_memory 16 zero_checkpoint)
          (flash_memory-IsFlash 16 zero_checkpoint).session f)
      (sym later_held) (inl refl, inl refl)

abbrev started : EspErr × TimeState × Flash TimeCheckpoint
started =
    load_checkpoint bytes 16 (flash_memory 16 zero_checkpoint) (time_init (pos 0)) (pos 5) later

checkpoint_reloads_example :
    (started.0 ≡ ok)
    × (started.1.utc_checkpoint_ms ≡ pos 1720000000000)
    × (started.1.last_returned_utc_ms ≡ pos 1720000000000)
    × (started.1.trusted ≡ true)
checkpoint_reloads_example =
    checkpoint_reloads bytes 16 (flash_memory 16 zero_checkpoint)
      (flash_memory-IsFlash 16 zero_checkpoint) (pos 1720000000000) (pos 5) (time_init (pos 0))
      earlier refl (inl refl, inr refl) room persists refl reads_again
