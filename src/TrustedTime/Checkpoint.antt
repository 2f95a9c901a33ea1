-- ===== src/TrustedTime/Checkpoint.antt =====
-- The checkpoint of the time in the flash store: persist and pm_time_load_checkpoint, and pm_time_observe
-- with the write it makes. A read that fails leaves the object as it was, all zero. `checkpoint_bytes`
-- are the bytes before `crc32`, and `checkpoint_size` is the size of the object.
use Prim.Native.Nat.{bit_and}
use power_monitor_sensor_hea.Base.{
  ℕ, ◌+◌, ◌%◌, ◌^◌, Bool, true, not, ◌&&◌, ◌||◌, ◌==◌, ltb, leb, if◌then◌else◌, Option, none, some,
  List,
}
use power_monitor_sensor_hea.Base.Int.{ℤ, pos, ltb_ℤ, leb_ℤ}
use power_monitor_sensor_hea.Base.Esp.{EspErr, ok, not_found, is_ok}
use power_monitor_sensor_hea.Crc32.{crc32_ieee}
use power_monitor_sensor_hea.Nvs.{Nvs, NvsKey, slot_a, slot_b, on_ok}
use power_monitor_sensor_hea.TrustedTime.{TimeState, persisted_checkpoint, time_observe}

-- time_checkpoint_t
pub record TimeCheckpoint : Type 0 where
  pub utc_ms : ℤ  -- int64_t
  pub generation : ℕ  -- uint32_t
  pub crc32 : ℕ  -- uint32_t

abbrev pub zero_checkpoint : TimeCheckpoint
zero_checkpoint = record { utc_ms = pos 0; generation = 0; crc32 = 0 }

abbrev pub in_range : ℤ → Bool
in_range utc_ms = leb_ℤ (pos 1704067200000) utc_ms && ltb_ℤ utc_ms (pos 4102444800000)

module _ (checkpoint_bytes : ℤ → ℕ → List ℕ) where
  unfoldable pub checkpoint_valid : TimeCheckpoint → Bool
  checkpoint_valid c =
      in_range c.utc_ms && c.crc32 == crc32_ieee (checkpoint_bytes c.utc_ms c.generation)

  -- The generation after those of the valid slots.
  unfoldable pub last_generation : TimeCheckpoint → TimeCheckpoint → ℕ
  last_generation a b =
      if checkpoint_valid a && checkpoint_valid b
      then (if ltb b.generation a.generation then a.generation else b.generation)
      else if checkpoint_valid a
      then a.generation
      else if checkpoint_valid b
      then b.generation
      else 0

  unfoldable pub sealed_checkpoint : ℤ → ℕ → TimeCheckpoint
  sealed_checkpoint utc_ms generation = record {
    utc_ms = utc_ms;
    generation = generation;
    crc32 = crc32_ieee (checkpoint_bytes utc_ms generation);
  }

unfoldable pub generation_key : ℕ → NvsKey
generation_key generation = if not (bit_and generation 1 == 0) then slot_a else slot_b

module _ {S : Type 0} (checkpoint_bytes : ℤ → ℕ → List ℕ) (checkpoint_size : ℕ)
    (nvs : Nvs S TimeCheckpoint) where
  unfoldable pub read_checkpoint : NvsKey → S → TimeCheckpoint × S
  read_checkpoint key store =
      let (error, length, c, store1) = nvs.get_blob key store in
      (if is_ok error then c else zero_checkpoint, store1)

  unfoldable pub checkpoint_persist : ℤ → S → EspErr × S
  checkpoint_persist utc_ms store =
      let (opened, store1) = nvs.open_nvs store in
      let (a, store2) = read_checkpoint slot_a store1 in
      let (b, store3) = read_checkpoint slot_b store2 in
      let generation = (last_generation checkpoint_bytes a b + 1) % 2 ^ 32 in
      let c = sealed_checkpoint checkpoint_bytes utc_ms generation in
      if is_ok opened
      then on_ok (nvs.set_blob (generation_key generation) c store3) nvs.commit
      else (opened, store1)

  unfoldable pub load_slot : NvsKey → S → Bool × TimeCheckpoint × S
  load_slot key store =
      let (error, length, c, store1) = nvs.get_blob key store in
      (is_ok error && length == checkpoint_size && checkpoint_valid checkpoint_bytes c, c, store1)

  unfoldable pub load_checkpoint : TimeState → ℤ → S → EspErr × TimeState × S
  load_checkpoint state monotonic_us store =
      let (opened, store1) = nvs.open_nvs store in
      let (valid_a, a, store2) = load_slot slot_a store1 in
      let (valid_b, b, store3) = load_slot slot_b store2 in
      let selected = if valid_a && (not valid_b || leb b.generation a.generation) then a else b in
      if not (is_ok opened)
      then (opened, state, store1)
      else if not valid_a && not valid_b
      then (not_found, state, store3)
      else (
        ok,
        record state {
          source = persisted_checkpoint;
          utc_checkpoint_ms = selected.utc_ms;
          last_returned_utc_ms = selected.utc_ms;
          monotonic_checkpoint_us = monotonic_us;
          trusted = true;
        },
        store3,
      )

  -- The time that an observation gives to the flash store, if any, is written.
  abbrev pub write_given : Option ℤ → S → EspErr × S
  write_given none store = (ok, store)
  write_given (some utc_ms) store = checkpoint_persist utc_ms store

  unfoldable pub observe_stored : TimeState → ℕ → ℤ → ℤ → S → EspErr × TimeState × S
  observe_stored state source utc_ms monotonic_us store =
      let (_, _, given) = time_observe state source utc_ms monotonic_us ok in
      let (persisted, store1) = write_given given store in
      let (state1, error, _) = time_observe state source utc_ms monotonic_us persisted in
      (error, state1, store1)
