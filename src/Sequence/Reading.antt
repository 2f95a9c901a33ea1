-- ===== src/Sequence/Reading.antt =====
-- What the reading of a slot says of the flash store.
use power_monitor_sensor_hea.Base.{ℕ, ◌≡◌, ap, ◌∙◌, arith, true, ◌&&◌, ◌==◌, none, some, List}
use power_monitor_sensor_hea.Base.Esp.{is_ok, is_nvs_not_found}
use power_monitor_sensor_hea.Nvs.{
  Nvs, IsFlash, NoMore, get_blob_NoMore, NvsKey, is_ok-ok, is_nvs_not_found-equal,
}
use power_monitor_sensor_hea.Sequence.Defs.{SequenceState, SequenceSlot, slot_valid, read_slot}

module _ {S : Type 0} (slot_bytes : SequenceState → List ℕ) (slot_size : ℕ)
    (nvs : Nvs S SequenceSlot) {restart : S → S} (flash : IsFlash slot_size nvs restart) where
  pub read_slot-held :
      (k j : NvsKey) (s : S)
      → flash.session.held (read_slot slot_bytes slot_size nvs k s).2 j ≡ flash.session.held s j
  unfolding read_slot
  read_slot-held k j s = flash.session.get_blob-held k s j

  pub read_slot_ok :
      (k : NvsKey) (s : S)
      → let r = read_slot slot_bytes slot_size nvs k s in
        is_ok r.0 ≡ true
        → (flash.session.held s k ≡ some (slot_size, r.1)) × (slot_valid slot_bytes r.1 ≡ true)
  unfolding read_slot
  read_slot_ok k s h =
      let g = nvs.get_blob k s in
      let all_good : is_ok g.0 && g.1 == slot_size && slot_valid slot_bytes g.2 ≡ true =
        ground arith in
      let same_size : g.1 ≡ slot_size = ground arith in
      let good : is_ok g.0 ≡ true = ground arith in
      (
        flash.session.get_blob_ok k s (is_ok-ok g.0 good) ∙ ap (λ (n : ℕ). some (n, g.2)) same_size,
        ground arith,
      )

  pub read_slot_missing :
      (k : NvsKey) (s : S)
      → is_nvs_not_found (read_slot slot_bytes slot_size nvs k s).0 ≡ true
      → flash.session.held s k ≡ none
  unfolding read_slot
  read_slot_missing k s h =
      let g = nvs.get_blob k s in
      let missing : is_nvs_not_found g.0 ≡ true = ground arith in
      flash.session.get_blob_missing k s (is_nvs_not_found-equal g.0 missing)

  pub read_slot-NoMore :
      (k : NvsKey) (s : S) → NoMore slot_size nvs flash s (read_slot slot_bytes slot_size nvs k s).2
  unfolding read_slot
  read_slot-NoMore k s = get_blob_NoMore slot_size nvs flash k s

  pub read_slot-stored :
      (k j : NvsKey) (s : S)
      → flash.stored (read_slot slot_bytes slot_size nvs k s).2 j ≡ flash.stored s j
  unfolding read_slot
  read_slot-stored k j s = flash.get_blob-stored k s j
