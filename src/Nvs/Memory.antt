-- ===== src/Nvs/Memory.antt =====
-- A flash store in memory that never fails: the documented behaviour can be met.
use power_monitor_sensor_hea.Base.{ℕ, ◌≡◌, ◌≢◌, refl, ap, inr, Option, none, some}
use power_monitor_sensor_hea.Base.Esp.{EspErr, ok, nvs_not_found}
use power_monitor_sensor_hea.Nvs.Defs.{NvsKey, slot_a, slot_b, Nvs, IsNvs}

pub record Memory (Blob : Type 0) : Type 0 where
  pub blob_a : Option (ℕ × Blob)
  pub blob_b : Option (ℕ × Blob)
  pub byte : Option ℕ

module _ {Blob : Type 0} where
  abbrev pub at_key : Memory Blob → NvsKey → Option (ℕ × Blob)
  at_key m slot_a = m.blob_a
  at_key m slot_b = m.blob_b

  abbrev pub put_key : Memory Blob → NvsKey → Option (ℕ × Blob) → Memory Blob
  put_key m slot_a v = record m { blob_a = v }
  put_key m slot_b v = record m { blob_b = v }

  abbrev pub empty_memory : Memory Blob
  empty_memory = record { blob_a = none; blob_b = none; byte = none }

  module _ (size : ℕ) (blank : Blob) where
    abbrev read_blob : Option (ℕ × Blob) → Memory Blob → EspErr × ℕ × Blob × Memory Blob
    read_blob none m = (nvs_not_found, 0, blank, m)
    read_blob (some (n, b)) m = (ok, n, b, m)

    abbrev read_byte : Option ℕ → Memory Blob → EspErr × ℕ × Memory Blob
    read_byte none m = (nvs_not_found, 0, m)
    read_byte (some v) m = (ok, v, m)

    abbrev pub memory : Nvs (Memory Blob) Blob
    memory = record {
      open_nvs = λ m. (ok, m);
      get_blob = λ k m. read_blob (at_key m k) m;
      set_blob = λ k b m. (ok, put_key m k (some (size, b)));
      erase_key = λ k m. (ok, put_key m k none);
      get_u8 = λ m. read_byte m.byte m;
      set_u8 = λ v m. (ok, record m { byte = some v });
      commit = λ m. (ok, m);
    }

    read_blob_same : (o : Option (ℕ × Blob)) (m : Memory Blob) → (read_blob o m).3 ≡ m
    read_blob_same none m = refl
    read_blob_same (some (n, b)) m = refl

    read_byte_same : (o : Option ℕ) (m : Memory Blob) → (read_byte o m).2 ≡ m
    read_byte_same none m = refl
    read_byte_same (some v) m = refl

    read_blob_ok :
        (o : Option (ℕ × Blob)) (m : Memory Blob)
        → (read_blob o m).0 ≡ ok
        → o ≡ some ((read_blob o m).1, (read_blob o m).2)
    read_blob_ok none m h = cc
    read_blob_ok (some (n, b)) m h = refl

    read_blob_missing :
        (o : Option (ℕ × Blob)) (m : Memory Blob) → (read_blob o m).0 ≡ nvs_not_found → o ≡ none
    read_blob_missing none m h = refl
    read_blob_missing (some (n, b)) m h = cc

    read_byte_ok :
        (o : Option ℕ) (m : Memory Blob) → (read_byte o m).0 ≡ ok → o ≡ some (read_byte o m).1
    read_byte_ok none m h = cc
    read_byte_ok (some v) m h = refl

    read_byte_missing :
        (o : Option ℕ) (m : Memory Blob) → (read_byte o m).0 ≡ nvs_not_found → o ≡ none
    read_byte_missing none m h = refl
    read_byte_missing (some v) m h = cc

  put_other :
      (k j : NvsKey) (v : Option (ℕ × Blob)) (m : Memory Blob)
      → k ≢ j
      → at_key (put_key m k v) j ≡ at_key m j
  put_other slot_a slot_a v m h = absurd (h refl)
  put_other slot_a slot_b v m h = refl
  put_other slot_b slot_a v m h = refl
  put_other slot_b slot_b v m h = absurd (h refl)

  put_here : (k : NvsKey) (v : Option (ℕ × Blob)) (m : Memory Blob) → at_key (put_key m k v) k ≡ v
  put_here slot_a v m = refl
  put_here slot_b v m = refl

  put_byte : (k : NvsKey) (v : Option (ℕ × Blob)) (m : Memory Blob) → (put_key m k v).byte ≡ m.byte
  put_byte slot_a v m = refl
  put_byte slot_b v m = refl

  same_blobs :
      (v : ℕ) (m : Memory Blob) (j : NvsKey) → at_key (record m { byte = some v }) j ≡ at_key m j
  same_blobs v m slot_a = refl
  same_blobs v m slot_b = refl

  pub memory-IsNvs : (size : ℕ) (blank : Blob) → IsNvs size (memory size blank)
  memory-IsNvs size blank = record {
    held = at_key;
    selected = λ m. m.byte;
    open-held = λ s k. refl;
    open-selected = λ s. refl;
    get_blob-held =
        λ k s j. ap (λ (m : Memory Blob). at_key m j) (read_blob_same size blank (at_key s k) s);
    get_blob-selected =
        λ k s. ap (λ (m : Memory Blob). m.byte) (read_blob_same size blank (at_key s k) s);
    get_blob_ok = λ k s. read_blob_ok size blank (at_key s k) s;
    get_blob_missing = λ k s. read_blob_missing size blank (at_key s k) s;
    set_blob_other = λ k j b s. put_other k j (some (size, b)) s;
    set_blob_either = λ k b s. inr (put_here k (some (size, b)) s);
    set_blob_ok = λ k b s h. put_here k (some (size, b)) s;
    set_blob-selected = λ k b s. put_byte k (some (size, b)) s;
    erase_key_other = λ k j s. put_other k j none s;
    erase_key-selected = λ k s. put_byte k none s;
    get_u8-held = λ s j. ap (λ (m : Memory Blob). at_key m j) (read_byte_same size blank s.byte s);
    get_u8-selected = λ s. ap (λ (m : Memory Blob). m.byte) (read_byte_same size blank s.byte s);
    get_u8_ok = λ s. read_byte_ok size blank s.byte s;
    get_u8_missing = λ s. read_byte_missing size blank s.byte s;
    set_u8-held = λ v s j. same_blobs v s j;
    set_u8_either = λ v s. inr refl;
    set_u8_ok = λ v s h. refl;
    commit-held = λ s j. refl;
    commit-selected = λ s. refl;
  }

  pub memory-IsNvs_selected :
      (size : ℕ) (blank : Blob) (m : Memory Blob) → (memory-IsNvs size blank).selected m ≡ m.byte
  unfolding memory-IsNvs
  memory-IsNvs_selected size blank m = refl

  pub memory-IsNvs_held :
      (size : ℕ) (blank : Blob) (m : Memory Blob) (k : NvsKey)
      → (memory-IsNvs size blank).held m k ≡ at_key m k
  unfolding memory-IsNvs
  memory-IsNvs_held size blank m k = refl
