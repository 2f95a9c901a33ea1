-- ===== src/Nvs/Flash.antt =====
-- A flash store in memory that never fails and stores what was written only when it is committed: the
-- documented behaviour of a restart can be met.
use power_monitor_sensor_hea.Base.{ℕ, ◌≡◌, refl, inl, inr}
use power_monitor_sensor_hea.Base.Esp.{ok}
use power_monitor_sensor_hea.Nvs.Defs.{NvsKey, Nvs, IsNvs}
use power_monitor_sensor_hea.Nvs.Memory.{
  Memory, memory, memory-IsNvs, memory-IsNvs_held, at_key, empty_memory,
}
use power_monitor_sensor_hea.Nvs.Restart.{IsFlash}

pub record Flash (Blob : Type 0) : Type 0 where
  pub written : Memory Blob
  pub committed : Memory Blob

module _ {Blob : Type 0} where
  abbrev pub empty_flash : Flash Blob
  empty_flash = record { written = empty_memory; committed = empty_memory }

  abbrev pub restart_flash : Flash Blob → Flash Blob
  restart_flash f = record { written = f.committed; committed = f.committed }

  module _ (size : ℕ) (blank : Blob) where
    abbrev ops : Nvs (Memory Blob) Blob
    ops = memory size blank

    abbrev pub flash_memory : Nvs (Flash Blob) Blob
    flash_memory = record {
      open_nvs = λ f. (ok, f);
      get_blob =
          λ k f. let (e, n, b, m) = ops.get_blob k f.written in (e, n, b, record f { written = m });
      set_blob = λ k b f. let (e, m) = ops.set_blob k b f.written in (e, record f { written = m });
      erase_key = λ k f. let (e, m) = ops.erase_key k f.written in (e, record f { written = m });
      get_u8 = λ f. let (e, v, m) = ops.get_u8 f.written in (e, v, record f { written = m });
      set_u8 = λ v f. let (e, m) = ops.set_u8 v f.written in (e, record f { written = m });
      commit = λ f. (ok, record f { committed = f.written });
    }

    laws : IsNvs size ops
    laws = memory-IsNvs size blank

    flash_session : IsNvs size flash_memory
    flash_session = record {
      held = λ f. laws.held f.written;
      selected = λ f. laws.selected f.written;
      open-held = λ s k. refl;
      open-selected = λ s. refl;
      get_blob-held = λ k s. laws.get_blob-held k s.written;
      get_blob-selected = λ k s. laws.get_blob-selected k s.written;
      get_blob_ok = λ k s. laws.get_blob_ok k s.written;
      get_blob_missing = λ k s. laws.get_blob_missing k s.written;
      set_blob_other = λ k j b s. laws.set_blob_other k j b s.written;
      set_blob_either = λ k b s. laws.set_blob_either k b s.written;
      set_blob_ok = λ k b s. laws.set_blob_ok k b s.written;
      set_blob-selected = λ k b s. laws.set_blob-selected k b s.written;
      erase_key_other = λ k j s. laws.erase_key_other k j s.written;
      erase_key-selected = λ k s. laws.erase_key-selected k s.written;
      get_u8-held = λ s. laws.get_u8-held s.written;
      get_u8-selected = λ s. laws.get_u8-selected s.written;
      get_u8_ok = λ s. laws.get_u8_ok s.written;
      get_u8_missing = λ s. laws.get_u8_missing s.written;
      set_u8-held = λ v s. laws.set_u8-held v s.written;
      set_u8_either = λ v s. laws.set_u8_either v s.written;
      set_u8_ok = λ v s. laws.set_u8_ok v s.written;
      commit-held = λ s j. refl;
      commit-selected = λ s. refl;
    }

    pub flash_memory-IsFlash : IsFlash size flash_memory restart_flash
    unfolding flash_session
    flash_memory-IsFlash = record {
      session = flash_session;
      stored = λ f. laws.held f.committed;
      open-stored = λ s j. refl;
      get_blob-stored = λ k s j. refl;
      get_u8-stored = λ s j. refl;
      set_blob-stored = λ k b s j. inl refl;
      set_u8-stored = λ v s j. inl refl;
      commit-stored = λ s j. inr refl;
      commit_ok = λ s j h. refl;
      restart-held = λ s j. refl;
      restart-stored = λ s j. refl;
    }

    pub flash_memory_held :
        (f : Flash Blob) (k : NvsKey) → flash_memory-IsFlash.session.held f k ≡ at_key f.written k
    unfolding flash_memory-IsFlash flash_session laws
    flash_memory_held f k = memory-IsNvs_held size blank f.written k

    pub flash_memory_stored :
        (f : Flash Blob) (k : NvsKey) → flash_memory-IsFlash.stored f k ≡ at_key f.committed k
    unfolding flash_memory-IsFlash laws
    flash_memory_stored f k = memory-IsNvs_held size blank f.committed k
