-- ===== src/Sequence.antt =====
-- The sequence store: components/pm_storage/pm_sequence.c, with pm_sequence_state_t of
-- include/pm_storage.h.
-- Pointers are never NULL. The flash store is the parameter `nvs`, and what becomes of it when the
-- sensor starts again is the parameter `restart`; the bytes of a slot before its
-- `crc32`, and the size of a slot, are the target's (`slot_bytes`, `slot_size`). memcmp of two slots
-- or states compares their fields: the code clears what lies between them.
mod Defs
pub mod Persist
pub mod Store
mod Reading
pub mod Running
pub mod Start
pub mod Fresh
mod Tests
unfoldable pub use Defs.*
