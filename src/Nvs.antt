-- ===== src/Nvs.antt =====
-- The flash store that the sequence and configuration stores call: nvs_open, nvs_get_blob,
-- nvs_set_blob, nvs_erase_key, nvs_get_u8, nvs_set_u8 and nvs_commit of ESP-IDF, for one namespace
-- with two blobs and one selector byte. Its code is not the repository's, so its operations are a
-- parameter. `IsNvs` is what ESP-IDF documents of reads and writes while the firmware runs, and `IsFlash`
-- adds what a restart finds, by which a write is only sure to be stored after a commit.
mod Defs
mod Chains
pub mod Memory
pub mod Flash
mod Restart
unfoldable pub use Defs.*
unfoldable pub use Chains.*
unfoldable pub use Restart.*
