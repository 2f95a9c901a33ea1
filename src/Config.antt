-- ===== src/Config.antt =====
-- The configuration store: components/pm_config/pm_config.c and include/pm_config.h.
-- Pointers are never NULL. The flash store is the parameter `nvs`; `target` has what the compiler and
-- the cryptography library decide: the bytes of a configuration before its `crc32` and of the whole
-- object, its size, and SHA-256. A character array is the list of all its bytes; the enumerations are
-- their numbers. The three static variables are the record `Lock`, read and written in critical
-- sections, so that an operation on it is one step. Whether the heap finds memory is an argument.
mod Types
pub mod Lock
mod Steps
mod Staged
mod InForce
mod Writes
mod Works
mod Unowned
pub mod Always
mod Claims
pub mod Owner
pub mod Committed
mod Tests
unfoldable pub use Types.*
unfoldable pub use Steps.*
unfoldable pub use Staged.*
