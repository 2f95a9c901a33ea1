-- ===== src/Journal.antt =====
-- The records of the journal: components/pm_storage/pm_journal.c, with the types and constants of
-- include/pm_storage.h. A buffer is the list of its bytes; buffers are as long as the records, which the
-- guards on a capacity ask for. An interval's source of energy is its number, since a decoded record may
-- have one outside the enumeration.
mod Defs
mod Words
mod Bytes
mod Values
pub mod Segments
pub mod RoundTrip
mod Tests
unfoldable pub use Defs.*
