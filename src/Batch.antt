-- ===== src/Batch.antt =====
-- A batch of stored records: insert_sorted of components/pm_storage/pm_storage.c, with the batch of
-- include/pm_storage.h. The list holds the records in use, so that its length is `count`.
mod Inserted
pub mod Least
mod Tests
use power_monitor_sensor_hea.Base.{
  ℕ, zero, suc, ◌-◌, Bool, true, false, ◌&&◌, ◌==◌, ltb, leb, if◌then◌else◌, Option, none, some,
  List, [], ◌∷◌, ◌++◌, length, take, drop, get_elem?,
}
use power_monitor_sensor_hea.Journal.{JournalRecord}

abbrev pub batch_max : ℕ
batch_max = 16

-- pm_storage_batch_t
pub record Batch : Type 0 where
  pub records : List JournalRecord
  pub after_sequence : ℕ  -- uint64_t
  pub more_available : Bool

-- The loop that looks for the place.
unfoldable pub place_for : List JournalRecord → ℕ → ℕ
place_for [] sequence = 0
place_for (r ∷ rs) sequence =
    let rest = place_for rs sequence in if ltb r.sequence sequence then suc rest else 0

-- position < count && records[position].sequence == sequence
abbrev pub same_sequence : Option JournalRecord → ℕ → Bool
same_sequence none sequence = false
same_sequence (some r) sequence = r.sequence == sequence

-- The loop that moves the later records up, and the write; what does not fit is lost.
unfoldable pub put_record : ℕ → JournalRecord → List JournalRecord → List JournalRecord
put_record position r records = take batch_max (take position records ++ r ∷ drop position records)

unfoldable pub insert_sorted : Batch → JournalRecord → Batch
insert_sorted batch r =
    let position = place_for batch.records r.sequence in
    let count = length batch.records in
    if leb r.sequence batch.after_sequence
    then batch
    else if same_sequence (get_elem? batch.records position) r.sequence
    then batch
    else if count == batch_max && position == count
    then record batch { more_available = true }
    else record batch {
      records = put_record position r batch.records;
      more_available = if ltb count batch_max then batch.more_available else true;
    }

-- A scan that inserts one record after the other, from the cursor of the batch.
unfoldable pub insert_all : List JournalRecord → Batch → Batch
insert_all [] batch = batch
insert_all (r ∷ rs) batch = insert_all rs (insert_sorted batch r)

abbrev pub empty_batch : ℕ → Batch
empty_batch cursor = record { records = []; after_sequence = cursor; more_available = false }
