-- ===== src/Batch/Tests.antt =====
-- A batch of records that come out of order.
use power_monitor_sensor_hea.Base.{ℕ, ◌≡◌, refl, List, [], ◌∷◌, replicate, map}
use power_monitor_sensor_hea.Base.Int.{pos}
use power_monitor_sensor_hea.Journal.{JournalRecord, RecordInterval}
use power_monitor_sensor_hea.Batch.{insert_all, insert_sorted, put_record, place_for, empty_batch}
use power_monitor_sensor_hea.Batch.Inserted.{Has}
use power_monitor_sensor_hea.Batch.Least.{IsBatch, Accounted, insert_all_least}

abbrev blank_interval : RecordInterval
blank_interval = record {
  voltage_mv = pos 0;
  current_ma = pos 0;
  active_power_mw = pos 0;
  frequency_mhz = pos 0;
  power_factor_milli = pos 0;
  pzem_energy_start_wh = 0;
  pzem_energy_end_wh = 0;
  selected_energy_mwh = 0;
  diagnostic_energy_mwh = 0;
  sample_count = 0;
  expected_samples = 0;
  completeness_permille = 0;
  selected_energy_source = 0;
  flags = 0;
  start_utc_ms = pos 0;
  end_utc_ms = pos 0;
  start_monotonic_us = pos 0;
  end_monotonic_us = pos 0;
}

abbrev numbered : ℕ → JournalRecord
numbered n = record {
  device_id = replicate 16 1;
  sequence = n;
  reset_generation = 0;
  interval = blank_interval;
}

abbrev found : List JournalRecord
found = map numbered (9 ∷ 4 ∷ 12 ∷ 4 ∷ 2 ∷ 7 ∷ [])

-- What is at or before the cursor, and what comes twice, is left out.
sorted :
    map (λ (r : JournalRecord). r.sequence) (insert_all found (empty_batch 3)).records
    ≡ 4 ∷ 7 ∷ 9 ∷ 12 ∷ []
unfolding insert_all insert_sorted put_record place_for
sorted = refl

insert_all_least_example :
    let b = insert_all found (empty_batch 3) in
    IsBatch b
    × (b.after_sequence ≡ 3)
    × ((s : ℕ) → Has s found → Accounted b s)
    × ((s : ℕ) → Has s b.records → Has s found)
insert_all_least_example = insert_all_least found 3
