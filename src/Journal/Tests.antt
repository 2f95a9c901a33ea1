-- ===== src/Journal/Tests.antt =====
-- Records and headers of the journal.
use power_monitor_sensor_hea.Base.{ℕ, zero, suc, ◌≡◌, refl, arith, true, some, replicate, All, IsU8}
use power_monitor_sensor_hea.Base.Int.{pos, negsuc}
use power_monitor_sensor_hea.Journal.Defs.{
  SegmentHeader, JournalRecord, encode_record, decode_record, encode_segment_header,
  decode_segment_header,
}
use power_monitor_sensor_hea.Journal.RoundTrip.{IsStorable, stored, decode_record-encode_record}
use power_monitor_sensor_hea.Journal.Segments.{
  IsStorableHeader, decode_segment_header-encode_segment_header,
}

abbrev reading : JournalRecord
reading = record {
  device_id = replicate 16 17;
  sequence = 5000000001;
  reset_generation = 3;
  interval = record {
    voltage_mv = pos 230100;
    current_ma = pos 4210;
    active_power_mw = pos 960000;
    frequency_mhz = pos 50000;
    power_factor_milli = negsuc 4;
    pzem_energy_start_wh = 120;
    pzem_energy_end_wh = 123;
    selected_energy_mwh = 5000000000;
    diagnostic_energy_mwh = 2990;
    sample_count = 60;
    expected_samples = 60;
    completeness_permille = 1000;
    selected_energy_source = 1;
    flags = 5;
    start_utc_ms = pos 1700000000000;
    end_utc_ms = pos 1700000060000;
    start_monotonic_us = pos 0;
    end_monotonic_us = negsuc 0;
  };
}

reading-IsStorable : IsStorable reading
reading-IsStorable = record {
  device_id_length = refl;
  sequence_fits = omega arith;
  sequence_used = λ e. ground arith;
  reset_generation_fits = omega arith;
  flags_fit = omega arith;
  start_utc_fits = omega arith;
  end_utc_fits = omega arith;
  start_monotonic_fits = omega arith;
  end_monotonic_fits = omega arith;
  sample_count_fits = omega arith;
  expected_samples_fit = omega arith;
  completeness_fits = omega arith;
  source_fits = omega arith;
  voltage_fits = omega arith;
  current_fits = omega arith;
  power_fits = omega arith;
  frequency_fits = omega arith;
  factor_fits = omega arith;
  energy_start_fits = omega arith;
  energy_end_fits = omega arith;
}

bytes-All : (n b : ℕ) → IsU8 b → All IsU8 (replicate n b)
bytes-All zero b h = tt
bytes-All (suc n) b h = (h, bytes-All n b h)

decode_record-encode_record_example : decode_record (encode_record reading) ≡ some (stored reading)
decode_record-encode_record_example =
    decode_record-encode_record reading reading-IsStorable (bytes-All 16 17 (omega arith))

abbrev first_segment : SegmentHeader
first_segment = record {
  device_id = replicate 16 17;
  card_id = replicate 16 201;
  segment_id = replicate 16 0;
  first_sequence = 1;
  created_utc_ms = pos 1700000000000;
  created_monotonic_us = pos 12;
  time_trusted = true;
}

first_segment-IsStorableHeader : IsStorableHeader first_segment
first_segment-IsStorableHeader = record {
  device_id_length = refl;
  device_id_bytes = bytes-All 16 17 (omega arith);
  card_id_length = refl;
  card_id_bytes = bytes-All 16 201 (omega arith);
  segment_id_length = refl;
  segment_id_bytes = bytes-All 16 0 (omega arith);
  sequence_fits = omega arith;
  utc_fits = omega arith;
  monotonic_fits = omega arith;
}

decode_segment_header-encode_segment_header_example :
    decode_segment_header (encode_segment_header first_segment) ≡ some first_segment
decode_segment_header-encode_segment_header_example =
    decode_segment_header-encode_segment_header first_segment first_segment-IsStorableHeader
