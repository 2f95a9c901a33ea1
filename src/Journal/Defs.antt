-- ===== src/Journal/Defs.antt =====
-- Words in a buffer, and the two kinds of records.
use Prim.Native.Nat.{bit_or}
use power_monitor_sensor_hea.Base.{
  ℕ, zero, suc, ◌-◌, ◌*◌, ◌/◌, ◌%◌, ◌^◌, Bool, not, ◌&&◌, ◌||◌, ◌==◌, ltb, leb, if◌then◌else◌,
  Option, none, some, List, [], ◌∷◌, length, take, drop, replicate, uint32_max,
}
use power_monitor_sensor_hea.Base.Int.{ℤ, pos, negsuc}
use power_monitor_sensor_hea.Crc32.{crc32_ieee}
use power_monitor_sensor_hea.Meter.{to_int32}
use power_monitor_sensor_hea.Measurement.{to_uint32, to_uint64}

-- pm_segment_header_t
pub record SegmentHeader : Type 0 where
  pub device_id : List ℕ
  pub card_id : List ℕ
  pub segment_id : List ℕ
  pub first_sequence : ℕ  -- uint64_t
  pub created_utc_ms : ℤ  -- int64_t
  pub created_monotonic_us : ℤ  -- int64_t
  pub time_trusted : Bool

-- pm_durable_interval_t
pub record RecordInterval : Type 0 where
  pub voltage_mv : ℤ
  pub current_ma : ℤ
  pub active_power_mw : ℤ
  pub frequency_mhz : ℤ
  pub power_factor_milli : ℤ
  pub pzem_energy_start_wh : ℕ
  pub pzem_energy_end_wh : ℕ
  pub selected_energy_mwh : ℕ
  pub diagnostic_energy_mwh : ℕ
  pub sample_count : ℕ
  pub expected_samples : ℕ
  pub completeness_permille : ℕ
  pub selected_energy_source : ℕ
  pub flags : ℕ
  pub start_utc_ms : ℤ
  pub end_utc_ms : ℤ
  pub start_monotonic_us : ℤ
  pub end_monotonic_us : ℤ

-- pm_journal_record_t
pub record JournalRecord : Type 0 where
  pub device_id : List ℕ
  pub sequence : ℕ  -- uint64_t
  pub reset_generation : ℕ  -- uint32_t
  pub interval : RecordInterval

abbrev pub format_version : ℕ
format_version = 1

abbrev pub segment_magic : ℕ
segment_magic = 0x504D5347

abbrev pub record_magic : ℕ
record_magic = 0x504D5244

abbrev pub segment_header_size : ℕ
segment_header_size = 96

abbrev pub record_size : ℕ
record_size = 128

-- Bytes `i` and the following ones of a value, the least significant byte first.
unfoldable pub bytes_from : ℕ → ℕ → ℕ → List ℕ
bytes_from i zero value = []
bytes_from i (suc count) value = value / 2 ^ (8 * i) % 256 ∷ bytes_from (suc i) count value

unfoldable pub put_u16 : ℕ → List ℕ
put_u16 value = bytes_from 0 2 value

unfoldable pub put_u32 : ℕ → List ℕ
put_u32 value = bytes_from 0 4 value

unfoldable pub put_u64 : ℕ → List ℕ
put_u64 value = bytes_from 0 8 value

-- The loop, from byte `i` with the value so far.
unfoldable pub word_from : ℕ → ℕ → List ℕ → ℕ
word_from i value [] = value
word_from i value (b ∷ bs) = word_from (suc i) (bit_or value (b * 2 ^ (8 * i))) bs

unfoldable pub get_word : List ℕ → ℕ
get_word bytes = word_from 0 0 bytes

-- (int64_t)
abbrev pub to_int64 : ℕ → ℤ
to_int64 word = if ltb word (2 ^ 63) then pos word else negsuc (2 ^ 64 - word - 1)

-- memcpy to the start of a buffer, and to an offset.
abbrev pub overwrite : List ℕ → List ℕ → List ℕ
overwrite [] output = output
overwrite (b ∷ bytes) [] = []
overwrite (b ∷ bytes) (o ∷ output) = b ∷ overwrite bytes output

abbrev pub put_at : ℕ → List ℕ → List ℕ → List ℕ
put_at zero bytes output = overwrite bytes output
put_at (suc n) bytes [] = []
put_at (suc n) bytes (o ∷ output) = o ∷ put_at n bytes output

abbrev pub get_at : ℕ → ℕ → List ℕ → List ℕ
get_at offset count data_ = take count (drop offset data_)

abbrev pub get_word_at : ℕ → ℕ → List ℕ → ℕ
get_word_at offset count data_ = get_word (get_at offset count data_)

abbrev pub get_u16 : ℕ → List ℕ → ℕ
get_u16 offset data_ = get_word_at offset 2 data_

abbrev pub get_u32 : ℕ → List ℕ → ℕ
get_u32 offset data_ = get_word_at offset 4 data_

abbrev pub get_u64 : ℕ → List ℕ → ℕ
get_u64 offset data_ = get_word_at offset 8 data_

-- All but the check sum, in the order of the writes.
unfoldable pub segment_body : SegmentHeader → List ℕ
segment_body h = put_at 80 ((if h.time_trusted then 1 else 0) ∷ []) (
    put_at 72 (put_u64 (to_uint64 h.created_monotonic_us)) (
      put_at 64 (put_u64 (to_uint64 h.created_utc_ms)) (
        put_at 56 (put_u64 h.first_sequence) (
          put_at 40 h.segment_id (
            put_at 24 h.card_id (
              put_at 8 h.device_id (
                put_at 6 (put_u16 segment_header_size) (
                  put_at 4 (put_u16 format_version)
                    (put_at 0 (put_u32 segment_magic) (replicate segment_header_size 0))))))))))

unfoldable pub encode_segment_header : SegmentHeader → List ℕ
encode_segment_header h =
    let output = segment_body h in put_at 92 (put_u32 (crc32_ieee (take 92 output))) output

unfoldable pub decode_segment_header : List ℕ → Option SegmentHeader
decode_segment_header data_ =
    if not (length data_ == segment_header_size)
      || not (get_u32 0 data_ == segment_magic)
      || not (get_u16 4 data_ == format_version)
      || not (get_u16 6 data_ == segment_header_size)
      || not (get_u32 92 data_ == crc32_ieee (take 92 data_))
    then none
    else some (record {
      device_id = get_at 8 16 data_;
      card_id = get_at 24 16 data_;
      segment_id = get_at 40 16 data_;
      first_sequence = get_u64 56 data_;
      created_utc_ms = to_int64 (get_u64 64 data_);
      created_monotonic_us = to_int64 (get_u64 72 data_);
      time_trusted = not (get_word_at 80 1 data_ == 0);
    })

-- The energy that a record has room for.
abbrev pub stored_energy : ℕ → ℕ
stored_energy mwh = if ltb uint32_max mwh then uint32_max else mwh

-- The last fields before the check sum, over what is written before them.
abbrev pub record_tail : RecordInterval → List ℕ → List ℕ
record_tail i output = put_at 120 (put_u32 (stored_energy i.selected_energy_mwh)) (
    put_at 112 (put_u64 i.pzem_energy_end_wh) (
      put_at 104 (put_u64 i.pzem_energy_start_wh) (
        put_at 100 (put_u32 (to_uint32 i.power_factor_milli)) (
          put_at 96 (put_u32 (to_uint32 i.frequency_mhz)) (
            put_at 92 (put_u32 (to_uint32 i.active_power_mw)) (
              put_at 88 (put_u32 (to_uint32 i.current_ma)) (
                put_at 84 (put_u32 (to_uint32 i.voltage_mv)) (
                  put_at 82 (put_u16 i.selected_energy_source) (
                    put_at 80 (put_u16 i.completeness_permille) (
                      put_at 76 (put_u32 i.expected_samples)
                        (put_at 72 (put_u32 i.sample_count) output)))))))))))

unfoldable pub record_body : JournalRecord → List ℕ
record_body r = record_tail r.interval (
    put_at 64 (put_u64 (to_uint64 r.interval.end_monotonic_us)) (
      put_at 56 (put_u64 (to_uint64 r.interval.start_monotonic_us)) (
        put_at 48 (put_u64 (to_uint64 r.interval.end_utc_ms)) (
          put_at 40 (put_u64 (to_uint64 r.interval.start_utc_ms)) (
            put_at 36 (put_u32 r.interval.flags) (
              put_at 32 (put_u32 r.reset_generation) (
                put_at 24 (put_u64 r.sequence) (
                  put_at 8 r.device_id (
                    put_at 6 (put_u16 record_size) (
                      put_at 4 (put_u16 format_version)
                        (put_at 0 (put_u32 record_magic) (replicate record_size 0))))))))))))

unfoldable pub encode_record : JournalRecord → List ℕ
encode_record r =
    let output = record_body r in put_at 124 (put_u32 (crc32_ieee (take 124 output))) output

-- The fields of a record; the diagnostic energy is not kept.
unfoldable pub decoded_record : List ℕ → JournalRecord
decoded_record data_ = record {
  device_id = get_at 8 16 data_;
  sequence = get_u64 24 data_;
  reset_generation = get_u32 32 data_;
  interval = record {
    flags = get_u32 36 data_;
    start_utc_ms = to_int64 (get_u64 40 data_);
    end_utc_ms = to_int64 (get_u64 48 data_);
    start_monotonic_us = to_int64 (get_u64 56 data_);
    end_monotonic_us = to_int64 (get_u64 64 data_);
    sample_count = get_u32 72 data_;
    expected_samples = get_u32 76 data_;
    completeness_permille = get_u16 80 data_;
    selected_energy_source = get_u16 82 data_;
    voltage_mv = to_int32 (get_u32 84 data_);
    current_ma = to_int32 (get_u32 88 data_);
    active_power_mw = to_int32 (get_u32 92 data_);
    frequency_mhz = to_int32 (get_u32 96 data_);
    power_factor_milli = to_int32 (get_u32 100 data_);
    pzem_energy_start_wh = get_u64 104 data_;
    pzem_energy_end_wh = get_u64 112 data_;
    selected_energy_mwh = get_u32 120 data_;
    diagnostic_energy_mwh = 0;
  };
}

unfoldable pub decode_record : List ℕ → Option JournalRecord
decode_record data_ =
    let r = decoded_record data_ in
    if not (length data_ == record_size)
      || not (get_u32 0 data_ == record_magic)
      || not (get_u16 4 data_ == format_version)
      || not (get_u16 6 data_ == record_size)
      || not (get_u32 124 data_ == crc32_ieee (take 124 data_))
    then none
    else if not (r.sequence == 0) && leb r.interval.completeness_permille 1000
    then some r
    else none
