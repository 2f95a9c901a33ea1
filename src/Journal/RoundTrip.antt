-- ===== src/Journal/RoundTrip.antt =====
-- What is decoded is what was encoded.
use power_monitor_sensor_hea.Base.{
  ℕ, ◌≤◌, ◌≡◌, ◌≢◌, refl, sym, ap, subst, ◌∙◌, arith, Bool, true, false, not, ◌&&◌, ◌||◌, ◌==◌, leb,
  some, List, length, take, All, All-take, IsU8, IsU16, IsU32, IsU64, ==_refl,
}
use power_monitor_sensor_hea.Crc32.{crc32_ieee}
use power_monitor_sensor_hea.Crc32.Bounds.{crc32_ieee-lt}
use power_monitor_sensor_hea.Journal.Bytes.{record_body-All}
use power_monitor_sensor_hea.Journal.Defs.{
  JournalRecord, record_magic, put_u16, put_u32, put_u64, bytes_from, get_word, get_u16, get_u32,
  stored_energy, record_body, encode_record, decoded_record, decode_record,
}
use power_monitor_sensor_hea.Journal.Words.{get_word-put_u16, get_word-put_u32, get_word-put_u64}
use power_monitor_sensor_hea.Journal.Values.{
  listed, length-listed, IsI32, IsI64, int32_kept, int64_kept,
}

-- The values fit the words that they are kept in.
pub record IsStorable (r : JournalRecord) : Type 0 where
  pub device_id_length : length r.device_id ≡ 16
  pub sequence_fits : IsU64 r.sequence
  pub sequence_used : r.sequence ≢ 0
  pub reset_generation_fits : IsU32 r.reset_generation
  pub flags_fit : IsU32 r.interval.flags
  pub start_utc_fits : IsI64 r.interval.start_utc_ms
  pub end_utc_fits : IsI64 r.interval.end_utc_ms
  pub start_monotonic_fits : IsI64 r.interval.start_monotonic_us
  pub end_monotonic_fits : IsI64 r.interval.end_monotonic_us
  pub sample_count_fits : IsU32 r.interval.sample_count
  pub expected_samples_fit : IsU32 r.interval.expected_samples
  pub completeness_fits : r.interval.completeness_permille ≤ 1000
  pub source_fits : IsU16 r.interval.selected_energy_source
  pub voltage_fits : IsI32 r.interval.voltage_mv
  pub current_fits : IsI32 r.interval.current_ma
  pub power_fits : IsI32 r.interval.active_power_mw
  pub frequency_fits : IsI32 r.interval.frequency_mhz
  pub factor_fits : IsI32 r.interval.power_factor_milli
  pub energy_start_fits : IsU64 r.interval.pzem_energy_start_wh
  pub energy_end_fits : IsU64 r.interval.pzem_energy_end_wh

-- A record without what is not stored of it.
abbrev pub stored : JournalRecord → JournalRecord
stored r = record r {
  interval = record r.interval {
    diagnostic_energy_mwh = 0;
    selected_energy_mwh = stored_energy r.interval.selected_energy_mwh;
  };
}

decoded_record-encode_record :
    (r : JournalRecord) (ds : List ℕ)
    → IsStorable r
    → listed 16 ds ≡ r.device_id
    → decoded_record (encode_record (record r { device_id = listed 16 ds })) ≡ stored r
unfolding decoded_record encode_record record_body put_u16 put_u32 put_u64 bytes_from
decoded_record-encode_record r ds h same =
    let i = r.interval in
    let sequence : get_word (put_u64 r.sequence) ≡ r.sequence =
      get_word-put_u64 _ h.sequence_fits in
    let reset = get_word-put_u32 _ h.reset_generation_fits in
    let flags = get_word-put_u32 _ h.flags_fit in
    let start_utc = int64_kept i.start_utc_ms h.start_utc_fits in
    let end_utc = int64_kept i.end_utc_ms h.end_utc_fits in
    let start_us = int64_kept i.start_monotonic_us h.start_monotonic_fits in
    let end_us = int64_kept i.end_monotonic_us h.end_monotonic_fits in
    let samples = get_word-put_u32 _ h.sample_count_fits in
    let expected = get_word-put_u32 _ h.expected_samples_fit in
    let completeness =
      get_word-put_u16 i.completeness_permille (omega (arith, h.completeness_fits)) in
    let source = get_word-put_u16 _ h.source_fits in
    let voltage = int32_kept i.voltage_mv h.voltage_fits in
    let current = int32_kept i.current_ma h.current_fits in
    let power = int32_kept i.active_power_mw h.power_fits in
    let frequency = int32_kept i.frequency_mhz h.frequency_fits in
    let factor = int32_kept i.power_factor_milli h.factor_fits in
    let energy_start = get_word-put_u64 _ h.energy_start_fits in
    let energy_end = get_word-put_u64 _ h.energy_end_fits in
    let energy = get_word-put_u32 (stored_energy i.selected_energy_mwh) (ground arith) in cc

-- The tests that a decoding makes before it takes the fields.
abbrev refused : List ℕ → Bool
refused data_ =
    not (length data_ == 128)
    || not (get_u32 0 data_ == record_magic)
    || not (get_u16 4 data_ == 1)
    || not (get_u16 6 data_ == 128)
    || not (get_u32 124 data_ == crc32_ieee (take 124 data_))

record_crc-lt :
    (r : JournalRecord) → All IsU8 r.device_id → IsU32 (crc32_ieee (take 124 (record_body r)))
record_crc-lt r h = crc32_ieee-lt _ (All-take IsU8 124 (record_body r) (record_body-All r h))

encode_record_accepted :
    (r : JournalRecord) (ds : List ℕ)
    → All IsU8 (listed 16 ds)
    → refused (encode_record (record r { device_id = listed 16 ds })) ≡ false
unfolding encode_record record_body put_u16 put_u32 put_u64 bytes_from
encode_record_accepted r ds bytes =
    let body = record_body (record r { device_id = listed 16 ds }) in
    let bounded = record_crc-lt (record r { device_id = listed 16 ds }) bytes in
    rw
      (
        get_word-put_u32 record_magic (omega arith),
        get_word-put_u16 1 (omega arith),
        get_word-put_u16 128 (omega arith),
        get_word-put_u32 (crc32_ieee (take 124 body)) bounded,
        ==_refl (crc32_ieee (take 124 body)),
      )
      refl

decode_accepted :
    (data_ : List ℕ) (r : JournalRecord)
    → refused data_ ≡ false
    → decoded_record data_ ≡ r
    → (not (r.sequence == 0) && leb r.interval.completeness_permille 1000) ≡ true
    → decode_record data_ ≡ some r
unfolding decode_record
decode_accepted data_ r passed fields kept = rw (passed, fields, kept) refl

decode_listed :
    (r : JournalRecord) (ds : List ℕ)
    → IsStorable r
    → listed 16 ds ≡ r.device_id
    → All IsU8 (listed 16 ds)
    → decode_record (encode_record (record r { device_id = listed 16 ds })) ≡ some (stored r)
decode_listed r ds h same bytes =
    let data_ = encode_record (record r { device_id = listed 16 ds }) in
    let passed = encode_record_accepted r ds bytes in
    let fields = decoded_record-encode_record r ds h same in
    let kept : (not (r.sequence == 0) && leb r.interval.completeness_permille 1000) ≡ true =
      ground (arith, h.sequence_used, h.completeness_fits) in
    decode_accepted data_ (stored r) passed fields kept

-- A record whose values fit is decoded as it was encoded, but for its diagnostic energy, which is not
-- stored, and for an energy beyond 32 bits, which is stored as the greatest word.
pub decode_record-encode_record :
    (r : JournalRecord)
    → IsStorable r
    → All IsU8 r.device_id
    → decode_record (encode_record r) ≡ some (stored r)
decode_record-encode_record r h bytes =
    let same = length-listed 16 r.device_id h.device_id_length in
    let decoded = λ (ds : List ℕ). decode_record (encode_record (record r { device_id = ds })) in
    ap decoded (sym same)
    ∙ decode_listed r r.device_id h same (subst (λ (ds : List ℕ). All IsU8 ds) (sym same) bytes)
