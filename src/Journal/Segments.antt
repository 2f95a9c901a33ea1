-- ===== src/Journal/Segments.antt =====
-- A segment's header is decoded as it was encoded.
use power_monitor_sensor_hea.Base.{
  ◌≡◌, refl, sym, ap, subst, ◌∙◌, arith, Bool, true, false, not, ◌==◌, if◌then◌else◌, some, [], ◌∷◌,
  length, take, All, All-take, IsU8, IsU32, IsU64, ==_refl,
}
use power_monitor_sensor_hea.Crc32.{crc32_ieee}
use power_monitor_sensor_hea.Crc32.Bounds.{crc32_ieee-lt}
use power_monitor_sensor_hea.Journal.Bytes.{segment_body-All}
use power_monitor_sensor_hea.Journal.Defs.{
  SegmentHeader, segment_magic, put_u16, put_u32, put_u64, bytes_from, get_word, word_from,
  segment_body, encode_segment_header, decode_segment_header,
}
use power_monitor_sensor_hea.Journal.Words.{get_word-put_u16, get_word-put_u32, get_word-put_u64}
use power_monitor_sensor_hea.Journal.Values.{listed, length-listed, IsI64, int64_kept}

-- The values fit the words that they are kept in.
pub record IsStorableHeader (h : SegmentHeader) : Type 0 where
  pub device_id_length : length h.device_id ≡ 16
  pub device_id_bytes : All IsU8 h.device_id
  pub card_id_length : length h.card_id ≡ 16
  pub card_id_bytes : All IsU8 h.card_id
  pub segment_id_length : length h.segment_id ≡ 16
  pub segment_id_bytes : All IsU8 h.segment_id
  pub sequence_fits : IsU64 h.first_sequence
  pub utc_fits : IsI64 h.created_utc_ms
  pub monotonic_fits : IsI64 h.created_monotonic_us

-- A header with the elements of its arrays in sight.
abbrev spelled : SegmentHeader → SegmentHeader
spelled h = record h {
  device_id = listed 16 h.device_id;
  card_id = listed 16 h.card_id;
  segment_id = listed 16 h.segment_id;
}

spelled_same : (h : SegmentHeader) → IsStorableHeader h → spelled h ≡ h
spelled_same h fits =
    let device = length-listed 16 h.device_id fits.device_id_length in
    let card = length-listed 16 h.card_id fits.card_id_length in
    let segment = length-listed 16 h.segment_id fits.segment_id_length in cc

header_crc-lt :
    (h : SegmentHeader) → IsStorableHeader h → IsU32 (crc32_ieee (take 92 (segment_body h)))
header_crc-lt h fits = crc32_ieee-lt _ (
    All-take IsU8 92 (segment_body h)
      (segment_body-All h fits.device_id_bytes fits.card_id_bytes fits.segment_id_bytes))

flag_kept : (b : Bool) → not (get_word ((if b then 1 else 0) ∷ []) == 0) ≡ b
unfolding get_word word_from
flag_kept true = refl
flag_kept false = refl

decode_spelled :
    (h : SegmentHeader)
    → IsU32 (crc32_ieee (take 92 (segment_body (spelled h))))
    → IsU64 h.first_sequence
    → IsI64 h.created_utc_ms
    → IsI64 h.created_monotonic_us
    → decode_segment_header (encode_segment_header (spelled h)) ≡ some (spelled h)
unfolding decode_segment_header encode_segment_header segment_body put_u16 put_u32 put_u64
    bytes_from
decode_spelled h crc first utc monotonic =
    rw
      (
        get_word-put_u32 segment_magic (omega arith),
        get_word-put_u16 1 (omega arith),
        get_word-put_u16 96 (omega arith),
        get_word-put_u32 (crc32_ieee (take 92 (segment_body (spelled h)))) crc,
        ==_refl (crc32_ieee (take 92 (segment_body (spelled h)))),
        get_word-put_u64 h.first_sequence first,
        int64_kept h.created_utc_ms utc,
        int64_kept h.created_monotonic_us monotonic,
        flag_kept h.time_trusted,
      )
      refl

-- A header whose values fit is decoded as it was encoded.
pub decode_segment_header-encode_segment_header :
    (h : SegmentHeader)
    → IsStorableHeader h
    → decode_segment_header (encode_segment_header h) ≡ some h
decode_segment_header-encode_segment_header h fits =
    let same = spelled_same h fits in
    let crc =
      subst (λ (g : SegmentHeader). IsU32 (crc32_ieee (take 92 (segment_body g)))) (sym same)
        (header_crc-lt h fits) in
    ap (λ (g : SegmentHeader). decode_segment_header (encode_segment_header g)) (sym same)
    ∙ decode_spelled h crc fits.sequence_fits fits.utc_fits fits.monotonic_fits
    ∙ ap (λ (g : SegmentHeader). some g) same
