-- ===== src/Journal/Bytes.antt =====
-- What is written to a buffer is bytes.
use native.Mathlib.Nat.{mod-lt}
use power_monitor_sensor_hea.Base.{
  ℕ, zero, suc, arith, Bool, true, false, if◌then◌else◌, List, [], ◌∷◌, replicate, All, IsU8,
}
use power_monitor_sensor_hea.Journal.Defs.{
  JournalRecord, SegmentHeader, RecordInterval, bytes_from, put_u16, put_u32, put_u64, overwrite,
  put_at, record_tail, record_body, segment_body,
}

bytes_from-All : (n i value : ℕ) → All IsU8 (bytes_from i n value)
unfolding bytes_from
bytes_from-All zero i value = tt
bytes_from-All (suc n) i value = (mod-lt _ (omega arith), bytes_from-All n (suc i) value)

u16 : (value : ℕ) → All IsU8 (put_u16 value)
unfolding put_u16
u16 value = bytes_from-All 2 0 value

u32 : (value : ℕ) → All IsU8 (put_u32 value)
unfolding put_u32
u32 value = bytes_from-All 4 0 value

u64 : (value : ℕ) → All IsU8 (put_u64 value)
unfolding put_u64
u64 value = bytes_from-All 8 0 value

overwrite-All :
    (bytes output : List ℕ) → All IsU8 bytes → All IsU8 output → All IsU8 (overwrite bytes output)
overwrite-All [] output hb ho = ho
overwrite-All (b ∷ bytes) [] hb ho = tt
overwrite-All (b ∷ bytes) (o ∷ output) (h, hb) (_, ho) = (h, overwrite-All bytes output hb ho)

put_at-All :
    (n : ℕ) (bytes output : List ℕ)
    → All IsU8 bytes
    → All IsU8 output
    → All IsU8 (put_at n bytes output)
put_at-All zero bytes output hb ho = overwrite-All bytes output hb ho
put_at-All (suc n) bytes [] hb ho = tt
put_at-All (suc n) bytes (o ∷ output) hb (h, ho) = (h, put_at-All n bytes output hb ho)

replicate-All : (n : ℕ) → All IsU8 (replicate n 0)
replicate-All zero = tt
replicate-All (suc n) = (omega arith, replicate-All n)

record_tail-All :
    (i : RecordInterval) (output : List ℕ) → All IsU8 output → All IsU8 (record_tail i output)
record_tail-All i output h = put_at-All 120 _ _ (u32 _) (
    put_at-All 112 _ _ (u64 _) (
      put_at-All 104 _ _ (u64 _) (
        put_at-All 100 _ _ (u32 _) (
          put_at-All 96 _ _ (u32 _) (
            put_at-All 92 _ _ (u32 _) (
              put_at-All 88 _ _ (u32 _) (
                put_at-All 84 _ _ (u32 _) (
                  put_at-All 82 _ _ (u16 _) (
                    put_at-All 80 _ _ (u16 _)
                      (put_at-All 76 _ _ (u32 _) (put_at-All 72 _ _ (u32 _) h)))))))))))

pub record_body-All : (r : JournalRecord) → All IsU8 r.device_id → All IsU8 (record_body r)
unfolding record_body
record_body-All r h = record_tail-All r.interval _ (
    put_at-All 64 _ _ (u64 _) (
      put_at-All 56 _ _ (u64 _) (
        put_at-All 48 _ _ (u64 _) (
          put_at-All 40 _ _ (u64 _) (
            put_at-All 36 _ _ (u32 _) (
              put_at-All 32 _ _ (u32 _) (
                put_at-All 24 _ _ (u64 _) (
                  put_at-All 8 _ _ h (
                    put_at-All 6 _ _ (u16 _) (
                      put_at-All 4 _ _ (u16 _)
                        (put_at-All 0 _ _ (u32 _) (replicate-All 128))))))))))))

flag_byte : (b : Bool) → IsU8 (if b then 1 else 0)
flag_byte true = omega arith
flag_byte false = omega arith

pub segment_body-All :
    (h : SegmentHeader)
    → All IsU8 h.device_id
    → All IsU8 h.card_id
    → All IsU8 h.segment_id
    → All IsU8 (segment_body h)
unfolding segment_body
segment_body-All h device card segment =
    put_at-All 80 ((if h.time_trusted then 1 else 0) ∷ []) _ (flag_byte h.time_trusted, tt)
      (put_at-All 72 _ _ (u64 _) (
        put_at-All 64 _ _ (u64 _) (
          put_at-All 56 _ _ (u64 _) (
            put_at-All 40 _ _ segment (
              put_at-All 24 _ _ card (
                put_at-All 8 _ _ device (
                  put_at-All 6 _ _ (u16 _)
                    (put_at-All 4 _ _ (u16 _) (put_at-All 0 _ _ (u32 _) (replicate-All 96))))))))))
