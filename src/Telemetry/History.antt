-- ===== src/Telemetry/History.antt =====
-- The telemetry queue with what its clients have seen of it.
use power_monitor_sensor_hea.Base.{
  ℕ, ◌+◌, ◌≤◌, ◌<◌, ◌≡◌, Bool, true, if◌then◌else◌, Option, none, some, List, [], ◌∷◌, uint64_max,
}
use power_monitor_sensor_hea.Base.Esp.{EspErr}
use power_monitor_sensor_hea.Meter.{MeterSample}
use power_monitor_sensor_hea.Telemetry.{
  TelemetrySample, Slot, slot_init, offer, begin_send, complete_send, resident_samples,
}

-- What a client may ask of the queue.
pub data Request : Type 0 where
  offering : MeterSample → Request
  sending : Request
  completing : ℕ → Bool → Request

-- The queue with what its clients have seen: the samples taken for sending, newest first, those
-- offered, newest first, and the number of completions that were accepted as the queue's own.
pub record History : Type 0 where
  pub slot : Slot
  pub offered : List MeterSample
  pub sent : List TelemetrySample
  pub completed : ℕ

abbrev pub note_offer : EspErr → MeterSample → List MeterSample → List MeterSample
note_offer EspErr.ok m ms = m ∷ ms
note_offer _ m ms = ms

abbrev pub note_sent : Option TelemetrySample → List TelemetrySample → List TelemetrySample
note_sent none ss = ss
note_sent (some s) ss = s ∷ ss

abbrev pub note_completion : EspErr → ℕ → ℕ
note_completion EspErr.ok n = n + 1
note_completion _ n = n

unfoldable pub handle : History → Request → History
handle h (offering m) =
    let (slot', error, _) = offer h.slot m in
    record h { slot = slot'; offered = note_offer error m h.offered }
handle h sending =
    let (slot', sample) = begin_send h.slot in
    record h { slot = slot'; sent = note_sent sample h.sent }
handle h (completing sequence accepted) =
    let (slot', error) = complete_send h.slot sequence accepted in
    record h { slot = slot'; completed = note_completion error h.completed }

unfoldable pub serve : History → List Request → History
serve h [] = h
serve h (r ∷ rs) = serve (handle h r) rs

unfoldable pub unused : History
unused = record { slot = slot_init; offered = []; sent = []; completed = 0 }

abbrev pub length_of {ℓ} : {A : Type ℓ} → List A → ℕ
length_of [] = 0
length_of (x ∷ xs) = length_of xs + 1

-- The sequence of the newest sample taken for sending; 0 before the first.
abbrev pub last_sent : List TelemetrySample → ℕ
last_sent [] = 0
last_sent (s ∷ ss) = s.sample_sequence

-- Newest first, the sequences fall.
abbrev pub IsFalling : List TelemetrySample → Type 0
IsFalling [] = Unit {0}
IsFalling (s ∷ ss) = (last_sent ss < s.sample_sequence) × IsFalling ss

-- The pending sample is the newest one that was offered.
abbrev pub IsNewest : TelemetrySample → List MeterSample → Type 0
IsNewest p [] = ⊥
IsNewest p (m ∷ ms) = p.measurement ≡ m

pub record Inv (h : History) : Type 0 where
  pub counted : h.slot.next_sequence ≡ length_of h.offered + 1
  pub bounded : h.slot.next_sequence ≤ uint64_max
  pub accounted :
      length_of h.offered ≡ h.slot.replaced_pending + h.completed + resident_samples h.slot
  pub failures : h.slot.failed_transmissions ≤ h.completed
  pub falling : IsFalling h.sent
  pub behind : last_sent h.sent < h.slot.next_sequence
  pub waiting :
      h.slot.pending_present ≡ true → h.slot.pending.sample_sequence + 1 ≡ h.slot.next_sequence
  pub ahead : h.slot.pending_present ≡ true → last_sent h.sent < h.slot.pending.sample_sequence
  pub newest : h.slot.pending_present ≡ true → IsNewest h.slot.pending h.offered
  pub flying : h.slot.in_flight_present ≡ true → h.slot.in_flight.sample_sequence ≡ last_sent h.sent
  pub taken : length_of h.sent ≡ h.completed + (if h.slot.in_flight_present then 1 else 0)
