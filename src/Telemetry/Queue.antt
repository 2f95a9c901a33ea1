-- ===== src/Telemetry/Queue.antt =====
-- The telemetry queue over any use of it: what stays, what is replaced and what is sent.
use power_monitor_sensor_hea.Base.{
  ℕ, ◌+◌, ◌≤◌, ◌<◌, ◌^◌, ◌%◌, not, ◌≡◌, refl, arith, Bool, true, false, if◌then◌else◌, none, some,
  List, [], ◌∷◌, inl, inr, ◌⊎◌, uint64_max,
}
use power_monitor_sensor_hea.Base.Esp.{EspErr, invalid_arg, invalid_state}
use power_monitor_sensor_hea.Meter.{MeterSample}
use power_monitor_sensor_hea.Telemetry.{
  Slot, slot_init, offer, begin_send, complete_send, resident_samples, zero_sample,
}
use power_monitor_sensor_hea.Telemetry.History.{
  Request, offering, sending, completing, History, handle, serve, unused, length_of, IsFalling,
  IsNewest, Inv,
}

unused-Inv : Inv unused
unfolding unused slot_init resident_samples
unused-Inv = ground arith

-- A completion is refused and changes nothing, or it empties the place of the sample in flight.
complete_send_cases :
    (s : Slot) (sequence : ℕ) (accepted : Bool)
    → (complete_send s sequence accepted ≡ (s, invalid_state))
      ⊎ ((s.in_flight_present ≡ true)
          × (s.in_flight.sample_sequence ≡ sequence)
          × (complete_send s sequence accepted ≡ (
            record s {
              failed_transmissions =
                  if not accepted
                  then (s.failed_transmissions + 1) % 2 ^ 64
                  else s.failed_transmissions;
              in_flight = zero_sample;
              in_flight_present = false;
            },
            EspErr.ok,
          )))
unfolding complete_send
complete_send_cases s sequence accepted = ground arith

completed-Inv :
    (h : History) (failed : ℕ)
    → failed ≤ h.slot.failed_transmissions + 1
    → h.slot.in_flight_present ≡ true
    → Inv h
    → Inv (record h {
      slot = record h.slot {
        failed_transmissions = failed;
        in_flight = zero_sample;
        in_flight_present = false;
      };
      completed = h.completed + 1;
    })
unfolding resident_samples
completed-Inv h failed few flying v = ground arith

-- An offer is refused and changes nothing, or it takes the pending place.
abbrev replaced_after : Slot → ℕ
replaced_after s =
    if s.pending_present then (s.replaced_pending + 1) % 2 ^ 64 else s.replaced_pending

offer_cases :
    (s : Slot) (m : MeterSample)
    → s.next_sequence ≤ uint64_max
    → (offer s m ≡ (s, invalid_arg, none))
      ⊎ ((s.next_sequence < uint64_max)
          × (offer s m ≡ (
            record s {
              next_sequence = s.next_sequence + 1;
              replaced_pending = replaced_after s;
              pending = record { measurement = m; sample_sequence = s.next_sequence };
              pending_present = true;
            },
            EspErr.ok,
            some s.next_sequence,
          )))
unfolding offer
offer_cases s m h = ground arith

offered-Inv :
    (h : History) (m : MeterSample) (replaced : ℕ)
    → h.slot.next_sequence < uint64_max
    → replaced ≡ h.slot.replaced_pending + (if h.slot.pending_present then 1 else 0)
    → Inv h
    → Inv (record h {
      slot = record h.slot {
        next_sequence = h.slot.next_sequence + 1;
        replaced_pending = replaced;
        pending = record { measurement = m; sample_sequence = h.slot.next_sequence };
        pending_present = true;
      };
      offered = m ∷ h.offered;
    })
unfolding resident_samples
offered-Inv h m replaced room e v = record {
  counted = ground (arith, v.counted);
  bounded = omega arith;
  accounted = ground (arith, v.accounted);
  failures = v.failures;
  falling = v.falling;
  behind = omega (arith, v.behind);
  waiting = λ _. refl;
  ahead = λ _. v.behind;
  newest = λ _. refl;
  flying = v.flying;
  taken = v.taken;
}

count_if :
    (b : Bool) (n : ℕ)
    → n + 1 < 2 ^ 64
    → (if b then (n + 1) % 2 ^ 64 else n) ≡ n + (if b then 1 else 0)
count_if true n h = omega arith
count_if false n h = omega arith

replaced_fits :
    (h : History)
    → h.slot.next_sequence < uint64_max
    → Inv h
    → replaced_after h.slot ≡ h.slot.replaced_pending + (if h.slot.pending_present then 1 else 0)
replaced_fits h room v = count_if _ _ (omega (arith, v.counted, v.accounted))

sent-Inv :
    (h : History)
    → h.slot.in_flight_present ≡ false
    → h.slot.pending_present ≡ true
    → Inv h
    → Inv (record h {
      slot = record h.slot {
        in_flight = h.slot.pending;
        in_flight_present = true;
        pending = zero_sample;
        pending_present = false;
      };
      sent = h.slot.pending ∷ h.sent;
    })
unfolding resident_samples
sent-Inv h idle full v = record {
  counted = v.counted;
  bounded = v.bounded;
  accounted = ground (arith, v.accounted);
  failures = v.failures;
  falling = (v.ahead full, v.falling);
  behind = omega (arith, v.waiting full);
  waiting = λ q. cc;
  ahead = λ q. cc;
  newest = λ q. cc;
  flying = λ _. refl;
  taken = ground (arith, v.taken);
}

begin_send_cases :
    (s : Slot)
    → (begin_send s ≡ (s, none))
      ⊎ ((s.in_flight_present ≡ false)
          × (s.pending_present ≡ true)
          × (begin_send s ≡ (
            record s {
              in_flight = s.pending;
              in_flight_present = true;
              pending = zero_sample;
              pending_present = false;
            },
            some s.pending,
          )))
unfolding begin_send
begin_send_cases s = ground arith

failed_few :
    (h : History) (accepted : Bool)
    → (if not accepted
        then (h.slot.failed_transmissions + 1) % 2 ^ 64
        else h.slot.failed_transmissions)
      ≤ h.slot.failed_transmissions + 1
failed_few h accepted = ground arith

handle-Inv : (h : History) (r : Request) → Inv h → Inv (handle h r)
unfolding handle
handle-Inv h (offering m) v = elim (offer_cases h.slot m v.bounded) [
  | inl refused ↦ rw refused v
  | inr (room, taken) ↦ rw taken (offered-Inv h m _ room (replaced_fits h room v) v)
]
handle-Inv h sending v = elim (begin_send_cases h.slot) [
  | inl refused ↦ rw refused v
  | inr (idle, full, taken) ↦ rw taken (sent-Inv h idle full v)
]
handle-Inv h (completing sequence accepted) v =
    elim (complete_send_cases h.slot sequence accepted) [
      | inl refused ↦ rw refused v
      | inr (flying, same, done) ↦ rw done (completed-Inv h _ (failed_few h accepted) flying v)
    ]

serve-Inv : (h : History) (rs : List Request) → Inv h → Inv (serve h rs)
unfolding serve
serve-Inv h [] v = v
serve-Inv h (r ∷ rs) v = serve-Inv (handle h r) rs (handle-Inv h r v)

-- Whatever its clients ask of a new queue, every sample that it took is accounted for: it was
-- replaced by a newer one, or its sending was completed, or it is still held. The sequences of the
-- samples that were sent rise strictly, so none is sent twice, and a sample that waits is the newest
-- one offered.
pub serve_accounts :
    (rs : List Request)
    → let h = serve unused rs in
      (length_of h.offered ≡ h.slot.replaced_pending + h.completed + resident_samples h.slot)
      × (h.slot.next_sequence ≡ length_of h.offered + 1)
      × (h.slot.failed_transmissions ≤ h.completed)
      × IsFalling h.sent
      × (h.slot.pending_present ≡ true → IsNewest h.slot.pending h.offered)
serve_accounts rs =
    let v = serve-Inv unused rs unused-Inv in
    (v.accounted, v.counted, v.failures, v.falling, v.newest)
