-- ===== src/Sequence/Fresh.antt =====
-- Whatever happens, a sequence is handed out at most once.
use power_monitor_sensor_hea.Base.{
  ℕ, suc, ◌≤◌, ◌≡◌, ◌≢◌, refl, sym, ◌∙◌, arith, inl, inr, if◌then◌else◌, Bool-cases, Option, none,
  some, List, [], ◌∷◌,
}
use power_monitor_sensor_hea.Base.Esp.{EspErr, ok, is_ok}
use power_monitor_sensor_hea.Nvs.{Nvs, IsFlash, restart_NoMore, is_ok-ok}
use power_monitor_sensor_hea.Sequence.Defs.{
  SequenceState, SequenceSlot, initial_state, sequence_load, sequence_next, sequence_acknowledge,
  sequence_raise_floor,
}
use power_monitor_sensor_hea.Sequence.Store.{Floor}
use power_monitor_sensor_hea.Sequence.Running.{
  Running, sequence_next-HandsOut, sequence_acknowledge-Running, sequence_raise_floor-Running,
}
use power_monitor_sensor_hea.Sequence.Start.{Started, load-Started}

-- What happens to the sensor, in any order; a restart may come at any time.
pub data Happening : Type 0 where
  takes : Happening
  acknowledges : ℕ → Happening
  raises_floor : ℕ → ℕ → Happening
  restarts : Happening

-- Each number is at least the one asked for, and greater than all before it.
abbrev pub Ascending : ℕ → List ℕ → Type 0
Ascending h [] = Unit
Ascending h (n ∷ ns) = (h ≤ n) × Ascending (suc n) ns

-- The sequence of a successful request.
abbrev pub handed : EspErr → Option ℕ → Option ℕ
handed error sequence = if is_ok error then sequence else none

abbrev pub with_handed : Option ℕ → List ℕ → List ℕ
with_handed none rest = rest
with_handed (some n) rest = n ∷ rest

module _ {S : Type 0} (slot_bytes : SequenceState → List ℕ) (slot_size : ℕ)
    (nvs : Nvs S SequenceSlot) (restart : S → S) where
  -- The sequences that are handed out, from a state that runs, if any, and a flash store.
  unfoldable pub handed_out : List Happening → Option SequenceState → S → List ℕ
  handed_out [] state store = []
  handed_out (restarts ∷ more) state store =
      let (error, st, store1) =
        sequence_load slot_bytes slot_size nvs initial_state (restart store) in
      handed_out more (if is_ok error then some st else none) store1
  handed_out (takes ∷ more) none store = handed_out more none store
  handed_out (takes ∷ more) (some st) store =
      let (error, st1, sequence, store1) = sequence_next slot_bytes slot_size nvs st store in
      with_handed (handed error sequence) (handed_out more (some st1) store1)
  handed_out (acknowledges n ∷ more) none store = handed_out more none store
  handed_out (acknowledges n ∷ more) (some st) store =
      let (error, st1, store1) = sequence_acknowledge slot_bytes slot_size nvs st n store in
      handed_out more (some st1) store1
  handed_out (raises_floor n g ∷ more) none store = handed_out more none store
  handed_out (raises_floor n g ∷ more) (some st) store =
      let (error, st1, store1) = sequence_raise_floor slot_bytes slot_size nvs st n g store in
      handed_out more (some st1) store1

nothing_handed :
    (error : EspErr) (sequence : Option ℕ)
    → ((n : ℕ) → error ≡ ok → sequence ≢ some n)
    → handed error sequence ≡ none
nothing_handed error none h = ground arith
nothing_handed error (some n) h = elim (Bool-cases (is_ok error)) [
  | inl good ↦ absurd (h n (is_ok-ok error good) refl)
  | inr bad ↦ rw bad refl
]

module _ {S : Type 0} (slot_bytes : SequenceState → List ℕ) (slot_size : ℕ)
    (nvs : Nvs S SequenceSlot) {restart : S → S} (flash : IsFlash slot_size nvs restart) where
  abbrev Safe : ℕ → Option SequenceState → S → Type 0
  Safe h none s = Floor slot_size nvs flash h s
  Safe h (some st) s = Running slot_bytes slot_size nvs flash h st s

  Safe-Floor :
      (h : ℕ) (m : Option SequenceState) (s : S) → Safe h m s → Floor slot_size nvs flash h s
  Safe-Floor h none s safe = safe
  Safe-Floor h (some st) s (floor, _, _, _) = floor

  Started-Safe :
      (h : ℕ) (r : EspErr × SequenceState × S)
      → Started slot_bytes slot_size nvs flash h r
      → Safe h (if is_ok r.0 then some r.1 else none) r.2
  Started-Safe h r (inl (bad, floor)) = rw bad floor
  Started-Safe h r (inr (good, running)) = rw good running

  pub handed_out-Ascending :
      (h : ℕ) (events : List Happening) (m : Option SequenceState) (s : S)
      → Safe h m s
      → Ascending h (handed_out slot_bytes slot_size nvs restart events m s)
  unfolding handed_out
  handed_out-Ascending h [] m s safe = tt
  handed_out-Ascending h (restarts ∷ more) m s safe =
      let started =
        load-Started slot_bytes slot_size nvs flash h initial_state (restart s)
          (λ j. flash.restart-stored s j ∙ sym (flash.restart-held s j))
          (λ v finds. Safe-Floor h m s safe v (restart_NoMore slot_size nvs flash s v finds)) in
      let r = sequence_load slot_bytes slot_size nvs initial_state (restart s) in
      handed_out-Ascending h more (if is_ok r.0 then some r.1 else none) r.2
        (Started-Safe h r started)
  handed_out-Ascending h (takes ∷ more) none s safe = handed_out-Ascending h more none s safe
  handed_out-Ascending h (takes ∷ more) (some st) s safe =
      let r = sequence_next slot_bytes slot_size nvs st s in
      elim (sequence_next-HandsOut slot_bytes slot_size nvs flash h st s safe) [
        | inl (nothing, running) ↦
            rw (nothing_handed r.0 r.2 nothing) (handed_out-Ascending h more (some r.1) r.3 running)
        | inr (n, good, given, le, running) ↦
            rw (good, given) (le, handed_out-Ascending (suc n) more (some r.1) r.3 running)
      ]
  handed_out-Ascending h (acknowledges n ∷ more) none s safe =
      handed_out-Ascending h more none s safe
  handed_out-Ascending h (acknowledges n ∷ more) (some st) s safe =
      let r = sequence_acknowledge slot_bytes slot_size nvs st n s in
      handed_out-Ascending h more (some r.1) r.2
        (sequence_acknowledge-Running slot_bytes slot_size nvs flash h st n s safe)
  handed_out-Ascending h (raises_floor n g ∷ more) none s safe =
      handed_out-Ascending h more none s safe
  handed_out-Ascending h (raises_floor n g ∷ more) (some st) s safe =
      let r = sequence_raise_floor slot_bytes slot_size nvs st n g s in
      handed_out-Ascending h more (some r.1) r.2
        (sequence_raise_floor-Running slot_bytes slot_size nvs flash h st n g s safe)

  -- No sequence is handed out twice. Whatever is asked of the store, whenever the sensor restarts, and
  -- whatever the flash store's operations answer as far as it keeps to its documentation, by which a
  -- restart may lose what was not committed: each sequence that is handed out is greater than all
  -- before it. The flash store may hold anything at first.
  pub sequences_ascend :
      (events : List Happening) (s : S)
      → Ascending 0 (handed_out slot_bytes slot_size nvs restart events none s)
  sequences_ascend events s = handed_out-Ascending 0 events none s (λ v finds st loads. omega arith)
