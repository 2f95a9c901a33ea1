-- ===== src/Machine/Traces.antt =====
-- What a machine that was fed any events has seen.
use mathlib.Core.Path.{subst}
use power_monitor_sensor_hea.Base.{◌≡◌, refl, sym, ◌⊎◌, inl, inr, Bool-cases, List, [], ◌∷◌}
use power_monitor_sensor_hea.Base.Int.{ℤ}
use power_monitor_sensor_hea.Machine.{
  State, Event, Machine, ota_pending, ota_installing, ota_available, ota_started, ota_finished,
  transition, init, run,
}
use power_monitor_sensor_hea.Machine.Edges.{
  Edge, install, installed, offer, restart, transition-Edge, transition_bookkeeping,
}

-- The first list stands in the second, in order, perhaps with other events between.
pub data Seen : List Event → List (Event × ℤ) → Type 0 where
  done : {es : List (Event × ℤ)} → Seen [] es
  match :
      {k : Event} {ks : List Event} {now : ℤ} {es : List (Event × ℤ)}
      → Seen ks es
      → Seen (k ∷ ks) ((k, now) ∷ es)
  skip : {ks : List Event} {p : Event × ℤ} {es : List (Event × ℤ)} → Seen ks es → Seen ks (p ∷ es)

Seen-tail : {k : Event} {ks : List Event} (es : List (Event × ℤ)) → Seen (k ∷ ks) es → Seen ks es
Seen-tail [] h = elim h [ ]
Seen-tail (p ∷ es) (match s) = skip s
Seen-tail (p ∷ es) (skip s) = skip (Seen-tail es s)

-- The events of an update that are still to come before it ends in a reboot.
abbrev update_steps : State → List Event
update_steps State.safe_reboot = []
update_steps ota_installing = ota_finished ∷ []
update_steps ota_pending = ota_started ∷ ota_finished ∷ []
update_steps _ = ota_available ∷ ota_started ∷ ota_finished ∷ []

-- Who has seen a whole update has seen what is left of one.
Seen-update_steps :
    (s : State) (es : List (Event × ℤ))
    → Seen (ota_available ∷ ota_started ∷ ota_finished ∷ []) es
    → Seen (update_steps s) es
Seen-update_steps State.safe_reboot es h = done
Seen-update_steps ota_installing es h = Seen-tail es (Seen-tail es h)
Seen-update_steps ota_pending es h = Seen-tail es h
Seen-update_steps _ es h = h

Edge-Seen :
    {s t : State} {e : Event} (now : ℤ) (es : List (Event × ℤ))
    → Edge s e t
    → Seen (update_steps t) es
    → (e ≡ Event.safe_reboot) ⊎ Seen (update_steps s) ((e, now) ∷ es)
Edge-Seen now es install h = inr (match h)
Edge-Seen now es installed h = inr (match h)
Edge-Seen now es (offer {s = s}) h = inr (Seen-update_steps s _ (match h))
Edge-Seen now es restart h = inl refl
Edge-Seen {s} now es _ h = inr (Seen-update_steps s _ (skip h))

abbrev Rebooted : State → List (Event × ℤ) → Type 0
Rebooted s es = Seen (Event.safe_reboot ∷ []) es ⊎ Seen (update_steps s) es

step-Rebooted :
    (m : Machine) (e : Event) (now : ℤ) (es : List (Event × ℤ))
    → Rebooted (transition m e now).0.state es
    → Rebooted m.state ((e, now) ∷ es)
step-Rebooted m e now es (inl h) = inl (skip h)
step-Rebooted m e now es (inr h) = elim (Bool-cases (transition m e now).1) [
  | inl taken ↦ elim (Edge-Seen now es (transition-Edge m e now taken) h) [
    | inl q ↦ inl (subst (λ k. Seen (Event.safe_reboot ∷ []) ((k, now) ∷ es)) (sym q) (match done))
    | inr s ↦ inr s
  ]
  | inr refused ↦
      let same : (transition m e now).0 ≡ m = (transition_bookkeeping m e now).0 refused in
      inr (skip (subst (λ x. Seen (update_steps x.state) es) same h))
]

run-Rebooted :
    (m : Machine) (es : List (Event × ℤ))
    → (run m es).state ≡ State.safe_reboot
    → Rebooted m.state es
unfolding run
run-Rebooted m [] h = inr (subst (λ s. Seen (update_steps s) []) (sym h) done)
run-Rebooted m ((e, now) ∷ es) h =
    step-Rebooted m e now es (run-Rebooted (transition m e now).0 es h)

-- A machine that was booted and is now in a safe reboot was told to reboot, or it saw an update
-- announced, then started, then finished, in this order.
pub reboot_needs_update :
    (t : ℤ) (es : List (Event × ℤ))
    → (run (init t) es).state ≡ State.safe_reboot
    → Seen (Event.safe_reboot ∷ []) es ⊎ Seen (ota_available ∷ ota_started ∷ ota_finished ∷ []) es
unfolding init
reboot_needs_update t es h = run-Rebooted (init t) es h
