-- ===== src/TrustedTime/Monotone.antt =====
-- The clock never runs backwards.
use power_monitor_sensor_hea.Base.{
  ℕ, ◌≡◌, refl, subst, ◌∙◌, arith, Bool, true, false, not, ◌||◌, if◌then◌else◌, Option, none, some,
  List, [], ◌∷◌,
}
use power_monitor_sensor_hea.Base.Int.{ℤ, ◌≤ℤ◌, ltb_ℤ}
use power_monitor_sensor_hea.Base.Esp.{EspErr, invalid_arg, invalid_state}
use power_monitor_sensor_hea.TrustedTime.{
  TimeState, projected, refused, steps_back, observed_state, time_observe, time_now,
}

-- What the clients ask, in any order.
pub data Call : Type 0 where
  observed : ℕ → ℤ → ℤ → EspErr → Call
  asked : ℤ → Call

abbrev pub step : TimeState → Call → TimeState
step state (observed source utc_ms monotonic_us persisted) =
    (time_observe state source utc_ms monotonic_us persisted).0
step state (asked monotonic_us) = (time_now state monotonic_us).0

abbrev pub steps : TimeState → List Call → TimeState
steps state [] = state
steps state (c ∷ cs) = steps (step state c) cs

later_of : (a b : ℤ) → a ≤ℤ (if ltb_ℤ a b then b else a)
later_of a b = ground arith

later_of_other : (a b : ℤ) → a ≤ℤ (if ltb_ℤ b a then a else b)
later_of_other a b = ground arith

≤ℤ_refl : (a : ℤ) → a ≤ℤ a
≤ℤ_refl a = omega arith

≤ℤ_trans : (a b c : ℤ) → a ≤ℤ b → b ≤ℤ c → a ≤ℤ c
≤ℤ_trans a b c h k = omega arith

either_branch :
    {A : Type 0} (P : A → Type 0) (b : Bool) (x y : A) → P x → P y → P (if b then x else y)
either_branch P true x y hx hy = hx
either_branch P false x y hx hy = hy

time_now-le :
    (state : TimeState) (m : ℤ)
    → state.last_returned_utc_ms ≤ℤ (time_now state m).0.last_returned_utc_ms
unfolding time_now
time_now-le state m =
    either_branch
      (λ (r : TimeState × Option ℤ). state.last_returned_utc_ms ≤ℤ r.0.last_returned_utc_ms)
      (not state.trusted || ltb_ℤ m state.monotonic_checkpoint_us) _ _
      (≤ℤ_refl state.last_returned_utc_ms)
      (later_of_other state.last_returned_utc_ms (projected state m))

time_observe-le :
    (state : TimeState) (source : ℕ) (utc m : ℤ) (e : EspErr)
    → state.last_returned_utc_ms ≤ℤ (time_observe state source utc m e).0.last_returned_utc_ms
unfolding time_observe
time_observe-le state source utc m e =
    either_branch
      (λ (r : TimeState × EspErr × Option ℤ).
        state.last_returned_utc_ms ≤ℤ r.0.last_returned_utc_ms)
      (refused source utc) (state, invalid_arg, none)
      (if steps_back state utc m
        then (state, invalid_state, none)
        else observed_state state source utc m e)
      (≤ℤ_refl state.last_returned_utc_ms)
      (either_branch
        (λ (r : TimeState × EspErr × Option ℤ).
          state.last_returned_utc_ms ≤ℤ r.0.last_returned_utc_ms)
        (steps_back state utc m) (state, invalid_state, none) (observed_state state source utc m e)
        (≤ℤ_refl state.last_returned_utc_ms) (later_of state.last_returned_utc_ms utc))

step-le :
    (state : TimeState) (c : Call)
    → state.last_returned_utc_ms ≤ℤ (step state c).last_returned_utc_ms
step-le state (observed source utc_ms monotonic_us persisted) =
    time_observe-le state source utc_ms monotonic_us persisted
step-le state (asked monotonic_us) = time_now-le state monotonic_us

steps-le :
    (state : TimeState) (cs : List Call)
    → state.last_returned_utc_ms ≤ℤ (steps state cs).last_returned_utc_ms
steps-le state [] = ≤ℤ_refl state.last_returned_utc_ms
steps-le state (c ∷ cs) =
    ≤ℤ_trans state.last_returned_utc_ms (step state c).last_returned_utc_ms
      (steps (step state c) cs).last_returned_utc_ms (step-le state c) (steps-le (step state c) cs)

abbrev guarded : Bool → TimeState → TimeState → ℤ → TimeState × Option ℤ
guarded b old new r = if b then (old, none) else (new, some r)

-- A time that is returned is the one that is remembered, and is not before what was remembered.
returned-le :
    (state : TimeState) (m t : ℤ)
    → (time_now state m).1 ≡ some t
    → ((time_now state m).0.last_returned_utc_ms ≡ t) × (state.last_returned_utc_ms ≤ℤ t)
unfolding time_now
returned-le state m t h =
    let time = projected state m in
    let returned =
      if ltb_ℤ time state.last_returned_utc_ms then state.last_returned_utc_ms else time in
    by_guard (not state.trusted || ltb_ℤ m state.monotonic_checkpoint_us) state
      (record state { last_returned_utc_ms = returned }) returned t refl
      (later_of_other state.last_returned_utc_ms time) h
  where
    by_guard :
        (b : Bool) (old new : TimeState) (r t : ℤ)
        → new.last_returned_utc_ms ≡ r
        → old.last_returned_utc_ms ≤ℤ r
        → (guarded b old new r).1 ≡ some t
        → ((guarded b old new r).0.last_returned_utc_ms ≡ t) × (old.last_returned_utc_ms ≤ℤ t)
    by_guard true old new r t e le h = cc
    by_guard false old new r t e le h =
        let same : r ≡ t = cc in
        (e ∙ same, subst (λ (x : ℤ). old.last_returned_utc_ms ≤ℤ x) same le)

-- Whatever the clients of the clock observe and ask in between, also when the flash store fails, a
-- time that is returned later is never before one that was returned earlier.
pub time_now-le-time_now :
    (state : TimeState) (m m2 t t2 : ℤ) (between : List Call)
    → (time_now state m).1 ≡ some t
    → (time_now (steps (time_now state m).0 between) m2).1 ≡ some t2
    → t ≤ℤ t2
time_now-le-time_now state m m2 t t2 between h k =
    let (remembered, _) = returned-le state m t h in
    let grown = steps-le (time_now state m).0 between in
    let (_, later) = returned-le (steps (time_now state m).0 between) m2 t2 k in
    ≤ℤ_trans t (steps (time_now state m).0 between).last_returned_utc_ms t2
      (subst (λ (x : ℤ). x ≤ℤ (steps (time_now state m).0 between).last_returned_utc_ms) remembered
        grown)
      later
