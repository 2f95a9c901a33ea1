-- ===== src/Telemetry/Deadline.antt =====
-- The schedule of a fixed period.
use native.Mathlib.Nat.{div-add-mod}
use native.Mathlib.Decide.{dec_lt}
use power_monitor_sensor_hea.Base.{
  ℕ, ◌+◌, ◌-◌, ◌*◌, ◌/◌, ◌≤◌, ◌<◌, ◌≡◌, arith, int64_max, inl, inr, ◌⊎◌, ◌∙◌, ltb, if◌then◌else◌,
  Bool-cases,
}
use power_monitor_sensor_hea.Base.Int.{pos}
use power_monitor_sensor_hea.Telemetry.{next_fixed_deadline}

lt_of_div-lt : (a n m : ℕ) → a / n < m → 0 < n → a < m * n
lt_of_div-lt a n m h p = grind (arith, div-add-mod a n)

le_of_le-div : (a n m : ℕ) → m ≤ a / n → m * n ≤ a
le_of_le-div a n m h = grind (arith, div-add-mod a n)

grid_after :
    (e period : ℕ)
    → 0 < period
    → (e < (e / period + 1) * period) × ((e / period + 1) * period ≤ e + period)
grid_after e period h =
    let upper = lt_of_div-lt e period (e / period + 1) (omega arith) h in
    let lower = le_of_le-div e period (e / period) (omega arith) in (upper, omega arith)

next_fixed_deadline_late :
    (previous now period : ℕ)
    → 0 < period
    → previous ≤ now
    → let k = (now - previous) / period + 1 in
      next_fixed_deadline (pos previous) (pos now) (pos period) ≡ (
        if ltb ((int64_max - previous) / period) k
        then pos int64_max
        else pos (previous + k * period))
unfolding next_fixed_deadline
next_fixed_deadline_late previous now period hp h = ground arith

-- From a deadline that is still ahead nothing is skipped. From one that has passed, the next is the
-- first one of its grid that is later than now, or the greatest int64_t where that does not fit.
pub next_fixed_deadline_grid :
    (previous now period : ℕ)
    → 0 < period
    → now ≤ int64_max
    → (now < previous × (next_fixed_deadline (pos previous) (pos now) (pos period) ≡ pos previous))
      ⊎ ((k : ℕ) × (previous ≤ now)
          × (now < previous + k * period)
          × (previous + k * period ≤ now + period)
          × ((previous + k * period ≤ int64_max
                × (next_fixed_deadline (pos previous) (pos now) (pos period)
                    ≡ pos (previous + k * period)))
              ⊎ (int64_max < previous + k * period
                  × (next_fixed_deadline (pos previous) (pos now) (pos period) ≡ pos int64_max))))
next_fixed_deadline_grid previous now period hp hn =
    let k = (now - previous) / period + 1 in
    let on_grid = grid_after (now - previous) period hp in
    elim (dec_lt now previous) [
      | yes ahead ↦ inl (ahead, unfold next_fixed_deadline in ground arith)
      | no passed ↦
          let late = next_fixed_deadline_late previous now period hp (omega arith) in
          inr (
            k,
            omega arith,
            omega arith,
            omega arith,
            elim (Bool-cases (ltb ((int64_max - previous) / period) k)) [
              | inl full ↦ inr (
                let far = lt_of_div-lt (int64_max - previous) period k (ground arith) hp in
                    omega arith,
                late ∙ rw full,
              )
              | inr fits ↦ inl (
                let near = le_of_le-div (int64_max - previous) period k (ground arith) in
                    omega arith,
                late ∙ rw fits,
              )
            ],
          )
    ]
