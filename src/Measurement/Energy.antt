-- ===== src/Measurement/Energy.antt =====
-- The energy of an interval.
use power_monitor_sensor_hea.Base.{
  ℕ, ◌+◌, ◌-◌, ◌*◌, ◌%◌, ◌^◌, ◌≤◌, ◌<◌, ◌≡◌, refl, arith, ◌&&◌, leb, ltb, Bool-cases, inl, inr, ◌⊎◌,
  IsU32,
}
use power_monitor_sensor_hea.Base.Int.{◌<ℤ◌, ltb_ℤ}
use power_monitor_sensor_hea.Measurement.{
  Accumulator, DurableInterval, energy_none, pzem_delta, averaged, select_energy,
}

-- The energy that the meter's 32-bit counter has counted from the first to the last frame, if it
-- rose or if it went over its end.
abbrev pub Counted : ℕ → ℕ → ℕ → Type 0
Counted first last mwh =
    ((first ≤ last) × (mwh ≡ (last - first) * 1000))
    ⊎ ((0xF0000000 < first) × (last < 0x0FFFFFFF) × (mwh ≡ (2 ^ 32 + last - first) * 1000))

-- Two frames at different times.
abbrev pub HasBoundary : Accumulator → Type 0
HasBoundary a =
    (2 ≤ a.valid_samples) × (a.interval_start_monotonic_us <ℤ a.last_sample_monotonic_us)

abbrev pub Measured : Accumulator → ℕ → DurableInterval → Type 0
Measured a maximum i =
    (i.selected_energy_source ≡ pzem_delta)
    × HasBoundary a
    × Counted a.first_energy_wh a.last_energy_wh i.selected_energy_mwh
    × (i.selected_energy_mwh ≤ maximum)

abbrev pub Unmeasured : Accumulator → ℕ → DurableInterval → Type 0
Unmeasured a maximum i =
    (i.selected_energy_source ≡ energy_none)
    × (i.selected_energy_mwh ≡ 0)
    × (HasBoundary a → (mwh : ℕ) → Counted a.first_energy_wh a.last_energy_wh mwh → maximum < mwh)

-- The selection, from an interval that carries no energy yet.
select_energy_cases :
    (a : Accumulator) (i : DurableInterval) (maximum : ℕ)
    → i.selected_energy_source ≡ energy_none
    → i.selected_energy_mwh ≡ 0
    → IsU32 a.first_energy_wh
    → IsU32 a.last_energy_wh
    → Measured a maximum (select_energy a i maximum)
      ⊎ Unmeasured a maximum (select_energy a i maximum)
unfolding select_energy
select_energy_cases a i maximum none_yet zero_yet hf hl =
    let first = a.first_energy_wh in
    let last = a.last_energy_wh in
    elim (Bool-cases
      (leb 2 a.valid_samples && ltb_ℤ a.interval_start_monotonic_us a.last_sample_monotonic_us)) [
        | inr e ↦ rw e (inr (none_yet, zero_yet, λ b mwh c. absurd (ground arith)))
        | inl bound ↦ elim (Bool-cases (leb a.first_energy_wh a.last_energy_wh)) [
          | inl rose ↦
              rw (bound, rose)
                (let d = (a.last_energy_wh - a.first_energy_wh) * 1000 in
                  let exact : d % 2 ^ 64 ≡ d = omega arith in
                  rw exact (elim (Bool-cases (leb d maximum)) [
                    | inl ok ↦ rw ok (
                        inl (
                          refl,
                          (ground arith, ground arith),
                          inl (ground arith, refl),
                          ground arith,
                        ))
                    | inr big ↦ rw big (inr (none_yet, zero_yet, λ b mwh c. ground arith))
                  ]))
          | inr fell ↦
              elim (Bool-cases
                (ltb 0xF0000000 a.first_energy_wh && ltb a.last_energy_wh 0x0FFFFFFF)) [
                  | inr reset ↦
                      rw (bound, fell, reset) (inr (none_yet, zero_yet, λ b mwh c. ground arith))
                  | inl over ↦
                      rw (bound, fell, over)
                        (let d = 2 ^ 32 + last - first in
                          let low : (2 ^ 32 + 2 ^ 64 - first + last) % 2 ^ 64 ≡ d = ground arith in
                          let exact : d * 1000 % 2 ^ 64 ≡ d * 1000 = ground arith in
                          rw (low, exact)
                            (elim (Bool-cases (leb (d * 1000) maximum)) [
                              | inl ok ↦ rw ok (
                                  inl (
                                    refl,
                                    (ground arith, ground arith),
                                    inr (ground arith, ground arith, refl),
                                    ground arith,
                                  ))
                              | inr big ↦ rw big (inr (none_yet, zero_yet, λ b mwh c. ground arith))
                            ]))
                ]
        ]
      ]

-- An interval carries energy exactly if two frames at different times bound it and the energy that
-- the counter counted between them is plausible; then it is that energy. Otherwise it is zero and
-- is marked as no measurement. The integral of the power is never selected.
pub select_energy_sound :
    (a : Accumulator) (maximum : ℕ)
    → IsU32 a.first_energy_wh
    → IsU32 a.last_energy_wh
    → let i = select_energy a (averaged a) maximum in Measured a maximum i ⊎ Unmeasured a maximum i
unfolding averaged
select_energy_sound a maximum hf hl = select_energy_cases a (averaged a) maximum refl refl hf hl
