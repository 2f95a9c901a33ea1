-- ===== src/Backlog/Selection.antt =====
-- The batch that is selected is the largest that fits.
use Prim.Native.Nat.{min, max}
use mathlib.Core.Path.{subst}
use native.Mathlib.Decide.{dec_le}
use power_monitor_sensor_hea.Base.{
  ℕ, zero, suc, ◌≤◌, ◌<◌, ◌≡◌, ◌≢◌, refl, arith, false, ltb, ◌==◌, ◌||◌, if◌then◌else◌, inl, inr,
  ◌⊎◌,
}
use power_monitor_sensor_hea.Backlog.{
  ProbeStatus, probe_ok, probe_failed, PlanStatus, plan_ok, single_record_too_large,
  serialization_failed, Plan, bounded_record_limit, shrink, select_largest_fitting,
}

module _ (probe : ℕ → ProbeStatus × ℕ) (capacity : ℕ) where
  -- A number of records whose serialization fits, and one that is passed over.
  abbrev pub Fits : ℕ → Type 0
  Fits k = ((probe k).0 ≡ probe_ok) × ((probe k).1 < capacity)

  abbrev pub PassedOver : ℕ → Type 0
  PassedOver k = ((probe k).0 ≢ probe_failed) × (¬ Fits k)

  -- What a search from `most` records down may end in.
  pub data Outcome (most : ℕ) (plan : Plan) : PlanStatus → Type 0 where
    selected :
        0 < plan.selected_records
        → plan.selected_records ≤ most
        → Fits plan.selected_records
        → plan.serialized_bytes ≡ (probe plan.selected_records).1
        → ((k : ℕ) → plan.selected_records < k → k ≤ most → PassedOver k)
        → Outcome most plan plan_ok
    too_large :
        plan.selected_records ≡ 0
        → ((k : ℕ) → 0 < k → k ≤ most → PassedOver k)
        → Outcome most plan single_record_too_large
    failed :
        (at : ℕ)
        → 0 < at
        → at ≤ most
        → (probe at).0 ≡ probe_failed
        → plan.selected_records ≡ 0
        → ((k : ℕ) → at < k → k ≤ most → PassedOver k)
        → Outcome most plan serialization_failed

  -- One candidate more, which is passed over.
  one_more :
      (n : ℕ) (plan : Plan) (status : PlanStatus)
      → PassedOver (suc n)
      → Outcome n plan status
      → Outcome (suc n) plan status
  one_more n plan _ over (selected p l f b above) = selected p (omega arith) f b (λ k lo hi.
      elim (dec_le k n) [ yes h ↦ above k lo h | no h ↦ subst PassedOver (omega arith) over ])
  one_more n plan _ over (too_large z above) = too_large z (λ k lo hi. elim (dec_le k n) [
    | yes h ↦ above k lo h
    | no h ↦ subst PassedOver (omega arith) over
  ])
  one_more n plan _ over (failed at p l f z above) = failed at p (omega arith) f z (λ k lo hi.
      elim (dec_le k n) [ yes h ↦ above k lo h | no h ↦ subst PassedOver (omega arith) over ])

  shrink_step :
      (n : ℕ) (plan : Plan)
      → plan.body_capacity ≡ capacity
      → plan.selected_records ≡ 0
      → ((Fits (suc n))
          × (shrink probe (suc n) plan ≡ (
            record plan {
              selected_records = suc n;
              serialized_bytes = (probe (suc n)).1;
              reduced = ltb (suc n) plan.candidate_records;
            },
            plan_ok,
          )))
        ⊎ (((probe (suc n)).0 ≡ probe_failed)
            × (shrink probe (suc n) plan ≡ (plan, serialization_failed)))
        ⊎ (PassedOver (suc n)
            × (shrink probe (suc n) plan
                ≡ shrink probe n (record plan { serialized_bytes = (probe (suc n)).1 })))
  unfolding shrink
  shrink_step n plan c z = ground arith

  shrink-Outcome :
      (n : ℕ) (plan : Plan)
      → plan.body_capacity ≡ capacity
      → plan.selected_records ≡ 0
      → Outcome n (shrink probe n plan).0 (shrink probe n plan).1
  shrink-Outcome zero plan c z = unfold shrink in too_large z (λ k lo hi. absurd (omega arith))
  shrink-Outcome (suc n) plan c z = elim (shrink_step n plan c z) [
    | inl (fits, e) ↦
        rw e (selected (omega arith) (omega arith) fits refl (λ k lo hi. absurd (omega arith)))
    | inr (inl (bad, e)) ↦
        rw e (failed (suc n) (omega arith) (omega arith) bad z (λ k lo hi. absurd (omega arith)))
    | inr (inr (over, e)) ↦ rw e (
        one_more n _ _ over
          (shrink-Outcome n (record plan { serialized_bytes = (probe (suc n)).1 }) c z))
  ]

  shrink_keeps :
      (n : ℕ) (plan : Plan)
      → let p = (shrink probe n plan).0 in
        (p.candidate_records ≡ plan.candidate_records)
        × (p.available_records ≡ plan.available_records)
        × (p.configured_max_records ≡ plan.configured_max_records)
        × (p.body_capacity ≡ plan.body_capacity)
  unfolding shrink
  shrink_keeps zero plan = (refl, refl, refl, refl)
  shrink_keeps (suc n) plan =
      ground (arith, shrink_keeps n (record plan { serialized_bytes = (probe (suc n)).1 }))

-- The most records that a batch may have: those that there are, at least one and at most as many as
-- the hard limit where the configuration allows none or too many.
abbrev pub most_records : ℕ → ℕ → ℕ → ℕ
most_records available configured hard_limit = min available (min (max 1 configured) hard_limit)

candidate_most :
    (available configured hard_limit : ℕ)
    → 0 < hard_limit
    → (if ltb available (bounded_record_limit configured hard_limit)
        then available
        else bounded_record_limit configured hard_limit)
      ≡ most_records available configured hard_limit
unfolding bounded_record_limit
candidate_most available configured hard_limit h = ground arith

-- With a usable buffer and records at hand the search always ends in one of three ways: the largest
-- number of records that fits is selected, with its size; or not even one record fits; or the
-- serializer failed before a number that fits was found, and nothing is selected.
pub select_largest_fitting-Outcome :
    (available configured hard_limit capacity : ℕ) (probe : ℕ → ProbeStatus × ℕ) (old : Plan)
    → 0 < hard_limit
    → 2 ≤ capacity
    → 0 < available
    → let most = most_records available configured hard_limit in
      let (plan, status) =
        select_largest_fitting available configured hard_limit capacity probe old in
      Outcome probe capacity most plan status
      × (plan.candidate_records ≡ most)
      × (plan.body_capacity ≡ capacity)
unfolding select_largest_fitting
select_largest_fitting-Outcome available configured hard_limit capacity probe old hh hc ha =
    let usable : hard_limit == 0 || ltb capacity 2 ≡ false = ground arith in
    let records : available == 0 ≡ false = ground arith in
    let start : Plan = record {
      configured_max_records = configured;
      available_records = available;
      candidate_records = most_records available configured hard_limit;
      selected_records = 0;
      serialized_bytes = 0;
      body_capacity = capacity;
      reduced = false;
    } in
    let kept = shrink_keeps probe capacity (most_records available configured hard_limit) start in
    rw (usable, records, candidate_most available configured hard_limit hh)
      (shrink-Outcome probe capacity _ start refl refl, kept.0, kept.3)
