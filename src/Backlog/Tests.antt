-- ===== src/Backlog/Tests.antt =====
-- Runs of the batch policy, and its theorems at concrete inputs.
use power_monitor_sensor_hea.Base.{ℕ, ◌+◌, ◌*◌, ◌≤◌, ◌<◌, ◌≡◌, refl, ◌⊎◌, arith, true, false, ◌&&◌}
use power_monitor_sensor_hea.Backlog.{
  ProbeStatus, probe_ok, Plan, prefix_none, prefix_confirmed, prefix_not_confirmed, no_prefix,
  bounded_record_limit, shrink, select_largest_fitting, detect_missing_prefix,
}
use power_monitor_sensor_hea.Backlog.Selection.{
  Outcome, most_records, select_largest_fitting-Outcome,
}
use power_monitor_sensor_hea.Backlog.Prefix.{detect_missing_prefix_cases}

-- A serializer that takes 100 bytes for each record.
abbrev hundred_each : ℕ → ProbeStatus × ℕ
hundred_each k = (probe_ok, k * 100)

abbrev blank_plan : Plan
blank_plan = record {
  configured_max_records = 0;
  available_records = 0;
  candidate_records = 0;
  selected_records = 0;
  serialized_bytes = 0;
  body_capacity = 0;
  reduced = false;
}

-- Of twelve records, at most ten, four fit below 450 bytes.
four_fit : (select_largest_fitting 12 20 10 450 hundred_each blank_plan).0.selected_records ≡ 4
unfolding select_largest_fitting shrink bounded_record_limit
four_fit = refl

select_largest_fitting-Outcome_example :
    let (plan, status) = select_largest_fitting 12 20 10 450 hundred_each blank_plan in
    Outcome hundred_each 450 (most_records 12 20 10) plan status
    × (plan.candidate_records ≡ most_records 12 20 10)
    × (plan.body_capacity ≡ 450)
select_largest_fitting-Outcome_example =
    select_largest_fitting-Outcome 12 20 10 450 hundred_each blank_plan (omega arith) (omega arith)
      (omega arith)

detect_missing_prefix_cases_example :
    let (prefix, status) = detect_missing_prefix 7 true true 12 in
    ((status ≡ prefix_none) × (prefix ≡ no_prefix) × (12 ≤ 7 + 1))
    ⊎ ((status ≡ prefix_not_confirmed)
        × (prefix ≡ no_prefix)
        × (7 + 1 < 12)
        × (true && true ≡ false))
    ⊎ ((status ≡ prefix_confirmed)
        × (7 + 1 < 12)
        × (true && true ≡ true)
        × (prefix.first_sequence ≡ 7 + 1)
        × (prefix.last_sequence + 1 ≡ 12)
        × (7 + prefix.count + 1 ≡ 12))
detect_missing_prefix_cases_example =
    detect_missing_prefix_cases 7 12 true true (omega arith) (omega arith)
