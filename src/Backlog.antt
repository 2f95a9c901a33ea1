-- ===== src/Backlog.antt =====
-- The choice of a batch of records and the search for a lost prefix:
-- components/pm_network/pm_backlog_policy.c and include/pm_backlog_policy.h.
-- A size_t is a number. `plan` and `prefix` are never NULL, nor is `probe`. The probe is the
-- caller's serializer, with its context: a function from the number of records to its status and to
-- the bytes that it reports, so asked again for one number it answers the same.
pub mod Selection
pub mod Prefix
mod Tests
use power_monitor_sensor_hea.Base.{
  ℕ, zero, suc, ◌+◌, ◌-◌, ◌%◌, ◌^◌, Bool, true, false, not, ◌&&◌, ◌||◌, ◌==◌, ltb, leb,
  if◌then◌else◌, uint64_max,
}

-- pm_backlog_probe_status_t
pub data ProbeStatus : Type 0 where
  probe_ok probe_too_large probe_failed : ProbeStatus

-- pm_backlog_plan_status_t
pub data PlanStatus : Type 0 where
  plan_ok plan_empty single_record_too_large serialization_failed invalid_argument : PlanStatus

-- pm_missing_prefix_status_t; its status for an invalid argument is for a NULL pointer alone.
pub data MissingPrefixStatus : Type 0 where
  prefix_none prefix_confirmed prefix_not_confirmed : MissingPrefixStatus

-- pm_backlog_plan_t
pub record Plan : Type 0 where
  pub configured_max_records : ℕ
  pub available_records : ℕ
  pub candidate_records : ℕ
  pub selected_records : ℕ
  pub serialized_bytes : ℕ
  pub body_capacity : ℕ
  pub reduced : Bool

-- pm_missing_prefix_t
pub record MissingPrefix : Type 0 where
  pub first_sequence : ℕ
  pub last_sequence : ℕ
  pub count : ℕ

unfoldable pub bounded_record_limit : ℕ → ℕ → ℕ
bounded_record_limit configured_max_records hard_record_limit =
    if hard_record_limit == 0
    then 0
    else if configured_max_records == 0
    then 1
    else if ltb hard_record_limit configured_max_records
    then hard_record_limit
    else configured_max_records

-- The loop, from a candidate down to 1.
unfoldable pub shrink : (ℕ → ProbeStatus × ℕ) → ℕ → Plan → Plan × PlanStatus
shrink probe zero plan =
    (record plan { reduced = ltb 1 plan.candidate_records }, single_record_too_large)
shrink probe (suc smaller) plan =
    let (status, bytes) = probe (suc smaller) in
    let rest = shrink probe smaller (record plan { serialized_bytes = bytes }) in
    elim status [
      | probe_failed ↦ (plan, serialization_failed)
      | probe_ok ↦
          if ltb bytes plan.body_capacity
          then (
            record plan {
              selected_records = suc smaller;
              serialized_bytes = bytes;
              reduced = ltb (suc smaller) plan.candidate_records;
            },
            plan_ok,
          )
          else rest
      | probe_too_large ↦ rest
    ]

-- The plan that the code leaves is the caller's if an argument is invalid.
unfoldable pub select_largest_fitting :
    ℕ → ℕ → ℕ → ℕ → (ℕ → ProbeStatus × ℕ) → Plan → Plan × PlanStatus
select_largest_fitting available configured hard_limit capacity probe old =
    if hard_limit == 0 || ltb capacity 2
    then (old, invalid_argument)
    else let plan : Plan = record {
      configured_max_records = configured;
      available_records = available;
      candidate_records = 0;
      selected_records = 0;
      serialized_bytes = 0;
      body_capacity = capacity;
      reduced = false;
    } in
      let bounded = bounded_record_limit configured hard_limit in
      let candidate = if ltb available bounded then available else bounded in
      if available == 0
      then (plan, plan_empty)
      else shrink probe candidate (record plan { candidate_records = candidate })

abbrev no_prefix : MissingPrefix
no_prefix = record { first_sequence = 0; last_sequence = 0; count = 0 }

unfoldable pub detect_missing_prefix : ℕ → Bool → Bool → ℕ → MissingPrefix × MissingPrefixStatus
detect_missing_prefix acknowledgement storage_ready inventory_complete earliest =
    if acknowledgement == uint64_max
      || earliest == 0
      || leb earliest ((acknowledgement + 1) % 2 ^ 64)
    then (no_prefix, prefix_none)
    else if not storage_ready || not inventory_complete
    then (no_prefix, prefix_not_confirmed)
    else let first = (acknowledgement + 1) % 2 ^ 64 in
      let last = earliest - 1 in
      (
        record {
          first_sequence = first;
          last_sequence = last;
          count = (last + 2 ^ 64 - first + 1) % 2 ^ 64;
        },
        prefix_confirmed,
      )
