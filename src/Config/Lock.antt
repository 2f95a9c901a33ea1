-- ===== src/Config/Lock.antt =====
-- The owner of the configuration store: s_next_transaction_id, s_active_transaction_id and
-- s_mutation_in_progress. A critical section is one step.
use power_monitor_sensor_hea.Base.{
  ℕ, suc, ◌%◌, ◌^◌, Bool, true, false, not, ◌&&◌, ◌==◌, if◌then◌else◌,
}

pub record Lock : Type 0 where
  pub next_transaction_id : ℕ  -- uint32_t
  pub active_transaction_id : ℕ  -- uint32_t
  pub mutation_in_progress : Bool

abbrev pub initial_lock : Lock
initial_lock = record {
  next_transaction_id = 1;
  active_transaction_id = 0;
  mutation_in_progress = false;
}

-- The identifier that is given out, and the one after it; zero is passed over.
unfoldable pub claim_new_transaction : Lock → Bool × ℕ × Lock
claim_new_transaction l =
    let first = l.next_transaction_id in
    let second = suc first % 2 ^ 32 in
    let next = if first == 0 then second else first in
    if l.active_transaction_id == 0 && not l.mutation_in_progress
    then (
      true,
      next,
      record {
        next_transaction_id = suc next % 2 ^ 32;
        active_transaction_id = next;
        mutation_in_progress = true;
      },
    )
    else (false, 0, l)

unfoldable pub claim_transaction_mutation : ℕ → Lock → Bool × Lock
claim_transaction_mutation transaction_id l =
    if not (transaction_id == 0)
      && l.active_transaction_id == transaction_id
      && not l.mutation_in_progress
    then (true, record l { mutation_in_progress = true })
    else (false, l)

unfoldable pub claim_unowned_mutation : Lock → Bool × Lock
claim_unowned_mutation l =
    if l.active_transaction_id == 0 && not l.mutation_in_progress
    then (true, record l { mutation_in_progress = true })
    else (false, l)

unfoldable pub finish_mutation : Lock → Lock
finish_mutation l = record l { mutation_in_progress = false }

unfoldable pub release_transaction : ℕ → Lock → Lock
release_transaction transaction_id l =
    if not (transaction_id == 0) && l.active_transaction_id == transaction_id
    then record l { active_transaction_id = 0; mutation_in_progress = false }
    else l

unfoldable pub transaction_is_active : ℕ → Lock → Bool
transaction_is_active transaction_id l =
    not (transaction_id == 0)
    && l.active_transaction_id == transaction_id
    && not l.mutation_in_progress
