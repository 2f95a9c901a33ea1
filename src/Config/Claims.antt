-- ===== src/Config/Claims.antt =====
-- Claims and releases of the lock of the configuration store.
use power_monitor_sensor_hea.Base.{
  ℕ, ◌≡◌, ◌≢◌, refl, arith, inl, inr, Bool, true, false, not, ◌&&◌, ◌==◌, if◌then◌else◌, if_cases,
  Bool-cases,
}
use power_monitor_sensor_hea.Base.Esp.{EspErr}
use power_monitor_sensor_hea.Config.Types.{
  Transaction, zero_transaction, committed, is_readback_verified,
}
use power_monitor_sensor_hea.Config.Lock.{
  Lock, claim_new_transaction, claim_transaction_mutation, finish_mutation, release_transaction,
  transaction_is_active,
}
use power_monitor_sensor_hea.Config.Steps.{
  restaging, claim_begin, mark_network_tested, config_abort,
}

-- No operation is under way, and the owner is the transaction in hand; its number is 0 where there is none.
unfoldable pub Owns : Transaction → Lock → Type 0
Owns t lock = (lock.mutation_in_progress ≡ false) × (lock.active_transaction_id ≡ t.transaction_id)

pub owns :
    (t : Transaction) (lock : Lock)
    → lock.mutation_in_progress ≡ false
    → lock.active_transaction_id ≡ t.transaction_id
    → Owns t lock
unfolding Owns
owns t lock free same = (free, same)

pub claim_new_owner :
    (lock : Lock)
    → (claim_new_transaction lock).0 ≡ true
    → ((claim_new_transaction lock).2.active_transaction_id ≡ (claim_new_transaction lock).1)
      × ((claim_new_transaction lock).1 ≢ 0)
unfolding claim_new_transaction
claim_new_owner lock h =
    elim (Bool-cases (lock.active_transaction_id == 0 && not lock.mutation_in_progress)) [
      | inl free ↦ rw free (refl, λ e. ground arith)
      | inr taken ↦ absurd (ground arith)
    ]

pub claim_same_owner :
    (id : ℕ) (lock : Lock)
    → (claim_transaction_mutation id lock).0 ≡ true
    → ((claim_transaction_mutation id lock).1.active_transaction_id ≡ id) × (id ≢ 0)
unfolding claim_transaction_mutation
claim_same_owner id lock h =
    elim (Bool-cases
      (not (id == 0) && lock.active_transaction_id == id && not lock.mutation_in_progress)) [
        | inl free ↦ rw free (ground arith, λ e. ground arith)
        | inr taken ↦ absurd (ground arith)
      ]

-- The claim of a beginning is of the number that comes with it, which is not 0.
pub claim_begin_owner :
    (t : Transaction) (lock : Lock)
    → (claim_begin t lock).0 ≡ true
    → ((claim_begin t lock).2.active_transaction_id ≡ (claim_begin t lock).1)
      × ((claim_begin t lock).1 ≢ 0)
unfolding claim_begin
claim_begin_owner t lock =
    let P : Bool × ℕ × Lock → Type 0 =
      λ r. r.0 ≡ true → (r.2.active_transaction_id ≡ r.1) × (r.1 ≢ 0) in
    let (claimed, lock1) = claim_transaction_mutation t.transaction_id lock in
    if_cases P (restaging t) (claimed, t.transaction_id, lock1) (claim_new_transaction lock)
      (λ _. claim_same_owner t.transaction_id lock) (λ _. claim_new_owner lock)

pub finish_owner :
    (t : Transaction) (lock : Lock)
    → lock.active_transaction_id ≡ t.transaction_id
    → Owns t (finish_mutation lock)
unfolding finish_mutation Owns
finish_owner t lock same = (refl, same)

pub release_owner :
    (id : ℕ) (lock : Lock)
    → lock.active_transaction_id ≡ id
    → id ≢ 0
    → Owns zero_transaction (release_transaction id lock)
unfolding release_transaction Owns
release_owner id lock same some_id = ground arith

pub committed_owner :
    (b : Bool) (lock : Lock)
    → Owns zero_transaction lock
    → Owns (if b then record zero_transaction { stage = committed } else zero_transaction) lock
unfolding Owns
committed_owner true lock h = h
committed_owner false lock h = h

pub mark_owner :
    (t : Transaction) (lock : Lock) → Owns t lock → Owns (mark_network_tested t lock).1 lock
unfolding mark_network_tested Owns
mark_owner t lock h =
    if_cases (λ (r : EspErr × Transaction). Owns r.1 lock)
      (is_readback_verified t.stage && transaction_is_active t.transaction_id lock) _ _ (λ _. h)
      (λ _. h)

pub abort_owner :
    (t : Transaction) (lock : Lock)
    → Owns t lock
    → let (t1, lock1) = config_abort t lock in Owns t1 lock1
unfolding config_abort release_transaction Owns
abort_owner t lock (free, same) =
    elim (Bool-cases
      (not (t.transaction_id == 0) && lock.active_transaction_id == t.transaction_id)) [
        | inl mine ↦ rw mine (refl, refl)
        | inr none_begun ↦ rw none_begun (free, ground arith)
      ]
