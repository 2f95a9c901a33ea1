-- ===== src/Config/Owner.antt =====
-- The lock of the configuration store belongs to the caller's transaction, or to nobody.
use power_monitor_sensor_hea.Base.{
  ℕ, ◌≡◌, refl, ◌∙◌, arith, inl, inr, Bool, false, not, ◌&&◌, ◌||◌, ◌==◌, if_cases, Bool-cases,
  Option, none, some, List, [], ◌∷◌,
}
use power_monitor_sensor_hea.Base.Esp.{EspErr, is_ok}
use power_monitor_sensor_hea.Nvs.{Nvs, NvsKey}
use power_monitor_sensor_hea.Config.Types.{
  DeviceConfig, Target, Transaction, is_network_tested, config_validate, slot_key,
}
use power_monitor_sensor_hea.Config.Lock.{
  Lock, claim_transaction_mutation, claim_unowned_mutation, finish_mutation,
}
use power_monitor_sensor_hea.Config.Steps.{
  is_slot, stamped, claim_begin, stage_candidate, config_begin, select_candidate, config_commit,
}
use power_monitor_sensor_hea.Config.Staged.{
  unowned, checked_work, activate_staged, discard_staged, discard_inactive_generation,
  erase_inactive,
}
use power_monitor_sensor_hea.Config.Always.{
  Operation, loads, begins, marks_tested, commits, aborts, loads_staged, activates_staged,
  discards_staged, discards_inactive, erases_inactive, perform, perform_all,
}
use power_monitor_sensor_hea.Config.Claims.{
  Owns, claim_begin_owner, claim_same_owner, finish_owner, release_owner, committed_owner,
  mark_owner, abort_owner,
}

module _ {S : Type 0} (target : Target) (nvs : Nvs S DeviceConfig) where
  -- Whoever has the lock after an operation of a transaction.
  unfoldable OwnsEnd : EspErr × Transaction × Lock × S → Type 0
  OwnsEnd r = Owns r.1 r.2

  owns_end : (r : EspErr × Transaction × Lock × S) → Owns r.1 r.2 → OwnsEnd r
  unfolding OwnsEnd
  owns_end r h = h

  of-OwnsEnd : (r : EspErr × Transaction × Lock × S) → OwnsEnd r → Owns r.1 r.2
  unfolding OwnsEnd
  of-OwnsEnd r h = h

  config_begin_owner :
      (memory : Bool) (c : DeviceConfig) (t : Transaction) (lock : Lock) (s : S)
      → Owns t lock
      → OwnsEnd (config_begin target nvs memory c t lock s)
  unfolding config_begin
  config_begin_owner memory c t lock s h =
      let staged = stamped target c in
      if_cases OwnsEnd (not memory) _ _ (λ _. owns_end _ h)
        (λ _.
          if_cases OwnsEnd (not (is_ok (config_validate target staged false))) _ _
            (λ _. owns_end _ h)
            (λ _.
              if_cases OwnsEnd (not (claim_begin t lock).0) _ _ (λ _. owns_end _ h)
                (λ claimed.
                  let (same, some_id) = claim_begin_owner t lock (ground arith) in
                  if_cases OwnsEnd (is_ok (stage_candidate target nvs t staged s).0) _ _
                    (λ _. owns_end _ (finish_owner _ _ same))
                    (λ _. owns_end _ (release_owner _ _ same some_id)))))

  config_commit_owner :
      (memory : Bool) (t : Transaction) (lock : Lock) (s : S)
      → Owns t lock
      → OwnsEnd (config_commit target nvs memory t lock s)
  unfolding config_commit
  config_commit_owner memory t lock s h =
      if_cases OwnsEnd
        (not (is_network_tested t.stage) || t.transaction_id == 0 || not (is_slot t.candidate_slot))
        _ _ (λ _. owns_end _ h)
        (λ _.
          if_cases OwnsEnd (not memory) _ _ (λ _. owns_end _ h)
            (λ _.
              if_cases OwnsEnd (not (claim_transaction_mutation t.transaction_id lock).0) _ _
                (λ _. owns_end _ h)
                (λ claimed.
                  let (same, some_id) = claim_same_owner t.transaction_id lock (ground arith) in
                  let released = release_owner _ _ same some_id in
                  owns_end _
                    (committed_owner (is_ok (select_candidate target nvs t s).0) _ released))))

  -- An operation that no transaction owns.
  unfoldable LeavesLock : Lock → EspErr × Lock × S → Type 0
  LeavesLock lock r =
      (r.1.mutation_in_progress ≡ false) × (r.1.active_transaction_id ≡ lock.active_transaction_id)

  leaves_lock :
      (lock : Lock) (e : EspErr) (s : S)
      → lock.mutation_in_progress ≡ false
      → LeavesLock lock (e, lock, s)
  unfolding LeavesLock
  leaves_lock lock e s free = (free, refl)

  finished :
      (lock : Lock) (e : EspErr) (s : S)
      → LeavesLock lock (e, finish_mutation (claim_unowned_mutation lock).1, s)
  unfolding LeavesLock finish_mutation claim_unowned_mutation
  finished lock e s =
      elim (Bool-cases (lock.active_transaction_id == 0 && not lock.mutation_in_progress)) [
        | inl free ↦ rw free (refl, refl)
        | inr taken ↦ rw taken (refl, refl)
      ]

  unowned_lock :
      (work : S → EspErr × S) (lock : Lock) (s : S)
      → lock.mutation_in_progress ≡ false
      → LeavesLock lock (unowned target nvs work lock s)
  unfolding unowned
  unowned_lock work lock s free =
      let P = LeavesLock lock in
      if_cases P (not (claim_unowned_mutation lock).0) _ _ (λ _. leaves_lock lock _ _ free)
        (λ _.
          if_cases P (not (is_ok (nvs.open_nvs s).0)) _ _ (λ _. finished lock _ _)
            (λ _. finished lock _ _))

  checked_work_lock :
      (key : Option NvsKey) (generation : ℕ) (memory : Bool) (work : NvsKey → S → EspErr × S)
      (lock : Lock) (s : S)
      → lock.mutation_in_progress ≡ false
      → LeavesLock lock (checked_work target nvs key generation memory work lock s)
  checked_work_lock none generation memory work lock s free = leaves_lock lock _ _ free
  checked_work_lock (some k) generation memory work lock s free =
      let P = LeavesLock lock in
      if_cases P (generation == 0) _ _ (λ _. leaves_lock lock _ _ free)
        (λ _.
          if_cases P (not memory) _ _ (λ _. leaves_lock lock _ _ free)
            (λ _. unowned_lock (work k) lock s free))

  discard_inactive_lock :
      (memory : Bool) (generation : ℕ) (lock : Lock) (s : S)
      → lock.mutation_in_progress ≡ false
      → LeavesLock lock (discard_inactive_generation target nvs memory generation lock s)
  unfolding discard_inactive_generation
  discard_inactive_lock memory generation lock s free =
      let P = LeavesLock lock in
      if_cases P (generation == 0) _ _ (λ _. leaves_lock lock _ _ free)
        (λ _.
          if_cases P (not memory) _ _ (λ _. leaves_lock lock _ _ free)
            (λ _. unowned_lock _ lock s free))

  still_owned :
      (t : Transaction) (lock : Lock) (r : EspErr × Lock × S)
      → Owns t lock
      → LeavesLock lock r
      → Owns t r.1
  unfolding Owns LeavesLock
  still_owned t lock r (free, same) (free1, same1) = (free1, same1 ∙ same)

  is_free : (t : Transaction) (lock : Lock) → Owns t lock → lock.mutation_in_progress ≡ false
  unfolding Owns
  is_free t lock h = h.0

  perform_owner :
      (o : Operation) (t : Transaction) (lock : Lock) (s : S)
      → Owns t lock
      → let (t1, lock1, _) = perform target nvs o t lock s in Owns t1 lock1
  unfolding perform activate_staged discard_staged erase_inactive
  perform_owner loads t lock s h = h
  perform_owner (begins memory c) t lock s h = of-OwnsEnd _ (config_begin_owner memory c t lock s h)
  perform_owner marks_tested t lock s h = mark_owner t lock h
  perform_owner (commits memory) t lock s h = of-OwnsEnd _ (config_commit_owner memory t lock s h)
  perform_owner aborts t lock s h = abort_owner t lock h
  perform_owner (loads_staged slot g) t lock s h = h
  perform_owner (activates_staged memory slot g) t lock s h =
      still_owned t lock _ h
        (checked_work_lock (slot_key slot) g memory _ lock s (is_free t lock h))
  perform_owner (discards_staged memory slot g) t lock s h =
      still_owned t lock _ h
        (checked_work_lock (slot_key slot) g memory _ lock s (is_free t lock h))
  perform_owner (discards_inactive memory g) t lock s h =
      still_owned t lock _ h (discard_inactive_lock memory g lock s (is_free t lock h))
  perform_owner erases_inactive t lock s h =
      still_owned t lock _ h (unowned_lock _ lock s (is_free t lock h))

  -- From a lock that no operation holds and that the transaction in hand owns, as after a start, any
  -- operations lead to such a lock again: whatever fails, the store is never left locked.
  pub lock_follows_transaction :
      (os : List Operation) (t : Transaction) (lock : Lock) (s : S)
      → Owns t lock
      → let (t1, lock1, _) = perform_all target nvs os t lock s in Owns t1 lock1
  unfolding perform_all
  lock_follows_transaction [] t lock s h = h
  lock_follows_transaction (o ∷ more) t lock s h =
      let (t1, lock1, s1) = perform target nvs o t lock s in
      lock_follows_transaction more t1 lock1 s1 (perform_owner o t lock s h)
