-- ===== src/Config/Committed.antt =====
-- What a commit that succeeds has selected, and what a beginning leaves in force.
use power_monitor_sensor_hea.Base.{
  ◌≡◌, refl, sym, ap, ◌∙◌, arith, inl, inr, Bool, true, false, not, ◌||◌, ◌==◌, if_cases,
  Bool-cases, some,
}
use power_monitor_sensor_hea.Base.Esp.{EspErr, ok, is_ok}
use power_monitor_sensor_hea.Nvs.{Nvs, IsNvs, NvsKey, on_ok, on_ok_split, is_ok-ok}
use power_monitor_sensor_hea.Protocol.{constant_time_equal}
use power_monitor_sensor_hea.Config.Types.{
  DeviceConfig, Target, Transaction, is_network_tested, config_validate,
}
use power_monitor_sensor_hea.Config.Lock.{Lock, claim_transaction_mutation}
use power_monitor_sensor_hea.Config.Steps.{
  is_slot, active_key, read_slot, check_candidate, select_candidate, config_commit,
}
use power_monitor_sensor_hea.Config.InForce.{read_slot-Same, read_slot_ok}

module _ {S : Type 0} (target : Target) (nvs : Nvs S DeviceConfig)
    (laws : IsNvs target.size nvs) where
  -- The store holds, in the transaction's slot, a valid configuration that is the one it staged.
  abbrev pub HoldsCandidate : Transaction → S → Type 0
  HoldsCandidate t s =
      (c : DeviceConfig) × (laws.held s (active_key t.candidate_slot) ≡ some (target.size, c))
      × (config_validate target c false ≡ ok)
      × (c.generation ≡ t.candidate_generation)
      × (constant_time_equal (target.sha256 (target.object_bytes c)) t.candidate_sha256 ≡ true)

  HoldsCandidate-held :
      (t : Transaction) (s u : S)
      → ((j : NvsKey) → laws.held u j ≡ laws.held s j)
      → HoldsCandidate t s
      → HoldsCandidate t u
  HoldsCandidate-held t s u same (c, held, valid, counted, digest) =
      (c, same (active_key t.candidate_slot) ∙ held, valid, counted, digest)

  check_candidate-HoldsCandidate :
      (t : Transaction) (s : S)
      → is_ok (check_candidate target nvs t s).0 ≡ true
      → HoldsCandidate t (check_candidate target nvs t s).1
  unfolding check_candidate
  check_candidate-HoldsCandidate t s h =
      let key = active_key t.candidate_slot in
      let (error, c, s1) = read_slot target nvs key s in
      elim (Bool-cases (is_ok error)) [
        | inr bad ↦ absurd (ground arith)
        | inl good ↦
            let (held, valid) = read_slot_ok target nvs laws key s good in
            (
              c,
              (read_slot-Same target nvs laws key s).1 key ∙ held,
              valid,
              ground arith,
              ground arith,
            )
      ]

  select_candidate_ok :
      (t : Transaction) (s : S)
      → is_ok (select_candidate target nvs t s).0 ≡ true
      → let u = (select_candidate target nvs t s).1 in
        (laws.selected u ≡ some t.candidate_slot) × HoldsCandidate t u
  unfolding select_candidate
  select_candidate_ok t s h =
      let opened = nvs.open_nvs s in
      let check = check_candidate target nvs t in
      let checked = on_ok opened check in
      let wrote = on_ok checked (nvs.set_u8 t.candidate_slot) in
      let (h1, e1) = on_ok_split wrote nvs.commit h in
      let (h2, e2) = on_ok_split checked (nvs.set_u8 t.candidate_slot) h1 in
      let (h3, e3) = on_ok_split opened check h2 in
      let set_ok =
        laws.set_u8_ok t.candidate_slot checked.1
          (is_ok-ok _ (ap (λ (r : EspErr × S). is_ok r.0) (sym e2) ∙ h1)) in
      let candidate =
        check_candidate-HoldsCandidate t opened.1
          (ap (λ (r : EspErr × S). is_ok r.0) (sym e3) ∙ h2) in
      (
        ap (λ (r : EspErr × S). laws.selected r.1) e1
            ∙ laws.commit-selected wrote.1
            ∙ ap (λ (r : EspErr × S). laws.selected r.1) e2
            ∙ set_ok,
        HoldsCandidate-held t (check opened.1).1 _
            (λ j.
              ap (λ (r : EspErr × S). laws.held r.1 j) e1
              ∙ laws.commit-held wrote.1 j
              ∙ ap (λ (r : EspErr × S). laws.held r.1 j) e2
              ∙ laws.set_u8-held t.candidate_slot checked.1 j
              ∙ ap (λ (r : EspErr × S). laws.held r.1 j) e3)
            candidate,
      )

  unfoldable CommitEnd : Transaction → EspErr × Transaction × Lock × S → Type 0
  CommitEnd t r =
      r.0 ≡ ok
      → (is_network_tested t.stage ≡ true)
        × (laws.selected r.3 ≡ some t.candidate_slot)
        × HoldsCandidate t r.3

  refused_end :
      (t t1 : Transaction) (e : EspErr) (lock : Lock) (s : S)
      → is_ok e ≡ false
      → CommitEnd t (e, t1, lock, s)
  unfolding CommitEnd
  refused_end t t1 e lock s bad h = absurd (ground arith)

  commit_end :
      (t t1 : Transaction) (lock : Lock) (s : S)
      → is_network_tested t.stage ≡ true
      → CommitEnd t
          ((select_candidate target nvs t s).0, t1, lock, (select_candidate target nvs t s).1)
  unfolding CommitEnd
  commit_end t t1 lock s tested h =
      let (chosen, candidate) = select_candidate_ok t s (ap is_ok h) in (tested, chosen, candidate)

  config_commit-CommitEnd :
      (memory : Bool) (t : Transaction) (lock : Lock) (s : S)
      → CommitEnd t (config_commit target nvs memory t lock s)
  unfolding config_commit
  config_commit-CommitEnd memory t lock s =
      let P = CommitEnd t in
      if_cases P
        (not (is_network_tested t.stage) || t.transaction_id == 0 || not (is_slot t.candidate_slot))
        _ _ (λ _. refused_end t _ _ _ _ refl)
        (λ proper.
          if_cases P (not memory) _ _ (λ _. refused_end t _ _ _ _ refl)
            (λ _.
              if_cases P (not (claim_transaction_mutation t.transaction_id lock).0) _ _
                (λ _. refused_end t _ _ _ _ refl) (λ _. commit_end t _ _ s (ground arith))))

  -- A commit succeeds only for a transaction that is marked as tested on the network, and then the
  -- selector is the transaction's slot, which holds a valid configuration of the transaction's
  -- generation with the digest that it recorded.
  pub config_commit_selects_tested :
      (memory : Bool) (t : Transaction) (lock : Lock) (s : S)
      → (config_commit target nvs memory t lock s).0 ≡ ok
      → let u = (config_commit target nvs memory t lock s).3 in
        (is_network_tested t.stage ≡ true)
        × (laws.selected u ≡ some t.candidate_slot)
        × HoldsCandidate t u
  unfolding CommitEnd
  config_commit_selects_tested memory t lock s = config_commit-CommitEnd memory t lock s
