-- ===== src/Protocol/Tests.antt =====
-- Runs of the comparison.
use power_monitor_sensor_hea.Protocol.Nonces.{empty_cache, is_cached, nonce_accept, accept_all}
use power_monitor_sensor_hea.Protocol.Replay.{replay_refused}
use power_monitor_sensor_hea.Base.{ℕ, ◌≡◌, arith, refl, true, false, List, [], ◌∷◌}
use power_monitor_sensor_hea.Protocol.{constant_time_equal, difference_from}
use power_monitor_sensor_hea.Protocol.Compare.{constant_time_equal-equality}

differs : constant_time_equal (1 ∷ 2 ∷ 3 ∷ []) (1 ∷ 7 ∷ 3 ∷ []) ≡ false
unfolding constant_time_equal difference_from
differs = refl

abbrev digest : List ℕ
digest = 1 ∷ 2 ∷ []

constant_time_equal-equality_example :
    (constant_time_equal digest digest ≡ true → digest ≡ digest)
    × (digest ≡ digest → constant_time_equal digest digest ≡ true)
constant_time_equal-equality_example = constant_time_equal-equality digest digest refl

-- A stand-in for SHA-256.
abbrev same_bytes : List ℕ → List ℕ
same_bytes bytes = bytes

abbrev first_nonce : List ℕ
first_nonce = 5 ∷ 6 ∷ []

abbrev other_nonces : List (List ℕ)
other_nonces = (7 ∷ 8 ∷ []) ∷ first_nonce ∷ (9 ∷ 1 ∷ []) ∷ []

first_accepted :
    (nonce_accept same_bytes
      (accept_all same_bytes ((1 ∷ 2 ∷ []) ∷ []) empty_cache).1
      first_nonce).0
    ≡ true
unfolding accept_all nonce_accept is_cached constant_time_equal difference_from
first_accepted = refl

two_accepted :
    (accept_all same_bytes other_nonces
      (nonce_accept same_bytes
        (accept_all same_bytes ((1 ∷ 2 ∷ []) ∷ []) empty_cache).1
        first_nonce).1).0
    ≡ 2
unfolding accept_all nonce_accept is_cached constant_time_equal difference_from
two_accepted = refl

replay_refused_example :
    (nonce_accept same_bytes
      (accept_all same_bytes other_nonces
        (nonce_accept same_bytes
          (accept_all same_bytes ((1 ∷ 2 ∷ []) ∷ []) empty_cache).1
          first_nonce).1).1
      first_nonce).0
    ≡ false
replay_refused_example =
    replay_refused same_bytes ((1 ∷ 2 ∷ []) ∷ []) first_nonce other_nonces first_accepted
      (omega (arith, two_accepted))
