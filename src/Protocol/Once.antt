-- ===== src/Protocol/Once.antt =====
-- A response is accepted once, and only with the code of its own canonical text.
use power_monitor_sensor_hea.Base.{
  ℕ, suc, ◌<◌, ◌≡◌, refl, sym, ap, subst, ◌∙◌, ◌⊎◌, inl, inr, Bool, true, false, if◌then◌else◌,
  Bool-cases, List, [], ◌∷◌,
}
use power_monitor_sensor_hea.Base.Int.{ℤ}
use power_monitor_sensor_hea.Base.Esp.{EspErr, is_ok}
use power_monitor_sensor_hea.Protocol.Nonces.{NonceCache, empty_cache, nonce_accept, accept_all}
use power_monitor_sensor_hea.Protocol.Replay.{
  IsRing, nonce_accept_cases, ring_refused, accept_all-IsRing, empty_cache-IsRing,
}
use power_monitor_sensor_hea.Protocol.Verify.{
  Crypto, ResponseHeaders, response_checks, verify_response_digest,
}

opposite : false ≡ true → ⊥
opposite h = cc

-- What comes in, and what it is held against.
pub record Response : Type 0 where
  pub key : List ℕ
  pub expected_device_id : List ℕ
  pub path : List ℕ
  pub query : List ℕ
  pub now_utc_ms : ℤ
  pub headers : ResponseHeaders
  pub expected_content_sha256 : List ℕ

module _ (crypto : Crypto) where
  abbrev pub verified : Response → NonceCache → EspErr × NonceCache
  verified r cache =
      verify_response_digest crypto r.key r.expected_device_id r.path r.query r.now_utc_ms r.headers
        r.expected_content_sha256 cache

  -- The answer and the cache.
  abbrev answer : Response → NonceCache → Bool × NonceCache
  answer r cache = (is_ok (verified r cache).0, (verified r cache).1)

  -- The number of responses that are accepted, and the cache after them.
  unfoldable pub verify_all : List Response → NonceCache → ℕ × NonceCache
  verify_all [] cache = (0, cache)
  verify_all (r ∷ rs) cache =
      let (accepted, cache1) = answer r cache in
      let (number, cache2) = verify_all rs cache1 in
      (if accepted then suc number else number, cache2)

  -- A response is refused and leaves the cache, or is what its nonce is.
  answer_cases :
      (r : Response) (cache : NonceCache)
      → (answer r cache ≡ (false, cache))
        ⊎ (answer r cache ≡ nonce_accept crypto.sha256 cache r.headers.nonce)
  unfolding verify_response_digest
  answer_cases r cache =
      let error =
        response_checks crypto r.key r.expected_device_id r.path r.query r.now_utc_ms r.headers
          r.expected_content_sha256 in
      elim (Bool-cases (is_ok error)) [
        | inr bad ↦ inl (rw bad (ap (λ (b : Bool). (b, cache)) bad))
        | inl good ↦ elim (nonce_accept_cases crypto.sha256 cache r.headers.nonce) [
          | inl refused ↦ inl (rw (good, refused) refl)
          | inr new ↦ inr (rw (good, new) refl)
        ]
      ]

  -- A run of responses is a run of the nonces of some of them.
  verify_all-accept_all :
      (rs : List Response) (cache : NonceCache)
      → (nonces : List (List ℕ)) × (accept_all crypto.sha256 nonces cache ≡ verify_all rs cache)
  unfolding verify_all accept_all
  verify_all-accept_all [] cache = ([], refl)
  verify_all-accept_all (r ∷ rs) cache =
      let continued : Bool × NonceCache → ℕ × NonceCache = λ a.
        (if a.0 then suc (verify_all rs a.1).0 else (verify_all rs a.1).0, (verify_all rs a.1).1) in
      elim (answer_cases r cache) [
        | inl refused ↦
            let (nonces, e) = verify_all-accept_all rs cache in
            (nonces, e ∙ ap continued (sym refused))
        | inr same ↦
            let (nonces, e) = verify_all-accept_all rs (answer r cache).1 in
            let P : Bool × NonceCache → Type 0 =
              λ a. accept_all crypto.sha256 nonces a.1 ≡ verify_all rs a.1 in
            let e1 = subst P same e in
            (
              r.headers.nonce ∷ nonces,
              ap
                    (λ (q : ℕ × NonceCache). (
                      if (nonce_accept crypto.sha256 cache r.headers.nonce).0 then suc q.0 else q.0,
                      q.1,
                    ))
                    e1
                  ∙ ap continued (sym same),
            )
      ]

  accepted_nonce :
      (r : Response) (cache : NonceCache)
      → (answer r cache).0 ≡ true
      → answer r cache ≡ nonce_accept crypto.sha256 cache r.headers.nonce
  accepted_nonce r cache h = elim (answer_cases r cache) [
    | inl refused ↦ absurd (opposite (sym (ap (λ (a : Bool × NonceCache). a.0) refused) ∙ h))
    | inr same ↦ same
  ]

  refused_nonce :
      (r : Response) (cache : NonceCache)
      → (nonce_accept crypto.sha256 cache r.headers.nonce).0 ≡ false
      → (answer r cache).0 ≡ false
  refused_nonce r cache h = elim (answer_cases r cache) [
    | inl refused ↦ ap (λ (a : Bool × NonceCache). a.0) refused
    | inr same ↦ ap (λ (a : Bool × NonceCache). a.0) same ∙ h
  ]

  verify_all-IsRing : (rs : List Response) → IsRing (verify_all rs empty_cache).1
  verify_all-IsRing rs =
      let (nonces, e) = verify_all-accept_all rs empty_cache in
      subst (λ (q : ℕ × NonceCache). IsRing q.1) e
        (accept_all-IsRing crypto.sha256 nonces empty_cache (empty_cache-IsRing crypto.sha256))

  -- A response that is accepted, after any others: from then on no response with its nonce is accepted,
  -- whatever else it says, as long as fewer than 32 have been accepted since.
  pub response_accepted_once :
      (before : List Response) (r : Response) (others : List Response) (again : Response)
      → let c = (verify_all before empty_cache).1 in
        let c1 = (verified r c).1 in
        let (number, c2) = verify_all others c1 in
        is_ok (verified r c).0 ≡ true
        → number < 32
        → again.headers.nonce ≡ r.headers.nonce
        → is_ok (verified again c2).0 ≡ false
  response_accepted_once before r others again accepted few same =
      let c = (verify_all before empty_cache).1 in
      let nonce = r.headers.nonce in
      let (nonces, e) = verify_all-accept_all others (answer r c).1 in
      let P : Bool × NonceCache → Type 0 = λ a.
        a.0 ≡ true
        → (accept_all crypto.sha256 nonces a.1).0 < 32
        → (nonce_accept crypto.sha256 (accept_all crypto.sha256 nonces a.1).1 nonce).0 ≡ false in
      let refused =
        subst P (sym (accepted_nonce r c accepted))
          (ring_refused crypto.sha256 c nonce nonces (verify_all-IsRing before)) in
      let Q : ℕ × NonceCache → Type 0 =
        λ q. q.0 < 32 → (nonce_accept crypto.sha256 q.1 nonce).0 ≡ false in
      let gone = subst Q e (refused accepted) few in
      refused_nonce again _ (
        ap (λ (n : List ℕ). (nonce_accept crypto.sha256 (verify_all others (answer r c).1).1 n).0)
          same
        ∙ gone)
