-- ===== src/Protocol/Nonces.antt =====
-- The nonces that were accepted last.
use power_monitor_sensor_hea.Base.{
  ℕ, suc, ◌+◌, ◌%◌, Bool, true, false, ltb, if◌then◌else◌, List, [], ◌∷◌, take, set, replicate,
}
use power_monitor_sensor_hea.Protocol.{constant_time_equal}

abbrev pub nonce_cache_size : ℕ
nonce_cache_size = 32

-- pm_nonce_cache_t
pub record NonceCache : Type 0 where
  pub values : List (List ℕ)
  pub count : ℕ
  pub next : ℕ

-- memset(cache, 0, sizeof(*cache))
abbrev pub empty_cache : NonceCache
empty_cache = record { values = replicate nonce_cache_size (replicate 32 0); count = 0; next = 0 }

-- The loop over the values in use.
unfoldable pub is_cached : List (List ℕ) → List ℕ → Bool
is_cached [] digest = false
is_cached (v ∷ values) digest =
    let rest = is_cached values digest in if constant_time_equal v digest then true else rest

module _ (sha256 : List ℕ → List ℕ) where
  unfoldable pub nonce_accept : NonceCache → List ℕ → Bool × NonceCache
  nonce_accept cache nonce =
      let digest = sha256 nonce in
      if is_cached (take cache.count cache.values) digest then (false, cache) else (
        true,
        record {
          values = set cache.values cache.next digest;
          next = (cache.next + 1) % nonce_cache_size;
          count = if ltb cache.count nonce_cache_size then suc cache.count else cache.count;
        },
      )

  -- The number of nonces that are accepted of a sequence of requests, and the cache after them.
  unfoldable pub accept_all : List (List ℕ) → NonceCache → ℕ × NonceCache
  accept_all [] cache = (0, cache)
  accept_all (n ∷ nonces) cache =
      let (accepted, cache1) = nonce_accept cache n in
      let (number, cache2) = accept_all nonces cache1 in
      (if accepted then suc number else number, cache2)
