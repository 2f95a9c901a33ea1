-- ===== src/Protocol/Replay.antt =====
-- A nonce that was accepted is refused for as long as the cache holds it.
use power_monitor_sensor_hea.Base.{
  ℕ, zero, suc, ◌+◌, ◌-◌, ◌%◌, ◌≤◌, ◌<◌, ◌≡◌, ◌≢◌, refl, sym, ap, subst, ◌∙◌, arith, ◌⊎◌, inl, inr,
  Bool, true, false, Bool-cases, if_cases, ltb, if◌then◌else◌, List, [], ◌∷◌, length, take, set,
  get_or, get_or-take, length-set, length-take,
}
use power_monitor_sensor_hea.Protocol.{constant_time_equal}
use power_monitor_sensor_hea.Protocol.Compare.{constant_time_equal_refl}
use power_monitor_sensor_hea.Protocol.Nonces.{
  NonceCache, empty_cache, is_cached, nonce_accept, accept_all,
}

get_or-set_same :
    (xs : List (List ℕ)) (i : ℕ) (v : List ℕ) → i < length xs → get_or (set xs i v) i [] ≡ v
get_or-set_same [] i v h = absurd (omega arith)
get_or-set_same (x ∷ xs) zero v h = refl
get_or-set_same (x ∷ xs) (suc i) v h = get_or-set_same xs i v (omega arith)

get_or-set_other :
    (xs : List (List ℕ)) (i j : ℕ) (v : List ℕ) → i ≢ j → get_or (set xs i v) j [] ≡ get_or xs j []
get_or-set_other [] i j v h = refl
get_or-set_other (x ∷ xs) zero zero v h = absurd (h refl)
get_or-set_other (x ∷ xs) zero (suc j) v h = refl
get_or-set_other (x ∷ xs) (suc i) zero v h = refl
get_or-set_other (x ∷ xs) (suc i) (suc j) v h = get_or-set_other xs i j v (λ e. h (ap suc e))

is_cached-get_or :
    (values : List (List ℕ)) (j : ℕ) (digest : List ℕ)
    → j < length values
    → get_or values j [] ≡ digest
    → is_cached values digest ≡ true
unfolding is_cached
is_cached-get_or [] j digest h e = absurd (omega arith)
is_cached-get_or (v ∷ values) zero digest h e =
    rw (ap (λ (x : List ℕ). constant_time_equal x digest) e ∙ constant_time_equal_refl digest) refl
is_cached-get_or (v ∷ values) (suc j) digest h e =
    let rest = is_cached-get_or values j digest (omega arith) e in
    if_cases (λ (b : Bool). b ≡ true) (constant_time_equal v digest) true _ (λ _. refl) (λ _. rest)

-- The places in use are the first ones, and the next one to be written follows them until all are.
pub record IsRing (c : NonceCache) : Type 0 where
  pub size : length c.values ≡ 32
  pub next_fits : c.next < 32
  pub in_use : (c.count ≡ 32) ⊎ (c.count ≡ c.next)

-- The digest stands in a place that is in use, and `d` others at least are written before it is.
record Holds (digest : List ℕ) (d : ℕ) (c : NonceCache) : Type 0 where
  place : ℕ
  used : place < c.count
  later : d ≤ (place + 32 - c.next) % 32
  here : get_or c.values place [] ≡ digest

module _ (sha256 : List ℕ → List ℕ) where
  -- The cache after a nonce that was not in it.
  abbrev written : NonceCache → List ℕ → NonceCache
  written c digest = record {
    values = set c.values c.next digest;
    next = (c.next + 1) % 32;
    count = if ltb c.count 32 then suc c.count else c.count;
  }

  written-IsRing : (c : NonceCache) (digest : List ℕ) → IsRing c → IsRing (written c digest)
  written-IsRing c digest ring = record {
    size = length-set c.values c.next digest ∙ ring.size;
    next_fits = omega arith;
    in_use = ground (arith, ring.in_use, ring.next_fits);
  }

  written-Holds : (c : NonceCache) (digest : List ℕ) → IsRing c → Holds digest 31 (written c digest)
  written-Holds c digest ring = record {
    place = c.next;
    used = ground (arith, ring.in_use, ring.next_fits);
    later = omega (arith, ring.next_fits);
    here = get_or-set_same c.values c.next digest (omega (arith, ring.size, ring.next_fits));
  }

  written_keeps :
      (c : NonceCache) (digest new : List ℕ) (d : ℕ)
      → IsRing c
      → Holds digest (suc d) c
      → Holds digest d (written c new)
  written_keeps c digest new d ring held =
      let apart : c.next ≢ held.place = λ e. omega (arith, held.later, ring.next_fits) in
      record {
        place = held.place;
        used = ground (arith, held.used);
        later = ground (arith, held.later, ring.next_fits, held.used, ring.in_use);
        here = get_or-set_other c.values c.next held.place new apart ∙ held.here;
      }

  count_fits : (c : NonceCache) → IsRing c → c.count ≤ 32
  count_fits c ring = ground (arith, ring.in_use, ring.next_fits)

  -- What the cache holds is refused.
  held_refused :
      (c : NonceCache) (nonce : List ℕ) (d : ℕ)
      → IsRing c
      → Holds (sha256 nonce) d c
      → (nonce_accept sha256 c nonce).0 ≡ false
  unfolding nonce_accept
  held_refused c nonce d ring held =
      let fits = count_fits c ring in
      let found =
        is_cached-get_or (take c.count c.values) held.place (sha256 nonce)
          (omega (arith, length-take c.count c.values (omega (arith, fits, ring.size)), held.used))
          (get_or-take c.count held.place c.values [] held.used ∙ held.here) in
      rw found refl

  pub nonce_accept_cases :
      (c : NonceCache) (nonce : List ℕ)
      → (nonce_accept sha256 c nonce ≡ (false, c))
        ⊎ (nonce_accept sha256 c nonce ≡ (true, written c (sha256 nonce)))
  unfolding nonce_accept
  nonce_accept_cases c nonce =
      elim (Bool-cases (is_cached (take c.count c.values) (sha256 nonce))) [
        | inl cached ↦ inl (rw cached refl)
        | inr fresh ↦ inr (rw fresh refl)
      ]

  -- The end of a sequence after the answer to its first nonce.
  abbrev continued : List (List ℕ) → Bool × NonceCache → ℕ × NonceCache
  continued others r =
      let (number, c) = accept_all sha256 others r.1 in (if r.0 then suc number else number, c)

  abbrev Refuses : List (List ℕ) → List ℕ → ℕ → Bool × NonceCache → Type 0
  Refuses others nonce d r =
      (continued others r).0 ≤ d → (nonce_accept sha256 (continued others r).1 nonce).0 ≡ false

  -- The same of all that follows.
  abbrev RefusesAfter : List (List ℕ) → List ℕ → Type 0
  RefusesAfter others nonce =
      (d : ℕ) (c : NonceCache)
      → IsRing c
      → Holds (sha256 nonce) d c
      → (accept_all sha256 others c).0 ≤ d
      → (nonce_accept sha256 (accept_all sha256 others c).1 nonce).0 ≡ false

  after_accepted :
      (others : List (List ℕ)) (new nonce : List ℕ) (d : ℕ) (c : NonceCache)
      → RefusesAfter others nonce
      → IsRing c
      → Holds (sha256 nonce) d c
      → Refuses others nonce d (true, written c new)
  after_accepted others new nonce zero c rest ring held h = absurd (omega arith)
  after_accepted others new nonce (suc d) c rest ring held h =
      rest d (written c new) (written-IsRing c new ring)
        (written_keeps c (sha256 nonce) new d ring held) (omega arith)

  -- Others that are accepted push the digest out only once all places have been written.
  still_refused : (others : List (List ℕ)) (nonce : List ℕ) → RefusesAfter others nonce
  unfolding accept_all
  still_refused [] nonce d c ring held h = held_refused c nonce d ring held
  still_refused (o ∷ others) nonce d c ring held h =
      let rest = still_refused others nonce in
      elim (nonce_accept_cases c o) [
        | inl refused ↦ subst (Refuses others nonce d) (sym refused) (rest d c ring held) h
        | inr accepted ↦
            subst (Refuses others nonce d) (sym accepted)
              (after_accepted others (sha256 o) nonce d c rest ring held) h
      ]

  pub ring_refused :
      (c : NonceCache) (nonce : List ℕ) (others : List (List ℕ))
      → IsRing c
      → (nonce_accept sha256 c nonce).0 ≡ true
      → (accept_all sha256 others (nonce_accept sha256 c nonce).1).0 < 32
      → (nonce_accept sha256 (accept_all sha256 others (nonce_accept sha256 c nonce).1).1 nonce).0
        ≡ false
  ring_refused c nonce others ring accepted few = elim (nonce_accept_cases c nonce) [
    | inl refused ↦ absurd (let e = ap (λ (r : Bool × NonceCache). r.0) refused in cc)
    | inr new ↦
        let P : Bool × NonceCache → Type 0 = λ r.
          (accept_all sha256 others r.1).0 < 32
          → (nonce_accept sha256 (accept_all sha256 others r.1).1 nonce).0 ≡ false in
        subst P (sym new)
          (λ h.
            still_refused others nonce 31 (written c (sha256 nonce)) (written-IsRing c _ ring)
              (written-Holds c _ ring) (omega arith))
          few
  ]

  nonce_accept-IsRing :
      (c : NonceCache) (nonce : List ℕ) → IsRing c → IsRing (nonce_accept sha256 c nonce).1
  nonce_accept-IsRing c nonce ring = elim (nonce_accept_cases c nonce) [
    | inl refused ↦ subst (λ (r : Bool × NonceCache). IsRing r.1) (sym refused) ring
    | inr new ↦
        subst (λ (r : Bool × NonceCache). IsRing r.1) (sym new)
          (written-IsRing c (sha256 nonce) ring)
  ]

  pub accept_all-IsRing :
      (nonces : List (List ℕ)) (c : NonceCache) → IsRing c → IsRing (accept_all sha256 nonces c).1
  unfolding accept_all
  accept_all-IsRing [] c ring = ring
  accept_all-IsRing (n ∷ nonces) c ring = accept_all-IsRing nonces _ (nonce_accept-IsRing c n ring)

  pub empty_cache-IsRing : IsRing empty_cache
  empty_cache-IsRing = record { size = refl; next_fits = omega arith; in_use = inr refl }

  -- Whatever nonces came before, from an empty cache on: a nonce that is accepted is refused from then
  -- on, as long as fewer nonces than the cache has places, 32, have been accepted since.
  pub replay_refused :
      (before : List (List ℕ)) (nonce : List ℕ) (others : List (List ℕ))
      → let c = (accept_all sha256 before empty_cache).1 in
        let (accepted, c1) = nonce_accept sha256 c nonce in
        let (number, c2) = accept_all sha256 others c1 in
        accepted ≡ true → number < 32 → (nonce_accept sha256 c2 nonce).0 ≡ false
  replay_refused before nonce others =
      ring_refused (accept_all sha256 before empty_cache).1 nonce others
        (accept_all-IsRing before empty_cache empty_cache-IsRing)
