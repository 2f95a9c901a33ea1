-- ===== src/Commands/Entries.antt =====
-- The entries of a ledger, up to their check sums, and what writing the ledger does to them.
use power_monitor_sensor_hea.Base.{
  ℕ, zero, suc, ◌+◌, ◌%◌, ◌<◌, ◌≡◌, ◌≢◌, refl, sym, ap, ◌∙◌, arith, ◌⊎◌, inl, inr, Bool, true,
  false, ◌==◌, if◌then◌else◌, Bool-cases, Option, some, List, [], ◌∷◌, map, length, get_or, set,
  uint32_max,
}
use power_monitor_sensor_hea.Commands.{Command, Ledger, Platform, ledger_size}
use power_monitor_sensor_hea.Commands.Steps.{
  blank, is_empty, available, find_available, seal, sealed, persist,
}

-- An entry without its check sum.
abbrev pub content : Command → Command
content c = record c { crc32 = 0 }

-- The content of the entry at a place.
abbrev pub content_at : Ledger → ℕ → Command
content_at ledger i = content (get_or ledger.entries i blank)

module _ {ℓ} {A : Type ℓ} where
  pub get_or-set_other :
      (xs : List A) (i j : ℕ) (v d : A) → i ≢ j → get_or (set xs i v) j d ≡ get_or xs j d
  get_or-set_other [] i j v d h = refl
  get_or-set_other (x ∷ xs) zero zero v d h = absurd (h refl)
  get_or-set_other (x ∷ xs) zero (suc j) v d h = refl
  get_or-set_other (x ∷ xs) (suc i) zero v d h = refl
  get_or-set_other (x ∷ xs) (suc i) (suc j) v d h = get_or-set_other xs i j v d (λ e. h (ap suc e))

  pub get_or-set_same :
      (xs : List A) (i : ℕ) (v d : A) → i < length xs → get_or (set xs i v) i d ≡ v
  get_or-set_same [] i v d h = absurd (omega arith)
  get_or-set_same (x ∷ xs) zero v d h = refl
  get_or-set_same (x ∷ xs) (suc i) v d h = get_or-set_same xs i v d (omega arith)

module _ {S : Type 0} (platform : Platform S) where
  pub content-seal : (c : Command) → content (seal platform c) ≡ content c
  content-seal c = elim (Bool-cases (is_empty c.command_id)) [
    | inl unused ↦ rw unused refl
    | inr used ↦ rw used refl
  ]

  pub get_or-map-seal :
      (es : List Command) (i : ℕ)
      → content (get_or (map (seal platform) es) i blank) ≡ content (get_or es i blank)
  get_or-map-seal [] i = refl
  get_or-map-seal (e ∷ es) zero = content-seal e
  get_or-map-seal (e ∷ es) (suc i) = get_or-map-seal es i

  pub length-map-seal : (es : List Command) → length (map (seal platform) es) ≡ length es
  length-map-seal [] = refl
  length-map-seal (e ∷ es) = ap suc (length-map-seal es)

  -- Writing keeps the content of every entry, whether it succeeds or not.
  pub content_at-persist :
      (ledger : Ledger) (store : S) (i : ℕ)
      → content_at (persist platform ledger store).1 i ≡ content_at ledger i
  unfolding persist sealed
  content_at-persist ledger store i = elim (Bool-cases (ledger.generation == uint32_max)) [
    | inl full ↦ rw full refl
    | inr room ↦ rw room (get_or-map-seal ledger.entries i)
  ]

-- A search stops at the first hit or goes on.
pub first_hit :
    (b : Bool) (x i : ℕ) (r : Option ℕ)
    → (if b then some x else r) ≡ some i
    → ((b ≡ true) × (x ≡ i)) ⊎ ((b ≡ false) × (r ≡ some i))
first_hit true x i r h = inl (refl, cc)
first_hit false x i r h = inr (refl, h)

-- The place that is found is available.
pub find_available-available :
    (entries : List Command) (next offset rounds i : ℕ)
    → find_available entries next offset rounds ≡ some i
    → (available (get_or entries i blank) ≡ true) × (i < ledger_size)
unfolding find_available
find_available-available entries next offset zero i h = cc
find_available-available entries next offset (suc rounds) i h =
    let index = (next + offset) % ledger_size in
    elim (first_hit (available (get_or entries index blank)) index i
      (find_available entries next (suc offset) rounds) h) [
        | inl (free, e) ↦
            (ap (λ (k : ℕ). available (get_or entries k blank)) (sym e) ∙ free, omega arith)
        | inr (busy, later) ↦ find_available-available entries next (suc offset) rounds i later
      ]
