-- ===== src/Batch/Inserted.antt =====
-- Insertion into an ascending list, and what is cut off of it.
use power_monitor_sensor_hea.Base.{
  ℕ, zero, suc, ◌≤◌, ◌<◌, ◌≡◌, refl, ap, arith, ◌⊎◌, inl, inr, Bool, true, false, ◌==◌, ltb,
  if◌then◌else◌, Bool-cases, if_cases, List, [], ◌∷◌, ◌++◌, length, take, drop, get_elem?,
}
use power_monitor_sensor_hea.Journal.{JournalRecord}
use power_monitor_sensor_hea.Batch.{place_for, same_sequence}

-- Insertion by recursion.
unfoldable pub inserted : JournalRecord → List JournalRecord → List JournalRecord
inserted r [] = r ∷ []
inserted r (x ∷ xs) =
    let rest = inserted r xs in if ltb x.sequence r.sequence then x ∷ rest else r ∷ x ∷ xs

pub place-inserted :
    (r : JournalRecord) (rs : List JournalRecord)
    → let p = place_for rs r.sequence in (take p rs ++ r ∷ drop p rs) ≡ inserted r rs
unfolding place_for inserted
place-inserted r [] = refl
place-inserted r (x ∷ xs) = elim (Bool-cases (ltb x.sequence r.sequence)) [
  | inl before ↦ rw before (ap (λ (l : List JournalRecord). x ∷ l) (place-inserted r xs))
  | inr here ↦ rw here refl
]

-- The sequences ascend, from above `low`.
abbrev pub Ascends : ℕ → List JournalRecord → Type 0
Ascends low [] = Unit
Ascends low (r ∷ rs) = (low < r.sequence) × Ascends r.sequence rs

abbrev pub Has : ℕ → List JournalRecord → Type 0
Has s [] = ⊥
Has s (r ∷ rs) = (r.sequence ≡ s) ⊎ Has s rs

abbrev pub Below : ℕ → List JournalRecord → Type 0
Below s [] = Unit
Below s (r ∷ rs) = (r.sequence < s) × Below s rs

-- Whether the place is taken by the sequence.
unfoldable pub taken : List JournalRecord → ℕ → Bool
taken [] s = false
taken (x ∷ xs) s = let rest = taken xs s in if ltb x.sequence s then rest else x.sequence == s

pub same_sequence-taken :
    (rs : List JournalRecord) (s : ℕ) → same_sequence (get_elem? rs (place_for rs s)) s ≡ taken rs s
unfolding place_for taken
same_sequence-taken [] s = refl
same_sequence-taken (x ∷ xs) s = elim (Bool-cases (ltb x.sequence s)) [
  | inl before ↦ rw before (same_sequence-taken xs s)
  | inr here ↦ rw here refl
]

pub taken-Has : (rs : List JournalRecord) (s : ℕ) → taken rs s ≡ true → Has s rs
unfolding taken
taken-Has [] s h = cc
taken-Has (x ∷ xs) s h = elim (Bool-cases (ltb x.sequence s)) [
  | inl before ↦ inr (taken-Has xs s (ground arith))
  | inr here ↦ inl (ground arith)
]

pub inserted-Ascends :
    (low : ℕ) (r : JournalRecord) (rs : List JournalRecord)
    → Ascends low rs
    → low < r.sequence
    → taken rs r.sequence ≡ false
    → Ascends low (inserted r rs)
unfolding inserted taken
inserted-Ascends low r [] h above new = (above, tt)
inserted-Ascends low r (x ∷ xs) (h, hs) above new = elim (Bool-cases (ltb x.sequence r.sequence)) [
  | inl before ↦ rw before (h, inserted-Ascends x.sequence r xs hs (ground arith) (ground arith))
  | inr here ↦ rw here (above, (ground arith, hs))
]

pub inserted-Has : (r : JournalRecord) (rs : List JournalRecord) → Has r.sequence (inserted r rs)
unfolding inserted
inserted-Has r [] = inl refl
inserted-Has r (x ∷ xs) = elim (Bool-cases (ltb x.sequence r.sequence)) [
  | inl before ↦ rw before (inr (inserted-Has r xs))
  | inr here ↦ rw here (inl refl)
]

pub Has-inserted :
    (s : ℕ) (r : JournalRecord) (rs : List JournalRecord) → Has s rs → Has s (inserted r rs)
unfolding inserted
Has-inserted s r [] h = absurd h
Has-inserted s r (x ∷ xs) h = elim (Bool-cases (ltb x.sequence r.sequence)) [
  | inl before ↦ rw before (elim h [ inl e ↦ inl e | inr rest ↦ inr (Has-inserted s r xs rest) ])
  | inr here ↦ rw here (inr h)
]

pub of-inserted :
    (s : ℕ) (r : JournalRecord) (rs : List JournalRecord)
    → Has s (inserted r rs)
    → (r.sequence ≡ s) ⊎ Has s rs
unfolding inserted
of-inserted s r [] h = h
of-inserted s r (x ∷ xs) h =
    let P : List JournalRecord → Type 0 = λ l. Has s l → (r.sequence ≡ s) ⊎ Has s (x ∷ xs) in
    if_cases P (ltb x.sequence r.sequence) (x ∷ inserted r xs) (r ∷ x ∷ xs)
      (λ _ k. elim k [
        | inl e ↦ inr (inl e)
        | inr rest ↦ elim (of-inserted s r xs rest) [ inl e ↦ inl e | inr old ↦ inr (inr old) ]
      ])
      (λ _ k. k) h

pub length-inserted :
    (r : JournalRecord) (rs : List JournalRecord) → length (inserted r rs) ≡ suc (length rs)
unfolding inserted
length-inserted r [] = refl
length-inserted r (x ∷ xs) = elim (Bool-cases (ltb x.sequence r.sequence)) [
  | inl before ↦ rw before (ap suc (length-inserted r xs))
  | inr here ↦ rw here refl
]

-- Where the place is the end, a batch that is full stays as it is.
pub take-inserted_end :
    (r : JournalRecord) (rs : List JournalRecord)
    → place_for rs r.sequence ≡ length rs
    → take (length rs) (inserted r rs) ≡ rs
unfolding inserted place_for
take-inserted_end r [] h = refl
take-inserted_end r (x ∷ xs) h = elim (Bool-cases (ltb x.sequence r.sequence)) [
  | inl before ↦
      rw before (ap (λ (l : List JournalRecord). x ∷ l) (take-inserted_end r xs (ground arith)))
  | inr here ↦ absurd (ground arith)
]

pub Has-above : (low s : ℕ) (rs : List JournalRecord) → Ascends low rs → Has s rs → low < s
Has-above low s [] h k = absurd k
Has-above low s (r ∷ rs) (h, hs) (inl e) = omega arith
Has-above low s (r ∷ rs) (h, hs) (inr rest) = omega (arith, Has-above r.sequence s rs hs rest)

-- What is cut off is greater than all that stays.
pub take-Has :
    (n low s : ℕ) (rs : List JournalRecord)
    → Ascends low rs
    → Has s rs
    → Has s (take n rs) ⊎ ((length (take n rs) ≡ n) × Below s (take n rs))
take-Has zero low s rs h k = inr (refl, tt)
take-Has (suc n) low s [] h k = absurd k
take-Has (suc n) low s (r ∷ rs) (h, hs) (inl e) = inl (inl e)
take-Has (suc n) low s (r ∷ rs) (h, hs) (inr rest) = elim (take-Has n r.sequence s rs hs rest) [
  | inl stays ↦ inl (inr stays)
  | inr (full, below) ↦ inr (ap suc full, (Has-above r.sequence s rs hs rest, below))
]

pub take-Ascends : (n low : ℕ) (rs : List JournalRecord) → Ascends low rs → Ascends low (take n rs)
take-Ascends zero low rs h = tt
take-Ascends (suc n) low [] h = tt
take-Ascends (suc n) low (r ∷ rs) (h, hs) = (h, take-Ascends n r.sequence rs hs)

pub of-take : (n s : ℕ) (rs : List JournalRecord) → Has s (take n rs) → Has s rs
of-take zero s rs h = absurd h
of-take (suc n) s [] h = h
of-take (suc n) s (r ∷ rs) (inl e) = inl e
of-take (suc n) s (r ∷ rs) (inr h) = inr (of-take n s rs h)

pub Below-take : (n s : ℕ) (rs : List JournalRecord) → Below s rs → Below s (take n rs)
Below-take zero s rs h = tt
Below-take (suc n) s [] h = tt
Below-take (suc n) s (r ∷ rs) (h, hs) = (h, Below-take n s rs hs)

pub take-le : (n : ℕ) (rs : List JournalRecord) → length (take n rs) ≤ n
take-le zero rs = omega arith
take-le (suc n) [] = omega arith
take-le (suc n) (r ∷ rs) = omega (arith, take-le n rs)

pub take_all : (n : ℕ) (rs : List JournalRecord) → length rs ≤ n → take n rs ≡ rs
take_all zero [] h = refl
take_all zero (r ∷ rs) h = absurd (omega arith)
take_all (suc n) [] h = refl
take_all (suc n) (r ∷ rs) h = ap (λ (l : List JournalRecord). r ∷ l) (take_all n rs (omega arith))

pub Below-inserted :
    (n s : ℕ) (r : JournalRecord) (rs : List JournalRecord)
    → length rs ≡ n
    → Below s rs
    → Below s (take n (inserted r rs))
unfolding inserted
Below-inserted zero s r rs full h = tt
Below-inserted (suc n) s r [] full h = absurd (omega arith)
Below-inserted (suc n) s r (x ∷ xs) full (h, hs) = elim (Bool-cases (ltb x.sequence r.sequence)) [
  | inl before ↦ rw before (h, Below-inserted n s r xs (omega arith) hs)
  | inr here ↦ rw here (ground arith, Below-take n s (x ∷ xs) (h, hs))
]
