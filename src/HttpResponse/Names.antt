-- ===== src/HttpResponse/Names.antt =====
-- The comparison of header names.
use power_monitor_sensor_hea.Base.{
  ℕ, ◌+◌, ◌≤◌, ◌≡◌, refl, arith, ◌⊎◌, true, ◌==◌, Bool-cases, inl, inr, List, [], ◌∷◌,
}
use power_monitor_sensor_hea.HttpResponse.{ascii_lower, header_name_equal}

-- The same byte, or a letter from A to Z and the small letter to it, which is 32 behind it.
abbrev pub SameLetter : ℕ → ℕ → Type 0
SameLetter a b =
    (a ≡ b) ⊎ ((b'A' ≤ a) × (a ≤ b'Z') × (b ≡ a + 32)) ⊎ ((b'A' ≤ b) × (b ≤ b'Z') × (a ≡ b + 32))

-- Names of the same length, letter by letter.
abbrev pub SameName : List ℕ → List ℕ → Type 0
SameName [] [] = Unit
SameName [] (b ∷ bs) = ⊥
SameName (a ∷ as_) [] = ⊥
SameName (a ∷ as_) (b ∷ bs) = SameLetter a b × SameName as_ bs

equal_letters : (a b : ℕ) → (ascii_lower a == ascii_lower b) ≡ true → SameLetter a b
unfolding ascii_lower
equal_letters a b h = ground arith

letters_equal : (a b : ℕ) → SameLetter a b → (ascii_lower a == ascii_lower b) ≡ true
unfolding ascii_lower
letters_equal a b h = ground arith

header_name_equal_sound : (as_ bs : List ℕ) → header_name_equal as_ bs ≡ true → SameName as_ bs
unfolding header_name_equal
header_name_equal_sound [] [] h = tt
header_name_equal_sound [] (b ∷ bs) h = cc
header_name_equal_sound (a ∷ as_) [] h = cc
header_name_equal_sound (a ∷ as_) (b ∷ bs) h = elim (Bool-cases (ascii_lower a == ascii_lower b)) [
  | inl same ↦ (equal_letters a b same, header_name_equal_sound as_ bs (ground arith))
  | inr other ↦ ground arith
]

header_name_equal_complete : (as_ bs : List ℕ) → SameName as_ bs → header_name_equal as_ bs ≡ true
unfolding header_name_equal
header_name_equal_complete [] [] h = refl
header_name_equal_complete [] (b ∷ bs) h = absurd h
header_name_equal_complete (a ∷ as_) [] h = absurd h
header_name_equal_complete (a ∷ as_) (b ∷ bs) (letter, rest) =
    rw (letters_equal a b letter) (header_name_equal_complete as_ bs rest)

-- Two header names are taken for the same exactly when they are as long and agree byte by byte, but for
-- the case of the letters A to Z.
pub header_name_equal-SameName :
    (as_ bs : List ℕ)
    → (header_name_equal as_ bs ≡ true → SameName as_ bs)
      × (SameName as_ bs → header_name_equal as_ bs ≡ true)
header_name_equal-SameName as_ bs =
    (header_name_equal_sound as_ bs, header_name_equal_complete as_ bs)
