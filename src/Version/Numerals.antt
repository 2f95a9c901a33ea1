-- ===== src/Version/Numerals.antt =====
-- Which texts are the numbers of a version.
use power_monitor_sensor_hea.Base.{
  ℕ, ◌≤◌, All, ◌&&◌, ◌≡◌, refl, sym, ap, ◌∙◌, arith, inl, inr, true, false, ◌==◌, some, List, [],
  ◌∷◌, ◌++◌, Bool-cases, uint32_max,
}
use power_monitor_sensor_hea.Version.{is_digit, starts_with_any, starts_with_digit, parse_number}
use power_monitor_sensor_hea.Version.Numbers.{
  value_from, IsDecimal, parse_number-IsDecimal, parse_number-value_from,
}

-- The digits 0 to 9, at least one, and no zero before others.
abbrev Digit : ℕ → Type 0
Digit d = (b'0' ≤ d) × (d ≤ b'9')

abbrev IsNumeral : List ℕ → Type 0
IsNumeral [] = ⊥
IsNumeral (d ∷ ds) = Digit d × All Digit ds × (d ≡ b'0' → ds ≡ [])

Digit-is_digit : (d : ℕ) → Digit d → is_digit d ≡ true
Digit-is_digit d h = ground arith

is_digit-Digit : (d : ℕ) → is_digit d ≡ true → Digit d
is_digit-Digit d h = (ground arith, ground arith)

All-is_digit : (ds : List ℕ) → All Digit ds → All (λ d. is_digit d ≡ true) ds
All-is_digit [] h = tt
All-is_digit (d ∷ ds) (here, rest) = (Digit-is_digit d here, All-is_digit ds rest)

is_digit-All : (ds : List ℕ) → All (λ d. is_digit d ≡ true) ds → All Digit ds
is_digit-All [] h = tt
is_digit-All (d ∷ ds) (here, rest) = (is_digit-Digit d here, is_digit-All ds rest)

alone :
    (d : ℕ) (ds : List ℕ)
    → All (λ d. is_digit d ≡ true) ds
    → (d == b'0' && starts_with_digit ds) ≡ false
    → d ≡ b'0'
    → ds ≡ []
alone d [] digits first zero = refl
alone d (e ∷ es) (digit, digits) first zero = absurd (ground arith)

not_alone :
    (d : ℕ) (ds : List ℕ) → (d ≡ b'0' → ds ≡ []) → (d == b'0' && starts_with_digit ds) ≡ false
not_alone d [] h = ground arith
not_alone d (e ∷ es) h = elim (Bool-cases (d == b'0')) [
  | inl zero ↦
      let padded : e ∷ es ≡ [] = h (ground arith) in
      let clash : starts_with_any (e ∷ es) ≡ false = ap starts_with_any padded in cc
  | inr other ↦ rw other refl
]

IsDecimal-IsNumeral : (ds : List ℕ) → IsDecimal ds → IsNumeral ds
IsDecimal-IsNumeral [] h = h
IsDecimal-IsNumeral (d ∷ ds) (digit, digits, first) =
    (is_digit-Digit d digit, is_digit-All ds digits, alone d ds digits first)

IsNumeral-IsDecimal : (ds : List ℕ) → IsNumeral ds → IsDecimal ds
IsNumeral-IsDecimal [] h = h
IsNumeral-IsDecimal (d ∷ ds) (digit, digits, first) =
    (Digit-is_digit d digit, All-is_digit ds digits, not_alone d ds first)

-- A number that fits a uint32_t, written in decimal.
abbrev pub Writes : List ℕ → ℕ → Type 0
Writes ds n = IsNumeral ds × (n ≡ value_from 0 ds) × (n ≤ uint32_max)

pub Writes-read :
    (ds rest : List ℕ) (n : ℕ)
    → Writes ds n
    → starts_with_digit rest ≡ false
    → parse_number (ds ++ rest) ≡ some (n, rest)
Writes-read ds rest n (numeral, value, top) stop =
    parse_number-value_from ds rest (IsNumeral-IsDecimal ds numeral) stop (omega arith)
    ∙ ap (λ (m : ℕ). some (m, rest)) (sym value)

pub read-Writes :
    (text : List ℕ) (n : ℕ) (rest : List ℕ)
    → parse_number text ≡ some (n, rest)
    → (ds : List ℕ) × (text ≡ ds ++ rest) × Writes ds n
read-Writes text n rest h =
    let (ds, e, decimal, stop, value, top) = parse_number-IsDecimal text n rest h in
    (ds, e, (IsDecimal-IsNumeral ds decimal, value, top))
