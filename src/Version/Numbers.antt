-- ===== src/Version/Numbers.antt =====
-- The numbers of a version.
use power_monitor_sensor_hea.Base.{
  ℕ, ◌+◌, ◌-◌, ◌*◌, ◌/◌, ◌≤◌, ◌≡◌, refl, sym, ap, ◌∙◌, arith, inl, inr, Bool, true, false, ◌&&◌,
  ◌==◌, ltb, none, some, List, [], ◌∷◌, ◌++◌, All, Bool-cases, uint32_max,
}
use power_monitor_sensor_hea.Version.{is_digit, starts_with_digit, digits_from, parse_number}

-- The value of decimal digits behind a number.
unfoldable pub value_from : ℕ → List ℕ → ℕ
value_from n [] = n
value_from n (d ∷ ds) = value_from (n * 10 + (d - b'0')) ds

-- What is read of a text: its digits, all of them, and their value, which fits a uint32_t.
abbrev pub Reads : ℕ → List ℕ → ℕ → List ℕ → Type 0
Reads from text n rest =
    (ds : List ℕ) × (text ≡ ds ++ rest)
    × All (λ d. is_digit d ≡ true) ds
    × (starts_with_digit rest ≡ false)
    × (n ≡ value_from from ds)
    × (n ≤ uint32_max)

digits_from-Reads :
    (parsed : ℕ) (text : List ℕ) (n : ℕ) (rest : List ℕ)
    → parsed ≤ uint32_max
    → digits_from parsed text ≡ some (n, rest)
    → Reads parsed text n rest
unfolding digits_from value_from
digits_from-Reads parsed [] n rest bound h =
    let e : parsed ≡ n = cc in
    let r : [] ≡ rest = cc in ([], r, tt, rw (sym r) refl, sym e, omega arith)
digits_from-Reads parsed (c ∷ cs) n rest bound h = elim (Bool-cases (is_digit c)) [
  | inr other ↦
      let stop : some (parsed, c ∷ cs) ≡ some (n, rest) = sym (rw other refl) ∙ h in
      let e : parsed ≡ n = cc in
      let r : c ∷ cs ≡ rest = cc in ([], r, tt, rw (sym r) other, sym e, omega arith)
  | inl digit ↦ elim (Bool-cases (ltb ((uint32_max - (c - b'0')) / 10) parsed)) [
    | inl over ↦ let stop : none ≡ some (n, rest) = sym (rw (digit, over) refl) ∙ h in cc
    | inr fits ↦
        let more : digits_from (parsed * 10 + (c - b'0')) cs ≡ some (n, rest) =
          sym (rw (digit, fits) refl) ∙ h in
        let (ds, e, digits, stop, value, top) =
          digits_from-Reads (parsed * 10 + (c - b'0')) cs n rest (ground arith) more in
        (c ∷ ds, ap (λ (l : List ℕ). c ∷ l) e, (digit, digits), stop, value, top)
  ]
]

value_from-le : (n : ℕ) (ds : List ℕ) → n ≤ value_from n ds
unfolding value_from
value_from-le n [] = omega arith
value_from-le n (d ∷ ds) = omega (arith, value_from-le (n * 10 + (d - b'0')) ds)

digits_from-value_from :
    (parsed : ℕ) (ds rest : List ℕ)
    → All (λ d. is_digit d ≡ true) ds
    → starts_with_digit rest ≡ false
    → value_from parsed ds ≤ uint32_max
    → digits_from parsed (ds ++ rest) ≡ some (value_from parsed ds, rest)
unfolding digits_from value_from
digits_from-value_from parsed [] [] digits stop top = refl
digits_from-value_from parsed [] (c ∷ cs) digits stop top = rw stop refl
digits_from-value_from parsed (d ∷ ds) rest (digit, digits) stop top =
    let here = value_from-le (parsed * 10 + (d - b'0')) ds in
    let fits : ltb ((uint32_max - (d - b'0')) / 10) parsed ≡ false = ground arith in
    rw (digit, fits) (digits_from-value_from (parsed * 10 + (d - b'0')) ds rest digits stop top)

-- The decimal writing of a number: digits, at least one, and no zero before others.
abbrev pub IsDecimal : List ℕ → Type 0
IsDecimal [] = ⊥
IsDecimal (d ∷ ds) =
    (is_digit d ≡ true)
    × All (λ d. is_digit d ≡ true) ds
    × ((d == b'0' && starts_with_digit ds) ≡ false)

first_digit :
    (d : ℕ) (ds rest : List ℕ)
    → (d == b'0' && starts_with_digit ds) ≡ false
    → starts_with_digit rest ≡ false
    → (d == b'0' && starts_with_digit (ds ++ rest)) ≡ false
first_digit d [] rest h stop = ground arith
first_digit d (e ∷ ds) rest h stop = h

-- A decimal number that fits a uint32_t is read, up to the first byte that is no digit.
pub parse_number-value_from :
    (ds rest : List ℕ)
    → IsDecimal ds
    → starts_with_digit rest ≡ false
    → value_from 0 ds ≤ uint32_max
    → parse_number (ds ++ rest) ≡ some (value_from 0 ds, rest)
unfolding parse_number
parse_number-value_from [] rest decimal stop top = absurd decimal
parse_number-value_from (d ∷ ds) rest (digit, digits, first) stop top =
    rw (digit, first_digit d ds rest first stop)
      (digits_from-value_from 0 (d ∷ ds) rest (digit, digits) stop top)

decimal_parts :
    (c : ℕ) (cs : List ℕ) (n : ℕ) (rest : List ℕ)
    → parse_number (c ∷ cs) ≡ some (n, rest)
    → (is_digit c ≡ true)
      × ((c == b'0' && starts_with_digit cs) ≡ false)
      × (digits_from 0 (c ∷ cs) ≡ some (n, rest))
unfolding parse_number
decimal_parts c cs n rest h = elim (Bool-cases (is_digit c)) [
  | inr other ↦ let stop : none ≡ some (n, rest) = sym (rw other refl) ∙ h in cc
  | inl digit ↦ elim (Bool-cases (c == b'0' && starts_with_digit cs)) [
    | inl padded ↦ let stop : none ≡ some (n, rest) = sym (rw (digit, padded) refl) ∙ h in cc
    | inr first ↦ (digit, first, sym (rw (digit, first) refl) ∙ h)
  ]
]

cut-IsDecimal :
    (c : ℕ) (cs ds rest : List ℕ)
    → is_digit c ≡ true
    → (c == b'0' && starts_with_digit cs) ≡ false
    → c ∷ cs ≡ ds ++ rest
    → All (λ d. is_digit d ≡ true) ds
    → starts_with_digit rest ≡ false
    → IsDecimal ds
cut-IsDecimal c cs [] rest digit first e digits stop =
    let clash : is_digit c ≡ false = ap starts_with_digit e ∙ stop in cc
cut-IsDecimal c cs (d ∷ []) rest digit first e (d0, digits) stop = (d0, digits, ground arith)
cut-IsDecimal c cs (d ∷ d2 ∷ ds) rest digit first e (d0, digits) stop =
    let head : c ≡ d = cc in
    let tail : cs ≡ d2 ∷ (ds ++ rest) = cc in
    let starts : starts_with_digit cs ≡ is_digit d2 = ap starts_with_digit tail in
    (
      d0,
      digits,
      sym (ap (λ (x : ℕ). x == b'0' && is_digit d2) head)
          ∙ sym (ap (λ (b : Bool). c == b'0' && b) starts)
          ∙ first,
    )

empty_number : parse_number [] ≡ none
unfolding parse_number
empty_number = refl

-- What is read of a text is its longest run of digits, which has no leading zero; the number returned is
-- their decimal value and fits a uint32_t.
pub parse_number-IsDecimal :
    (text : List ℕ) (n : ℕ) (rest : List ℕ)
    → parse_number text ≡ some (n, rest)
    → (ds : List ℕ) × (text ≡ ds ++ rest)
      × IsDecimal ds
      × (starts_with_digit rest ≡ false)
      × (n ≡ value_from 0 ds)
      × (n ≤ uint32_max)
parse_number-IsDecimal [] n rest h = let e = empty_number in cc
parse_number-IsDecimal (c ∷ cs) n rest h =
    let (digit, first, loop) = decimal_parts c cs n rest h in
    let (ds, e, digits, stop, value, top) =
      digits_from-Reads 0 (c ∷ cs) n rest (omega arith) loop in
    (ds, e, cut-IsDecimal c cs ds rest digit first e digits stop, stop, value, top)
