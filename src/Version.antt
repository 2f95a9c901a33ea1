-- ===== src/Version.antt =====
-- Versions of the firmware: components/pm_ota/pm_ota_version.c.
-- A C string is the list of its bytes before the NUL, so the end of the list is the NUL. Pointers are
-- never NULL. The cursor is what is left of the text.
pub mod Order
pub mod Numbers
pub mod Numerals
pub mod Texts
mod Tests
use power_monitor_sensor_hea.Base.{
  ℕ, zero, suc, ◌+◌, ◌-◌, ◌*◌, ◌/◌, Bool, true, false, not, ◌&&◌, ◌||◌, ◌==◌, ltb, leb,
  if◌then◌else◌, Option, none, some, List, [], ◌∷◌, uint32_max,
}
use power_monitor_sensor_hea.Base.Int.{ℤ, pos, negsuc, ltb_ℤ}
use power_monitor_sensor_hea.Base.Esp.{EspErr, ok, invalid_arg, not_supported}

-- pm_ota_version_t
pub record Version : Type 0 where
  pub major : ℕ
  pub minor : ℕ
  pub patch : ℕ
  pub release_candidate : ℕ
  pub is_release_candidate : Bool

abbrev pub is_digit : ℕ → Bool
is_digit c = leb b'0' c && leb c b'9'

-- The loop over the digits, from the number so far.
unfoldable pub digits_from : ℕ → List ℕ → Option (ℕ × List ℕ)
digits_from parsed [] = some (parsed, [])
digits_from parsed (c ∷ cs) =
    let digit = c - b'0' in
    let rest = digits_from (parsed * 10 + digit) cs in
    if not (is_digit c)
    then some (parsed, c ∷ cs)
    else if ltb ((uint32_max - digit) / 10) parsed
    then none
    else rest

abbrev pub starts_with_digit : List ℕ → Bool
starts_with_digit [] = false
starts_with_digit (c ∷ cs) = is_digit c

unfoldable pub parse_number : List ℕ → Option (ℕ × List ℕ)
parse_number [] = none
parse_number (c ∷ cs) =
    if not (is_digit c)
    then none
    else if c == b'0' && starts_with_digit cs
    then none
    else digits_from 0 (c ∷ cs)

abbrev pub starts_with_any : List ℕ → Bool
starts_with_any [] = false
starts_with_any (c ∷ cs) = true

abbrev pub and_then {ℓ κ} : {A : Type ℓ} {B : Type κ} → Option A → (A → Option B) → Option B
and_then none next = none
and_then (some a) next = next a

-- `*cursor++ != '.'`
abbrev pub skip_dot : List ℕ → Option (List ℕ)
skip_dot [] = none
skip_dot (c ∷ cs) = if c == b'.' then some cs else none

-- `strncmp(cursor, prefix, n) != 0`, and the advance behind the prefix.
abbrev pub skip_prefix : List ℕ → List ℕ → Option (List ℕ)
skip_prefix [] text = some text
skip_prefix (p ∷ ps) [] = none
skip_prefix (p ∷ ps) (c ∷ cs) = let rest = skip_prefix ps cs in if c == p then rest else none

-- What follows the three numbers.
unfoldable pub parse_suffix : ℕ → ℕ → ℕ → List ℕ → Option Version
parse_suffix major minor patch [] = some record {
  major = major;
  minor = minor;
  patch = patch;
  release_candidate = 0;
  is_release_candidate = false;
}
parse_suffix major minor patch (c ∷ cs) =
    and_then (skip_prefix (b'-' ∷ b'r' ∷ b'c' ∷ b'.' ∷ []) (c ∷ cs)) (λ text.
      and_then (parse_number text) (λ (number, rest).
        if number == 0 || starts_with_any rest
        then none
        else some record {
          major = major;
          minor = minor;
          patch = patch;
          release_candidate = number;
          is_release_candidate = true;
        }))

unfoldable pub parse_version : List ℕ → Option Version
parse_version text = and_then (parse_number text) (λ (major, t1). and_then (skip_dot t1) (λ t2.
    and_then (parse_number t2) (λ (minor, t3).
      and_then (skip_dot t3)
        (λ t4. and_then (parse_number t4) (λ (patch, t5). parse_suffix major minor patch t5)))))

-- One round of the loop over the three numbers: where they differ, that decides.
abbrev pub compare_or : ℕ → ℕ → ℤ → ℤ
compare_or left right rest =
    if not (left == right) then (if ltb right left then pos 1 else negsuc 0) else rest

unfoldable pub compare_versions : Version → Version → ℤ
compare_versions left right = compare_or left.major right.major (
    compare_or left.minor right.minor (
      compare_or left.patch right.patch (
        if left.is_release_candidate && not right.is_release_candidate
        then negsuc 0
        else if not left.is_release_candidate && right.is_release_candidate
        then pos 1
        else if not left.is_release_candidate || left.release_candidate == right.release_candidate
        then pos 0
        else if ltb right.release_candidate left.release_candidate
        then pos 1
        else negsuc 0)))

abbrev pub compare_parsed : Option Version → Option Version → EspErr
compare_parsed (some current) (some candidate) =
    if ltb_ℤ (pos 0) (compare_versions candidate current) then ok else not_supported
compare_parsed (some current) none = invalid_arg
compare_parsed none candidate = invalid_arg

unfoldable pub require_upgrade : List ℕ → List ℕ → EspErr
require_upgrade current candidate = compare_parsed (parse_version current) (parse_version candidate)
