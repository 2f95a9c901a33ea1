-- ===== src/Version/Texts.antt =====
-- Which texts are versions.
use power_monitor_sensor_hea.Base.{
  ℕ, ◌<◌, ◌≡◌, refl, sym, ap, subst, ◌∙◌, arith, ◌⊎◌, inl, inr, true, false, ◌||◌, ◌==◌,
  if◌then◌else◌, Option, none, some, List, [], ◌∷◌, ◌++◌, Bool-cases,
}
use power_monitor_sensor_hea.Version.{
  Version, starts_with_any, starts_with_digit, and_then, skip_dot, skip_prefix, parse_number,
  parse_suffix, parse_version,
}
use power_monitor_sensor_hea.Version.Numerals.{Writes, Writes-read, read-Writes}

abbrev pub rc_prefix : List ℕ
rc_prefix = b'-' ∷ b'r' ∷ b'c' ∷ b'.' ∷ []

-- Nothing for a release; `-rc.` and a number from 1 on, and nothing behind it, for a candidate.
abbrev pub IsSuffix : List ℕ → Version → Type 0
IsSuffix text v =
    ((text ≡ []) × (v.release_candidate ≡ 0) × (v.is_release_candidate ≡ false))
    ⊎ ((ds : List ℕ) × (text ≡ rc_prefix ++ ds)
        × Writes ds v.release_candidate
        × (0 < v.release_candidate)
        × (v.is_release_candidate ≡ true))

-- Three numbers with dots between them, and a suffix.
abbrev pub IsVersion : List ℕ → Version → Type 0
IsVersion text v =
    (majors minors patches suffix : List ℕ) × (text
      ≡ majors ++ b'.' ∷ (minors ++ b'.' ∷ (patches ++ suffix)))
    × Writes majors v.major
    × Writes minors v.minor
    × Writes patches v.patch
    × IsSuffix suffix v

and_then-some :
    {A B : Type 0} (o : Option A) (next : A → Option B) (b : B)
    → and_then o next ≡ some b
    → (a : A) × (o ≡ some a) × (next a ≡ some b)
and_then-some none next b h = cc
and_then-some (some a) next b h = (a, refl, h)

skip_dot-some : (t u : List ℕ) → skip_dot t ≡ some u → t ≡ b'.' ∷ u
skip_dot-some [] u h = cc
skip_dot-some (c ∷ cs) u h = elim (Bool-cases (c == b'.')) [
  | inl dot ↦
      let e : c ≡ b'.' = ground arith in let step : some cs ≡ some u = sym (rw dot refl) ∙ h in cc
  | inr other ↦ let step : none ≡ some u = sym (rw other refl) ∙ h in cc
]

skip_prefix-some : (ps t u : List ℕ) → skip_prefix ps t ≡ some u → t ≡ ps ++ u
skip_prefix-some [] t u h = cc
skip_prefix-some (p ∷ ps) [] u h = cc
skip_prefix-some (p ∷ ps) (c ∷ cs) u h = elim (Bool-cases (c == p)) [
  | inl same ↦
      let e : c ≡ p = ground arith in
      let rest = skip_prefix-some ps cs u (sym (rw same refl) ∙ h) in cc
  | inr other ↦ let step : none ≡ some u = sym (rw other refl) ∙ h in cc
]

nothing_behind : (t : List ℕ) → starts_with_any t ≡ false → t ≡ []
nothing_behind [] h = refl
nothing_behind (c ∷ cs) h = cc

all_read : (ds : List ℕ) → ds ++ [] ≡ ds
all_read [] = refl
all_read (d ∷ ds) = ap (λ (l : List ℕ). d ∷ l) (all_read ds)

-- The test behind the number of a candidate.
abbrev finish : ℕ → ℕ → ℕ → ℕ × List ℕ → Option Version
finish major minor patch (number, rest) =
    if number == 0 || starts_with_any rest
    then none
    else some record {
      major = major;
      minor = minor;
      patch = patch;
      release_candidate = number;
      is_release_candidate = true;
    }

-- A version with these numbers and this suffix.
abbrev HasParts : ℕ → ℕ → ℕ → List ℕ → Version → Type 0
HasParts major minor patch text v =
    (v.major ≡ major) × (v.minor ≡ minor) × (v.patch ≡ patch) × IsSuffix text v

finish-HasParts :
    (major minor patch number : ℕ) (ds text rest : List ℕ) (v : Version)
    → text ≡ rc_prefix ++ (ds ++ rest)
    → Writes ds number
    → finish major minor patch (number, rest) ≡ some v
    → HasParts major minor patch text v
finish-HasParts major minor patch number ds text rest v e writes h =
    elim (Bool-cases (number == 0 || starts_with_any rest)) [
      | inl bad ↦ let step : none ≡ some v = sym (rw bad refl) ∙ h in cc
      | inr good ↦
          let end = nothing_behind rest (ground arith) in
          let made : Version = record {
            major = major;
            minor = minor;
            patch = patch;
            release_candidate = number;
            is_release_candidate = true;
          } in
          let step : some made ≡ some v = sym (rw good refl) ∙ h in
          let is_made : made ≡ v = cc in
          let whole =
            e
            ∙ ap (λ (l : List ℕ). rc_prefix ++ (ds ++ l)) end
            ∙ ap (λ (l : List ℕ). rc_prefix ++ l) (all_read ds) in
          let parts : HasParts major minor patch text made =
            (refl, refl, refl, inr (ds, whole, writes, ground arith, refl)) in
          subst (HasParts major minor patch text) is_made parts
    ]

parse_suffix-HasParts :
    (major minor patch : ℕ) (text : List ℕ) (v : Version)
    → parse_suffix major minor patch text ≡ some v
    → HasParts major minor patch text v
unfolding parse_suffix
parse_suffix-HasParts major minor patch [] v h =
    let made : Version = record {
      major = major;
      minor = minor;
      patch = patch;
      release_candidate = 0;
      is_release_candidate = false;
    } in
    let is_made : made ≡ v = cc in
    subst (HasParts major minor patch []) is_made (refl, refl, refl, inl (refl, refl, refl))
parse_suffix-HasParts major minor patch (c ∷ cs) v h =
    let (u, eu, hu) = and_then-some (skip_prefix rc_prefix (c ∷ cs)) _ v h in
    let ((number, rest), en, hn) = and_then-some (parse_number u) _ v hu in
    let (ds, e, writes) = read-Writes u number rest en in
    finish-HasParts major minor patch number ds (c ∷ cs) rest v
      (skip_prefix-some rc_prefix (c ∷ cs) u eu ∙ ap (λ (l : List ℕ). rc_prefix ++ l) e) writes hn

pub parse_version_sound :
    (text : List ℕ) (v : Version) → parse_version text ≡ some v → IsVersion text v
unfolding parse_version
parse_version_sound text v h =
    let ((major, t1), e1, h1) = and_then-some (parse_number text) _ v h in
    let (t2, e2, h2) = and_then-some (skip_dot t1) _ v h1 in
    let ((minor, t3), e3, h3) = and_then-some (parse_number t2) _ v h2 in
    let (t4, e4, h4) = and_then-some (skip_dot t3) _ v h3 in
    let ((patch, t5), e5, h5) = and_then-some (parse_number t4) _ v h4 in
    let (as_, ea, wa) = read-Writes text major t1 e1 in
    let (bs, eb, wb) = read-Writes t2 minor t3 e3 in
    let (cs, ec, wc) = read-Writes t4 patch t5 e5 in
    let (is_major, is_minor, is_patch, suffix) = parse_suffix-HasParts major minor patch t5 v h5 in
    let d1 = skip_dot-some t1 t2 e2 in
    let d3 = skip_dot-some t3 t4 e4 in
    (
      as_,
      bs,
      cs,
      t5,
      cc,
      subst (Writes as_) (sym is_major) wa,
      subst (Writes bs) (sym is_minor) wb,
      subst (Writes cs) (sym is_patch) wc,
      suffix,
    )

suffix_no_digit :
    (suffix : List ℕ) (v : Version) → IsSuffix suffix v → starts_with_digit suffix ≡ false
suffix_no_digit suffix v (inl (e, _, _)) = ap starts_with_digit e
suffix_no_digit suffix v (inr (ds, e, _, _, _)) = ap starts_with_digit e

finish-some :
    (v : Version)
    → 0 < v.release_candidate
    → v.is_release_candidate ≡ true
    → finish v.major v.minor v.patch (v.release_candidate, []) ≡ some v
finish-some v above candidate =
    let positive : (v.release_candidate == 0) ≡ false = ground arith in
    rw (positive, sym candidate) refl

parse_suffix_complete :
    (suffix : List ℕ) (v : Version)
    → IsSuffix suffix v
    → parse_suffix v.major v.minor v.patch suffix ≡ some v
unfolding parse_suffix
parse_suffix_complete suffix v (inl (e, number, released)) = rw (e, sym number, sym released) refl
parse_suffix_complete suffix v (inr (ds, e, writes, above, candidate)) =
    let read : parse_number ds ≡ some (v.release_candidate, []) =
      ap parse_number (sym (all_read ds)) ∙ Writes-read ds [] v.release_candidate writes refl in
    rw (e, read) (finish-some v above candidate)

pub parse_version_complete :
    (text : List ℕ) (v : Version) → IsVersion text v → parse_version text ≡ some v
unfolding parse_version
parse_version_complete text v (as_, bs, cs, suffix, e, wa, wb, wc, is_suffix) =
    rw
      (
        e,
        Writes-read as_ (b'.' ∷ (bs ++ b'.' ∷ (cs ++ suffix))) v.major wa refl,
        Writes-read bs (b'.' ∷ (cs ++ suffix)) v.minor wb refl,
        Writes-read cs suffix v.patch wc (suffix_no_digit suffix v is_suffix),
      )
      (parse_suffix_complete suffix v is_suffix)
