-- ===== src/Version/Order.antt =====
-- The order of versions.
use power_monitor_sensor_hea.Base.{
  ℕ, ◌<◌, ◌≡◌, refl, subst, arith, ◌⊎◌, inl, inr, true, false, Option, none, some, List, Bool-cases,
}
use power_monitor_sensor_hea.Base.Int.{pos, ltb_ℤ}
use power_monitor_sensor_hea.Base.Esp.{ok, not_supported}
use power_monitor_sensor_hea.Version.Texts.{IsVersion, parse_version_sound, parse_version_complete}
use power_monitor_sensor_hea.Version.{
  Version, parse_version, compare_versions, compare_parsed, require_upgrade,
}

-- `a` is newer than `b`: by its numbers from the left; a release is newer than its candidates, and of
-- two candidates the later one.
abbrev pub Newer : Version → Version → Type 0
Newer a b =
    (b.major < a.major)
    ⊎ ((a.major ≡ b.major)
        × ((b.minor < a.minor)
            ⊎ ((a.minor ≡ b.minor)
                × ((b.patch < a.patch)
                    ⊎ ((a.patch ≡ b.patch)
                        × (b.is_release_candidate ≡ true)
                        × ((a.is_release_candidate ≡ false)
                            ⊎ (b.release_candidate < a.release_candidate)))))))

pub compare_versions-Newer :
    (a b : Version)
    → (ltb_ℤ (pos 0) (compare_versions a b) ≡ true → Newer a b)
      × (Newer a b → ltb_ℤ (pos 0) (compare_versions a b) ≡ true)
unfolding compare_versions
compare_versions-Newer a b = (λ h. ground arith, λ h. ground arith)

pub Newer-trans : (a b c : Version) → Newer a b → Newer b c → Newer a c
Newer-trans a b c h k = ground arith

pub Newer-irrefl : (a : Version) → Newer a a → ⊥
Newer-irrefl a h = ground arith

-- Both texts are read as versions, and the second is the newer one.
abbrev Parsed : List ℕ → List ℕ → Type 0
Parsed current candidate =
    (old : Version) × (new : Version) × (parse_version current ≡ some old)
    × (parse_version candidate ≡ some new)
    × Newer new old

-- Both texts are versions, and the second is the newer one.
abbrev pub IsUpgrade : List ℕ → List ℕ → Type 0
IsUpgrade current candidate =
    (old : Version) × (new : Version) × IsVersion current old
    × IsVersion candidate new
    × Newer new old

compare_parsed-ok :
    (o p : Option Version)
    → compare_parsed o p ≡ ok
    → (old : Version) × (new : Version) × (o ≡ some old) × (p ≡ some new) × Newer new old
compare_parsed-ok none p h = cc
compare_parsed-ok (some old) none h = cc
compare_parsed-ok (some old) (some new) h =
    elim (Bool-cases (ltb_ℤ (pos 0) (compare_versions new old))) [
      | inl above ↦ (old, new, refl, refl, (compare_versions-Newer new old).0 above)
      | inr below ↦
          let e : compare_parsed (some old) (some new) ≡ not_supported = rw below refl in cc
    ]

compare_parsed-Newer :
    (o p : Option Version) (old new : Version)
    → o ≡ some old
    → p ≡ some new
    → Newer new old
    → compare_parsed o p ≡ ok
compare_parsed-Newer o p old new eo ep h = rw (eo, ep, (compare_versions-Newer new old).1 h) refl

require_upgrade-Parsed :
    (current candidate : List ℕ)
    → (require_upgrade current candidate ≡ ok → Parsed current candidate)
      × (Parsed current candidate → require_upgrade current candidate ≡ ok)
unfolding require_upgrade
require_upgrade-Parsed current candidate = (
  compare_parsed-ok (parse_version current) (parse_version candidate),
  λ (old, new, eo, ep, h).
      compare_parsed-Newer (parse_version current) (parse_version candidate) old new eo ep h,
)

-- An upgrade is allowed exactly when both texts are versions and the candidate is newer than what runs. A
-- version is three decimal numbers with dots between them, and for a release candidate `-rc.` and a
-- number from 1 on, with nothing behind it; each number fits a uint32_t and has no leading zero.
pub require_upgrade-IsUpgrade :
    (current candidate : List ℕ)
    → (require_upgrade current candidate ≡ ok → IsUpgrade current candidate)
      × (IsUpgrade current candidate → require_upgrade current candidate ≡ ok)
require_upgrade-IsUpgrade current candidate = (
  λ h.
      let (old, new, eo, en, newer) = (require_upgrade-Parsed current candidate).0 h in
      (old, new, parse_version_sound current old eo, parse_version_sound candidate new en, newer),
  λ (old, new, io, in_, newer). (require_upgrade-Parsed current candidate).1 (
    old,
    new,
    parse_version_complete current old io,
    parse_version_complete candidate new in_,
    newer,
  ),
)

compare_parsed_older :
    (o p : Option Version) (old new : Version)
    → o ≡ some new
    → p ≡ some old
    → Newer new old
    → compare_parsed o p ≡ not_supported
compare_parsed_older o p old new eo ep h =
    elim (Bool-cases (ltb_ℤ (pos 0) (compare_versions old new))) [
      | inl above ↦
          absurd (
            Newer-irrefl new (Newer-trans new old new h ((compare_versions-Newer old new).0 above)))
      | inr below ↦ rw (eo, ep, below) refl
    ]

-- Two allowed upgrades in a row make an allowed upgrade, and neither of the newer versions may be
-- replaced by the first.
pub require_upgrade_chain :
    (first second third : List ℕ)
    → require_upgrade first second ≡ ok
    → require_upgrade second third ≡ ok
    → (require_upgrade first third ≡ ok)
      × (require_upgrade second first ≡ not_supported)
      × (require_upgrade third first ≡ not_supported)
require_upgrade_chain first second third h k =
    let (a, b, ea, eb, ab) = (require_upgrade-Parsed first second).0 h in
    let (b2, c, eb2, ec, bc) = (require_upgrade-Parsed second third).0 k in
    let same : b2 ≡ b = cc in
    let bc2 : Newer c b = subst (λ (v : Version). Newer c v) same bc in
    let ac = Newer-trans c b a bc2 ab in
    (
      (require_upgrade-Parsed first third).1 (a, c, ea, ec, ac),
      unfold require_upgrade in
          compare_parsed_older (parse_version second) (parse_version first) a b eb ea ab,
      unfold require_upgrade in
          compare_parsed_older (parse_version third) (parse_version first) a c ec ea ac,
    )
