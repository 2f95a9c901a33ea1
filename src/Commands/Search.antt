-- ===== src/Commands/Search.antt =====
-- The search of the ledger: what it finds once another place is written.
use power_monitor_sensor_hea.Base.{
  ℕ, zero, suc, ◌+◌, ◌-◌, ◌≤◌, ◌<◌, ◌≡◌, ◌≢◌, refl, sym, ap, ◌∙◌, arith, ◌⊎◌, inl, inr, Bool, true,
  false, ◌||◌, none, some, List, [], ◌∷◌, length, get_or, set,
}
use power_monitor_sensor_hea.Commands.{Command}
use power_monitor_sensor_hea.Commands.Steps.{blank, same_text, find_entry}
use power_monitor_sensor_hea.Commands.Entries.{first_hit}
use power_monitor_sensor_hea.Commands.Replay.{no_hit}

pub same_text_sym : (a b : List ℕ) → same_text a b ≡ same_text b a
unfolding same_text
same_text_sym [] [] = refl
same_text_sym [] (y ∷ b) = refl
same_text_sym (x ∷ a) [] = refl
same_text_sym (x ∷ a) (y ∷ b) = let rest = same_text_sym a b in ground arith

-- The test that the search makes of an entry.
abbrev pub hits : Command → List ℕ → List ℕ → Bool
hits e id key = same_text e.command_id id || same_text e.idempotency_key key

find_entry-le :
    (es : List Command) (from : ℕ) (id key : List ℕ) (r : ℕ)
    → find_entry es from id key ≡ some r
    → from ≤ r
unfolding find_entry
find_entry-le [] from id key r h = cc
find_entry-le (e ∷ es) from id key r h = elim (first_hit (hits e id key) from r _ h) [
  | inl (_, same) ↦ omega arith
  | inr (_, later) ↦ let le = find_entry-le es (suc from) id key r later in omega arith
]

-- A search finds the first entry, or a place behind it.
cons_cases :
    (e : Command) (es : List Command) (from : ℕ) (id key : List ℕ) (k : ℕ)
    → find_entry (e ∷ es) from id key ≡ some (from + k)
    → ((hits e id key ≡ true) × (k ≡ 0))
      ⊎ ((hits e id key ≡ false)
          × (l : ℕ) × (k ≡ suc l)
          × (find_entry es (suc from) id key ≡ some (suc from + l)))
unfolding find_entry
cons_cases e es from id key k h = elim (first_hit (hits e id key) from (from + k) _ h) [
  | inl (hit, same) ↦ inl (hit, omega arith)
  | inr (miss, later) ↦
      let le = find_entry-le es (suc from) id key (from + k) later in
      let behind : k ≡ suc (k - 1) = omega arith in
      let place : from + k ≡ suc from + (k - 1) = omega arith in
      inr (miss, (k - 1), behind, later ∙ ap some place)
]

pub found-lt :
    (es : List Command) (from : ℕ) (id key : List ℕ) (k : ℕ)
    → find_entry es from id key ≡ some (from + k)
    → k < length es
found-lt [] from id key k h = unfold find_entry in cc
found-lt (e ∷ es) from id key k h = elim (cons_cases e es from id key k h) [
  | inl (_, first) ↦ omega arith
  | inr (_, l, behind, later) ↦ let lt = found-lt es (suc from) id key l later in omega arith
]

pub before_no_hit :
    (es : List Command) (from : ℕ) (id key : List ℕ) (k j : ℕ)
    → find_entry es from id key ≡ some (from + k)
    → j < k
    → hits (get_or es j blank) id key ≡ false
before_no_hit [] from id key k j h lt =
    let below = found-lt [] from id key k h in absurd (omega arith)
before_no_hit (e ∷ es) from id key k zero h lt = elim (cons_cases e es from id key k h) [
  | inl (_, first) ↦ absurd (omega arith)
  | inr (miss, _, _, _) ↦ miss
]
before_no_hit (e ∷ es) from id key k (suc j) h lt = elim (cons_cases e es from id key k h) [
  | inl (_, first) ↦ absurd (omega arith)
  | inr (_, l, behind, later) ↦ before_no_hit es (suc from) id key l j later (omega arith)
]

pub none_no_hit :
    (es : List Command) (from : ℕ) (id key : List ℕ) (j : ℕ)
    → find_entry es from id key ≡ none
    → j < length es
    → hits (get_or es j blank) id key ≡ false
unfolding find_entry
none_no_hit [] from id key j h lt = absurd (omega arith)
none_no_hit (e ∷ es) from id key zero h lt = (no_hit (hits e id key) from _ h).0
none_no_hit (e ∷ es) from id key (suc j) h lt =
    none_no_hit es (suc from) id key j (no_hit (hits e id key) from _ h).1 (omega arith)

-- Another place may be written, unless it comes first and is itself found.
pub find_entry-set_other :
    (es : List Command) (from : ℕ) (id key : List ℕ) (k j : ℕ) (new : Command)
    → find_entry es from id key ≡ some (from + k)
    → j ≢ k
    → (j < k → hits new id key ≡ false)
    → find_entry (set es j new) from id key ≡ some (from + k)
unfolding find_entry
find_entry-set_other [] from id key k j new h other miss = h
find_entry-set_other (e ∷ es) from id key k zero new h other miss =
    elim (cons_cases e es from id key k h) [
      | inl (_, first) ↦ absurd (other (sym first))
      | inr (_, l, behind, later) ↦
          let passes = miss (omega arith) in
          let place : suc from + l ≡ from + k = omega arith in rw passes (later ∙ ap some place)
    ]
find_entry-set_other (e ∷ es) from id key k (suc j) new h other miss =
    elim (cons_cases e es from id key k h) [
      | inl (hit, first) ↦ let place : from ≡ from + k = omega arith in rw hit (ap some place)
      | inr (passes, l, behind, later) ↦
          let place : suc from + l ≡ from + k = omega arith in
          let ih =
            find_entry-set_other es (suc from) id key l j new later (λ e. other (omega arith))
              (λ lt. miss (omega arith)) in
          rw passes (ih ∙ ap some place)
    ]
