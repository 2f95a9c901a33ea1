-- ===== src/HttpResponse/Unique.antt =====
-- The headers of a whole response: the capture of all of them, and what it says of each field.
use power_monitor_sensor_hea.Base.{
  ℕ, ◌≡◌, refl, sym, ap, ◌∙◌, subst, arith, ◌⊎◌, inl, inr, Bool, true, false, if◌then◌else◌,
  Bool-cases, Option, none, some, List, [], ◌∷◌,
}
use power_monitor_sensor_hea.Base.Bits.{digit}
use power_monitor_sensor_hea.HttpResponse.{
  Field, field_index, Capture, same_field, classify, capture_named, capture_header,
}
use power_monitor_sensor_hea.HttpResponse.Digits.{digit-raise}
use power_monitor_sensor_hea.HttpResponse.Step.{
  same_field-equal, fits, capture_field_cases, capture_field-stored,
}

-- A header's name and value.
abbrev pub Header : Type 0
Header = List ℕ × List ℕ

-- The capture of the headers in the order of their arrival.
unfoldable pub feed : Capture → List Header → Capture
feed c [] = c
feed c ((name, value) ∷ hs) = feed (capture_header c name value).0 hs

abbrev labelled : Option Field → Field → Bool
labelled none f = false
labelled (some g) f = same_field g f

-- The values of the headers with the field's name.
unfoldable pub values : Field → List Header → List (List ℕ)
values f [] = []
values f ((name, value) ∷ hs) =
    let rest = values f hs in if labelled (classify name) f then value ∷ rest else rest

abbrev after : Capture → Option Field → List ℕ → Capture
after c r value = (capture_named c r value).0

capture_header-after :
    (c : Capture) (name value : List ℕ)
    → c.invalid ≡ false
    → (capture_header c name value).0 ≡ after c (classify name) value
unfolding capture_header
capture_header-after c name value h = rw h refl

invalid-feed : (c : Capture) (hs : List Header) → c.invalid ≡ true → (feed c hs).invalid ≡ true
unfolding feed
invalid-feed c [] h = h
invalid-feed c ((name, value) ∷ hs) h =
    let same : (capture_header c name value).0 ≡ c = unfold capture_header in rw h refl in
    ap (λ (s : Capture). (feed s hs).invalid) same ∙ invalid-feed c hs h

valid_before : (c : Capture) (hs : List Header) → (feed c hs).invalid ≡ false → c.invalid ≡ false
valid_before c hs h = elim (Bool-cases c.invalid) [
  | inl bad ↦ cc (invalid-feed c hs bad)
  | inr good ↦ good
]

valid_head :
    (c : Capture) (name value : List ℕ)
    → (capture_header c name value).0.invalid ≡ false
    → c.invalid ≡ false
unfolding feed
valid_head c name value = valid_before c ((name, value) ∷ [])

-- A header of another name leaves the field; one of its name stores a value that fits, once.
after_cases :
    (c : Capture) (r : Option Field) (value : List ℕ) (f : Field)
    → (after c r value).invalid ≡ false
    → ((labelled r f ≡ false)
        × (digit (field_index f) (after c r value).seen_mask ≡ digit (field_index f) c.seen_mask)
        × ((after c r value).text f ≡ c.text f))
      ⊎ ((labelled r f ≡ true)
          × (digit (field_index f) c.seen_mask ≡ 0)
          × (fits f value ≡ true)
          × (digit (field_index f) (after c r value).seen_mask ≡ 1)
          × ((after c r value).text f ≡ value))
after_cases c none value f h = inl (refl, refl, refl)
after_cases c (some g) value f h = elim (capture_field_cases c g value) [
  | inl bad ↦ cc
  | inr (fresh, fit, e) ↦ elim (Bool-cases (same_field g f)) [
    | inl same ↦
        let g-f = same_field-equal g f same in
        inr (
          same,
          rw (sym g-f) fresh,
          rw (sym g-f) fit,
          rw (e, digit-raise c.seen_mask g f, same) refl,
          rw (e, same) refl,
        )
    | inr other ↦ inl (other, rw (e, digit-raise c.seen_mask g f, other) refl, rw (e, other) refl)
  ]
]

-- A field that is captured stays as it is, and no other header has its name.
feed-captured :
    (hs : List Header) (c : Capture) (f : Field)
    → digit (field_index f) c.seen_mask ≡ 1
    → (feed c hs).invalid ≡ false
    → (values f hs ≡ [])
      × (digit (field_index f) (feed c hs).seen_mask ≡ 1)
      × ((feed c hs).text f ≡ c.text f)
unfolding feed values
feed-captured [] c f seen h = (refl, seen, refl)
feed-captured ((name, value) ∷ hs) c f seen h =
    let first = (capture_header c name value).0 in
    let good = valid_before first hs h in
    let e = capture_header-after c name value (valid_head c name value good) in
    elim (after_cases c (classify name) value f (sym (ap (λ (s : Capture). s.invalid) e) ∙ good)) [
      | inl (other, digits, texts) ↦
          let (none_left, still, text) = feed-captured hs first f (rw (e, digits) seen) h in
          (rw other none_left, still, text ∙ rw e texts)
      | inr (_, fresh, _, _, _) ↦ absurd (omega arith)
    ]

-- A field that is not captured has no header, or one that fits and is captured.
pub feed-fresh :
    (hs : List Header) (c : Capture) (f : Field)
    → digit (field_index f) c.seen_mask ≡ 0
    → (feed c hs).invalid ≡ false
    → ((values f hs ≡ []) × (digit (field_index f) (feed c hs).seen_mask ≡ 0))
      ⊎ ((v : List ℕ) × (values f hs ≡ v ∷ [])
          × (fits f v ≡ true)
          × (digit (field_index f) (feed c hs).seen_mask ≡ 1)
          × ((feed c hs).text f ≡ v))
unfolding feed values
feed-fresh [] c f fresh h = inl (refl, fresh)
feed-fresh ((name, value) ∷ hs) c f fresh h =
    let first = (capture_header c name value).0 in
    let good = valid_before first hs h in
    let e = capture_header-after c name value (valid_head c name value good) in
    elim (after_cases c (classify name) value f (sym (ap (λ (s : Capture). s.invalid) e) ∙ good)) [
      | inl (other, digits, texts) ↦ elim (feed-fresh hs first f (rw (e, digits) fresh) h) [
        | inl (nothing, still) ↦ inl (rw other nothing, still)
        | inr (v, one, fit, seen, text) ↦ inr (v, rw other one, fit, seen, text)
      ]
      | inr (named, _, fit, digits, texts) ↦
          let (none_left, still, text) = feed-captured hs first f (rw (e, digits) refl) h in
          inr (value, rw (named, none_left) refl, fit, still, text ∙ rw e texts)
    ]

-- What may still come for a field: nothing once it is captured, and at most one value that fits.
abbrev pub Open : Capture → Field → List (List ℕ) → Type 0
Open c f vs =
    ((digit (field_index f) c.seen_mask ≡ 0) × (vs ≡ []))
    ⊎ ((digit (field_index f) c.seen_mask ≡ 0) × (v : List ℕ) × (vs ≡ v ∷ []) × (fits f v ≡ true))
    ⊎ ((digit (field_index f) c.seen_mask ≡ 1) × (vs ≡ []))

same_field_refl : (f : Field) → same_field f f ≡ true
same_field_refl f = ground arith

cons_fits :
    (c : Capture) (g : Field) (value : List ℕ) (rest : List (List ℕ))
    → Open c g (value ∷ rest)
    → (digit (field_index g) c.seen_mask ≡ 0) × (fits g value ≡ true) × (rest ≡ [])
cons_fits c g value rest (inl (_, e)) = cc
cons_fits c g value rest (inr (inl (fresh, v, e, fit))) = (fresh, cc, cc)
cons_fits c g value rest (inr (inr (_, e))) = cc

Open-other :
    (c d : Capture) (f : Field) (vs : List (List ℕ))
    → digit (field_index f) d.seen_mask ≡ digit (field_index f) c.seen_mask
    → Open c f vs
    → Open d f vs
Open-other c d f vs e (inl (fresh, h)) = inl (e ∙ fresh, h)
Open-other c d f vs e (inr (inl (fresh, v, one, fit))) = inr (inl (e ∙ fresh, v, one, fit))
Open-other c d f vs e (inr (inr (seen, h))) = inr (inr (e ∙ seen, h))

after-Open :
    (c : Capture) (r : Option Field) (value : List ℕ) (rest : Field → List (List ℕ))
    → c.invalid ≡ false
    → ((f : Field) → Open c f (if labelled r f then value ∷ rest f else rest f))
    → ((after c r value).invalid ≡ false) × ((f : Field) → Open (after c r value) f (rest f))
after-Open c none value rest good still = (good, still)
after-Open c (some g) value rest good still =
    let at_g : Open c g (if same_field g g then value ∷ rest g else rest g) = still g in
    let (fresh, fit, none_left) = cons_fits c g value (rest g) (
      subst (λ (b : Bool). Open c g (if b then value ∷ rest g else rest g)) (same_field_refl g)
        at_g) in
    let e = capture_field-stored c g value fresh fit in
    (
      ap (λ (s : Capture). s.invalid) e ∙ good,
      λ f. elim (Bool-cases (same_field g f)) [
        | inl same ↦
            let g-f = same_field-equal g f same in
            inr (inr (rw (e, digit-raise c.seen_mask g f, same) refl, rw (sym g-f) none_left))
        | inr other ↦
            let e2 : digit (field_index f) (after c (some g) value).seen_mask
                ≡ digit (field_index f) c.seen_mask =
              rw (e, digit-raise c.seen_mask g f, other) refl in
            Open-other c (after c (some g) value) f (rest f) e2 (
              subst (λ (b : Bool). Open c f (if b then value ∷ rest f else rest f)) other (still f))
      ],
    )

-- A capture stays valid while no field gets a second header or one that does not fit.
pub feed-Open :
    (hs : List Header) (c : Capture)
    → c.invalid ≡ false
    → ((f : Field) → Open c f (values f hs))
    → (feed c hs).invalid ≡ false
unfolding feed values
feed-Open [] c good still = good
feed-Open ((name, value) ∷ hs) c good still =
    let (good2, still2) = after-Open c (classify name) value (λ f. values f hs) good still in
    ap (λ (s : Capture). (feed s hs).invalid) (capture_header-after c name value good)
    ∙ feed-Open hs (after c (classify name) value) good2 still2
