-- ===== src/HttpResponse/Step.antt =====
-- One header's effect on one field of the capture.
use Prim.Native.Nat.{bit_and, bit_or, min}
use power_monitor_sensor_hea.Base.{
  ℕ, zero, suc, ◌≡◌, refl, sym, ap, ◌∙◌, arith, ◌⊎◌, inl, inr, Bool, true, not, ◌&&◌, ◌||◌, ◌==◌,
  leb, ltb, Bool-cases, List, [], ◌∷◌, length, take, get_or,
}
use power_monitor_sensor_hea.Base.Bits.{digit}
use power_monitor_sensor_hea.HttpResponse.{
  Field, protocol, device_id, timestamp, nonce, content_sha256, signature, etag, field_index,
  field_flag, capacity, Capture, same_field, write, bounded_value_length, capture_field,
}
use power_monitor_sensor_hea.HttpResponse.Digits.{unseen}

abbrev field_at : ℕ → Field
field_at i =
    get_or (protocol ∷ device_id ∷ timestamp ∷ nonce ∷ content_sha256 ∷ signature ∷ []) i etag

field_at-field_index : (f : Field) → field_at (field_index f) ≡ f
field_at-field_index protocol = refl
field_at-field_index device_id = refl
field_at-field_index timestamp = refl
field_at-field_index nonce = refl
field_at-field_index content_sha256 = refl
field_at-field_index signature = refl
field_at-field_index etag = refl

equal_index : (i j : ℕ) → (i == j) ≡ true → i ≡ j
equal_index i j h = ground arith

pub same_field-equal : (f g : Field) → same_field f g ≡ true → f ≡ g
same_field-equal f g h =
    sym (field_at-field_index f)
    ∙ ap field_at (equal_index (field_index f) (field_index g) h)
    ∙ field_at-field_index g

bounded_value_length-min : (v : List ℕ) (n : ℕ) → bounded_value_length v n ≡ min (length v) n
unfolding bounded_value_length
bounded_value_length-min v zero = omega arith
bounded_value_length-min [] (suc n) = omega arith
bounded_value_length-min (c ∷ cs) (suc n) = omega (arith, bounded_value_length-min cs n)

take_all : (v : List ℕ) → take (length v) v ≡ v
take_all [] = refl
take_all (c ∷ cs) = ap (λ (l : List ℕ). c ∷ l) (take_all cs)

-- The value and its NUL fit into the field's array, and there is a value.
unfoldable pub fits : Field → List ℕ → Bool
fits f value = leb 1 (length value) && ltb (length value) (capacity f)

-- The capture with one more field.
abbrev pub stored : Capture → Field → List ℕ → Capture
stored c f value = record c {
  text = write c.text f value;
  seen_mask = bit_or c.seen_mask (field_flag f);
}

-- The code's test, said of the mask's digit and of the whole value.
guard_lem :
    (mask : ℕ) (f : Field) (value : List ℕ)
    → let length = bounded_value_length value (capacity f) in
      (not (bit_and mask (field_flag f) == 0) || length == 0 || leb (capacity f) length)
      ≡ not (digit (field_index f) mask == 0 && fits f value)
unfolding fits
guard_lem mask f value = ground (arith, unseen mask f, bounded_value_length-min value (capacity f))

take_bounded :
    (f : Field) (value : List ℕ)
    → fits f value ≡ true
    → take (bounded_value_length value (capacity f)) value ≡ value
unfolding fits
take_bounded f value h =
    let whole : bounded_value_length value (capacity f) ≡ length value =
      ground (arith, bounded_value_length-min value (capacity f)) in
    ap (λ (n : ℕ). take n value) whole ∙ take_all value

pub capture_field_cases :
    (c : Capture) (f : Field) (value : List ℕ)
    → ((capture_field c f value).0.invalid ≡ true)
      ⊎ ((digit (field_index f) c.seen_mask ≡ 0)
          × (fits f value ≡ true)
          × ((capture_field c f value).0 ≡ stored c f value))
unfolding capture_field
capture_field_cases c f value =
    elim (Bool-cases (digit (field_index f) c.seen_mask == 0 && fits f value)) [
      | inl good ↦ inr (
        ground arith,
        ground arith,
        rw (guard_lem c.seen_mask f value, good, take_bounded f value (ground arith)) refl,
      )
      | inr bad ↦ inl (rw (guard_lem c.seen_mask f value, bad) refl)
    ]

pub capture_field-stored :
    (c : Capture) (f : Field) (value : List ℕ)
    → digit (field_index f) c.seen_mask ≡ 0
    → fits f value ≡ true
    → (capture_field c f value).0 ≡ stored c f value
unfolding capture_field
capture_field-stored c f value fresh fit =
    rw (guard_lem c.seen_mask f value, fresh, fit, take_bounded f value fit) refl
