-- ===== src/Nvs/Chains.antt =====
-- Chains of operations of the flash store.
use power_monitor_sensor_hea.Base.{◌≡◌, arith, true, if_cases}
use power_monitor_sensor_hea.Base.Esp.{EspErr, is_ok}
use power_monitor_sensor_hea.Nvs.Defs.{on_ok}

-- What holds after a step, and is kept by the next one, holds after both.
pub on_ok_keeps :
    {S : Type 0} (P : S → Type 0) (r : EspErr × S) (next : S → EspErr × S)
    → P r.1
    → ((s : S) → P s → P (next s).1)
    → P (on_ok r next).1
on_ok_keeps P r next h keep =
    if_cases (λ (x : EspErr × _). P x.1) (is_ok r.0) (next r.1) r (λ good. keep r.1 h) (λ bad. h)

-- A chain that ends well went well at each step.
pub on_ok_split :
    {S : Type 0} (r : EspErr × S) (next : S → EspErr × S)
    → is_ok (on_ok r next).0 ≡ true
    → (is_ok r.0 ≡ true) × (on_ok r next ≡ next r.1)
on_ok_split r next h = ground arith

-- What holds of the store that an operation leaves, as a definition that is not seen through.
unfoldable pub After : {S X : Type 0} → (S → Type 0) → X × S → Type 0
After P r = P r.1

unfoldable pub AfterValue : {S X Y : Type 0} → (S → Type 0) → X × Y × S → Type 0
AfterValue P r = P r.2

pub after : {S X : Type 0} (P : S → Type 0) (r : X × S) → P r.1 → After P r
unfolding After
after P r h = h

pub after_value : {S X Y : Type 0} (P : S → Type 0) (r : X × Y × S) → P r.2 → AfterValue P r
unfolding AfterValue
after_value P r h = h

pub of-After : {S X : Type 0} (P : S → Type 0) (r : X × S) → After P r → P r.1
unfolding After
of-After P r h = h

pub of-AfterValue : {S X Y : Type 0} (P : S → Type 0) (r : X × Y × S) → AfterValue P r → P r.2
unfolding AfterValue
of-AfterValue P r h = h
