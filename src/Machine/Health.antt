-- ===== src/Machine/Health.antt =====
-- The health flags, each read as a binary digit of the word.
use Prim.Native.Nat.{bit_and, bit_or, max, min}
use power_monitor_sensor_hea.Base.{
  ℕ, ◌-◌, uint32_max, ◌/◌, ◌%◌, ◌≡◌, Bool, true, false, arith, if◌then◌else◌, ◌==◌,
}
use power_monitor_sensor_hea.Base.Bits.{bit_or_step, bit_and_step}
use power_monitor_sensor_hea.Machine.{
  Machine, HealthFlag, network, server, meter, time, flag_value, health_set,
}

-- Whether a flag is set: the digit of the word that the flag stands for.
abbrev pub is_healthy : Machine → HealthFlag → Bool
is_healthy m flag = m.health_flags / flag_value flag % 2 == 1

abbrev pub same_flag : HealthFlag → HealthFlag → Bool
same_flag f g = flag_value f == flag_value g

-- The four lowest digits of `|` and of `&`.
or_digits :
    (a b : ℕ)
    → (bit_or a b % 2 ≡ max (a % 2) (b % 2))
      × (bit_or a b / 2 % 2 ≡ max (a / 2 % 2) (b / 2 % 2))
      × (bit_or a b / 4 % 2 ≡ max (a / 4 % 2) (b / 4 % 2))
      × (bit_or a b / 8 % 2 ≡ max (a / 8 % 2) (b / 8 % 2))
or_digits a b = omega (
  arith,
  bit_or_step a b,
  bit_or_step (a / 2) (b / 2),
  bit_or_step (a / 2 / 2) (b / 2 / 2),
  bit_or_step (a / 2 / 2 / 2) (b / 2 / 2 / 2),
)

and_digits :
    (a b : ℕ)
    → (bit_and a b % 2 ≡ min (a % 2) (b % 2))
      × (bit_and a b / 2 % 2 ≡ min (a / 2 % 2) (b / 2 % 2))
      × (bit_and a b / 4 % 2 ≡ min (a / 4 % 2) (b / 4 % 2))
      × (bit_and a b / 8 % 2 ≡ min (a / 8 % 2) (b / 8 % 2))
and_digits a b = omega (
  arith,
  bit_and_step a b,
  bit_and_step (a / 2) (b / 2),
  bit_and_step (a / 2 / 2) (b / 2 / 2),
  bit_and_step (a / 2 / 2 / 2) (b / 2 / 2 / 2),
)

-- Setting or clearing a flag makes it what it was told, and leaves each other flag, the state, the
-- count of transitions and the time of entry alone.
pub is_healthy-health_set :
    (m : Machine) (f g : HealthFlag) (healthy : Bool)
    → (is_healthy (health_set m f healthy) g ≡ (if same_flag f g then healthy else is_healthy m g))
      × ((health_set m f healthy).state ≡ m.state)
      × ((health_set m f healthy).transition_count ≡ m.transition_count)
      × ((health_set m f healthy).entered_monotonic_us ≡ m.entered_monotonic_us)
unfolding health_set
is_healthy-health_set m f network true = ground (arith, or_digits m.health_flags (flag_value f))
is_healthy-health_set m f server true = ground (arith, or_digits m.health_flags (flag_value f))
is_healthy-health_set m f meter true = ground (arith, or_digits m.health_flags (flag_value f))
is_healthy-health_set m f time true = ground (arith, or_digits m.health_flags (flag_value f))
is_healthy-health_set m f g false =
    ground (arith, and_digits m.health_flags (uint32_max - flag_value f))
