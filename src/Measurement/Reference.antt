-- ===== src/Measurement/Reference.antt =====
-- What an interval should hold: the valid samples that were added, and their sums.
use power_monitor_sensor_hea.Base.{ℕ, ◌+◌, ◌&&◌, if◌then◌else◌, List, [], ◌∷◌, ◌∷◌}
use power_monitor_sensor_hea.Base.Int.{ℤ, pos_part}
use power_monitor_sensor_hea.Meter.{MeterSample, sample_valid}
use power_monitor_sensor_hea.Measurement.{Accumulator, interval_add, status_ok}

-- The accumulator after the samples of a list, the newest first.
unfoldable pub add_all : Accumulator → List MeterSample → ℕ → Accumulator
add_all a [] ct = a
add_all a (s ∷ older) ct = (interval_add (add_all a older ct) s ct).0

-- The samples that count: those that are in order and in range.
unfoldable pub usable : List MeterSample → ℕ → List MeterSample
usable [] ct = []
usable (s ∷ older) ct =
    if status_ok s.status && sample_valid s ct then s ∷ usable older ct else usable older ct

unfoldable pub total : (MeterSample → ℤ) → List MeterSample → ℕ
total field [] = 0
total field (s ∷ older) = total field older + pos_part (field s)
