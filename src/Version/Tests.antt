-- ===== src/Version/Tests.antt =====
-- Versions, and the runs at them.
use Prim.Native.Char.{code}
use Prim.Native.String.{String}
use power_monitor_sensor_hea.Base.{
  ℕ, ◌≤◌, ◌≡◌, refl, arith, false, List, [], ◌∷◌, ◌++◌, some, uint32_max,
}
use power_monitor_sensor_hea.Base.Esp.{ok, not_supported, invalid_arg}
use power_monitor_sensor_hea.Version.{
  starts_with_digit, digits_from, parse_number, parse_suffix, parse_version, compare_versions,
  require_upgrade,
}
use power_monitor_sensor_hea.Version.Order.{
  IsUpgrade, require_upgrade-IsUpgrade, require_upgrade_chain,
}
use power_monitor_sensor_hea.Version.Numbers.{
  value_from, IsDecimal, parse_number-value_from, parse_number-IsDecimal,
}

abbrev bytes : String → List ℕ
bytes String.[] = []
bytes (String.◌∷◌ c s) = code c ∷ bytes s

abbrev candidate2 : List ℕ
candidate2 = bytes "1.2.0-rc.2"

abbrev release : List ℕ
release = bytes "1.2.0"

abbrev later : List ℕ
later = bytes "1.10.0-rc.1"

to_release : require_upgrade candidate2 release ≡ ok
unfolding require_upgrade parse_version parse_suffix parse_number digits_from compare_versions
to_release = refl

to_later : require_upgrade release later ≡ ok
unfolding require_upgrade parse_version parse_suffix parse_number digits_from compare_versions
to_later = refl

padded : require_upgrade release (bytes "1.03.0") ≡ invalid_arg
unfolding require_upgrade parse_version parse_suffix parse_number digits_from compare_versions
padded = refl

require_upgrade_chain_example :
    (require_upgrade candidate2 later ≡ ok)
    × (require_upgrade release candidate2 ≡ not_supported)
    × (require_upgrade later candidate2 ≡ not_supported)
require_upgrade_chain_example = require_upgrade_chain candidate2 release later to_release to_later

require_upgrade-IsUpgrade_example :
    (require_upgrade candidate2 release ≡ ok → IsUpgrade candidate2 release)
    × (IsUpgrade candidate2 release → require_upgrade candidate2 release ≡ ok)
require_upgrade-IsUpgrade_example = require_upgrade-IsUpgrade candidate2 release

abbrev forty_two : List ℕ
forty_two = bytes "42"

parse_number-value_from_example :
    parse_number (forty_two ++ bytes ".1") ≡ some (value_from 0 forty_two, bytes ".1")
unfolding value_from
parse_number-value_from_example =
    parse_number-value_from forty_two (bytes ".1") (refl, (refl, tt), refl) refl (omega arith)

reads_42 : parse_number (bytes "42.1") ≡ some (42, bytes ".1")
unfolding parse_number digits_from
reads_42 = refl

parse_number-IsDecimal_example :
    (ds : List ℕ) × (bytes "42.1" ≡ ds ++ bytes ".1")
    × IsDecimal ds
    × (starts_with_digit (bytes ".1") ≡ false)
    × (42 ≡ value_from 0 ds)
    × (42 ≤ uint32_max)
parse_number-IsDecimal_example = parse_number-IsDecimal (bytes "42.1") 42 (bytes ".1") reads_42
