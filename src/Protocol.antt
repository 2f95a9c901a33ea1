-- ===== src/Protocol.antt =====
-- Requests and responses: components/pm_protocol/pm_protocol.c.
-- Here stands the comparison in constant time: both operands are lists of bytes of the length that the
-- code is given. Pointers are never NULL.
pub mod Compare
pub mod Nonces
pub mod Replay
pub mod Canonical
pub mod Verify
pub mod Once
mod Tests
mod OnceTests
use Prim.Native.Nat.{bit_or, bit_xor}
use power_monitor_sensor_hea.Base.{ℕ, ◌==◌, Bool, List, [], ◌∷◌}

-- The loop, from the difference so far.
unfoldable pub difference_from : ℕ → List ℕ → List ℕ → ℕ
difference_from difference [] right = difference
difference_from difference (l ∷ left) [] = difference
difference_from difference (l ∷ left) (r ∷ right) =
    difference_from (bit_or difference (bit_xor l r)) left right

unfoldable pub constant_time_equal : List ℕ → List ℕ → Bool
constant_time_equal left right = difference_from 0 left right == 0
