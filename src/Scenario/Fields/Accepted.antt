-- ===== src/Scenario/Fields/Accepted.antt =====
-- What the field checks of scenario.py accept.
use vdev_lab.Base.{ℕ, ◌≤◌, String, ◌≡◌, ◌≢◌, arith, eq_iff}
use vdev_lab.Base.Int.{pos}
use vdev_lab.Base.Value.{Value, int, str}
use vdev_lab.Base.Result.{ok}
use vdev_lab.Scenario.Fields.{non_empty_string, bounded_integer}

pub bounded_integer-bounds :
    (v : Value) (path : String) (minimum maximum : ℕ) {n : ℕ}
    → bounded_integer v path minimum maximum ≡ ok n
    → (v ≡ int (pos n)) × (minimum ≤ n) × (n ≤ maximum)
unfolding bounded_integer
bounded_integer-bounds (int (pos n)) path minimum maximum h = ground arith
bounded_integer-bounds _ path minimum maximum h = cc

pub non_empty_string-ne :
    (v : Value) (path : String) {s : String}
    → non_empty_string v path ≡ ok s
    → (v ≡ str s) × (s ≢ "")
unfolding non_empty_string
non_empty_string-ne (str s) path h = ground (arith, eq_iff s "")
non_empty_string-ne _ path h = cc
