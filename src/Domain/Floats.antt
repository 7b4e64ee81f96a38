-- ===== src/Domain/Floats.antt =====
-- A double as tracking.py uses it: tested by `isfinite` and compared with whole numbers. Every finite
-- double is a whole number of units of 2^-1074, with a sign.
use dispatch_core.Shared.{ℕ, ◌*◌, ◌^◌, Bool, false, not, ◌&&◌, leb, ltb}

pub data Float : Type 0 where
  finite : Bool → ℕ → Float
  infinite : Bool → Float
  nan : Float

unfoldable pub units : ℕ → ℕ
units n = n * 2 ^ 1074

-- `isfinite(x) and -limit <= x <= limit`
unfoldable pub is_within : ℕ → Float → Bool
is_within limit (finite negative magnitude) = leb magnitude (units limit)
is_within limit (infinite negative) = false
is_within limit nan = false

-- `isfinite(x) and not x < 0`
unfoldable pub is_accuracy : Float → Bool
is_accuracy (finite negative magnitude) = not (negative && ltb 0 magnitude)
is_accuracy (infinite negative) = false
is_accuracy nan = false
