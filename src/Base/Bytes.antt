-- ===== src/Base/Bytes.antt =====
-- `to_le_bytes` and `from_le_bytes` of the unsigned integers, for any width in bytes.
use kemuri.Base.{ℕ, zero, suc, ◌+◌, ◌*◌, ◌/◌, ◌%◌, ◌<◌, ◌≡◌, refl, ap, arith}
use kemuri.Base.{List, [], ◌∷◌, length, All}

abbrev pub IsByte : ℕ → Type 0
IsByte b = b < 256

abbrev pub to_le_bytes : ℕ → ℕ → List ℕ
to_le_bytes zero n = []
to_le_bytes (suc w) n = n % 256 ∷ to_le_bytes w (n / 256)

abbrev pub from_le_bytes : List ℕ → ℕ
from_le_bytes [] = 0
from_le_bytes (b ∷ bs) = b + 256 * from_le_bytes bs

pub length-to_le_bytes : (w n : ℕ) → length (to_le_bytes w n) ≡ w
length-to_le_bytes zero n = refl
length-to_le_bytes (suc w) n = ap suc (length-to_le_bytes w (n / 256))

-- The largest value of a type of `w` bytes, as a bound.
abbrev pub limit : ℕ → ℕ
limit zero = 1
limit (suc w) = 256 * limit w

pub from_le_bytes-to_le_bytes : (w n : ℕ) → n < limit w → from_le_bytes (to_le_bytes w n) ≡ n
from_le_bytes-to_le_bytes zero n h = omega arith
from_le_bytes-to_le_bytes (suc w) n h =
    omega (arith, from_le_bytes-to_le_bytes w (n / 256) (omega arith))

pub from_le_bytes-lt : (bs : List ℕ) → All IsByte bs → from_le_bytes bs < limit (length bs)
from_le_bytes-lt [] h = omega arith
from_le_bytes-lt (b ∷ bs) h = omega (arith, from_le_bytes-lt bs h.1)
