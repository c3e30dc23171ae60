-- ===== src/Prelude/Bytes.antt =====
-- Unsigned integers as bytes, the least significant first: what the loops
-- `for (shift = 0; shift < w; shift += 8)` of the source write and read. The bytes do not overlap,
-- so that the source's `|=` is a sum.
use Prim.Native.Nat.{ℕ, zero, suc, ◌+◌, ◌*◌, ◌/◌, ◌%◌, ◌^◌, ◌<◌}
use mathlib.Core.Path.{◌≡◌, refl, ap}
use mathlib.Core.List.{List, [], ◌∷◌}
use native.Mathlib.Omega.{arith}
use curiodb.Prelude.Lists.{length, All}

abbrev pub Bytes : Type 0
Bytes = List ℕ

abbrev pub IsByte : ℕ → Type 0
IsByte b = b < 256

-- `width` bytes of `value`.
unfoldable pub to_bytes : ℕ → ℕ → Bytes
to_bytes zero value = []
to_bytes (suc width) value = (value % 256) ∷ to_bytes width (value / 256)

unfoldable pub from_bytes : Bytes → ℕ
from_bytes [] = 0
from_bytes (b ∷ bs) = b + 256 * from_bytes bs

pub length-to_bytes : (width value : ℕ) → length (to_bytes width value) ≡ width
unfolding to_bytes
length-to_bytes zero value = refl
length-to_bytes (suc width) value = ap suc (length-to_bytes width (value / 256))

pub to_bytes-IsByte : (width value : ℕ) → All IsByte (to_bytes width value)
unfolding to_bytes
to_bytes-IsByte zero value = tt
to_bytes-IsByte (suc width) value = (omega arith, to_bytes-IsByte width (value / 256))

pub from_bytes-to_bytes :
    (width value : ℕ) → value < 256 ^ width → from_bytes (to_bytes width value) ≡ value
unfolding to_bytes from_bytes
from_bytes-to_bytes zero value h = omega arith
from_bytes-to_bytes (suc width) value h =
    omega (arith, from_bytes-to_bytes width (value / 256) (omega arith))

pub to_bytes-from_bytes : (bs : Bytes) → All IsByte bs → to_bytes (length bs) (from_bytes bs) ≡ bs
unfolding to_bytes from_bytes
to_bytes-from_bytes [] h = refl
to_bytes-from_bytes (b ∷ bs) (hb, h) = ground (arith, to_bytes-from_bytes bs h)

pub from_bytes-lt :
    (width : ℕ) (bs : Bytes) → All IsByte bs → length bs ≡ width → from_bytes bs < 256 ^ width
unfolding from_bytes
from_bytes-lt zero [] h e = omega arith
from_bytes-lt (suc width) [] h e = absurd (omega arith)
from_bytes-lt zero (b ∷ bs) h e = absurd (omega arith)
from_bytes-lt (suc width) (b ∷ bs) (hb, h) e = omega (arith, from_bytes-lt width bs h (omega arith))
