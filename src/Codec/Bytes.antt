-- ===== src/Codec/Bytes.antt =====
-- Little-endian numbers as bytes (`to_le_bytes` and `from_le_bytes`).
use gems.Prelude.{
  ℕ, zero, suc, ◌+◌, ◌*◌, ◌/◌, ◌%◌, ◌<◌, ◌≡◌, refl, List, [], ◌∷◌, arith, length, ap,
}

-- The `w` low bytes of `n`, the lowest first.
unfoldable pub to_le : ℕ → ℕ → List ℕ
to_le zero n = []
to_le (suc w) n = n % 256 ∷ to_le w (n / 256)

unfoldable pub from_le : List ℕ → ℕ
from_le [] = 0
from_le (b ∷ bs) = b + 256 * from_le bs

-- One more than the greatest number of `w` bytes.
unfoldable pub le_bound : ℕ → ℕ
le_bound zero = 1
le_bound (suc w) = 256 * le_bound w

pub from_le-to_le : (w n : ℕ) → n < le_bound w → from_le (to_le w n) ≡ n
unfolding to_le from_le le_bound
from_le-to_le zero n h = omega arith
from_le-to_le (suc w) n h = omega (arith, from_le-to_le w (n / 256) (omega arith))

pub length-to_le : (w n : ℕ) → length (to_le w n) ≡ w
unfolding to_le
length-to_le zero n = refl
length-to_le (suc w) n = ap suc (length-to_le w (n / 256))
