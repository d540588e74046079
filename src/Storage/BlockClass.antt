-- ===== src/Storage/BlockClass.antt =====
-- `BlockClass` of crates/gems-storage/src/extent.rs. A class is its index.
use Prim.Native.Nat.{bit_and}
use gems.Prelude.{
  ℕ, zero, suc, ◌-◌, ◌*◌, ◌/◌, ◌%◌, ◌^◌, Bool, not, ◌&&◌, ◌||◌, Option, none, some, ltb, leb, ◌==◌,
  if◌then◌else◌,
}
use gems.Prelude.Results.{Result, Error, ok, err, invalid_value}

abbrev pub data_region_size : ℕ
data_region_size = 16 * 1024 * 1024

abbrev pub min_block_size : ℕ
min_block_size = 512

abbrev pub max_block_size : ℕ
max_block_size = data_region_size

abbrev pub count : ℕ
count = 16

abbrev pub BlockClass : Type 0
BlockClass = ℕ

-- `n.is_power_of_two()` and `n.trailing_zeros()` on 32 bits
unfoldable pub is_power_of_two : ℕ → Bool
is_power_of_two n = not (n == 0) && (bit_and n (n - 1) == 0)

unfoldable pub zeros_within : ℕ → ℕ → ℕ
zeros_within zero n = 0
zeros_within (suc w) n = let rest = zeros_within w (n / 2) in if n % 2 == 0 then suc rest else 0

abbrev trailing_zeros : ℕ → ℕ
trailing_zeros n = zeros_within 32 n

unfoldable pub from_block_size : ℕ → Result Error BlockClass
unfolding is_power_of_two zeros_within
from_block_size block_size =
    if not (is_power_of_two block_size)
      || not (leb min_block_size block_size && leb block_size max_block_size)
    then err (invalid_value "block size must be a power of two between 512B and 16MiB")
    else ok (trailing_zeros block_size - trailing_zeros min_block_size)

unfoldable pub from_index : ℕ → Result Error BlockClass
from_index index =
    if leb count index then err (invalid_value "block class index out of range") else ok index

-- `MIN_BLOCK_SIZE << self.0`
unfoldable pub block_size : BlockClass → ℕ
block_size c = min_block_size * 2 ^ c

unfoldable pub slots_per_extent : BlockClass → ℕ
unfolding block_size
slots_per_extent c = data_region_size / block_size c

abbrev pub too_large : Error
too_large =
    invalid_value
      "value exceeds the largest block class (16MiB); oversized-value chaining is not implemented"

-- `while block_size < size`. The first argument bounds the rounds; `none` is that it did not suffice.
unfoldable pub double_until : ℕ → ℕ → ℕ → Option (Result Error ℕ)
double_until zero size block_size = none
double_until (suc n) size block_size =
    let rest = double_until n size (block_size * 2) in
    if ltb block_size size
    then (if ltb max_block_size (block_size * 2) then some (err too_large) else rest)
    else some (ok block_size)

abbrev pub class_of : Option (Result Error ℕ) → Option (Result Error BlockClass)
class_of none = none
class_of (some (err e)) = some (err e)
class_of (some (ok block_size)) = some (from_block_size block_size)

unfoldable pub for_size : ℕ → Option (Result Error BlockClass)
unfolding double_until from_block_size
for_size size = class_of (double_until 17 size min_block_size)
