-- ===== src/Storage/Bitmap.antt =====
-- `Bitmap` of crates/gems-storage/src/extent.rs: one bit for each slot of an extent, set if the slot is
-- allocated. `none` is a panic, of a slot behind the last byte.
use Prim.Native.Nat.{bit_and, bit_or}
use gems.Prelude.{
  ℕ, zero, suc, ◌-◌, ◌/◌, ◌%◌, ◌^◌, Bool, true, false, not, Option, none, some, List, get_elem?,
  set, ◌==◌, if◌then◌else◌, ◌>>=◌,
}

abbrev pub bitmap_bytes : ℕ
bitmap_bytes = 4096

-- `(byte >> bit) & 1 != 0`
unfoldable pub bit_of : ℕ → ℕ → Bool
bit_of byte bit = not (bit_and (byte / 2 ^ bit) 1 == 0)

-- `byte |= 1 << bit` and `byte &= !(1 << bit)`
unfoldable pub with_bit : ℕ → ℕ → Bool → ℕ
with_bit byte bit true = bit_or byte (2 ^ bit)
with_bit byte bit false = bit_and byte (255 - 2 ^ bit)

unfoldable pub get : List ℕ → ℕ → Option Bool
unfolding bit_of
get bytes slot = get_elem? bytes (slot / 8) >>= λ byte. some (bit_of byte (slot % 8))

unfoldable pub put : List ℕ → ℕ → Bool → Option (List ℕ)
unfolding with_bit
put bytes slot value = get_elem? bytes (slot / 8) >>= λ byte.
    some (set bytes (slot / 8) (with_bit byte (slot % 8) value))

-- `for slot in 0..slot_count`, with `n` slots to go
unfoldable pub allocate_from : ℕ → ℕ → List ℕ → Option (List ℕ × Option ℕ)
unfolding get put
allocate_from zero slot bytes = some (bytes, none)
allocate_from (suc n) slot bytes =
    let rest = allocate_from n (suc slot) bytes in
    get bytes slot >>= λ taken.
    (if taken then rest else (put bytes slot true >>= λ bytes'. some (bytes', some slot)))

unfoldable pub allocate : List ℕ → ℕ → Option (List ℕ × Option ℕ)
unfolding allocate_from
allocate bytes slot_count = allocate_from slot_count 0 bytes

unfoldable pub free : List ℕ → ℕ → Option (List ℕ)
unfolding put
free bytes slot = put bytes slot false
