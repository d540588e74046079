-- ===== src/Common/Crc32c.antt =====
-- crates/gems-common/src/crc32c.rs
use Prim.Native.Nat.{bit_and, bit_xor}
use gems.Prelude.{ℕ, zero, suc, ◌-◌, ◌/◌, ◌<◌, List, [], ◌∷◌, ◌==◌, if◌then◌else◌, arith}

abbrev poly : ℕ
poly = 0x82f63b78

-- `c = if c & 1 != 0 { POLY ^ (c >> 1) } else { c >> 1 }`
unfoldable pub table_step : ℕ → ℕ
table_step c = if bit_and c 1 == 0 then c / 2 else bit_xor poly (c / 2)

unfoldable pub table_steps : ℕ → ℕ → ℕ
unfolding table_step
table_steps zero c = c
table_steps (suc k) c = table_steps k (table_step c)

-- `table[i]`
unfoldable pub table_entry : ℕ → ℕ
unfolding table_steps
table_entry i = table_steps 8 i

unfoldable pub crc_of : ℕ → List ℕ → ℕ
unfolding table_entry
crc_of crc [] = crc
crc_of crc (byte ∷ data_left) =
    crc_of (bit_xor (table_entry (bit_and (bit_xor crc byte) 0xff)) (crc / 256)) data_left

-- `!crc` of 32 bits is the distance to their greatest number.
unfoldable pub crc32c : List ℕ → ℕ
unfolding crc_of
crc32c bytes = 0xffffffff - crc_of 0xffffffff bytes

pub crc32c_small : (bytes : List ℕ) → crc32c bytes < 0x100000000
unfolding crc32c
crc32c_small bytes = omega arith
