-- ===== src/Prelude/Words.antt =====
-- Machine integers: plain numbers with the wrap-around written out.
use Prim.Native.Nat.{ℕ, ◌+◌, ◌-◌, ◌%◌, ◌<◌, ◌^◌}

abbrev pub u32_mod : ℕ
u32_mod = 2 ^ 32

abbrev pub u64_mod : ℕ
u64_mod = 2 ^ 64

-- `x + 1` on `u32` and `u64`.
abbrev pub inc32 : ℕ → ℕ
inc32 x = (x + 1) % u32_mod

abbrev pub inc64 : ℕ → ℕ
inc64 x = (x + 1) % u64_mod

abbrev pub IsU32 : ℕ → Type 0
IsU32 x = x < u32_mod

abbrev pub IsU64 : ℕ → Type 0
IsU64 x = x < u64_mod

-- `x - 1` on `u32`
abbrev pub dec32 : ℕ → ℕ
dec32 n = (n + (u32_mod - 1)) % u32_mod
