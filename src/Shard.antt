-- ===== src/Shard.antt =====
-- `ShardRouter` of crates/gems-cluster/src/shard.rs.
mod Runs
use gems.Prelude.{
  ℕ, zero, suc, ◌*◌, ◌/◌, ◌%◌, ◌<◌, ◌≤◌, ◌≡◌, refl, Option, none, some, ltb, if◌then◌else◌, u32_mod,
  arith, get_or, List,
}
use native.Mathlib.Nat.{mul-le-mul_right}
use gems.Catalog.Header.{Tuid}

pub record ShardRouter : Type 0 where
  pub num_shards : ℕ

-- `none` is the failed assertion.
unfoldable pub new : ℕ → Option ShardRouter
new num_shards = if ltb 0 num_shards then some (record { num_shards = num_shards }) else none

unfoldable pub shard_of : ShardRouter → Tuid → ℕ
shard_of r id = get_or id 0 0 * r.num_shards % u32_mod / 256

-- A router that is made with at most 2 ^ 24 shards sends every identifier to one of them, and an
-- identifier with a lower leading byte to no higher a shard.
pub shard_of_in_order :
    (n : ℕ) (r : ShardRouter) (a b : Tuid)
    → new n ≡ some r
    → n ≤ 16777216
    → get_or a 0 0 ≤ get_or b 0 0
    → get_or b 0 0 < 256
    → (shard_of r b < n) × (shard_of r a ≤ shard_of r b)
unfolding new shard_of
shard_of_in_order n r a b made few below byte =
    let same : r.num_shards ≡ n = ground arith in
    let positive : 0 < n = ground arith in
    let top : get_or b 0 0 * n ≤ 255 * n = mul-le-mul_right n (omega arith) in
    let order : get_or a 0 0 * n ≤ get_or b 0 0 * n = mul-le-mul_right n below in
    rw same (omega (arith, positive, top, order), omega (arith, top, order))
