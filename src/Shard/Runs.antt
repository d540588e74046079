-- ===== src/Shard/Runs.antt =====
-- A concrete router, and the theorem on it.
use gems.Prelude.{◌<◌, ◌≤◌, refl, replicate, arith}
use gems.Catalog.Header.{Tuid}
use gems.Shard.{ShardRouter, new, shard_of, shard_of_in_order}

abbrev three : ShardRouter
three = record { num_shards = 3 }

abbrev low : Tuid
low = replicate 24 10

abbrev high : Tuid
high = replicate 24 200

shard_of_in_order_example : (shard_of three high < 3) × (shard_of three low ≤ shard_of three high)
unfolding new
shard_of_in_order_example =
    shard_of_in_order 3 three low high refl (omega arith) (omega arith) (omega arith)
