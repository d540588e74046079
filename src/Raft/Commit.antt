-- ===== src/Raft/Commit.antt =====
-- The leader's commit index, and the hand-off of committed entries
-- (`advance_commit_index`, `take_newly_committed` of crates/gems-cluster/src/raft.rs).
use gems.Prelude.{
  ℕ, zero, suc, ◌+◌, ◌-◌, ◌/◌, ◌&&◌, Option, some, List, [], ◌∷◌, ◌++◌, map, length, get_or,
  get_elem?, ltb, ◌==◌, if◌then◌else◌, unwrap_or, ◌>>=◌,
}
use gems.Prelude.Maps.{lookup}
use gems.Prelude.Sorting.{sort_desc}
use gems.Raft.State.{RaftCore, LogEntry, last_log_index, log_term_at}

-- What the leader believes to be stored: by each peer, and by itself.
unfoldable pub match_indices : RaftCore → List ℕ
unfolding last_log_index
match_indices c = map (λ p. unwrap_or (lookup p c.match_index) 0) c.peers ++ (last_log_index c ∷ [])

-- The place read is inside the list, which holds the leader's own index at least.
unfoldable pub commit_candidate : RaftCore → ℕ
unfolding match_indices sort_desc
commit_candidate c =
    let sorted = sort_desc (match_indices c) in
    let majority_count = length sorted / 2 + 1 in get_or sorted (majority_count - 1) 0

unfoldable pub advance_commit_index : RaftCore → RaftCore
unfolding log_term_at
advance_commit_index c =
    let reached = commit_candidate c in
    if ltb c.commit_index reached && log_term_at c reached == c.current_term
    then record c { commit_index = reached }
    else c

-- The loop `while last_applied < commit_index` with its rounds counted: `log[last_applied]` is the
-- entry pushed, and `none` is the panic of an index behind the log's end.
unfoldable pub drain : ℕ → ℕ → List LogEntry → Option (List LogEntry)
drain zero applied log = some []
drain (suc rounds) applied log = do
  e ← get_elem? log applied
  rest ← drain rounds (applied + 1) log
  some (e ∷ rest)

-- Each round brings `last_applied` one nearer to `commit_index`, so the difference is the count.
unfoldable pub take_newly_committed : RaftCore → Option (RaftCore × List LogEntry)
unfolding drain
take_newly_committed c =
    let rounds = c.commit_index - c.last_applied in
    do
      out ← drain rounds c.last_applied c.log
      some (record c { last_applied = c.last_applied + rounds }, out)
