-- ===== src/Raft/Sending.antt =====
-- What a leader sends (`append_entries_for`, `replicate_to_all_peers` of
-- crates/gems-cluster/src/raft.rs). `none` is a panic: a slice that begins behind the log's end.
use gems.Prelude.{
  ℕ, ◌+◌, ◌-◌, Option, none, some, List, [], ◌∷◌, length, drop, leb, if◌then◌else◌, unwrap_or,
  ◌>>=◌,
}
use gems.Prelude.Maps.{lookup}
use gems.Raft.State.{
  NodeId, RaftCore, Rpc, append_entries_request, Envelope, LogEntry, last_log_index, log_term_at,
  envelope_to,
}

-- `self.log[start..].to_vec()`
unfoldable pub slice_from : List LogEntry → ℕ → Option (List LogEntry)
slice_from log start = if leb start (length log) then some (drop start log) else none

unfoldable pub next_index_of : RaftCore → NodeId → ℕ
unfolding last_log_index
next_index_of c peer = unwrap_or (lookup peer c.next_index) (last_log_index c + 1)

unfoldable pub append_entries_for : RaftCore → NodeId → Option Rpc
unfolding slice_from next_index_of log_term_at
append_entries_for c peer = do
  let prev_log_index = next_index_of c peer - 1
  entries ← slice_from c.log prev_log_index
  some (
      append_entries_request (record {
        term = c.current_term;
        leader_id = c.id;
        prev_log_index = prev_log_index;
        prev_log_term = log_term_at c prev_log_index;
        entries = entries;
        leader_commit = c.commit_index;
      }))

-- The loop of `replicate_to_all_peers` over the peers that are left.
unfoldable pub replicate_to : RaftCore → List NodeId → Option (List Envelope)
unfolding envelope_to
replicate_to c [] = some []
replicate_to c (p ∷ ps) = do
  rpc ← append_entries_for c p
  rest ← replicate_to c ps
  some (envelope_to c p rpc ∷ rest)

unfoldable pub replicate_to_all_peers : RaftCore → Option (List Envelope)
replicate_to_all_peers c = replicate_to c c.peers
