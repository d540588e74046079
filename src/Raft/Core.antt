-- ===== src/Raft/Core.antt =====
-- The entry points of crates/gems-cluster/src/raft.rs: `tick`, `propose` and `receive`.
use gems.Prelude.{
  ℕ, ◌-◌, Bool, ◌&&◌, Option, some, List, [], ◌∷◌, ◌++◌, ltb, leb, ◌==◌, if◌then◌else◌, inc32,
  inc64, ◌>>=◌,
}
use gems.Prelude.Results.{Result, ok, err}
use gems.Prelude.Maps
use gems.Record.{LogRecord}
use gems.Raft.State.{
  NodeId, Term, Role, leader, RaftCore, Envelope, Rpc, request_vote_request, request_vote_response,
  append_entries_request, append_entries_response, RaftError, not_leader, last_log_index,
  envelope_to,
}
use gems.Raft.Sending.{next_index_of, append_entries_for}
use gems.Raft.Election.{
  Sends, is_leader, become_follower, replicating, start_election, handle_request_vote,
  handle_vote_response,
}
use gems.Raft.Commit.{advance_commit_index}
use gems.Raft.Follower.{handle_append_entries}

unfoldable pub tick_as : Role → RaftCore → Sends
tick_as leader c =
    if leb c.heartbeat_interval (inc32 c.heartbeat_elapsed)
    then replicating (record c { heartbeat_elapsed = 0 })
    else some (record c { heartbeat_elapsed = inc32 c.heartbeat_elapsed }, [])
tick_as _ c =
    if leb c.election_timeout (inc32 c.election_elapsed)
    then start_election (record c { election_elapsed = inc32 c.election_elapsed })
    else some (record c { election_elapsed = inc32 c.election_elapsed }, [])

unfoldable pub tick : RaftCore → Sends
unfolding tick_as
tick c = tick_as c.role c

-- The log with a command of the current term behind it.
unfoldable pub push_command : RaftCore → LogRecord → RaftCore
push_command c command = record c {
  log = c.log ++ (record { term = c.current_term; command = command } ∷ []);
}

-- What `propose` does once the entry is in the log, by the peers that there are.
unfoldable pub spread : List NodeId → RaftCore → Sends
spread [] c = some (advance_commit_index c, [])
spread (p ∷ ps) c = replicating c

-- The result is the index of the new entry, with what to send.
unfoldable pub propose :
    RaftCore → LogRecord → Option (RaftCore × Result RaftError (ℕ × List Envelope))
unfolding push_command spread last_log_index
propose c command =
    if is_leader c.role
    then (do
      let pushed = push_command c command
      sent ← spread pushed.peers pushed
      some (sent.0, ok (last_log_index pushed, sent.1)))
    else some (c, err not_leader)

-- `match_index` and `next_index` after a follower's success.
unfoldable pub record_match : RaftCore → NodeId → ℕ → RaftCore
record_match c peer index = record c {
  match_index = Maps.insert peer index c.match_index;
  next_index = Maps.insert peer (inc64 index) c.next_index;
}

-- `next_index.entry(follower).or_insert(fallback)`, one lower if it is above 1.
unfoldable pub back_up : RaftCore → NodeId → RaftCore
back_up c peer =
    let next = next_index_of c peer in
    record c { next_index = Maps.insert peer (if ltb 1 next then next - 1 else next) c.next_index }

-- The commit index is told to the followers as soon as it moves.
unfoldable pub follower_matched : RaftCore → NodeId → ℕ → Sends
unfolding record_match
follower_matched c peer index =
    let advanced = advance_commit_index (record_match c peer index) in
    if ltb c.commit_index advanced.commit_index then replicating advanced else some (advanced, [])

unfoldable pub follower_refused : RaftCore → NodeId → Sends
unfolding back_up envelope_to
follower_refused c peer = do
  let backed = back_up c peer
  rpc ← append_entries_for backed peer
  some (backed, envelope_to backed peer rpc ∷ [])

unfoldable pub handle_append_response : RaftCore → Term → Bool → ℕ → NodeId → Sends
unfolding become_follower follower_matched follower_refused
handle_append_response c term success index peer =
    if ltb c.current_term term
    then some (become_follower c term, [])
    else if is_leader c.role && c.current_term == term
    then (if success then follower_matched c peer index else follower_refused c peer)
    else some (c, [])

abbrev answer_vote : NodeId → RaftCore × Term × Bool → Sends
answer_vote from (c, term, granted) = some (
  c,
  envelope_to c from
        (request_vote_response (record { term = term; vote_granted = granted; voter_id = c.id }))
      ∷ [],
)

abbrev answer_append : NodeId → RaftCore × Term × Bool × ℕ → Sends
answer_append from (c, term, success, index) = some (
  c,
  envelope_to c from (
        append_entries_response
          (record { term = term; success = success; match_index = index; follower_id = c.id }))
      ∷ [],
)

unfoldable pub receive_rpc : RaftCore → NodeId → Rpc → Sends
unfolding envelope_to
receive_rpc c from (request_vote_request r) =
    answer_vote from (handle_request_vote c r.term r.candidate_id r.last_log_index r.last_log_term)
receive_rpc c from (request_vote_response r) =
    handle_vote_response c r.term r.vote_granted r.voter_id
receive_rpc c from (append_entries_request r) = answer_append from (handle_append_entries c r)
receive_rpc c from (append_entries_response r) =
    handle_append_response c r.term r.success r.match_index r.follower_id

unfoldable pub receive : RaftCore → Envelope → Sends
unfolding receive_rpc
receive c e = receive_rpc c e.from e.rpc
