-- ===== src/Raft/Appending.antt =====
-- A leader only appends to its log (crates/gems-cluster/src/raft.rs).
use gems.Prelude.{ℕ, ◌≤◌, ◌≡◌, some, List, [], ◌∷◌, ◌++◌, append-nil, arith}
use gems.Prelude.Results.{ok}
use gems.Record.{LogRecord}
use gems.Raft.State.{
  NodeId, leader, RaftCore, LogEntry, Envelope, Rpc, request_vote_request, request_vote_response,
  append_entries_request, append_entries_response,
}
use gems.Raft.Election.{
  check_election_win, start_election, handle_request_vote, handle_vote_response, replicating,
}
use gems.Raft.Commit.{advance_commit_index}
use gems.Raft.Follower.{handle_append_entries}
use gems.Raft.Core.{tick, receive, receive_rpc, propose, handle_append_response}

-- `d` has `c`'s log with `more` behind it, and a commit index that is no lower.
abbrev pub Extends : RaftCore → RaftCore → List LogEntry → Type 0
Extends c d more = (d.log ≡ c.log ++ more) × (c.commit_index ≤ d.commit_index)

tick-Extends : (c d : RaftCore) (out : List Envelope) → tick c ≡ some (d, out) → Extends c d []
unfolding tick start_election check_election_win replicating
tick-Extends c d out h = rw append-nil (ground arith)

propose-Extends :
    (c d : RaftCore) (command : LogRecord) (i : ℕ) (out : List Envelope)
    → propose c command ≡ some (d, ok (i, out))
    → Extends c d (record { term = c.current_term; command = command } ∷ [])
unfolding propose advance_commit_index replicating
propose-Extends c d command i out h = ground arith

-- A leader that receives a message and still leads the same term.
receive_rpc-Extends :
    (c d : RaftCore) (from : NodeId) (rpc : Rpc) (out : List Envelope)
    → c.role ≡ leader
    → d.role ≡ leader
    → receive_rpc c from rpc ≡ some (d, out)
    → Extends c d []
unfolding receive_rpc
receive_rpc-Extends c d from (request_vote_request r) out led leads h =
    unfold handle_request_vote in rw append-nil (ground arith)
receive_rpc-Extends c d from (request_vote_response r) out led leads h =
    unfold handle_vote_response check_election_win replicating in rw append-nil (ground arith)
receive_rpc-Extends c d from (append_entries_request r) out led leads h =
    unfold handle_append_entries in rw append-nil (ground arith)
receive_rpc-Extends c d from (append_entries_response r) out led leads h =
    unfold handle_append_response advance_commit_index replicating in rw append-nil (ground arith)

-- While a node stays leader, its log only grows and its commit index never falls: a tick or a message
-- that it gets over as leader leaves the log as it is, and a command that it takes is appended with
-- its term.
pub leader_appends_only :
    (c : RaftCore)
    → c.role ≡ leader
    → ((d : RaftCore) (out : List Envelope) → tick c ≡ some (d, out) → Extends c d [])
      × ((m : Envelope) (d : RaftCore) (out : List Envelope)
          → receive c m ≡ some (d, out)
          → d.role ≡ leader
          → Extends c d [])
      × ((command : LogRecord) (d : RaftCore) (i : ℕ) (out : List Envelope)
          → propose c command ≡ some (d, ok (i, out))
          → Extends c d (record { term = c.current_term; command = command } ∷ []))
unfolding receive
leader_appends_only c led = (
  λ d out h. tick-Extends c d out h,
  λ m d out h leads. receive_rpc-Extends c d m.from m.rpc out led leads h,
  λ command d i out h. propose-Extends c d command i out h,
)
