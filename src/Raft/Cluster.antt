-- ===== src/Raft/Cluster.antt =====
-- Several nodes of crates/gems-cluster/src/raft.rs and a network between them. The network may lose,
-- repeat, delay and reorder messages: `sent` is every message that was ever sent, and any of them may
-- be delivered at any time. A node may stop and start again from its persistent state.
pub mod Soundness
pub mod Moves
pub mod Safety
use gems.Prelude.{
  ℕ, ◌+◌, ◌<◌, ◌≡◌, Bool, true, some, List, [], ◌++◌, ◌==◌, if◌then◌else◌, u64_mod, Member,
}
use gems.Prelude.Results.{Result}
use gems.Prelude.Sets.{contains}
use gems.Record.{LogRecord}
use gems.Raft.State.{NodeId, RaftCore, Envelope, RaftError, restore}
use gems.Raft.Core.{tick, receive, propose}
use gems.Raft.Receiving.{outbox}

pub record Cluster : Type 0 where
  pub nodes : NodeId → RaftCore
  pub sent : List Envelope

-- The node `i` goes to the state `d` and sends `out`.
unfoldable pub after : Cluster → NodeId → RaftCore → List Envelope → Cluster
after s i d out = record { nodes = λ j. if j == i then d else s.nodes j; sent = s.sent ++ out }

-- A node that stopped and starts again, with the timeouts that it is given then.
unfoldable pub restarted : RaftCore → ℕ → ℕ → RaftCore
unfolding restore
restarted c election_timeout heartbeat_interval =
    restore c.id c.peers election_timeout heartbeat_interval c.current_term c.voted_for c.log

-- One step of one member. A clock tick wants room for one more term.
pub data Step (members : List NodeId) (s u : Cluster) : Type 0 where
  ticks :
      (i : NodeId) (d : RaftCore) (out : List Envelope)
      → contains members i ≡ true
      → (s.nodes i).current_term + 1 < u64_mod
      → tick (s.nodes i) ≡ some (d, out)
      → u ≡ after s i d out
      → Step members s u
  delivers :
      (m : Envelope) (d : RaftCore) (out : List Envelope)
      → contains members m.to ≡ true
      → Member m s.sent
      → receive (s.nodes m.to) m ≡ some (d, out)
      → u ≡ after s m.to d out
      → Step members s u
  proposes :
      (i : NodeId) (command : LogRecord) (d : RaftCore) (r : Result RaftError (ℕ × List Envelope))
      → contains members i ≡ true
      → propose (s.nodes i) command ≡ some (d, r)
      → u ≡ after s i d (outbox r)
      → Step members s u
  restarts :
      (i : NodeId) (election_timeout heartbeat_interval : ℕ)
      → contains members i ≡ true
      → u ≡ after s i (restarted (s.nodes i) election_timeout heartbeat_interval) []
      → Step members s u

pub data Reach (members : List NodeId) (s : Cluster) : Cluster → Type 0 where
  here : Reach members s s
  next : {t u : Cluster} → Reach members s t → Step members t u → Reach members s u
