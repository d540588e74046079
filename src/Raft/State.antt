-- ===== src/Raft/State.antt =====
-- The types of crates/gems-cluster/src/raft.rs, its constructors and its accessors.
use gems.Prelude.{ℕ, zero, suc, Bool, Option, none, List, [], ◌∷◌, length, get_elem?, unwrap_or}
use mathlib.Core.Option
use gems.Prelude.Maps.{Map}
use gems.Record.{LogRecord}

abbrev pub NodeId : Type 0
NodeId = ℕ

abbrev pub Term : Type 0
Term = ℕ

pub data Role : Type 0 where
  follower candidate leader : Role

pub record LogEntry : Type 0 where
  pub term : Term
  pub command : LogRecord

pub record VoteRequest : Type 0 where
  pub term : Term
  pub candidate_id : NodeId
  pub last_log_index : ℕ
  pub last_log_term : Term

pub record VoteResponse : Type 0 where
  pub term : Term
  pub vote_granted : Bool
  pub voter_id : NodeId

pub record AppendRequest : Type 0 where
  pub term : Term
  pub leader_id : NodeId
  pub prev_log_index : ℕ
  pub prev_log_term : Term
  pub entries : List LogEntry
  pub leader_commit : ℕ

pub record AppendResponse : Type 0 where
  pub term : Term
  pub success : Bool
  pub match_index : ℕ
  pub follower_id : NodeId

pub data Rpc : Type 0 where
  request_vote_request : VoteRequest → Rpc
  request_vote_response : VoteResponse → Rpc
  append_entries_request : AppendRequest → Rpc
  append_entries_response : AppendResponse → Rpc

pub record Envelope : Type 0 where
  pub from : NodeId
  pub to : NodeId
  pub rpc : Rpc

pub data RaftError : Type 0 where
  not_leader : RaftError

pub record RaftCore : Type 0 where
  pub id : NodeId
  pub peers : List NodeId
  pub current_term : Term
  pub voted_for : Option NodeId
  -- log[i] has the 1-based index i + 1
  pub log : List LogEntry
  pub commit_index : ℕ
  pub last_applied : ℕ
  pub role : Role
  pub votes_received : List NodeId
  pub next_index : Map ℕ
  pub match_index : Map ℕ
  pub election_elapsed : ℕ
  pub election_timeout : ℕ
  pub heartbeat_elapsed : ℕ
  pub heartbeat_interval : ℕ

unfoldable pub new : NodeId → List NodeId → ℕ → ℕ → RaftCore
new id peers election_timeout heartbeat_interval = record {
  id = id;
  peers = peers;
  current_term = 0;
  voted_for = none;
  log = [];
  commit_index = 0;
  last_applied = 0;
  role = follower;
  votes_received = [];
  next_index = [];
  match_index = [];
  election_elapsed = 0;
  election_timeout = election_timeout;
  heartbeat_elapsed = 0;
  heartbeat_interval = heartbeat_interval;
}

-- A node that starts again has its term, its vote and its log, and the volatile state of a new one.
unfoldable pub restore :
    NodeId → List NodeId → ℕ → ℕ → Term → Option NodeId → List LogEntry → RaftCore
unfolding new
restore id peers election_timeout heartbeat_interval current_term voted_for log =
    record (new id peers election_timeout heartbeat_interval) {
      current_term = current_term;
      voted_for = voted_for;
      log = log;
    }

unfoldable pub persistent_state : RaftCore → Term × Option NodeId × List LogEntry
persistent_state c = (c.current_term, c.voted_for, c.log)

unfoldable pub set_election_timeout : RaftCore → ℕ → RaftCore
set_election_timeout c ticks = record c { election_timeout = ticks }

unfoldable pub last_log_index : RaftCore → ℕ
last_log_index c = length c.log

-- `log.last().map(|e| e.term).unwrap_or(0)`
abbrev pub last_term : List LogEntry → Term
last_term [] = 0
last_term (e ∷ []) = e.term
last_term (e ∷ f ∷ l) = last_term (f ∷ l)

unfoldable pub last_log_term : RaftCore → Term
last_log_term c = last_term c.log

-- `log_term_at` on the log alone
abbrev pub term_at : List LogEntry → ℕ → Term
term_at log zero = 0
term_at log (suc i) = unwrap_or (Option.map (λ (e : LogEntry). e.term) (get_elem? log i)) 0

unfoldable pub log_term_at : RaftCore → ℕ → Term
log_term_at c index = term_at c.log index

unfoldable pub envelope_to : RaftCore → NodeId → Rpc → Envelope
envelope_to c to rpc = record { from = c.id; to = to; rpc = rpc }

unfoldable pub reset_election_timer : RaftCore → RaftCore
reset_election_timer c = record c { election_elapsed = 0 }
