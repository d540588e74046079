-- ===== src/Raft/Terms.antt =====
-- Terms and votes over time: what every entry point of a node keeps.
use gems.Prelude.{ℕ, Bool, ◌+◌, ◌≤◌, ◌<◌, ◌≡◌, refl, some, List, arith, u64_mod}
use gems.Prelude.Results.{Result}
use gems.Record.{LogRecord}
use gems.Raft.State.{
  NodeId, Term, RaftCore, Envelope, Rpc, request_vote_request, request_vote_response,
  append_entries_request, append_entries_response, RaftError, AppendRequest,
}
use gems.Raft.Election.{
  replicating, check_election_win, start_election, handle_request_vote, handle_vote_response,
}
use gems.Raft.Commit.{advance_commit_index}
use gems.Raft.Follower.{handle_append_entries}
use gems.Raft.Core.{tick, propose, receive, receive_rpc, handle_append_response}

-- `d` is a later state of the node `c`: terms only grow, and a vote stays for its whole term.
pub record Follows (c d : RaftCore) : Type 0 where
  pub same_id : d.id ≡ c.id
  pub same_peers : d.peers ≡ c.peers
  pub term_grows : c.current_term ≤ d.current_term
  pub vote_kept :
      (v : NodeId) → d.current_term ≡ c.current_term → c.voted_for ≡ some v → d.voted_for ≡ some v

pub Follows-refl : (c : RaftCore) → Follows c c
Follows-refl c = record {
  same_id = refl;
  same_peers = refl;
  term_grows = omega arith;
  vote_kept = λ v e h. h;
}

pub Follows-trans : {c d e : RaftCore} → Follows c d → Follows d e → Follows c e
Follows-trans {c} {d} {e} f g = record {
  same_id = cc (f.same_id, g.same_id);
  same_peers = cc (f.same_peers, g.same_peers);
  term_grows = omega (arith, f.term_grows, g.term_grows);
  vote_kept = λ v t h.
      g.vote_kept v (omega (arith, f.term_grows, g.term_grows))
        (f.vote_kept v (omega (arith, f.term_grows, g.term_grows)) h);
}

pub check_election_win-Follows :
    (c : RaftCore) {d : RaftCore} {out : List Envelope}
    → check_election_win c ≡ some (d, out)
    → Follows c d
unfolding check_election_win replicating
check_election_win-Follows c h = ground arith

-- The term of a candidacy is one higher, short of the end of `u64`.
pub start_election-Follows :
    (c : RaftCore) {d : RaftCore} {out : List Envelope}
    → c.current_term + 1 < u64_mod
    → start_election c ≡ some (d, out)
    → Follows c d
unfolding start_election check_election_win replicating
start_election-Follows c b h = ground arith

pub tick-Follows :
    (c : RaftCore) {d : RaftCore} {out : List Envelope}
    → c.current_term + 1 < u64_mod
    → tick c ≡ some (d, out)
    → Follows c d
unfolding tick start_election check_election_win replicating
tick-Follows c b h = ground arith

advance_commit_index-Follows : (c : RaftCore) → Follows c (advance_commit_index c)
unfolding advance_commit_index
advance_commit_index-Follows c = ground arith

pub propose-Follows :
    (c : RaftCore) (command : LogRecord) {d : RaftCore} {r : Result RaftError (ℕ × List Envelope)}
    → propose c command ≡ some (d, r)
    → Follows c d
unfolding propose advance_commit_index replicating
propose-Follows c command h = ground arith

handle_request_vote-Follows :
    (c : RaftCore) (term : Term) (from : NodeId) (index : ℕ) (last : Term)
    → Follows c (handle_request_vote c term from index last).0
unfolding handle_request_vote
handle_request_vote-Follows c term from index last = ground arith

handle_vote_response-Follows :
    (c : RaftCore) (term : Term) (granted : Bool) (voter : NodeId) {d : RaftCore}
    {out : List Envelope}
    → handle_vote_response c term granted voter ≡ some (d, out)
    → Follows c d
unfolding handle_vote_response check_election_win replicating
handle_vote_response-Follows c term granted voter h = ground arith

handle_append_entries-Follows :
    (c : RaftCore) (r : AppendRequest) → Follows c (handle_append_entries c r).0
unfolding handle_append_entries
handle_append_entries-Follows c r = ground arith

handle_append_response-Follows :
    (c : RaftCore) (term : Term) (success : Bool) (index : ℕ) (peer : NodeId) {d : RaftCore}
    {out : List Envelope}
    → handle_append_response c term success index peer ≡ some (d, out)
    → Follows c d
unfolding handle_append_response advance_commit_index replicating
handle_append_response-Follows c term success index peer h = ground arith

receive_rpc-Follows :
    (c : RaftCore) (from : NodeId) (rpc : Rpc) {d : RaftCore} {out : List Envelope}
    → receive_rpc c from rpc ≡ some (d, out)
    → Follows c d
unfolding receive_rpc
receive_rpc-Follows c from (request_vote_request r) h =
    ground
      (arith, handle_request_vote-Follows c r.term r.candidate_id r.last_log_index r.last_log_term)
receive_rpc-Follows c from (request_vote_response r) h =
    handle_vote_response-Follows c r.term r.vote_granted r.voter_id h
receive_rpc-Follows c from (append_entries_request r) h =
    ground (arith, handle_append_entries-Follows c r)
receive_rpc-Follows c from (append_entries_response r) h =
    handle_append_response-Follows c r.term r.success r.match_index r.follower_id h

pub receive-Follows :
    (c : RaftCore) (e : Envelope) {d : RaftCore} {out : List Envelope}
    → receive c e ≡ some (d, out)
    → Follows c d
unfolding receive
receive-Follows c e h = receive_rpc-Follows c e.from e.rpc h

-- Whatever a node does, its term never falls, and within a term it never takes a vote back: each
-- entry point that returns leaves a state that follows the one before. The term counter has room
-- for one more term.
pub entry_points-Follows :
    (c : RaftCore)
    → c.current_term + 1 < u64_mod
    → ((d : RaftCore) (out : List Envelope) → tick c ≡ some (d, out) → Follows c d)
      × ((e : Envelope) (d : RaftCore) (out : List Envelope)
          → receive c e ≡ some (d, out)
          → Follows c d)
      × ((command : LogRecord) (d : RaftCore) (r : Result RaftError (ℕ × List Envelope))
          → propose c command ≡ some (d, r)
          → Follows c d)
entry_points-Follows c room = (
  λ d out h. tick-Follows c room h,
  λ e d out h. receive-Follows c e h,
  λ command d r h. propose-Follows c command h,
)
