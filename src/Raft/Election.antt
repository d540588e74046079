-- ===== src/Raft/Election.antt =====
-- Elections (crates/gems-cluster/src/raft.rs). A handler returns the new state beside its result;
-- `none` is a panic.
use gems.Prelude.{
  ℕ, ◌+◌, ◌/◌, Bool, true, false, ◌&&◌, ◌||◌, Option, none, some, List, [], ◌∷◌, ◌++◌, map, length,
  ltb, leb, ◌==◌, if◌then◌else◌, inc64, is_value, ◌>>=◌,
}
use gems.Prelude.Sets
use gems.Raft.State.{
  NodeId, Term, Role, follower, candidate, leader, RaftCore, Envelope, request_vote_request,
  last_log_index, last_log_term, envelope_to, reset_election_timer,
}
use gems.Raft.Sending.{replicate_to_all_peers}

-- The state that a handler leaves, and what it sends.
abbrev pub Sends : Type 0
Sends = Option (RaftCore × List Envelope)

abbrev pub is_candidate : Role → Bool
is_candidate candidate = true
is_candidate _ = false

abbrev pub is_leader : Role → Bool
is_leader leader = true
is_leader _ = false

abbrev pub is_none : Option NodeId → Bool
is_none none = true
is_none (some v) = false

unfoldable pub become_follower : RaftCore → Term → RaftCore
become_follower c term =
    if ltb c.current_term term
    then record c { current_term = term; voted_for = none; role = follower; election_elapsed = 0 }
    else record c { role = follower; election_elapsed = 0 }

unfoldable pub become_leader : RaftCore → RaftCore
unfolding last_log_index
become_leader c =
    let next = last_log_index c + 1 in
    record c {
      role = leader;
      next_index = map (λ p. (p, next)) c.peers;
      match_index = map (λ p. (p, 0)) c.peers;
      heartbeat_elapsed = 0;
    }

unfoldable pub majority : RaftCore → ℕ
majority c = (length c.peers + 1) / 2 + 1

-- Sends what a state replicates, and keeps that state.
unfoldable pub replicating : RaftCore → Sends
replicating c = do msgs ← replicate_to_all_peers c; some (c, msgs)

unfoldable pub check_election_win : RaftCore → Sends
unfolding become_leader majority replicating
check_election_win c =
    if is_candidate c.role && leb (majority c) (length c.votes_received)
    then replicating (become_leader c)
    else some (c, [])

-- The state in which a candidate asks for votes.
unfoldable pub candidacy : RaftCore → RaftCore
candidacy c = record c {
  role = candidate;
  current_term = inc64 c.current_term;
  voted_for = some c.id;
  votes_received = c.id ∷ [];
  election_elapsed = 0;
}

unfoldable pub vote_request_to : RaftCore → NodeId → Envelope
unfolding last_log_index last_log_term envelope_to
vote_request_to c p = envelope_to c p (
    request_vote_request (record {
      term = c.current_term;
      candidate_id = c.id;
      last_log_index = last_log_index c;
      last_log_term = last_log_term c;
    }))

unfoldable pub start_election : RaftCore → Sends
unfolding candidacy vote_request_to
start_election c = do
  let asking = candidacy c
  won ← check_election_win asking
  some (won.0, map (vote_request_to asking) asking.peers ++ won.1)

unfoldable pub candidate_log_is_up_to_date : RaftCore → ℕ → Term → Bool
unfolding last_log_index last_log_term
candidate_log_is_up_to_date c index term =
    ltb (last_log_term c) term || (term == last_log_term c && leb (last_log_index c) index)

abbrev pub when_newer : RaftCore → Term → RaftCore
when_newer c term = if ltb c.current_term term then become_follower c term else c

-- The second half of `handle_request_vote`, once the term is adopted.
unfoldable pub cast_vote : RaftCore → Term → NodeId → ℕ → Term → RaftCore × Bool
unfolding candidate_log_is_up_to_date reset_election_timer
cast_vote c term candidate_id index last_term =
    if c.current_term == term
      && ((is_none c.voted_for || is_value c.voted_for candidate_id)
          && candidate_log_is_up_to_date c index last_term)
    then (reset_election_timer (record c { voted_for = some candidate_id }), true)
    else (c, false)

unfoldable pub handle_request_vote : RaftCore → Term → NodeId → ℕ → Term → RaftCore × Term × Bool
unfolding become_follower cast_vote
handle_request_vote c term candidate_id index last_term =
    let (c', granted) = cast_vote (when_newer c term) term candidate_id index last_term in
    (c', c'.current_term, granted)

unfoldable pub count_vote : RaftCore → Bool → NodeId → RaftCore
count_vote c granted voter =
    if granted then record c { votes_received = Sets.insert voter c.votes_received } else c

unfoldable pub handle_vote_response : RaftCore → Term → Bool → NodeId → Sends
unfolding become_follower count_vote
handle_vote_response c term granted voter =
    if ltb c.current_term term
    then some (become_follower c term, [])
    else if is_candidate c.role && c.current_term == term
    then check_election_win (count_vote c granted voter)
    else some (c, [])
