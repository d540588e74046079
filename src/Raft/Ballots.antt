-- ===== src/Raft/Ballots.antt =====
-- What the votes and messages of one node say: each candidate's votes are backed by messages, and
-- what a node sends agrees with its own state.
use gems.Prelude.{
  ℕ, ◌≤◌, ◌≡◌, ◌⊎◌, inl, inr, Bool, true, false, some, List, [], ◌∷◌, map, sym, length, arith, All,
  All-append, Member, >>=-eq-some, Bool-cases, inc32, leb, ◌&&◌,
}
use gems.Prelude.Sets
use gems.Prelude.Sets.{IsNodup}
use gems.Raft.State.{
  NodeId, Term, Role, leader, follower, RaftCore, Envelope, Rpc, request_vote_request,
  request_vote_response, append_entries_request, append_entries_response,
}
use gems.Raft.Sending.{append_entries_for, replicate_to, replicate_to_all_peers}
use gems.Raft.Election.{
  become_leader, majority, check_election_win, start_election, candidacy, vote_request_to,
  replicating, is_candidate, Sends,
}
use gems.Raft.Terms.{check_election_win-Follows}
use gems.Raft.Core.{tick, tick_as}

-- The message that grants `voter`'s vote for `term` to `to`.
abbrev pub grant : NodeId → Term → NodeId → Envelope
grant voter term to = record {
  from = voter;
  to = to;
  rpc = request_vote_response (record { term = term; vote_granted = true; voter_id = voter });
}

abbrev pub Granted : List Envelope → NodeId → Term → NodeId → Type 0
Granted sent voter term to = Member (grant voter term to) sent

abbrev pub is_active : Role → Bool
is_active follower = false
is_active _ = true

-- A vote that `c` counts is its own, or was granted by a message to it.
abbrev pub IsBacked : List Envelope → RaftCore → NodeId → Type 0
IsBacked sent c v = (v ≡ c.id) ⊎ Granted sent v c.current_term c.id

pub record IsElectoral (sent : List Envelope) (c : RaftCore) : Type 0 where
  pub nodup : IsNodup c.votes_received
  pub backed : is_active c.role ≡ true → All (IsBacked sent c) c.votes_received
  pub own_vote : is_active c.role ≡ true → c.voted_for ≡ some c.id
  pub quorum : c.role ≡ leader → majority c ≤ length c.votes_received

-- A message agrees with the state that its sender is in.
abbrev pub IsFairRpc : RaftCore → NodeId → Rpc → Type 0
IsFairRpc c to (request_vote_request r) = r.candidate_id ≡ c.id
IsFairRpc c to (request_vote_response r) =
    (r.voter_id ≡ c.id)
    × (r.vote_granted ≡ true → (r.term ≡ c.current_term) × (c.voted_for ≡ some to))
IsFairRpc c to (append_entries_request r) = (r.leader_id ≡ c.id) × (r.term ≡ c.current_term)
IsFairRpc c to (append_entries_response r) = r.follower_id ≡ c.id

abbrev pub IsFair : RaftCore → Envelope → Type 0
IsFair c m = (m.from ≡ c.id) × IsFairRpc c m.to m.rpc

pub append_entries_for-IsFair :
    (c : RaftCore) (peer to : NodeId) (rpc : Rpc)
    → append_entries_for c peer ≡ some rpc
    → IsFairRpc c to rpc
unfolding append_entries_for
append_entries_for-IsFair c peer to rpc h = ground arith

replicate_to-IsFair :
    (c : RaftCore) (ps : List NodeId) (out : List Envelope)
    → replicate_to c ps ≡ some out
    → All (IsFair c) out
unfolding replicate_to
replicate_to-IsFair c [] out h = ground arith
replicate_to-IsFair c (p ∷ ps) out h =
    let (rpc, r, h') = >>=-eq-some (append_entries_for c p) _ h in
    let (rest, r', h'') = >>=-eq-some (replicate_to c ps) _ h' in
    ground (arith, append_entries_for-IsFair c p p rpc r, replicate_to-IsFair c ps rest r')

pub replicating-IsFair :
    (c : RaftCore) {d : RaftCore} {out : List Envelope}
    → replicating c ≡ some (d, out)
    → (d ≡ c) × All (IsFair c) out
unfolding replicating replicate_to_all_peers
replicating-IsFair c {d} {out} h =
    let (msgs, r, e) = >>=-eq-some (replicate_to c c.peers) _ h in
    ground (arith, replicate_to-IsFair c c.peers out)

-- What a step of a node keeps: its ballots stay backed, and what it sends is fair.
pub record Keeps (sent : List Envelope) (c d : RaftCore) (out : List Envelope) : Type 0 where
  pub electoral : IsElectoral sent c → IsElectoral sent d
  pub fair : All (IsFair d) out

-- A step that sends nothing.
pub silent-Keeps :
    (sent : List Envelope) (c x : RaftCore) {d : RaftCore} {out : List Envelope}
    → (IsElectoral sent c → IsElectoral sent x)
    → ◌≡◌ {A = Sends} (some (x, [])) (some (d, out))
    → Keeps sent c d out
silent-Keeps sent c x {d} {out} keep h =
    let same : d ≡ x = cc in
    let none_sent : out ≡ [] = cc in rw (same, none_sent) (record { electoral = keep; fair = tt })

become_leader-IsElectoral :
    (sent : List Envelope) (c : RaftCore)
    → is_candidate c.role ≡ true
    → majority c ≤ length c.votes_received
    → IsElectoral sent c
    → IsElectoral sent (become_leader c)
unfolding become_leader majority
become_leader-IsElectoral sent c active won inv = ground arith

pub check_election_win-Keeps :
    (sent : List Envelope) (c : RaftCore) {d : RaftCore} {out : List Envelope}
    → check_election_win c ≡ some (d, out)
    → Keeps sent c d out
unfolding check_election_win
check_election_win-Keeps sent c {d} {out} h =
    elim (Bool-cases (is_candidate c.role && leb (majority c) (length c.votes_received))) [
      | inl won ↦
          let (same, fair) = replicating-IsFair (become_leader c) (rw won at h) in
          rw same (record {
            electoral = become_leader-IsElectoral sent c (ground arith) (ground arith);
            fair = fair;
          })
      | inr lost ↦ ground arith
    ]

candidacy-IsElectoral : (sent : List Envelope) (c : RaftCore) → IsElectoral sent (candidacy c)
unfolding candidacy Sets.contains
candidacy-IsElectoral sent c = ground arith

vote_requests-IsFair :
    (c d : RaftCore) (ps : List NodeId) → d.id ≡ c.id → All (IsFair d) (map (vote_request_to c) ps)
unfolding vote_request_to
vote_requests-IsFair c d [] e = tt
vote_requests-IsFair c d (p ∷ ps) e = ((sym e, sym e), vote_requests-IsFair c d ps e)

start_election-Keeps :
    (sent : List Envelope) (c : RaftCore) {d : RaftCore} {out : List Envelope}
    → start_election c ≡ some (d, out)
    → Keeps sent c d out
unfolding start_election
start_election-Keeps sent c {d} {out} h =
    let (won, r, e) = >>=-eq-some (check_election_win (candidacy c)) _ h in
    let kept = check_election_win-Keeps sent (candidacy c) {d = won.0} {out = won.1} r in
    let later = check_election_win-Follows (candidacy c) {d = won.0} {out = won.1} r in
    record {
      electoral = λ _. ground (arith, kept.electoral (candidacy-IsElectoral sent c));
      fair = ground (
        arith,
        All-append (IsFair won.0) (map (vote_request_to (candidacy c)) c.peers) won.1
            (vote_requests-IsFair (candidacy c) won.0 c.peers later.same_id) kept.fair,
      );
    }

-- A node's timers say nothing of its ballots.
timers-IsElectoral :
    (sent : List Envelope) (c : RaftCore) (elapsed beat : ℕ)
    → IsElectoral sent c
    → IsElectoral sent (record c { election_elapsed = elapsed; heartbeat_elapsed = beat })
unfolding majority
timers-IsElectoral sent c elapsed beat inv = ground arith

tick_as-Keeps :
    (sent : List Envelope) (role : Role) (c : RaftCore) {d : RaftCore} {out : List Envelope}
    → tick_as role c ≡ some (d, out)
    → Keeps sent c d out
unfolding tick_as
tick_as-Keeps sent leader c {d} {out} h =
    elim (Bool-cases (leb c.heartbeat_interval (inc32 c.heartbeat_elapsed))) [
      | inl due ↦
          let (same, fair) =
            replicating-IsFair (record c { heartbeat_elapsed = 0 }) (rw due at h) in
          rw same
            (record { electoral = timers-IsElectoral sent c c.election_elapsed 0; fair = fair })
      | inr early ↦
          silent-Keeps sent c (record c { heartbeat_elapsed = inc32 c.heartbeat_elapsed })
            (timers-IsElectoral sent c c.election_elapsed _) (rw early at h)
    ]
tick_as-Keeps sent _ c {d} {out} h =
    elim (Bool-cases (leb c.election_timeout (inc32 c.election_elapsed))) [
      | inl due ↦
          let kept = start_election-Keeps sent _ (rw due at h) in
          record {
            electoral = λ inv. kept.electoral (timers-IsElectoral sent c _ c.heartbeat_elapsed inv);
            fair = kept.fair;
          }
      | inr early ↦
          silent-Keeps sent c (record c { election_elapsed = inc32 c.election_elapsed })
            (timers-IsElectoral sent c _ c.heartbeat_elapsed) (rw early at h)
    ]

pub tick-Keeps :
    (sent : List Envelope) (c : RaftCore) {d : RaftCore} {out : List Envelope}
    → tick c ≡ some (d, out)
    → Keeps sent c d out
unfolding tick
tick-Keeps sent c h = tick_as-Keeps sent c.role c h
