-- ===== src/Raft/Voting.antt =====
-- Requests for votes and the answers to them keep a node's ballots backed.
use gems.Prelude.{
  ℕ, ◌≤◌, ◌≡◌, inl, inr, refl, ◌∙◌, Bool, true, false, ◌&&◌, some, List, ◌==◌, ltb, length, arith,
  All, Bool-cases,
}
use gems.Prelude.Sets
use gems.Prelude.Sets.{contains-insert, insert-IsNodup}
use gems.Raft.State.{NodeId, Term, RaftCore, Envelope}
use gems.Raft.Election.{
  become_follower, majority, handle_request_vote, handle_vote_response, cast_vote, when_newer,
  count_vote, is_candidate,
}
use gems.Raft.Ballots.{
  IsElectoral, IsBacked, Keeps, Granted, check_election_win-Keeps, silent-Keeps, is_active,
}

pub become_follower-IsElectoral :
    (sent : List Envelope) (c : RaftCore) (term : Term)
    → IsElectoral sent c
    → IsElectoral sent (become_follower c term)
unfolding become_follower
become_follower-IsElectoral sent c term inv = ground arith

when_newer-IsElectoral :
    (sent : List Envelope) (c : RaftCore) (term : Term)
    → IsElectoral sent c
    → IsElectoral sent (when_newer c term)
when_newer-IsElectoral sent c term inv = elim (Bool-cases (ltb c.current_term term)) [
  | inl newer ↦ rw newer (become_follower-IsElectoral sent c term inv)
  | inr known ↦ rw known inv
]

insert-backed :
    (P : NodeId → Type 0) (v : NodeId) (s : List NodeId) → P v → All P s → All P (Sets.insert v s)
unfolding Sets.insert
insert-backed P v s pv h = elim (Bool-cases (Sets.contains s v)) [
  | inl old ↦ rw old h
  | inr new ↦ rw new (pv, h)
]

length-insert : (v : NodeId) (s : List NodeId) → length s ≤ length (Sets.insert v s)
unfolding Sets.insert
length-insert v s = ground arith

count_vote-IsElectoral :
    (sent : List Envelope) (c : RaftCore) (granted : Bool) (voter : NodeId)
    → (granted ≡ true → Granted sent voter c.current_term c.id)
    → IsElectoral sent c
    → IsElectoral sent (count_vote c granted voter)
unfolding count_vote majority
count_vote-IsElectoral sent c false voter seen inv = inv
count_vote-IsElectoral sent c true voter seen inv = record {
  nodup = insert-IsNodup voter c.votes_received inv.nodup;
  backed =
      λ a. insert-backed (IsBacked sent c) voter c.votes_received (inr (seen refl)) (inv.backed a);
  own_vote = inv.own_vote;
  quorum = λ l. omega (arith, inv.quorum l, length-insert voter c.votes_received);
}

pub vote_response-Keeps :
    (sent : List Envelope) (c : RaftCore) (term : Term) (granted : Bool) (voter : NodeId)
    {d : RaftCore} {out : List Envelope}
    → (granted ≡ true → Granted sent voter term c.id)
    → handle_vote_response c term granted voter ≡ some (d, out)
    → Keeps sent c d out
unfolding handle_vote_response
vote_response-Keeps sent c term granted voter {d} {out} seen h =
    elim (Bool-cases (ltb c.current_term term)) [
      | inl newer ↦
          silent-Keeps sent c (become_follower c term) (become_follower-IsElectoral sent c term)
            (ground arith)
      | inr known ↦ elim (Bool-cases (is_candidate c.role && c.current_term == term)) [
        | inr other ↦ silent-Keeps sent c c (λ inv. inv) (rw other at (rw known at h))
        | inl ours ↦
            let same : c.current_term ≡ term = ground arith in
            let kept =
              check_election_win-Keeps sent (count_vote c granted voter) {d = d} {out = out}
                (rw ours at (rw known at h)) in
            record {
              electoral = λ inv.
                  kept.electoral (count_vote-IsElectoral sent c granted voter (rw same seen) inv);
              fair = kept.fair;
            }
      ]
    ]

-- A state that shares what ballots are about.
pub same_ballots :
    (sent : List Envelope) (c d : RaftCore)
    → (d.id ≡ c.id)
      × (d.peers ≡ c.peers)
      × (d.current_term ≡ c.current_term)
      × (d.role ≡ c.role)
      × (d.votes_received ≡ c.votes_received)
    → (is_active c.role ≡ true → d.voted_for ≡ c.voted_for)
    → IsElectoral sent c
    → IsElectoral sent d
unfolding majority
same_ballots sent c d (i, p, t, r, v) own inv = record {
  nodup = rw v inv.nodup;
  backed = λ a. rw (v, t, i) (inv.backed (rw r at a));
  own_vote = λ a. own (rw r at a) ∙ (inv.own_vote (rw r at a) ∙ rw i);
  quorum = λ l. rw (p, v) (inv.quorum (rw r at l));
}

cast_vote-IsElectoral :
    (sent : List Envelope) (c : RaftCore) (term : Term) (from : NodeId) (index : ℕ) (last : Term)
    → IsElectoral sent c
    → IsElectoral sent (cast_vote c term from index last).0
unfolding cast_vote
cast_vote-IsElectoral sent c term from index last inv =
    same_ballots sent c (cast_vote c term from index last).0 (ground arith)
      (λ a. ground (arith, inv.own_vote a)) inv

pub request_vote-IsElectoral :
    (sent : List Envelope) (c : RaftCore) (term : Term) (from : NodeId) (index : ℕ) (last : Term)
    → IsElectoral sent c
    → IsElectoral sent (handle_request_vote c term from index last).0
unfolding handle_request_vote
request_vote-IsElectoral sent c term from index last inv =
    cast_vote-IsElectoral sent (when_newer c term) term from index last
      (when_newer-IsElectoral sent c term inv)

-- A vote is granted for the voter's own term, and then the voter has voted for that candidate.
pub request_vote_granted :
    (c : RaftCore) (term : Term) (from : NodeId) (index : ℕ) (last : Term)
    → let (d, answered, granted) = handle_request_vote c term from index last in
      (answered ≡ d.current_term)
      × (d.id ≡ c.id)
      × (granted ≡ true → (term ≡ d.current_term) × (d.voted_for ≡ some from))
unfolding handle_request_vote
request_vote_granted c term from index last = ground arith
