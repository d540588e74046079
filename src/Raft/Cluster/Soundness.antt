-- ===== src/Raft/Cluster/Soundness.antt =====
-- The invariant of a cluster, and that every step keeps it.
use gems.Prelude.{
  ◌+◌, ◌≤◌, ◌≡◌, inl, inr, refl, sym, ◌∙◌, true, some, List, ◌++◌, length, ◌==◌, arith, All-map,
  Member, Member-append, Member-append_left, All-Member, Bool-cases, ==_iff,
}
use gems.Prelude.Sets.{contains}
use gems.Raft.State.{
  NodeId, Term, RaftCore, Envelope, Rpc, request_vote_request, request_vote_response,
  append_entries_request, append_entries_response,
}
use gems.Raft.Terms.{Follows, Follows-refl}
use gems.Raft.Ballots.{IsElectoral, IsBacked, IsFair, IsFairRpc, Keeps, Granted, grant}
use gems.Raft.Cluster.{Cluster, after}

-- What a message that was sent says of its sender now.
abbrev pub IsHonestRpc : RaftCore → NodeId → NodeId → Rpc → Type 0
IsHonestRpc c from to (request_vote_request r) = r.candidate_id ≡ from
IsHonestRpc c from to (request_vote_response r) =
    (r.voter_id ≡ from)
    × (r.vote_granted ≡ true
        → (r.term ≤ c.current_term) × (r.term ≡ c.current_term → c.voted_for ≡ some to))
IsHonestRpc c from to _ = Unit {0}

abbrev pub IsHonest : List NodeId → Cluster → Envelope → Type 0
IsHonest members s m =
    (contains members m.from ≡ true) × IsHonestRpc (s.nodes m.from) m.from m.to m.rpc

pub record IsSound (members : List NodeId) (s : Cluster) : Type 0 where
  pub ids : (i : NodeId) → (s.nodes i).id ≡ i
  pub counted :
      (i : NodeId) → contains members i ≡ true → length (s.nodes i).peers + 1 ≡ length members
  pub electoral : (i : NodeId) → IsElectoral s.sent (s.nodes i)
  pub honest : (m : Envelope) → Member m s.sent → IsHonest members s m
  pub single :
      (v : NodeId) (t : Term) (a b : NodeId) → Granted s.sent v t a → Granted s.sent v t b → a ≡ b

IsElectoral-append :
    (sent out : List Envelope) (c : RaftCore) → IsElectoral sent c → IsElectoral (sent ++ out) c
IsElectoral-append sent out c inv = record {
  nodup = inv.nodup;
  backed = λ a.
      All-map (IsBacked sent c) (IsBacked (sent ++ out) c) c.votes_received (λ v. wider v)
        (inv.backed a);
  own_vote = inv.own_vote;
  quorum = inv.quorum;
}
  where
    wider : (v : NodeId) → IsBacked sent c v → IsBacked (sent ++ out) c v
    wider v (inl own) = inl own
    wider v (inr g) = inr (Member-append_left (grant v c.current_term c.id) sent out g)

IsHonestRpc-Follows :
    (c d : RaftCore) (from to : NodeId) (rpc : Rpc)
    → Follows c d
    → IsHonestRpc c from to rpc
    → IsHonestRpc d from to rpc
IsHonestRpc-Follows c d from to (request_vote_request r) f h = h
IsHonestRpc-Follows c d from to (request_vote_response r) f h = (
  h.0,
  λ g. (
    omega (arith, (h.1 g).0, f.term_grows),
    λ e.
        f.vote_kept to (omega (arith, (h.1 g).0, f.term_grows))
          ((h.1 g).1 (omega (arith, (h.1 g).0, f.term_grows))),
  ),
)
IsHonestRpc-Follows c d from to (append_entries_request r) f h = h
IsHonestRpc-Follows c d from to (append_entries_response r) f h = h

IsHonestRpc-IsFairRpc :
    (d : RaftCore) (from to : NodeId) (rpc : Rpc)
    → d.id ≡ from
    → IsFairRpc d to rpc
    → IsHonestRpc d from to rpc
IsHonestRpc-IsFairRpc d from to (request_vote_request r) e h = h ∙ e
IsHonestRpc-IsFairRpc d from to (request_vote_response r) e h =
    (h.0 ∙ e, λ g. (omega (arith, (h.1 g).0), λ _. (h.1 g).1))
IsHonestRpc-IsFairRpc d from to (append_entries_request r) e h = tt
IsHonestRpc-IsFairRpc d from to (append_entries_response r) e h = tt

-- One member's step to a state that follows its own and keeps its ballots.
module _ (members : List NodeId) (s : Cluster) (i : NodeId) (d : RaftCore) (out : List Envelope)
    (member : contains members i ≡ true) (later : Follows (s.nodes i) d)
    (kept : Keeps s.sent (s.nodes i) d out) (sound : IsSound members s) where
  same_id : d.id ≡ i
  same_id = later.same_id ∙ sound.ids i

  pub nodes-after-Follows : (j : NodeId) → Follows (s.nodes j) ((after s i d out).nodes j)
  unfolding after
  nodes-after-Follows j = elim (Bool-cases (j == i)) [
    | inl e ↦ rw e (rw ((==_iff j i).0 e) later)
    | inr ne ↦ rw ne (Follows-refl (s.nodes j))
  ]

  after-IsElectoral : (j : NodeId) → IsElectoral (after s i d out).sent ((after s i d out).nodes j)
  unfolding after
  after-IsElectoral j = elim (Bool-cases (j == i)) [
    | inl e ↦ rw e (IsElectoral-append s.sent out d (kept.electoral (sound.electoral i)))
    | inr ne ↦ rw ne (IsElectoral-append s.sent out (s.nodes j) (sound.electoral j))
  ]

  -- A new message comes from `i` and agrees with `d`.
  pub new_message : (m : Envelope) → Member m out → (m.from ≡ i) × IsFairRpc d m.to m.rpc
  new_message m new =
      let (from, fair) = All-Member (IsFair d) out kept.fair new in (from ∙ same_id, fair)

  after-IsHonest :
      (m : Envelope) → Member m (after s i d out).sent → IsHonest members (after s i d out) m
  unfolding after
  after-IsHonest m h = elim (Member-append m s.sent out h) [
    | inl old ↦
        let (from, known) = sound.honest m old in
        (
          from,
          IsHonestRpc-Follows (s.nodes m.from) _ m.from m.to m.rpc (nodes-after-Follows m.from)
              known,
        )
    | inr new ↦
        let (from, fair) = new_message m new in
        let own : (m.from == i) ≡ true = (==_iff m.from i).1 from in
        (
          rw from member,
          rw own (IsHonestRpc-IsFairRpc d m.from m.to m.rpc (same_id ∙ sym from) fair),
        )
  ]

  fresh_grant :
      (v : NodeId) (t : Term) (a b : NodeId)
      → Member (grant v t a) out
      → Granted (after s i d out).sent v t b
      → a ≡ b
  unfolding after
  fresh_grant v t a b new other =
      let (from, fair) = new_message (grant v t a) new in
      let (term, voted) = fair.1 refl in
      let own : (v == i) ≡ true = (==_iff v i).1 from in
      let claims : d.voted_for ≡ some b =
        ((rw own at (after-IsHonest (grant v t b) other).1).1 refl).1 term in
      cc

  after-single :
      (v : NodeId) (t : Term) (a b : NodeId)
      → Granted (after s i d out).sent v t a
      → Granted (after s i d out).sent v t b
      → a ≡ b
  unfolding after
  after-single v t a b ga gb = elim (Member-append (grant v t a) s.sent out ga) [
    | inr new ↦ fresh_grant v t a b new gb
    | inl old ↦ elim (Member-append (grant v t b) s.sent out gb) [
      | inr new ↦ sym (fresh_grant v t b a new ga)
      | inl old' ↦ sound.single v t a b old old'
    ]
  ]

  after-ids : (j : NodeId) → ((after s i d out).nodes j).id ≡ j
  after-ids j = (nodes-after-Follows j).same_id ∙ sound.ids j

  after-counted :
      (j : NodeId)
      → contains members j ≡ true
      → length ((after s i d out).nodes j).peers + 1 ≡ length members
  after-counted j h = rw ((nodes-after-Follows j).same_peers) (sound.counted j h)

  pub after-IsSound : IsSound members (after s i d out)
  after-IsSound = record {
    ids = after-ids;
    counted = after-counted;
    electoral = after-IsElectoral;
    honest = after-IsHonest;
    single = after-single;
  }
