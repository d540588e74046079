-- ===== src/Raft/Cluster/Safety.antt =====
-- At most one leader for each term, over the whole run of a cluster.
use gems.Prelude.{
  ℕ, ◌+◌, ◌/◌, ◌≤◌, ◌≡◌, inl, inr, refl, sym, ◌∙◌, ap, subst, true, some, List, [], length, arith,
  All-map, Member,
}
use gems.Prelude.Sets.{contains, IsWithin, All-contains, overlap}
use gems.Raft.State.{NodeId, Term, leader, Envelope, new}
use gems.Raft.Election.{majority}
use gems.Raft.Ballots.{IsBacked, Granted, grant, is_active}
use gems.Raft.Cluster.{Cluster, Reach, here}
use gems.Raft.Cluster.Soundness.{IsSound}
use gems.Raft.Cluster.Moves.{own_vote_stays, Reach-IsSound, Reach-sent}

-- A cluster of new nodes, before any message.
unfoldable pub boot : (NodeId → List NodeId) → (NodeId → ℕ) → ℕ → Cluster
unfolding new
boot peers election_timeout heartbeat_interval = record {
  nodes = λ i. new i (peers i) (election_timeout i) heartbeat_interval;
  sent = [];
}

-- Each member's peers are as many as the other members.
abbrev pub IsConfigured : List NodeId → (NodeId → List NodeId) → Type 0
IsConfigured members peers =
    (i : NodeId) → contains members i ≡ true → length (peers i) + 1 ≡ length members

pub boot-IsSound :
    (members : List NodeId) (peers : NodeId → List NodeId) (election_timeout : NodeId → ℕ)
    (heartbeat_interval : ℕ)
    → IsConfigured members peers
    → IsSound members (boot peers election_timeout heartbeat_interval)
unfolding boot
boot-IsSound members peers et hi counted = record {
  ids = λ i. refl;
  counted = counted;
  electoral = λ i. record { nodup = tt; backed = λ a. cc; own_vote = λ a. cc; quorum = λ l. cc };
  honest = λ m h. elim h [ ];
  single = λ v t a b h k. elim h [ ];
}

-- `a` leads the term `t`.
abbrev pub Leads : Cluster → NodeId → Term → Type 0
Leads s a t = ((s.nodes a).role ≡ leader) × ((s.nodes a).current_term ≡ t)

Granted-at :
    (sent : List Envelope) {v v' : NodeId} {t t' : Term} {a a' : NodeId}
    → v ≡ v'
    → t ≡ t'
    → a ≡ a'
    → Granted sent v t a
    → Granted sent v' t' a'
Granted-at sent p q r g = subst (λ m. Member m sent) (λ i. grant (p i) (q i) (r i)) g

module _ (members : List NodeId) where
  backer_is_member :
      (s : Cluster) (a v : NodeId)
      → IsSound members s
      → contains members a ≡ true
      → IsBacked s.sent (s.nodes a) v
      → contains members v ≡ true
  backer_is_member s a v h member (inl own) = rw (own, h.ids a) member
  backer_is_member s a v h member (inr g) = (h.honest _ g).0

  voters-IsWithin :
      (s : Cluster) (a : NodeId)
      → IsSound members s
      → contains members a ≡ true
      → (s.nodes a).role ≡ leader
      → IsWithin members (s.nodes a).votes_received
  voters-IsWithin s a h member led =
      All-map (IsBacked s.sent (s.nodes a)) (λ v. contains members v ≡ true) _
        (λ v. backer_is_member s a v h member) ((h.electoral a).backed (ap is_active led))

  many_voters :
      (s : Cluster) (a : NodeId)
      → IsSound members s
      → contains members a ≡ true
      → (s.nodes a).role ≡ leader
      → length members / 2 + 1 ≤ length (s.nodes a).votes_received
  unfolding majority
  many_voters s a h member led = rw (← h.counted a member) ((h.electoral a).quorum led)

  voted_for_self :
      (s : Cluster) (a : NodeId)
      → IsSound members s
      → (s.nodes a).role ≡ leader
      → (s.nodes a).voted_for ≡ some a
  voted_for_self s a h led = (h.electoral a).own_vote (ap is_active led) ∙ ap some (h.ids a)

  common_voter :
      (s u : Cluster) (a b v : NodeId) (t : Term)
      → IsSound members s
      → Reach members s u
      → Leads s a t
      → Leads u b t
      → IsBacked s.sent (s.nodes a) v
      → IsBacked u.sent (u.nodes b) v
      → a ≡ b
  common_voter s u a b v t h r (la, ta) (lb, tb) (inl x) (inl y) =
      cc (h.ids a, (Reach-IsSound members h r).ids b)
  common_voter s u a b v t h r (la, ta) (lb, tb) (inl x) (inr g) =
      let k = Reach-IsSound members h r in
      own_vote_stays members a b h (voted_for_self s a h la) r
        (Granted-at u.sent (x ∙ h.ids a) (tb ∙ sym ta) (k.ids b) g)
  common_voter s u a b v t h r (la, ta) (lb, tb) (inr g) (inl y) =
      let k = Reach-IsSound members h r in
      sym (
        own_vote_stays members b a k (voted_for_self u b k lb) here
          (Granted-at u.sent (y ∙ k.ids b) (ta ∙ sym tb) (h.ids a) (Reach-sent members _ h r g)))
  common_voter s u a b v t h r (la, ta) (lb, tb) (inr g) (inr g') =
      let k = Reach-IsSound members h r in
      k.single v t a b (Granted-at u.sent refl ta (h.ids a) (Reach-sent members _ h r g))
        (Granted-at u.sent refl tb (k.ids b) g')

-- In any run of a cluster, whatever messages are lost, repeated, delayed or reordered and whichever
-- members restart: if `a` leads a term in one state and `b` leads the same term in that state or in
-- a later one, they are the same member. Every member starts as a new node that is configured with
-- as many peers as there are other members.
pub election_safety :
    (members : List NodeId) (peers : NodeId → List NodeId) (election_timeout : NodeId → ℕ)
    (heartbeat_interval : ℕ) (s u : Cluster) (a b : NodeId) (t : Term)
    → IsConfigured members peers
    → Reach members (boot peers election_timeout heartbeat_interval) s
    → Reach members s u
    → contains members a ≡ true
    → contains members b ≡ true
    → Leads s a t
    → Leads u b t
    → a ≡ b
election_safety members peers et hi s u a b t counted r₀ r ma mb la lb =
    let h = Reach-IsSound members (boot-IsSound members peers et hi counted) r₀ in
    let k = Reach-IsSound members h r in
    let (v, va, vb) =
      overlap (s.nodes a).votes_received (u.nodes b).votes_received members (h.electoral a).nodup
        (k.electoral b).nodup (voters-IsWithin members s a h ma la.0)
        (voters-IsWithin members u b k mb lb.0)
        (omega (arith, many_voters members s a h ma la.0, many_voters members u b k mb lb.0)) in
    common_voter members s u a b v t h r la lb
      (All-contains _ _ v ((h.electoral a).backed (ap is_active la.0)) va)
      (All-contains _ _ v ((k.electoral b).backed (ap is_active lb.0)) vb)
