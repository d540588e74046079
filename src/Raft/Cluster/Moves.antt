-- ===== src/Raft/Cluster/Moves.antt =====
-- Every step is one member's move, and what follows for a run of steps.
use gems.Prelude.{
  ℕ, ◌≡◌, inl, inr, refl, sym, subst, true, some, List, [], ◌++◌, arith, Member, Member-append,
  Member-append_left,
}
use gems.Prelude.Sets.{contains}
use gems.Raft.State.{
  NodeId, RaftCore, Envelope, Rpc, request_vote_request, request_vote_response,
  append_entries_request, append_entries_response,
}
use gems.Raft.Terms.{
  Follows, Follows-refl, Follows-trans, tick-Follows, receive-Follows, propose-Follows,
}
use gems.Raft.Ballots.{Keeps, Granted, grant, tick-Keeps}
use gems.Raft.Receiving.{IsSeen, outbox, receive-Keeps, propose-Keeps}
use gems.Raft.Cluster.{
  Cluster, after, restarted, Step, ticks, delivers, proposes, restarts, Reach, here, next,
}
use gems.Raft.Cluster.Soundness.{
  IsHonestRpc, IsSound, after-IsSound, nodes-after-Follows, new_message,
}

restarted-Follows : (c : RaftCore) (e h : ℕ) → Follows c (restarted c e h)
unfolding restarted
restarted-Follows c e h = ground arith

restarted-Keeps :
    (sent : List Envelope) (c : RaftCore) (e h : ℕ) → Keeps sent c (restarted c e h) []
unfolding restarted
restarted-Keeps sent c e h = ground arith

-- A step, seen as one member's move to a state that follows its own.
record IsMove (members : List NodeId) (s u : Cluster) : Type 0 where
  node : NodeId
  state : RaftCore
  out : List Envelope
  member : contains members node ≡ true
  later : Follows (s.nodes node) state
  kept : Keeps s.sent (s.nodes node) state out
  lands : u ≡ after s node state out

sent-IsSeen :
    (sent : List Envelope) (c : RaftCore) (from to : NodeId) (rpc : Rpc)
    → Member (record { from = from; to = to; rpc = rpc }) sent
    → IsHonestRpc c from to rpc
    → IsSeen sent from to rpc
sent-IsSeen sent c from to (request_vote_request r) m h = h
sent-IsSeen sent c from to (request_vote_response r) m h = λ g.
    let same : record { from = from; to = to; rpc = request_vote_response r }
        ≡ grant r.voter_id r.term to =
      ground (arith, h.0, g) in
    subst (λ e. Member e sent) same m
sent-IsSeen sent c from to (append_entries_request r) m h = tt
sent-IsSeen sent c from to (append_entries_response r) m h = tt

Step-IsMove :
    (members : List NodeId) (s u : Cluster)
    → IsSound members s
    → Step members s u
    → IsMove members s u
Step-IsMove members s u sound (ticks i d out member room e lands) = record {
  node = i;
  state = d;
  out = out;
  member = member;
  later = tick-Follows (s.nodes i) room e;
  kept = tick-Keeps s.sent (s.nodes i) e;
  lands = lands;
}
Step-IsMove members s u sound (delivers m d out member known e lands) =
    let seen : IsSeen s.sent m.from (s.nodes m.to).id m.rpc =
      rw (sound.ids m.to)
        (sent-IsSeen s.sent (s.nodes m.from) m.from m.to m.rpc known (sound.honest m known).1) in
    record {
      node = m.to;
      state = d;
      out = out;
      member = member;
      later = receive-Follows (s.nodes m.to) m e;
      kept = receive-Keeps s.sent (s.nodes m.to) m seen e;
      lands = lands;
    }
Step-IsMove members s u sound (proposes i command d r member e lands) = record {
  node = i;
  state = d;
  out = outbox r;
  member = member;
  later = propose-Follows (s.nodes i) command e;
  kept = propose-Keeps s.sent (s.nodes i) command e;
  lands = lands;
}
Step-IsMove members s u sound (restarts i et hi member lands) = record {
  node = i;
  state = restarted (s.nodes i) et hi;
  out = [];
  member = member;
  later = restarted-Follows (s.nodes i) et hi;
  kept = restarted-Keeps s.sent (s.nodes i) et hi;
  lands = lands;
}

after-sent :
    (s : Cluster) (i : NodeId) (d : RaftCore) (out : List Envelope)
    → (after s i d out).sent ≡ s.sent ++ out
unfolding after
after-sent s i d out = refl

module _ (members : List NodeId) where
  Step-IsSound : (s u : Cluster) → IsSound members s → Step members s u → IsSound members u
  Step-IsSound s u sound step =
      let v = Step-IsMove members s u sound step in
      rw (v.lands) (after-IsSound members s v.node v.state v.out v.member v.later v.kept sound)

  pub Reach-IsSound : {s u : Cluster} → IsSound members s → Reach members s u → IsSound members u
  Reach-IsSound h here = h
  Reach-IsSound h (next {t} {u} r st) = Step-IsSound t u (Reach-IsSound h r) st

  Step-Follows :
      (s u : Cluster) (j : NodeId)
      → IsSound members s
      → Step members s u
      → Follows (s.nodes j) (u.nodes j)
  Step-Follows s u j sound step =
      let v = Step-IsMove members s u sound step in
      rw (v.lands)
        (nodes-after-Follows members s v.node v.state v.out v.member v.later v.kept sound j)

  pub Reach-Follows :
      {s u : Cluster} (j : NodeId)
      → IsSound members s
      → Reach members s u
      → Follows (s.nodes j) (u.nodes j)
  Reach-Follows {s} j h here = Follows-refl (s.nodes j)
  Reach-Follows j h (next {t} {u} r st) =
      Follows-trans (Reach-Follows j h r) (Step-Follows t u j (Reach-IsSound h r) st)

  pub Reach-sent :
      {s u : Cluster} (m : Envelope)
      → IsSound members s
      → Reach members s u
      → Member m s.sent
      → Member m u.sent
  Reach-sent m h here k = k
  Reach-sent m h (next {t} {u} r st) k =
      let v = Step-IsMove members t u (Reach-IsSound h r) st in
      rw (v.lands, after-sent) (Member-append_left m t.sent v.out (Reach-sent m h r k))

  -- A node that voted for itself grants its vote of that term to no one else, then or later.
  pub own_vote_stays :
      {s u : Cluster} (a b : NodeId)
      → IsSound members s
      → (s.nodes a).voted_for ≡ some a
      → Reach members s u
      → Granted u.sent a (s.nodes a).current_term b
      → a ≡ b
  own_vote_stays {s} a b h own here g = let claims = ((h.honest _ g).1.1 refl).1 refl in cc
  own_vote_stays {s} a b h own (next {t} {u} r st) g =
      let sound = Reach-IsSound h r in
      let v = Step-IsMove members t u sound st in
      elim (Member-append _ t.sent v.out (rw (v.lands, after-sent) at g)) [
        | inl old ↦ own_vote_stays a b h own r old
        | inr new ↦
            let (from, fair) =
              new_message members t v.node v.state v.out v.member v.later v.kept sound _ new in
            let (term, voted) = fair.1 refl in
            let later : Follows (s.nodes a) v.state =
              Follows-trans (Reach-Follows a h r) (rw from v.later) in
            let still = later.vote_kept a (sym term) own in cc
      ]
