-- ===== src/Gossip/Order.antt =====
-- What a node records about the others only moves up: by incarnation, then by severity, and no
-- further once a member is dead.
use gems.Prelude.{
  ℕ, ◌<◌, ◌≡◌, ◌≢◌, ◌⊎◌, inl, inr, refl, true, false, Option, none, some, List, [], ◌∷◌, ◌==◌, ◌&&◌,
  ◌||◌, ltb, inc64, arith, ==_iff, Bool-cases, if◌then◌else◌,
}
use gems.Prelude.Maps.{lookup, lookup-insert}
use gems.Gossip.State.{
  NodeId, alive, rank, Member, GossipItem, SwimMessage, ping, ack, AwaitingAck, SwimCore,
}
use gems.Gossip.Queue.{queue_gossip, take_gossip}
use gems.Gossip.Merge.{
  is_alive, is_dead, maybe_refute_self, should_apply, apply_fact, merge, merge_all,
}
use gems.Gossip.Core.{merge_message, acknowledge, receive_message}

-- `n` may stand where `m` stood: it says the same, or it says more of a member that is not dead.
abbrev pub IsLater : Member → Member → Type 0
IsLater m n =
    ((n.status ≡ m.status) × (n.incarnation ≡ m.incarnation))
    ⊎ ((is_dead m.status ≡ false)
        × ((m.incarnation < n.incarnation)
            ⊎ ((m.incarnation ≡ n.incarnation) × (rank m.status < rank n.status))))

IsLater-trans : (m n o : Member) → IsLater m n → IsLater n o → IsLater m o
IsLater-trans m n o f g = ground arith

-- `d` keeps, about every other member, at least what `c` recorded.
pub record Rises (c d : SwimCore) : Type 0 where
  pub same_id : d.id ≡ c.id
  pub same_timeout : d.suspicion_timeout ≡ c.suspicion_timeout
  pub later :
      (j : NodeId) (m : Member)
      → j ≢ c.id
      → lookup j c.members ≡ some m
      → (n : Member) × (lookup j d.members ≡ some n) × IsLater m n

pub same_members-Rises :
    (c d : SwimCore)
    → (d.id ≡ c.id) × (d.suspicion_timeout ≡ c.suspicion_timeout)
    → d.members ≡ c.members
    → Rises c d
same_members-Rises c d (i, t) e = record {
  same_id = i;
  same_timeout = t;
  later = λ j m other h. (m, rw e h, inl (refl, refl));
}

pub Rises-trans : {c d e : SwimCore} → Rises c d → Rises d e → Rises c e
Rises-trans {c} {d} {e} f g = record {
  same_id = cc (f.same_id, g.same_id);
  same_timeout = cc (f.same_timeout, g.same_timeout);
  later = λ j m other h.
      let (n, h', up) = f.later j m other h in
      let (o, h'', up') = g.later j n (λ s. other (cc (f.same_id, s))) h' in
      (o, h'', IsLater-trans m n o up up');
}

-- One entry of the table is overwritten by a later one.
pub put-Rises :
    (c d : SwimCore) (k : NodeId) (n : Member)
    → (d.id ≡ c.id) × (d.suspicion_timeout ≡ c.suspicion_timeout)
    → ((j : NodeId) → lookup j d.members ≡ (if k == j then some n else lookup j c.members))
    → (k ≢ c.id → (m : Member) → lookup k c.members ≡ some m → IsLater m n)
    → Rises c d
put-Rises c d k n (i, t) puts up = record {
  same_id = i;
  same_timeout = t;
  later = λ j m other h. elim (Bool-cases (k == j)) [
    | inl e ↦
        let same : k ≡ j = (==_iff k j).0 e in
        (n, rw (puts j, e), up (λ s. other (cc (s, same))) m (rw same h))
    | inr ne ↦ (m, rw (puts j, ne) h, inl (refl, refl))
  ];
}

outweighs-IsLater :
    (g : GossipItem) (o : Option Member)
    → should_apply g o ≡ true
    → (m : Member) → o ≡ some m
    → IsLater m (record { status = g.status; incarnation = g.incarnation })
outweighs-IsLater g none h m e = cc
outweighs-IsLater g (some m') h m e = let same : m' ≡ m = cc in rw (← same) (ground arith)

apply_fact-Rises :
    (c : SwimCore) (g : GossipItem)
    → should_apply g (lookup g.member c.members) ≡ true
    → Rises c (apply_fact c g)
unfolding apply_fact queue_gossip
apply_fact-Rises c g h =
    put-Rises c (apply_fact c g) g.member
      (record { status = g.status; incarnation = g.incarnation }) (refl, refl)
      (λ j. lookup-insert g.member j _ c.members)
      (λ other m e. outweighs-IsLater g (lookup g.member c.members) h m e)

refute-Rises : (c : SwimCore) (g : GossipItem) → Rises c (maybe_refute_self c g).0
unfolding maybe_refute_self queue_gossip
refute-Rises c g = elim (Bool-cases (is_alive g.status || ltb g.incarnation c.incarnation)) [
  | inl e ↦ rw e (same_members-Rises c c (refl, refl) refl)
  | inr e ↦ rw e (
      put-Rises c _ c.id (record { status = alive; incarnation = inc64 g.incarnation }) (refl, refl)
        (λ j. lookup-insert c.id j _ c.members) (λ other. absurd (other refl)))
]

pub merge-Rises : (c : SwimCore) (g : GossipItem) → Rises c (merge c g).0
unfolding merge
merge-Rises c g = elim (Bool-cases (g.member == c.id)) [
  | inl own ↦ rw own (refute-Rises c g)
  | inr other ↦ elim (Bool-cases (should_apply g (lookup g.member c.members))) [
    | inl more ↦ rw (other, more) (apply_fact-Rises c g more)
    | inr less ↦ rw (other, less) (same_members-Rises c c (refl, refl) refl)
  ]
]

merge_all-Rises : (gs : List GossipItem) (c : SwimCore) → Rises c (merge_all gs c)
unfolding merge_all
merge_all-Rises [] c = same_members-Rises c c (refl, refl) refl
merge_all-Rises (g ∷ gs) c = Rises-trans (merge-Rises c g) (merge_all-Rises gs (merge c g).0)

merge_message-Rises :
    (c : SwimCore) (from : NodeId) (i : ℕ) (gossip : List GossipItem)
    → Rises c (merge_message c from i gossip)
unfolding merge_message
merge_message-Rises c from i gossip =
    let greeting : GossipItem = record { member = from; status = alive; incarnation = i } in
    Rises-trans (merge-Rises c greeting) (merge_all-Rises gossip (merge c greeting).0)

-- Sending gossip leaves all but the queue as it was.
pub take_gossip_same :
    (c : SwimCore)
    → let d = (take_gossip c).0 in
      (d.id ≡ c.id)
      × (d.members ≡ c.members)
      × (d.incarnation ≡ c.incarnation)
      × (d.suspect_elapsed ≡ c.suspect_elapsed)
      × (d.suspicion_timeout ≡ c.suspicion_timeout)
      × (d.ping_order ≡ c.ping_order)
      × (d.next_ping_idx ≡ c.next_ping_idx)
unfolding take_gossip
take_gossip_same c = (refl, refl, refl, refl, refl, refl, refl)

acknowledge-Rises :
    (c : SwimCore) (from : NodeId) (seq : ℕ) (o : Option AwaitingAck)
    → Rises c (acknowledge c from seq o)
unfolding acknowledge
acknowledge-Rises c from seq none = same_members-Rises c c (refl, refl) refl
acknowledge-Rises c from seq (some a) = elim (Bool-cases (a.target == from && a.seq == seq)) [
  | inl e ↦ rw e (same_members-Rises c _ (refl, refl) refl)
  | inr e ↦ rw e (same_members-Rises c c (refl, refl) refl)
]

pub receive_message-Rises :
    (c : SwimCore) (from : NodeId) (m : SwimMessage) → Rises c (receive_message c from m).0
unfolding receive_message
receive_message-Rises c from (ping seq i gossip) =
    let merged = merge_message c from i gossip in
    let same = take_gossip_same merged in
    Rises-trans (merge_message-Rises c from i gossip)
      (same_members-Rises merged (take_gossip merged).0 (same.0, same.4) same.1)
receive_message-Rises c from (ack seq i gossip) =
    let merged = merge_message c from i gossip in
    Rises-trans (merge_message-Rises c from i gossip)
      (acknowledge-Rises merged from seq merged.awaiting_ack)
