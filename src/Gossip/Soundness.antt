-- ===== src/Gossip/Soundness.antt =====
-- The well-formed states of a node: it holds itself alive, exactly the suspects have a running
-- timer, and the index of the next ping is one of the list's.
use gems.Prelude.{
  ℕ, ◌<◌, ◌≡◌, inl, inr, refl, sym, Bool, true, false, Option, none, some, List, [], ◌∷◌, ◌==◌,
  arith, Bool-cases, length, ◌&&◌, ◌||◌, ltb, inc64,
}
use gems.Prelude.Maps.{Map, lookup, insert, lookup-insert, lookup-remove}
use gems.Gossip.State.{
  NodeId, alive, Member, GossipItem, SwimMessage, ping, ack, Envelope, AwaitingAck, SwimCore, new,
  with_peers,
}
use gems.Gossip.Queue.{queue_gossip, take_gossip}
use gems.Gossip.Merge.{
  is_alive, is_suspect, maybe_refute_self, should_apply, apply_fact, merge, merge_all,
}
use gems.Gossip.Core.{merge_message, acknowledge, receive_message, receive}

abbrev pub has_timer : Option ℕ → Bool
has_timer none = false
has_timer (some e) = true

abbrev pub is_suspected : Option Member → Bool
is_suspected none = false
is_suspected (some m) = is_suspect m.status

pub record IsSound (c : SwimCore) : Type 0 where
  pub own : lookup c.id c.members ≡ some (record { status = alive; incarnation = c.incarnation })
  pub timers :
      (j : NodeId) → has_timer (lookup j c.suspect_elapsed) ≡ is_suspected (lookup j c.members)
  pub index : 0 < length c.ping_order → c.next_ping_idx < length c.ping_order

with_peers_own :
    (ps : List NodeId) (ms : Map Member) (j : NodeId) (m : Member)
    → m ≡ record { status = alive; incarnation = 0 }
    → lookup j ms ≡ some m
    → lookup j (with_peers ps ms) ≡ some m
unfolding with_peers
with_peers_own [] ms j m e h = h
with_peers_own (p ∷ ps) ms j m e h =
    with_peers_own ps (insert p (record { status = alive; incarnation = 0 }) ms) j m e
      (rw (lookup-insert p j (record { status = alive; incarnation = 0 }) ms) (ground arith))

with_peers_unsuspected :
    (ps : List NodeId) (ms : Map Member) (j : NodeId)
    → is_suspected (lookup j ms) ≡ false
    → is_suspected (lookup j (with_peers ps ms)) ≡ false
unfolding with_peers
with_peers_unsuspected [] ms j h = h
with_peers_unsuspected (p ∷ ps) ms j h =
    with_peers_unsuspected ps (insert p (record { status = alive; incarnation = 0 }) ms) j
      (rw (lookup-insert p j (record { status = alive; incarnation = 0 }) ms) (ground arith))

pub new-IsSound : (id : NodeId) (peers : List NodeId) (a b s : ℕ) → IsSound (new id peers a b s)
unfolding new lookup insert
new-IsSound id peers a b s =
    let alone : Map Member = insert id (record { status = alive; incarnation = 0 }) [] in
    record {
      own =
          with_peers_own peers alone id (record { status = alive; incarnation = 0 }) refl
            (ground arith);
      timers = λ j. sym (with_peers_unsuspected peers alone j (ground arith));
      index = λ h. h;
    }

apply_fact-IsSound :
    (c : SwimCore) (g : GossipItem)
    → (g.member == c.id) ≡ false
    → IsSound c
    → IsSound (apply_fact c g)
unfolding apply_fact queue_gossip
apply_fact-IsSound c g other inv = record {
  own =
      rw
        (
          lookup-insert g.member c.id (record { status = g.status; incarnation = g.incarnation })
              c.members,
          other,
        )
        inv.own;
  timers = λ j. ground (
    arith,
    inv.timers j,
    lookup-insert g.member j (record { status = g.status; incarnation = g.incarnation }) c.members,
    lookup-insert g.member j 0 c.suspect_elapsed,
    lookup-remove g.member j c.suspect_elapsed,
  );
  index = inv.index;
}

refute-IsSound : (c : SwimCore) (g : GossipItem) → IsSound c → IsSound (maybe_refute_self c g).0
unfolding maybe_refute_self queue_gossip
refute-IsSound c g inv = elim (Bool-cases (is_alive g.status || ltb g.incarnation c.incarnation)) [
  | inl e ↦ rw e inv
  | inr e ↦ rw e (record {
    own =
        rw
          (lookup-insert c.id c.id (record { status = alive; incarnation = inc64 g.incarnation })
            c.members)
          (ground arith);
    timers = λ j. ground (
      arith,
      inv.own,
      inv.timers j,
      lookup-insert c.id j (record { status = alive; incarnation = inc64 g.incarnation }) c.members,
    );
    index = inv.index;
  })
]

pub merge-IsSound : (c : SwimCore) (g : GossipItem) → IsSound c → IsSound (merge c g).0
unfolding merge
merge-IsSound c g inv = elim (Bool-cases (g.member == c.id)) [
  | inl own ↦ rw own (refute-IsSound c g inv)
  | inr other ↦ elim (Bool-cases (should_apply g (lookup g.member c.members))) [
    | inl more ↦ rw (other, more) (apply_fact-IsSound c g other inv)
    | inr less ↦ rw (other, less) inv
  ]
]

merge_all-IsSound : (gs : List GossipItem) (c : SwimCore) → IsSound c → IsSound (merge_all gs c)
unfolding merge_all
merge_all-IsSound [] c inv = inv
merge_all-IsSound (g ∷ gs) c inv = merge_all-IsSound gs (merge c g).0 (merge-IsSound c g inv)

merge_message-IsSound :
    (c : SwimCore) (from : NodeId) (i : ℕ) (gossip : List GossipItem)
    → IsSound c
    → IsSound (merge_message c from i gossip)
unfolding merge_message
merge_message-IsSound c from i gossip inv =
    merge_all-IsSound gossip (merge c (record { member = from; status = alive; incarnation = i })).0
      (merge-IsSound c (record { member = from; status = alive; incarnation = i }) inv)

pub take_gossip-IsSound : (c : SwimCore) → IsSound c → IsSound (take_gossip c).0
unfolding take_gossip
take_gossip-IsSound c inv = record { own = inv.own; timers = inv.timers; index = inv.index }

acknowledge-IsSound :
    (c : SwimCore) (from : NodeId) (seq : ℕ) (o : Option AwaitingAck)
    → IsSound c
    → IsSound (acknowledge c from seq o)
unfolding acknowledge
acknowledge-IsSound c from seq none inv = inv
acknowledge-IsSound c from seq (some a) inv = elim (Bool-cases (a.target == from && a.seq == seq)) [
  | inl e ↦ rw e (record { own = inv.own; timers = inv.timers; index = inv.index })
  | inr e ↦ rw e inv
]

receive_message-IsSound :
    (c : SwimCore) (from : NodeId) (m : SwimMessage)
    → IsSound c
    → IsSound (receive_message c from m).0
unfolding receive_message
receive_message-IsSound c from (ping seq i gossip) inv =
    take_gossip-IsSound (merge_message c from i gossip) (merge_message-IsSound c from i gossip inv)
receive_message-IsSound c from (ack seq i gossip) inv =
    let merged = merge_message c from i gossip in
    acknowledge-IsSound merged from seq merged.awaiting_ack
      (merge_message-IsSound c from i gossip inv)

pub receive-IsSound : (c : SwimCore) (m : Envelope) → IsSound c → IsSound (receive c m).0
unfolding receive
receive-IsSound c m inv = receive_message-IsSound c m.from m.message inv
