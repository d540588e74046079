-- ===== src/Gossip/Core.antt =====
-- What a node does with a message (`receive` of crates/gems-cluster/src/gossip.rs).
use gems.Prelude.{ℕ, ◌&&◌, Option, none, some, List, [], ◌∷◌, ◌==◌, if◌then◌else◌}
use gems.Gossip.State.{
  NodeId, Incarnation, alive, GossipItem, SwimMessage, ping, ack, Envelope, AwaitingAck, SwimCore,
  envelope_to,
}
use gems.Gossip.Queue.{take_gossip}
use gems.Gossip.Merge.{merge, merge_all}

-- The sender is alive, and then the facts that ride along, in their order.
unfoldable pub merge_message : SwimCore → NodeId → Incarnation → List GossipItem → SwimCore
unfolding merge merge_all
merge_message c from sender_incarnation gossip =
    merge_all gossip
      (merge c (record { member = from; status = alive; incarnation = sender_incarnation })).0

unfoldable pub acknowledge : SwimCore → NodeId → ℕ → Option AwaitingAck → SwimCore
acknowledge c from seq none = c
acknowledge c from seq (some a) =
    if a.target == from && a.seq == seq then record c { awaiting_ack = none } else c

unfoldable pub receive_message : SwimCore → NodeId → SwimMessage → SwimCore × List Envelope
unfolding merge_message take_gossip acknowledge envelope_to
receive_message c from (ping seq sender_incarnation gossip) =
    let (c', response_gossip) = take_gossip (merge_message c from sender_incarnation gossip) in
    (c', envelope_to c' from (ack seq c'.incarnation response_gossip) ∷ [])
receive_message c from (ack seq sender_incarnation gossip) =
    let c' = merge_message c from sender_incarnation gossip in
    (acknowledge c' from seq c'.awaiting_ack, [])

unfoldable pub receive : SwimCore → Envelope → SwimCore × List Envelope
unfolding receive_message
receive c envelope = receive_message c envelope.from envelope.message
