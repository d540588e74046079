-- ===== src/Gossip/Queue.antt =====
-- The queue of facts to gossip (`queue_gossip` and `take_gossip` of
-- crates/gems-cluster/src/gossip.rs).
use gems.Prelude.{List, [], ◌∷◌, ◌++◌, length, ltb, ◌==◌, if◌then◌else◌, dec32}
use gems.Gossip.State.{
  NodeId, GossipItem, GossipQueueItem, SwimCore, gossip_retransmit_count, max_gossip_per_message,
}

-- `retain(|g| g.item.member != member)`
unfoldable pub retain_others : NodeId → List GossipQueueItem → List GossipQueueItem
retain_others member [] = []
retain_others member (g ∷ gs) =
    let rest = retain_others member gs in if g.item.member == member then rest else g ∷ rest

unfoldable pub queue_gossip : SwimCore → GossipItem → SwimCore
unfolding retain_others
queue_gossip c item = record c {
  gossip_queue =
      retain_others item.member c.gossip_queue
      ++ (record { item = item; remaining_sends = gossip_retransmit_count } ∷ []);
}

-- One round of the loop that drains the queue: what is sent so far, and what stays.
unfoldable pub send_entry :
    GossipQueueItem
    → List GossipItem × List GossipQueueItem
    → List GossipItem × List GossipQueueItem
send_entry entry (out, still_pending) =
    if ltb (length out) max_gossip_per_message
    then (let left = dec32 entry.remaining_sends in
        (
          out ++ (entry.item ∷ []),
          if ltb 0 left
              then still_pending ++ (record { item = entry.item; remaining_sends = left } ∷ [])
              else still_pending,
        ))
    else (out, still_pending ++ (entry ∷ []))

unfoldable pub send_entries :
    List GossipQueueItem
    → List GossipItem × List GossipQueueItem
    → List GossipItem × List GossipQueueItem
unfolding send_entry
send_entries [] acc = acc
send_entries (g ∷ gs) acc = send_entries gs (send_entry g acc)

unfoldable pub take_gossip : SwimCore → SwimCore × List GossipItem
unfolding send_entries
take_gossip c =
    let (out, still_pending) = send_entries c.gossip_queue ([], []) in
    (record c { gossip_queue = still_pending }, out)
