-- ===== src/Gossip/Runs.antt =====
-- Concrete runs of a node's failure detection, and its theorems at concrete inputs.
use gems.Prelude.{
  unwrap_or, none, Option, List, ◌+◌, ◌≡◌, refl, some, [], ◌∷◌, map, take, min, length, arith,
}
use gems.Prelude.Maps.{lookup, insert}
use gems.Prelude.Sets.{contains}
use gems.Gossip.State.{
  NodeId, suspect, dead, GossipItem, ping, Envelope, SwimCore, new, with_peers, status_of,
  max_gossip_per_message,
}
use gems.Gossip.Queue.{queue_gossip, take_gossip, retain_others}
use gems.Gossip.Merge.{merge, apply_fact}
use gems.Gossip.Probe.{tick}
use gems.Gossip.Core.{receive}
use gems.Gossip.Order.{Rises}
use gems.Gossip.Ascent.{entry_points-Rises}
use gems.Gossip.Soundness.{IsSound, new-IsSound, merge-IsSound}
use gems.Gossip.Ticking.{AwakeTargets, entry_points-IsSound}
use gems.Gossip.Deadline.{ticks, silent_suspect_dies}
use gems.Gossip.Retransmission.{take_gossip-sends, fact_of, spent, budget, IsQueue}
use gems.Gossip.Queued.{Queued, entry_points-Queued}

-- Node 1 among 2 and 3, which pings every other tick and declares a suspect dead after three.
abbrev state_of : Option (SwimCore × List Envelope) → Option SwimCore
state_of none = none
state_of (some (d, out)) = some d

abbrev node_one : SwimCore
unfolding new
node_one = new 1 (2 ∷ 3 ∷ []) 2 1 3

abbrev node_two : SwimCore
unfolding new
node_two = new 2 (1 ∷ 3 ∷ []) 2 1 3

abbrev accuse : NodeId → GossipItem
accuse j = record { member = j; status = suspect; incarnation = 0 }

-- Node 1 suspects node 2.
abbrev suspicious : SwimCore
suspicious = (merge node_one (accuse 2)).0

suspicious-IsSound : IsSound suspicious
unfolding node_one new
suspicious-IsSound = merge-IsSound node_one (accuse 2) (new-IsSound 1 (2 ∷ 3 ∷ []) 2 1 3)

abbrev false_alarm : Envelope
false_alarm = record { from = 2; to = 1; message = ping 1 0 (accuse 1 ∷ []) }

-- What a tick leaves of the suspicious node.
abbrev ticked : SwimCore
unfolding tick node_one lookup insert
ticked = unwrap_or (state_of (tick suspicious)) suspicious

entry_points-Rises_example :
    Rises suspicious ticked × Rises suspicious (receive suspicious false_alarm).0
unfolding tick node_one lookup insert ticked
entry_points-Rises_example = entry_points-Rises suspicious false_alarm {d = ticked} {out = []} refl

silent_suspect_dies_example :
    (d : SwimCore) × (ticks 3 suspicious ≡ some d) × (status_of d 2 ≡ some dead)
unfolding merge apply_fact queue_gossip lookup insert new with_peers
silent_suspect_dies_example =
    silent_suspect_dies 3 suspicious 2 0 suspicious-IsSound (omega arith) refl (omega arith)
      (omega arith)

entry_points-IsSound_example :
    ((d : SwimCore) × (out : List Envelope) × (tick suspicious ≡ some (d, out))
      × IsSound d
      × AwakeTargets d out)
    × IsSound (receive suspicious false_alarm).0
entry_points-IsSound_example = entry_points-IsSound suspicious false_alarm suspicious-IsSound

take_gossip-sends_example :
    let (d, out) = take_gossip suspicious in
    (out ≡ map fact_of (take max_gossip_per_message suspicious.gossip_queue))
    × (d.gossip_queue ≡ spent max_gossip_per_message suspicious.gossip_queue)
    × (budget d.gossip_queue + min max_gossip_per_message (length suspicious.gossip_queue)
        ≡ budget suspicious.gossip_queue)
    × IsQueue d.gossip_queue
unfolding merge apply_fact queue_gossip lookup insert new with_peers retain_others contains
take_gossip-sends_example =
    take_gossip-sends suspicious (((omega arith, omega arith), tt), (refl, tt))

entry_points-Queued_example : Queued ticked × Queued (receive suspicious false_alarm).0
unfolding ticked tick merge apply_fact queue_gossip lookup insert new with_peers retain_others
    contains
entry_points-Queued_example =
    entry_points-Queued suspicious false_alarm {d = ticked} {out = []}
      (((omega arith, omega arith), tt), (refl, tt)) refl
