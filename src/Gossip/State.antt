-- ===== src/Gossip/State.antt =====
-- The state and the messages of `SwimCore` (crates/gems-cluster/src/gossip.rs).
use gems.Prelude.{ℕ, Option, none, some, List, [], ◌∷◌}
use gems.Prelude.Maps.{Map, insert, lookup}

abbrev pub NodeId : Type 0
NodeId = ℕ

abbrev pub Incarnation : Type 0
Incarnation = ℕ

pub data Status : Type 0 where
  alive suspect dead : Status

-- The derived order of the statuses.
abbrev pub rank : Status → ℕ
rank alive = 0
rank suspect = 1
rank dead = 2

pub record Member : Type 0 where
  pub status : Status
  pub incarnation : Incarnation

pub record GossipItem : Type 0 where
  pub member : NodeId
  pub status : Status
  pub incarnation : Incarnation

abbrev pub gossip_retransmit_count : ℕ
gossip_retransmit_count = 4

abbrev pub max_gossip_per_message : ℕ
max_gossip_per_message = 8

-- A sequence number, the sender's incarnation and the facts that ride along.
pub data SwimMessage : Type 0 where
  ping : ℕ → Incarnation → List GossipItem → SwimMessage
  ack : ℕ → Incarnation → List GossipItem → SwimMessage

pub record Envelope : Type 0 where
  pub from : NodeId
  pub to : NodeId
  pub message : SwimMessage

pub record AwaitingAck : Type 0 where
  pub target : NodeId
  pub seq : ℕ
  pub ticks_waited : ℕ

pub record GossipQueueItem : Type 0 where
  pub item : GossipItem
  pub remaining_sends : ℕ

pub record SwimCore : Type 0 where
  pub id : NodeId
  pub incarnation : Incarnation
  pub members : Map Member
  pub ping_order : List NodeId
  pub next_ping_idx : ℕ
  pub next_seq : ℕ
  pub protocol_period : ℕ
  pub period_elapsed : ℕ
  pub ping_timeout : ℕ
  pub suspicion_timeout : ℕ
  pub awaiting_ack : Option AwaitingAck
  pub suspect_elapsed : Map ℕ
  pub gossip_queue : List GossipQueueItem

unfoldable pub with_peers : List NodeId → Map Member → Map Member
with_peers [] ms = ms
with_peers (p ∷ ps) ms = with_peers ps (insert p (record { status = alive; incarnation = 0 }) ms)

unfoldable pub new : NodeId → List NodeId → ℕ → ℕ → ℕ → SwimCore
unfolding with_peers
new id peers protocol_period ping_timeout suspicion_timeout = record {
  id = id;
  incarnation = 0;
  members = with_peers peers (insert id (record { status = alive; incarnation = 0 }) []);
  ping_order = peers;
  next_ping_idx = 0;
  next_seq = 0;
  protocol_period = protocol_period;
  period_elapsed = 0;
  ping_timeout = ping_timeout;
  suspicion_timeout = suspicion_timeout;
  awaiting_ack = none;
  suspect_elapsed = [];
  gossip_queue = [];
}

abbrev pub status_in : Option Member → Option Status
status_in none = none
status_in (some m) = some m.status

unfoldable pub status_of : SwimCore → NodeId → Option Status
status_of c id = status_in (lookup id c.members)

unfoldable pub envelope_to : SwimCore → NodeId → SwimMessage → Envelope
envelope_to c to message = record { from = c.id; to = to; message = message }
