-- ===== src/Gossip/Probe.antt =====
-- Pings and timers (`next_ping_target` and `tick` of crates/gems-cluster/src/gossip.rs). `none` is
-- a panic.
use gems.Prelude.{
  ℕ, zero, suc, ◌+◌, ◌%◌, Bool, true, false, not, ◌&&◌, Option, none, some, List, [], ◌∷◌, length,
  get_elem?, leb, if◌then◌else◌, inc32, ◌>>=◌,
}
use gems.Prelude.Maps.{Map, lookup, insert, remove}
use gems.Gossip.State.{
  NodeId, Status, suspect, dead, Member, ping, Envelope, AwaitingAck, SwimCore, status_of,
  envelope_to,
}
use gems.Gossip.Queue.{queue_gossip, take_gossip}
use gems.Gossip.Merge.{is_alive, is_suspect, is_dead, merge}

abbrev pub is_dead? : Option Status → Bool
is_dead? none = false
is_dead? (some s) = is_dead s

abbrev pub is_some : Option AwaitingAck → Bool
is_some none = false
is_some (some a) = true

-- The loop over at most as many candidates as there are.
unfoldable pub next_ping_loop : ℕ → SwimCore → Option (SwimCore × Option NodeId)
unfolding status_of
next_ping_loop zero c = some (c, none)
next_ping_loop (suc n) c = do
  candidate ← get_elem? c.ping_order c.next_ping_idx
  let c' = record c { next_ping_idx = (c.next_ping_idx + 1) % length c.ping_order }
  let later = next_ping_loop n c'
  if is_dead? (status_of c' candidate) then later else some (c', some candidate)

unfoldable pub next_ping_target : SwimCore → Option (SwimCore × Option NodeId)
unfolding next_ping_loop
next_ping_target c = next_ping_loop (length c.ping_order) c

unfoldable pub age_timers : Map ℕ → Map ℕ
age_timers [] = []
age_timers ((id, elapsed) ∷ ts) = (id, inc32 elapsed) ∷ age_timers ts

-- The members whose aged timers have run out.
unfoldable pub timed_out : ℕ → Map ℕ → List NodeId
timed_out limit [] = []
timed_out limit ((id, elapsed) ∷ ts) =
    let rest = timed_out limit ts in if leb limit elapsed then id ∷ rest else rest

unfoldable pub declare_dead : SwimCore → NodeId → Option Member → SwimCore
unfolding queue_gossip
declare_dead c id none = c
declare_dead c id (some m) =
    if is_suspect m.status
    then queue_gossip
        (record c {
          members = insert id (record { status = dead; incarnation = m.incarnation }) c.members;
        })
        (record { member = id; status = dead; incarnation = m.incarnation })
    else c

unfoldable pub expire : SwimCore → NodeId → SwimCore
unfolding declare_dead
expire c id =
    declare_dead (record c { suspect_elapsed = remove id c.suspect_elapsed }) id
      (lookup id c.members)

unfoldable pub expire_all : List NodeId → SwimCore → SwimCore
unfolding expire
expire_all [] c = c
expire_all (id ∷ ids) c = expire_all ids (expire c id)

unfoldable pub age_suspicions : SwimCore → SwimCore
unfolding age_timers timed_out expire_all
age_suspicions c =
    let aged = age_timers c.suspect_elapsed in
    expire_all (timed_out c.suspicion_timeout aged) (record c { suspect_elapsed = aged })

unfoldable pub suspect_target : SwimCore → NodeId → Option Member → SwimCore
unfolding merge
suspect_target c target none = c
suspect_target c target (some m) =
    if is_alive m.status
    then (merge c (record { member = target; status = suspect; incarnation = m.incarnation })).0
    else c

unfoldable pub age_ping : SwimCore → Option AwaitingAck → SwimCore
unfolding suspect_target
age_ping c none = c
age_ping c (some a) =
    let waited = inc32 a.ticks_waited in
    if leb c.ping_timeout waited
    then suspect_target (record c { awaiting_ack = none }) a.target (lookup a.target c.members)
    else record c { awaiting_ack = some (record a { ticks_waited = waited }) }

unfoldable pub ping_target : SwimCore → Option NodeId → SwimCore × List Envelope
unfolding take_gossip envelope_to
ping_target c none = (c, [])
ping_target c (some target) =
    let seq = inc32 c.next_seq in
    let (c', gossip) = take_gossip (record c {
      next_seq = seq;
      awaiting_ack = some (record { target = target; seq = seq; ticks_waited = 0 });
    }) in
    (c', envelope_to c' target (ping seq c'.incarnation gossip) ∷ [])

unfoldable pub start_period : SwimCore → Option (SwimCore × List Envelope)
unfolding next_ping_target ping_target
start_period c =
    let c' = record c { period_elapsed = inc32 c.period_elapsed } in
    if leb c'.protocol_period c'.period_elapsed && not (is_some c'.awaiting_ack)
    then (do
      (c'', target) ← next_ping_target (record c' { period_elapsed = 0 })
      some (ping_target c'' target))
    else some (c', [])

unfoldable pub tick : SwimCore → Option (SwimCore × List Envelope)
unfolding age_suspicions age_ping start_period
tick c = let c' = age_suspicions c in start_period (age_ping c' c'.awaiting_ack)
