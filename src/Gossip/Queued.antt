-- ===== src/Gossip/Queued.antt =====
-- Every entry point keeps the queue of facts in order.
use gems.Prelude.{
  ℕ, ◌≡◌, inl, inr, Option, none, some, List, [], ◌∷◌, ◌==◌, ◌&&◌, ◌||◌, not, ltb, leb, length,
  inc32, inc64, Bool-cases, >>=-eq-some, subst, sym,
}
use gems.Prelude.Maps.{lookup, remove}
use gems.Gossip.State.{
  NodeId, alive, suspect, dead, Member, GossipItem, SwimMessage, ping, ack, Envelope, AwaitingAck,
  SwimCore,
}
use gems.Gossip.Queue.{queue_gossip}
use gems.Gossip.Merge.{
  is_alive, is_suspect, maybe_refute_self, should_apply, apply_fact, merge, merge_all,
}
use gems.Gossip.Probe.{
  is_some, next_ping_loop, next_ping_target, age_timers, timed_out, declare_dead, expire,
  expire_all, age_suspicions, suspect_target, age_ping, ping_target, start_period, tick,
}
use gems.Gossip.Core.{merge_message, acknowledge, receive_message, receive}
use gems.Gossip.Ascent.{next_ping_moves}
use gems.Gossip.Retransmission.{IsQueue, put_last-IsQueue, take_gossip-sends}

abbrev pub Queued : SwimCore → Type 0
Queued c = IsQueue c.gossip_queue

merge-Queued : (c : SwimCore) (g : GossipItem) → Queued c → Queued (merge c g).0
unfolding merge maybe_refute_self apply_fact queue_gossip
merge-Queued c g q = elim (Bool-cases (g.member == c.id)) [
  | inl own ↦ elim (Bool-cases (is_alive g.status || ltb g.incarnation c.incarnation)) [
    | inl e ↦ rw (own, e) q
    | inr e ↦
        rw (own, e)
          (put_last-IsQueue
            (record { member = c.id; status = alive; incarnation = inc64 g.incarnation })
            c.gossip_queue q)
  ]
  | inr other ↦ elim (Bool-cases (should_apply g (lookup g.member c.members))) [
    | inl more ↦ rw (other, more) (put_last-IsQueue g c.gossip_queue q)
    | inr less ↦ rw (other, less) q
  ]
]

merge_all-Queued : (gs : List GossipItem) (c : SwimCore) → Queued c → Queued (merge_all gs c)
unfolding merge_all
merge_all-Queued [] c q = q
merge_all-Queued (g ∷ gs) c q = merge_all-Queued gs (merge c g).0 (merge-Queued c g q)

merge_message-Queued :
    (c : SwimCore) (from : NodeId) (i : ℕ) (gossip : List GossipItem)
    → Queued c
    → Queued (merge_message c from i gossip)
unfolding merge_message
merge_message-Queued c from i gossip q =
    let greeting : GossipItem = record { member = from; status = alive; incarnation = i } in
    merge_all-Queued gossip (merge c greeting).0 (merge-Queued c greeting q)

acknowledge-Queued :
    (c : SwimCore) (from : NodeId) (seq : ℕ) (o : Option AwaitingAck)
    → Queued c
    → Queued (acknowledge c from seq o)
unfolding acknowledge
acknowledge-Queued c from seq none q = q
acknowledge-Queued c from seq (some a) q = elim (Bool-cases (a.target == from && a.seq == seq)) [
  | inl e ↦ rw e q
  | inr e ↦ rw e q
]

receive_message-Queued :
    (c : SwimCore) (from : NodeId) (m : SwimMessage)
    → Queued c
    → Queued (receive_message c from m).0
unfolding receive_message
receive_message-Queued c from (ping seq i gossip) q =
    (take_gossip-sends (merge_message c from i gossip) (merge_message-Queued c from i gossip q)).3
receive_message-Queued c from (ack seq i gossip) q =
    let merged = merge_message c from i gossip in
    acknowledge-Queued merged from seq merged.awaiting_ack (merge_message-Queued c from i gossip q)

declare_dead-Queued :
    (c : SwimCore) (id : NodeId) (o : Option Member) → Queued c → Queued (declare_dead c id o)
unfolding declare_dead queue_gossip
declare_dead-Queued c id none q = q
declare_dead-Queued c id (some m) q = elim (Bool-cases (is_suspect m.status)) [
  | inl e ↦ rw e (
      put_last-IsQueue (record { member = id; status = dead; incarnation = m.incarnation })
        c.gossip_queue q)
  | inr e ↦ rw e q
]

expire_all-Queued : (ids : List NodeId) (c : SwimCore) → Queued c → Queued (expire_all ids c)
unfolding expire_all expire
expire_all-Queued [] c q = q
expire_all-Queued (id ∷ ids) c q = expire_all-Queued ids (expire c id) (
    declare_dead-Queued (record c { suspect_elapsed = remove id c.suspect_elapsed }) id
      (lookup id c.members) q)

suspect_target-Queued :
    (c : SwimCore) (target : NodeId) (o : Option Member)
    → Queued c
    → Queued (suspect_target c target o)
unfolding suspect_target
suspect_target-Queued c target none q = q
suspect_target-Queued c target (some m) q = elim (Bool-cases (is_alive m.status)) [
  | inl e ↦
      rw e (
        merge-Queued c (record { member = target; status = suspect; incarnation = m.incarnation })
          q)
  | inr e ↦ rw e q
]

age_ping-Queued : (c : SwimCore) (o : Option AwaitingAck) → Queued c → Queued (age_ping c o)
unfolding age_ping
age_ping-Queued c none q = q
age_ping-Queued c (some a) q = elim (Bool-cases (leb c.ping_timeout (inc32 a.ticks_waited))) [
  | inl e ↦ rw e (
      suspect_target-Queued (record c { awaiting_ack = none }) a.target (lookup a.target c.members)
        q)
  | inr e ↦ rw e q
]

ping_target-Queued : (c : SwimCore) (o : Option NodeId) → Queued c → Queued (ping_target c o).0
unfolding ping_target
ping_target-Queued c none q = q
ping_target-Queued c (some target) q =
    (take_gossip-sends
      (record c {
        next_seq = inc32 c.next_seq;
        awaiting_ack = some (record { target = target; seq = inc32 c.next_seq; ticks_waited = 0 });
      })
      q).3

start_period-Queued :
    (c : SwimCore) {d : SwimCore} {out : List Envelope}
    → start_period c ≡ some (d, out)
    → Queued c
    → Queued d
unfolding start_period next_ping_target
start_period-Queued c {d} {out} h q =
    let c' : SwimCore = record c { period_elapsed = inc32 c.period_elapsed } in
    elim (Bool-cases (leb c'.protocol_period c'.period_elapsed && not (is_some c'.awaiting_ack))) [
      | inl due ↦
          let rested : SwimCore = record c' { period_elapsed = 0 } in
          let (s, e, e') =
            >>=-eq-some (next_ping_loop (length rested.ping_order) rested) _ (rw due at h) in
          let (i, moved) =
            next_ping_moves (length rested.ping_order) rested {d = s.0} {o = s.1} e in
          let same : (ping_target s.0 s.1).0 ≡ d = cc in
          subst Queued same (ping_target-Queued s.0 s.1 (subst Queued (sym moved) q))
      | inr early ↦ let same : c' ≡ d = cc (rw early at h) in subst Queued same q
    ]

tick-Queued :
    (c : SwimCore) {d : SwimCore} {out : List Envelope}
    → tick c ≡ some (d, out)
    → Queued c
    → Queued d
unfolding tick age_suspicions
tick-Queued c {d} {out} h q =
    let aged = age_timers c.suspect_elapsed in
    let old = age_suspicions c in
    start_period-Queued (age_ping old old.awaiting_ack) {d = d} {out = out} h (
      age_ping-Queued old old.awaiting_ack (
        expire_all-Queued (timed_out c.suspicion_timeout aged) (record c { suspect_elapsed = aged })
          q))

-- Every `tick` and every `receive` keeps a queue well formed: one fact for each
-- member, to be sent one to four times more.
pub entry_points-Queued :
    (c : SwimCore) (m : Envelope) {d : SwimCore} {out : List Envelope}
    → Queued c
    → tick c ≡ some (d, out)
    → Queued d × Queued (receive c m).0
unfolding receive
entry_points-Queued c m q h = (tick-Queued c h q, receive_message-Queued c m.from m.message q)
