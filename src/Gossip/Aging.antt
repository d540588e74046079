-- ===== src/Gossip/Aging.antt =====
-- Timers and pings that run out leave a node well formed.
use gems.Prelude.{
  ℕ, ◌≡◌, inl, inr, refl, Option, none, some, List, [], ◌∷◌, arith, ==_iff, Bool-cases, leb, inc32,
}
use gems.Prelude.Maps.{Map, lookup, remove, lookup-insert, lookup-remove}
use gems.Gossip.State.{NodeId, suspect, dead, Member, AwaitingAck, SwimCore}
use gems.Gossip.Queue.{queue_gossip}
use gems.Gossip.Merge.{is_alive, is_suspect}
use gems.Gossip.Probe.{
  age_timers, timed_out, declare_dead, expire, expire_all, age_suspicions, suspect_target, age_ping,
}
use gems.Gossip.Soundness.{IsSound, has_timer, merge-IsSound}

pub has_timer-age_timers :
    (j : NodeId) (t : Map ℕ) → has_timer (lookup j (age_timers t)) ≡ has_timer (lookup j t)
unfolding age_timers lookup
has_timer-age_timers j [] = refl
has_timer-age_timers j (_ ∷ t) = ground (arith, has_timer-age_timers j t)

declare_dead-IsSound :
    (c : SwimCore) (id : NodeId) (o : Option Member)
    → lookup id c.members ≡ o
    → IsSound c
    → IsSound (declare_dead (record c { suspect_elapsed = remove id c.suspect_elapsed }) id o)
unfolding declare_dead queue_gossip
declare_dead-IsSound c id none h inv = record {
  own = inv.own;
  timers = λ j. ground (arith, inv.timers j, lookup-remove id j c.suspect_elapsed, ==_iff id j);
  index = inv.index;
}
declare_dead-IsSound c id (some m) h inv = elim (Bool-cases (is_suspect m.status)) [
  | inl e ↦ rw e (record {
    own = ground (
      arith,
      inv.own,
      ==_iff id c.id,
      lookup-insert id c.id (record { status = dead; incarnation = m.incarnation }) c.members,
    );
    timers = λ j. ground (
      arith,
      inv.timers j,
      lookup-remove id j c.suspect_elapsed,
      ==_iff id j,
      lookup-insert id j (record { status = dead; incarnation = m.incarnation }) c.members,
    );
    index = inv.index;
  })
  | inr e ↦ rw e (record {
    own = inv.own;
    timers = λ j. ground (arith, inv.timers j, lookup-remove id j c.suspect_elapsed, ==_iff id j);
    index = inv.index;
  })
]

pub expire-IsSound : (c : SwimCore) (id : NodeId) → IsSound c → IsSound (expire c id)
unfolding expire
expire-IsSound c id = declare_dead-IsSound c id (lookup id c.members) refl

pub expire_all-IsSound : (ids : List NodeId) (c : SwimCore) → IsSound c → IsSound (expire_all ids c)
unfolding expire_all
expire_all-IsSound [] c inv = inv
expire_all-IsSound (id ∷ ids) c inv = expire_all-IsSound ids (expire c id) (expire-IsSound c id inv)

pub aged-IsSound :
    (c : SwimCore)
    → IsSound c
    → IsSound (record c { suspect_elapsed = age_timers c.suspect_elapsed })
aged-IsSound c inv = record {
  own = inv.own;
  timers = λ j. rw (has_timer-age_timers j c.suspect_elapsed) (inv.timers j);
  index = inv.index;
}

pub age_suspicions-IsSound : (c : SwimCore) → IsSound c → IsSound (age_suspicions c)
unfolding age_suspicions
age_suspicions-IsSound c inv =
    let aged = age_timers c.suspect_elapsed in
    expire_all-IsSound (timed_out c.suspicion_timeout aged) (record c { suspect_elapsed = aged })
      (aged-IsSound c inv)

suspect_target-IsSound :
    (c : SwimCore) (target : NodeId) (o : Option Member)
    → IsSound c
    → IsSound (suspect_target c target o)
unfolding suspect_target
suspect_target-IsSound c target none inv = inv
suspect_target-IsSound c target (some m) inv = elim (Bool-cases (is_alive m.status)) [
  | inl e ↦ rw e (
      merge-IsSound c (record { member = target; status = suspect; incarnation = m.incarnation })
        inv)
  | inr e ↦ rw e inv
]

pub age_ping-IsSound : (c : SwimCore) (o : Option AwaitingAck) → IsSound c → IsSound (age_ping c o)
unfolding age_ping
age_ping-IsSound c none inv = inv
age_ping-IsSound c (some a) inv = elim (Bool-cases (leb c.ping_timeout (inc32 a.ticks_waited))) [
  | inl e ↦ rw e (
      suspect_target-IsSound (record c { awaiting_ack = none }) a.target (lookup a.target c.members)
        (record { own = inv.own; timers = inv.timers; index = inv.index }))
  | inr e ↦ rw e (record { own = inv.own; timers = inv.timers; index = inv.index })
]
