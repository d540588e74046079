-- ===== src/Gossip/Ascent.antt =====
-- Time passing and messages arriving: what a node records about the others only moves up.
use gems.Prelude.{
  ℕ, ◌+◌, ◌≡◌, inl, inr, refl, Option, none, some, List, [], ◌∷◌, zero, suc, ap, ◌%◌, length,
  get_elem?, not, ◌&&◌, leb, inc32, arith, Bool-cases, >>=-eq-some,
}
use gems.Prelude.Maps.{lookup, remove, lookup-insert}
use gems.Gossip.State.{NodeId, suspect, dead, Member, Envelope, AwaitingAck, SwimCore, status_of}
use gems.Gossip.Queue.{queue_gossip}
use gems.Gossip.Merge.{is_alive, is_suspect}
use gems.Gossip.Probe.{
  is_dead?, is_some, next_ping_loop, next_ping_target, declare_dead, expire, expire_all,
  age_suspicions, age_timers, timed_out, suspect_target, age_ping, ping_target, start_period, tick,
}
use gems.Gossip.Core.{receive}
use gems.Gossip.Order.{
  Rises, same_members-Rises, Rises-trans, put-Rises, merge-Rises, receive_message-Rises,
}

pub declare_dead-Rises :
    (c : SwimCore) (j : NodeId) (o : Option Member)
    → lookup j c.members ≡ o
    → Rises c (declare_dead c j o)
unfolding declare_dead queue_gossip
declare_dead-Rises c j none h = same_members-Rises c c (refl, refl) refl
declare_dead-Rises c j (some m) h = elim (Bool-cases (is_suspect m.status)) [
  | inl e ↦ rw e (
      put-Rises c _ j (record { status = dead; incarnation = m.incarnation }) (refl, refl)
        (λ i. lookup-insert j i _ c.members)
        (λ other m' h'. let same : m ≡ m' = cc in rw (← same) (ground arith)))
  | inr e ↦ rw e (same_members-Rises c c (refl, refl) refl)
]

pub expire_all-Rises : (ids : List NodeId) (c : SwimCore) → Rises c (expire_all ids c)
unfolding expire_all expire
expire_all-Rises [] c = same_members-Rises c c (refl, refl) refl
expire_all-Rises (id ∷ ids) c =
    let dropped = record c { suspect_elapsed = remove id c.suspect_elapsed } in
    Rises-trans (same_members-Rises c dropped (refl, refl) refl) (
      Rises-trans (declare_dead-Rises dropped id (lookup id c.members) refl)
        (expire_all-Rises ids (expire c id)))

pub age_suspicions-Rises : (c : SwimCore) → Rises c (age_suspicions c)
unfolding age_suspicions
age_suspicions-Rises c =
    let aged = age_timers c.suspect_elapsed in
    let next = record c { suspect_elapsed = aged } in
    Rises-trans (same_members-Rises c next (refl, refl) refl)
      (expire_all-Rises (timed_out c.suspicion_timeout aged) next)

suspect_target-Rises :
    (c : SwimCore) (target : NodeId) (o : Option Member) → Rises c (suspect_target c target o)
unfolding suspect_target
suspect_target-Rises c target none = same_members-Rises c c (refl, refl) refl
suspect_target-Rises c target (some m) = elim (Bool-cases (is_alive m.status)) [
  | inl e ↦
      rw e
        (merge-Rises c (record { member = target; status = suspect; incarnation = m.incarnation }))
  | inr e ↦ rw e (same_members-Rises c c (refl, refl) refl)
]

pub age_ping-Rises : (c : SwimCore) (o : Option AwaitingAck) → Rises c (age_ping c o)
unfolding age_ping
age_ping-Rises c none = same_members-Rises c c (refl, refl) refl
age_ping-Rises c (some a) = elim (Bool-cases (leb c.ping_timeout (inc32 a.ticks_waited))) [
  | inl e ↦
      let waiting = record c { awaiting_ack = none } in
      rw e (
        Rises-trans (same_members-Rises c waiting (refl, refl) refl)
          (suspect_target-Rises waiting a.target (lookup a.target c.members)))
  | inr e ↦ rw e (same_members-Rises c _ (refl, refl) refl)
]

-- Looking for a member to ping moves the index and nothing else.
pub next_ping_moves :
    (n : ℕ) (c : SwimCore) {d : SwimCore} {o : Option NodeId}
    → next_ping_loop n c ≡ some (d, o)
    → (i : ℕ) × (d ≡ record c { next_ping_idx = i })
unfolding next_ping_loop
next_ping_moves zero c h = (c.next_ping_idx, cc)
next_ping_moves (suc n) c {d} {o} h =
    let (candidate, e, e') = >>=-eq-some (get_elem? c.ping_order c.next_ping_idx) _ h in
    let i = (c.next_ping_idx + 1) % length c.ping_order in
    let c' : SwimCore = record c { next_ping_idx = i } in
    elim (Bool-cases (is_dead? (status_of c' candidate))) [
      | inl gone ↦ next_ping_moves n c' (rw gone at e')
      | inr here ↦ (i, cc (rw here at e'))
    ]

ping_target-Rises : (c : SwimCore) (o : Option NodeId) → Rises c (ping_target c o).0
unfolding ping_target
ping_target-Rises c none = same_members-Rises c c (refl, refl) refl
ping_target-Rises c (some target) = same_members-Rises c _ (refl, refl) refl

start_period-Rises :
    (c : SwimCore) {d : SwimCore} {out : List Envelope} → start_period c ≡ some (d, out) → Rises c d
unfolding start_period next_ping_target
start_period-Rises c {d} {out} h =
    let c' : SwimCore = record c { period_elapsed = inc32 c.period_elapsed } in
    elim (Bool-cases (leb c'.protocol_period c'.period_elapsed && not (is_some c'.awaiting_ack))) [
      | inl due ↦
          let rested : SwimCore = record c' { period_elapsed = 0 } in
          let (s, e, e') =
            >>=-eq-some (next_ping_loop (length rested.ping_order) rested) _ (rw due at h) in
          let (i, moved) =
            next_ping_moves (length rested.ping_order) rested {d = s.0} {o = s.1} e in
          let same : d ≡ (ping_target s.0 s.1).0 = cc in
          rw same (
            Rises-trans
              (same_members-Rises c s.0 (ap (λ x. x.id) moved, ap (λ x. x.suspicion_timeout) moved)
                (ap (λ x. x.members) moved))
              (ping_target-Rises s.0 s.1))
      | inr early ↦
          let same : d ≡ c' = cc (rw early at h) in
          rw same (same_members-Rises c c' (refl, refl) refl)
    ]

pub tick-Rises :
    (c : SwimCore) {d : SwimCore} {out : List Envelope} → tick c ≡ some (d, out) → Rises c d
unfolding tick
tick-Rises c h =
    let aged = age_suspicions c in
    Rises-trans (age_suspicions-Rises c) (
      Rises-trans (age_ping-Rises aged aged.awaiting_ack)
        (start_period-Rises (age_ping aged aged.awaiting_ack) h))

-- Whatever a node does, by `tick` or `receive`, it keeps its id, and what it records about another
-- member is kept or replaced by a higher incarnation, or a more severe status at the same one; a
-- member that is recorded dead stays so.
pub entry_points-Rises :
    (c : SwimCore) (m : Envelope) {d : SwimCore} {out : List Envelope}
    → tick c ≡ some (d, out)
    → Rises c d × Rises c (receive c m).0
unfolding receive
entry_points-Rises c m h = (tick-Rises c h, receive_message-Rises c m.from m.message)
