-- ===== src/Gossip/Deadline.antt =====
-- A suspected member that nobody hears of is declared dead when its time is up.
use gems.Prelude.{
  ℕ, zero, suc, ◌+◌, ◌≤◌, ◌<◌, ◌≡◌, ◌⊎◌, inl, inr, refl, sym, ◌≢◌, false, Option, none, some, List,
  ◌==◌, arith, ==_iff, Bool-cases, leb, inc32, IsU32, ◌>>=◌, ap, ◌∙◌,
}
use gems.Prelude.Maps.{lookup, lookup-insert, lookup-remove}
use gems.Gossip.State.{
  NodeId, suspect, dead, Member, GossipItem, Envelope, AwaitingAck, SwimCore, status_of, status_in,
}
use gems.Gossip.Queue.{queue_gossip}
use gems.Gossip.Merge.{is_alive, maybe_refute_self, apply_fact, merge}
use gems.Gossip.Probe.{age_suspicions, suspect_target, age_ping, tick}
use gems.Gossip.Ascent.{age_suspicions-Rises, age_ping-Rises, tick-Rises}
use gems.Gossip.Soundness.{IsSound}
use gems.Gossip.Aging.{age_suspicions-IsSound, age_ping-IsSound}
use gems.Gossip.Ticking.{start_period-total, tick-total}
use gems.Gossip.Detection.{stays_dead, timed-other, age_suspicions-dies}

-- A fact about another member leaves a timer alone.
merge-timers :
    (c : SwimCore) (g : GossipItem) (j : NodeId)
    → (g.member == j) ≡ false
    → lookup j (merge c g).0.suspect_elapsed ≡ lookup j c.suspect_elapsed
unfolding merge maybe_refute_self apply_fact queue_gossip
merge-timers c g j ne = ground (
  arith,
  lookup-insert g.member j 0 c.suspect_elapsed,
  lookup-remove g.member j c.suspect_elapsed,
)

suspect_member :
    (c : SwimCore) (target j e : ℕ) (o : Option Member)
    → lookup target c.members ≡ o
    → IsSound c
    → lookup j c.suspect_elapsed ≡ some e
    → lookup j (suspect_target c target o).suspect_elapsed ≡ some e
unfolding suspect_target
suspect_member c target j e none found inv h = h
suspect_member c target j e (some m) found inv h = elim (Bool-cases (is_alive m.status)) [
  | inr idle ↦ rw idle h
  | inl awake ↦
      let other : (target == j) ≡ false = ground (arith, inv.timers j, ==_iff target j) in
      rw awake (
        merge-timers c (record { member = target; status = suspect; incarnation = m.incarnation }) j
          other
        ∙ h)
]

-- A suspect is not suspected anew by a ping that times out.
suspect_target-timers :
    (c : SwimCore) (target j e : ℕ)
    → IsSound c
    → lookup j c.suspect_elapsed ≡ some e
    → lookup j (suspect_target c target (lookup target c.members)).suspect_elapsed ≡ some e
suspect_target-timers c target j e inv h =
    suspect_member c target j e (lookup target c.members) refl inv h

age_ping-timers :
    (c : SwimCore) (o : Option AwaitingAck) (j e : ℕ)
    → IsSound c
    → lookup j c.suspect_elapsed ≡ some e
    → lookup j (age_ping c o).suspect_elapsed ≡ some e
unfolding age_ping
age_ping-timers c none j e inv h = h
age_ping-timers c (some a) j e inv h =
    elim (Bool-cases (leb c.ping_timeout (inc32 a.ticks_waited))) [
      | inl late ↦ rw late (
          suspect_target-timers (record c { awaiting_ack = none }) a.target j e
            (record { own = inv.own; timers = inv.timers; index = inv.index }) h)
      | inr early ↦ rw early h
    ]

-- One tick brings a suspect closer to its deadline, or declares it dead.
tick-dies :
    (c : SwimCore) (j e : ℕ) {d : SwimCore} {out : List Envelope}
    → IsSound c
    → lookup j c.suspect_elapsed ≡ some e
    → tick c ≡ some (d, out)
    → (status_of d j ≡ some dead)
      ⊎ ((inc32 e < c.suspicion_timeout) × (lookup j d.suspect_elapsed ≡ some (inc32 e)))
unfolding tick status_of
tick-dies c j e {d} {out} inv h run =
    let aged = age_suspicions c in
    let aged_inv = age_suspicions-IsSound c inv in
    let waited = age_ping aged aged.awaiting_ack in
    let (d', out', run', agrees, sound, targets) =
      start_period-total waited (age_ping-IsSound aged aged.awaiting_ack aged_inv) in
    let same : d' ≡ d = cc in
    elim (age_suspicions-dies c j e inv h) [
      | inl gone ↦
          let other = timed-other c j e inv h in
          let up = age_suspicions-Rises c in
          inl (
            ap (λ s. status_of s j) (sym same)
            ∙ (ap (λ ms. status_in (lookup j ms)) agrees.same_members
                ∙ stays_dead {c = aged} {d = waited} j (age_ping-Rises aged aged.awaiting_ack)
                    (λ s. other (s ∙ up.same_id)) gone))
      | inr (early, kept) ↦ inr (
        early,
        ap (λ s. lookup j s.suspect_elapsed) (sym same)
            ∙ (ap (lookup j) agrees.same_timers
                ∙ age_ping-timers aged aged.awaiting_ack j (inc32 e) aged_inv kept),
      )
    ]

-- A number of ticks without a message in between.
unfoldable pub ticks : ℕ → SwimCore → Option SwimCore
ticks zero c = some c
ticks (suc n) c = do s ← tick c; ticks n s.0

ticks_dead :
    (n : ℕ) (c : SwimCore) (j : NodeId)
    → IsSound c
    → j ≢ c.id
    → status_of c j ≡ some dead
    → (d : SwimCore) × (ticks n c ≡ some d) × (status_of d j ≡ some dead)
unfolding ticks
ticks_dead zero c j inv other h = (c, refl, h)
ticks_dead (suc n) c j inv other h =
    let (d, out, run, sound, targets) = tick-total c inv in
    let up = tick-Rises c run in
    rw run (ticks_dead n d j sound (λ s. other (s ∙ up.same_id)) (stays_dead j up other h))

-- In a well-formed node whose timer for a suspect `j` stands at `e`, ticks without a message in
-- between do not panic, and as soon as they reach the suspicion timeout `j` is recorded dead.
pub silent_suspect_dies :
    (n : ℕ) (c : SwimCore) (j e : ℕ)
    → IsSound c
    → IsU32 c.suspicion_timeout
    → lookup j c.suspect_elapsed ≡ some e
    → e < c.suspicion_timeout
    → c.suspicion_timeout ≤ e + n
    → (d : SwimCore) × (ticks n c ≡ some d) × (status_of d j ≡ some dead)
unfolding ticks
silent_suspect_dies zero c j e inv wide h early due = absurd (omega arith)
silent_suspect_dies (suc n) c j e inv wide h early due =
    let (d, out, run, sound, targets) = tick-total c inv in
    let up = tick-Rises c run in
    elim (tick-dies c j e inv h run) [
      | inl gone ↦
          rw run (ticks_dead n d j sound (λ s. timed-other c j e inv h (s ∙ up.same_id)) gone)
      | inr (still, timer) ↦
          let next : inc32 e ≡ e + 1 = omega arith in
          rw run (
            silent_suspect_dies n d j (inc32 e) sound (rw up.same_timeout wide) timer
              (rw up.same_timeout still) (omega (arith, next, up.same_timeout)))
    ]
