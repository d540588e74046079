-- ===== src/Gossip/Detection.antt =====
-- Timers that run out: which members a tick declares dead.
use gems.Prelude.{
  ℕ, ◌<◌, ◌≡◌, ◌≢◌, ◌⊎◌, inl, inr, refl, true, false, Option, none, some, List, [], ◌∷◌, ◌==◌,
  arith, ==_iff, Bool-cases, leb, inc32, ap, ◌∙◌,
}
use gems.Prelude.Sets.{contains}
use gems.Prelude.Maps.{Map, lookup, remove, lookup-insert, lookup-remove}
use gems.Gossip.State.{NodeId, dead, Member, SwimCore, status_in, status_of}
use gems.Gossip.Queue.{queue_gossip}
use gems.Gossip.Probe.{age_timers, timed_out, declare_dead, expire, expire_all, age_suspicions}
use gems.Gossip.Order.{Rises}
use gems.Gossip.Ascent.{declare_dead-Rises, expire_all-Rises}
use gems.Gossip.Soundness.{IsSound, is_suspected}
use gems.Gossip.Aging.{expire-IsSound, aged-IsSound}

recorded_dead :
    (o : Option Member) → status_in o ≡ some dead → (m : Member) × (o ≡ some m) × (m.status ≡ dead)
recorded_dead none h = cc
recorded_dead (some m) h = (m, refl, cc)

-- A member that is recorded dead stays so.
pub stays_dead :
    {c d : SwimCore} (j : NodeId)
    → Rises c d
    → j ≢ c.id
    → status_of c j ≡ some dead
    → status_of d j ≡ some dead
unfolding status_of
stays_dead {c} {d} j up other h =
    let (m, e, gone) = recorded_dead (lookup j c.members) h in
    let (n, e', later) = up.later j m other e in rw e' (ground (arith, later, gone))

-- A member with a running timer is another one.
pub timed-other :
    (c : SwimCore) (j e : ℕ) → IsSound c → lookup j c.suspect_elapsed ≡ some e → j ≢ c.id
timed-other c j e inv h = λ same. ground (arith, inv.own, inv.timers j)

declare_dead-timers :
    (c : SwimCore) (id : NodeId) (o : Option Member)
    → (declare_dead c id o).suspect_elapsed ≡ c.suspect_elapsed
unfolding declare_dead queue_gossip
declare_dead-timers c id none = refl
declare_dead-timers c id (some m) = ground arith

declare_dead-dies :
    (c : SwimCore) (j : NodeId) (o : Option Member)
    → is_suspected o ≡ true
    → status_of (declare_dead c j o) j ≡ some dead
unfolding declare_dead queue_gossip status_of
declare_dead-dies c j none h = cc
declare_dead-dies c j (some m) h =
    rw (h, lookup-insert j j (record { status = dead; incarnation = m.incarnation }) c.members)
      (ground (arith, ==_iff j j))

expire_other :
    (c : SwimCore) (id j : NodeId)
    → (id == j) ≡ false
    → (lookup j (expire c id).suspect_elapsed ≡ lookup j c.suspect_elapsed)
unfolding expire
expire_other c id j ne =
    let dropped : SwimCore = record c { suspect_elapsed = remove id c.suspect_elapsed } in
    ap (lookup j) (declare_dead-timers dropped id (lookup id c.members))
    ∙ (lookup-remove id j c.suspect_elapsed ∙ rw ne refl)

expire-dies :
    (c : SwimCore) (j e : ℕ)
    → IsSound c
    → lookup j c.suspect_elapsed ≡ some e
    → status_of (expire c j) j ≡ some dead
unfolding expire
expire-dies c j e inv h =
    declare_dead-dies (record c { suspect_elapsed = remove j c.suspect_elapsed }) j
      (lookup j c.members) (ground (arith, inv.timers j))

expire-id : (c : SwimCore) (id : NodeId) → (expire c id).id ≡ c.id
unfolding expire
expire-id c id =
    (declare_dead-Rises (record c { suspect_elapsed = remove id c.suspect_elapsed }) id
      (lookup id c.members) refl).same_id

-- While its turn has not come a suspect keeps its timer; when it comes it is declared dead.
expire_all-dies :
    (ids : List NodeId) (c : SwimCore) (j e : ℕ)
    → IsSound c
    → lookup j c.suspect_elapsed ≡ some e
    → (status_of (expire_all ids c) j ≡ some dead)
      ⊎ ((contains ids j ≡ false) × (lookup j (expire_all ids c).suspect_elapsed ≡ some e))
unfolding expire_all contains
expire_all-dies [] c j e inv h = inr (refl, h)
expire_all-dies (id ∷ ids) c j e inv h = elim (Bool-cases (id == j)) [
  | inl same ↦
      let here : id ≡ j = (==_iff id j).0 same in
      inl (
        stays_dead {c = expire c id} j (expire_all-Rises ids (expire c id))
          (λ s. timed-other c j e inv h (s ∙ expire-id c id)) (rw here (expire-dies c j e inv h)))
  | inr ne ↦
      let kept =
        expire_all-dies ids (expire c id) j e (expire-IsSound c id inv)
          (expire_other c id j ne ∙ h) in
      rw ne kept
]

lookup-age_timers :
    (j e : ℕ) (t : Map ℕ) → lookup j t ≡ some e → lookup j (age_timers t) ≡ some (inc32 e)
unfolding lookup age_timers
lookup-age_timers j e [] h = cc
lookup-age_timers j e (_ ∷ t) h = ground (arith, lookup-age_timers j e t)

timed_out-contains :
    (limit j e : ℕ) (t : Map ℕ)
    → lookup j t ≡ some e
    → leb limit e ≡ true
    → contains (timed_out limit t) j ≡ true
unfolding lookup timed_out contains
timed_out-contains limit j e [] h late = cc
timed_out-contains limit j e (_ ∷ t) h late = ground (arith, timed_out-contains limit j e t)

pub age_suspicions-dies :
    (c : SwimCore) (j e : ℕ)
    → IsSound c
    → lookup j c.suspect_elapsed ≡ some e
    → (status_of (age_suspicions c) j ≡ some dead)
      ⊎ ((inc32 e < c.suspicion_timeout)
          × (lookup j (age_suspicions c).suspect_elapsed ≡ some (inc32 e)))
unfolding age_suspicions
age_suspicions-dies c j e inv h =
    let aged = age_timers c.suspect_elapsed in
    let timer = lookup-age_timers j e c.suspect_elapsed h in
    elim (expire_all-dies (timed_out c.suspicion_timeout aged) (record c { suspect_elapsed = aged })
      j (inc32 e) (aged-IsSound c inv) timer) [
        | inl gone ↦ inl gone
        | inr (spared, kept) ↦ inr (
          ground (arith, timed_out-contains c.suspicion_timeout j (inc32 e) aged timer, spared),
          kept,
        )
      ]
