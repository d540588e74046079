-- ===== src/Gossip/Ticking.antt =====
-- A tick of a well-formed node does not panic, leaves it well formed, and pings nobody that it
-- holds dead.
use gems.Prelude.{
  ℕ, zero, suc, ◌+◌, ◌%◌, ◌<◌, ◌≡◌, inl, inr, refl, false, Option, none, some, List, [], arith,
  Bool-cases, length, get_elem?-of_lt, ◌&&◌, not, leb, ltb, inc32, All,
}
use gems.Gossip.State.{NodeId, Envelope, SwimCore, status_of, envelope_to}
use gems.Gossip.Queue.{take_gossip}
use gems.Gossip.Probe.{
  is_dead?, is_some, next_ping_loop, next_ping_target, age_suspicions, age_ping, ping_target,
  start_period, tick,
}
use gems.Gossip.Core.{receive}
use gems.Gossip.Soundness.{receive-IsSound, IsSound}
use gems.Gossip.Aging.{age_suspicions-IsSound, age_ping-IsSound}

-- Looking for a member to ping finds one that is not dead, or none, and moves only the index.
pub next_ping-total :
    (n : ℕ) (c : SwimCore)
    → c.next_ping_idx < length c.ping_order
    → (i : ℕ) × (o : Option NodeId) × (next_ping_loop n c
        ≡ some (record c { next_ping_idx = i }, o))
      × (i < length c.ping_order)
      × ((t : NodeId) → o ≡ some t → is_dead? (status_of c t) ≡ false)
unfolding next_ping_loop status_of
next_ping-total zero c inside = (c.next_ping_idx, none, refl, inside, λ t e. cc)
next_ping-total (suc n) c inside =
    let i = (c.next_ping_idx + 1) % length c.ping_order in
    let c' : SwimCore = record c { next_ping_idx = i } in
    let bound : i < length c.ping_order = omega arith in
    let (candidate, e) = get_elem?-of_lt c.ping_order c.next_ping_idx inside in
    elim (Bool-cases (is_dead? (status_of c' candidate))) [
      | inl gone ↦
          let (j, o, run, within, awake) = next_ping-total n c' bound in
          (j, o, rw (e, gone) run, within, awake)
      | inr here ↦ (i, some candidate, rw (e, here) refl, bound, λ t same. cc)
    ]

-- The state that a new period leaves agrees with `c` about members, timers and the timeout.
pub record Agrees (c d : SwimCore) : Type 0 where
  pub same_id : d.id ≡ c.id
  pub same_incarnation : d.incarnation ≡ c.incarnation
  pub same_members : d.members ≡ c.members
  pub same_timers : d.suspect_elapsed ≡ c.suspect_elapsed
  pub same_timeout : d.suspicion_timeout ≡ c.suspicion_timeout

abbrev pub AwakeTargets : SwimCore → List Envelope → Type 0
AwakeTargets c out = All (λ m. is_dead? (status_of c m.to) ≡ false) out

idle :
    (c : SwimCore)
    → length c.ping_order ≡ 0
    → next_ping_loop (length c.ping_order) c
      ≡ some (record c { next_ping_idx = c.next_ping_idx }, none)
unfolding next_ping_loop
idle c e = rw e refl

-- A search for a target that starts in a well-formed state.
search-total :
    (c : SwimCore)
    → IsSound c
    → (i : ℕ) × (o : Option NodeId) × (next_ping_target c
        ≡ some (record c { next_ping_idx = i }, o))
      × (0 < length c.ping_order → i < length c.ping_order)
      × ((t : NodeId) → o ≡ some t → is_dead? (status_of c t) ≡ false)
unfolding next_ping_target
search-total c inv = elim (Bool-cases (ltb 0 (length c.ping_order))) [
  | inl more ↦
      let (i, o, run, within, awake) =
        next_ping-total (length c.ping_order) c (inv.index (ground arith)) in
      (i, o, run, λ h. within, awake)
  | inr nobody ↦
      let none_left : length c.ping_order ≡ 0 = ground arith in
      (c.next_ping_idx, none, idle c none_left, inv.index, λ t e. cc)
]

ping_target-Agrees :
    (c : SwimCore) (o : Option NodeId)
    → IsSound c
    → ((t : NodeId) → o ≡ some t → is_dead? (status_of c t) ≡ false)
    → let s = ping_target c o in Agrees c s.0 × IsSound s.0 × AwakeTargets s.0 s.1
unfolding ping_target take_gossip envelope_to status_of
ping_target-Agrees c none inv awake = (
  record {
    same_id = refl;
    same_incarnation = refl;
    same_members = refl;
    same_timers = refl;
    same_timeout = refl;
  },
  inv,
  tt,
)
ping_target-Agrees c (some t) inv awake = (
  record {
    same_id = refl;
    same_incarnation = refl;
    same_members = refl;
    same_timers = refl;
    same_timeout = refl;
  },
  record { own = inv.own; timers = inv.timers; index = inv.index },
  (awake t refl, tt),
)

pub start_period-total :
    (c : SwimCore)
    → IsSound c
    → (d : SwimCore) × (out : List Envelope) × (start_period c ≡ some (d, out))
      × Agrees c d
      × IsSound d
      × AwakeTargets d out
unfolding start_period status_of
start_period-total c inv =
    let c' : SwimCore = record c { period_elapsed = inc32 c.period_elapsed } in
    elim (Bool-cases (leb c'.protocol_period c'.period_elapsed && not (is_some c'.awaiting_ack))) [
      | inl due ↦
          let rested : SwimCore = record c' { period_elapsed = 0 } in
          let (i, o, run, within, awake) =
            search-total rested
              (record { own = inv.own; timers = inv.timers; index = inv.index }) in
          let found : SwimCore = record rested { next_ping_idx = i } in
          let (agrees, sound, targets) =
            ping_target-Agrees found o
              (record { own = inv.own; timers = inv.timers; index = within }) awake in
          (
            (ping_target found o).0,
            (ping_target found o).1,
            rw (due, run) refl,
            record {
              same_id = agrees.same_id;
              same_incarnation = agrees.same_incarnation;
              same_members = agrees.same_members;
              same_timers = agrees.same_timers;
              same_timeout = agrees.same_timeout;
            },
            sound,
            targets,
          )
      | inr early ↦ (
        c',
        [],
        rw early refl,
        record {
          same_id = refl;
          same_incarnation = refl;
          same_members = refl;
          same_timers = refl;
          same_timeout = refl;
        },
        record { own = inv.own; timers = inv.timers; index = inv.index },
        tt,
      )
    ]

-- A tick of a well-formed node does not panic, leaves it well formed, and pings only a member that
-- it does not hold dead.
pub tick-total :
    (c : SwimCore)
    → IsSound c
    → (d : SwimCore) × (out : List Envelope) × (tick c ≡ some (d, out))
      × IsSound d
      × AwakeTargets d out
unfolding tick
tick-total c inv =
    let aged = age_suspicions c in
    let (d, out, run, agrees, sound, targets) =
      start_period-total (age_ping aged aged.awaiting_ack)
        (age_ping-IsSound aged aged.awaiting_ack (age_suspicions-IsSound c inv)) in
    (d, out, run, sound, targets)

-- In a well-formed node `tick` does not panic, leaves the node well formed and pings only members
-- that it does not hold dead, and `receive` leaves it well formed, whatever the message.
pub entry_points-IsSound :
    (c : SwimCore) (m : Envelope)
    → IsSound c
    → ((d : SwimCore) × (out : List Envelope) × (tick c ≡ some (d, out))
        × IsSound d
        × AwakeTargets d out)
      × IsSound (receive c m).0
entry_points-IsSound c m inv = (tick-total c inv, receive-IsSound c m inv)
