-- ===== src/Gossip/Retransmission.antt =====
-- How often a fact is gossiped: `take_gossip` against a direct description of it.
use gems.Prelude.{
  ℕ, zero, suc, ◌+◌, ◌-◌, ◌≤◌, ◌<◌, ◌≡◌, refl, inl, inr, ap, ◌∙◌, true, false, List, [], ◌∷◌, ◌++◌,
  append-nil, append_assoc, map, length, take, min, All, length-append, ltb, ◌==◌, if◌then◌else◌,
  dec32, arith, ==_iff, Bool-cases,
}
use gems.Prelude.Sets.{contains, IsNodup}
use gems.Gossip.State.{
  NodeId, GossipItem, GossipQueueItem, SwimCore, gossip_retransmit_count, max_gossip_per_message,
}
use gems.Gossip.Queue.{retain_others, send_entry, send_entries, take_gossip}

-- A queued fact is still to be sent one to four times.
abbrev pub IsPending : GossipQueueItem → Type 0
IsPending g = (0 < g.remaining_sends) × (g.remaining_sends ≤ gossip_retransmit_count)

abbrev pub fact_of : GossipQueueItem → GossipItem
fact_of g = g.item

abbrev pub about : GossipQueueItem → NodeId
about g = g.item.member

-- The queue once its first `n` facts are sent.
pub spent : ℕ → List GossipQueueItem → List GossipQueueItem
spent zero gs = gs
spent (suc n) [] = []
spent (suc n) (g ∷ gs) =
    let rest = spent n gs in
    if g.remaining_sends == 1
    then rest
    else record { item = g.item; remaining_sends = g.remaining_sends - 1 } ∷ rest

-- How many times facts are still to be sent.
pub budget : List GossipQueueItem → ℕ
budget [] = 0
budget (g ∷ gs) = g.remaining_sends + budget gs

send_entries-eq :
    (gs : List GossipQueueItem) (room : ℕ) (out : List GossipItem) (kept : List GossipQueueItem)
    → length out + room ≡ max_gossip_per_message
    → All IsPending gs
    → send_entries gs (out, kept) ≡ (out ++ map fact_of (take room gs), kept ++ spent room gs)
unfolding send_entries send_entry spent
send_entries-eq [] zero out kept e h = ground (arith, append-nil out, append-nil kept)
send_entries-eq [] (suc n) out kept e h = ground (arith, append-nil out, append-nil kept)
send_entries-eq (g ∷ gs) zero out kept e h =
    let full : ltb (length out) max_gossip_per_message ≡ false = ground arith in
    rw full (
      send_entries-eq gs zero out (kept ++ (g ∷ [])) e h.1
      ∙ ap (λ k. (out ++ [], k)) (append_assoc kept (g ∷ []) gs))
send_entries-eq (g ∷ gs) (suc n) out kept e h =
    let room : ltb (length out) max_gossip_per_message ≡ true = ground arith in
    let counted : length (out ++ (g.item ∷ [])) + n ≡ max_gossip_per_message =
      omega (arith, length-append out (g.item ∷ [])) in
    elim (Bool-cases (g.remaining_sends == 1)) [
      | inl last ↦
          let gone : ltb 0 (dec32 g.remaining_sends) ≡ false = ground arith in
          rw (room, gone, last)
            (send_entries-eq gs n (out ++ (g.item ∷ [])) kept counted h.1
              ∙ ap (λ o. (o, kept ++ spent n gs))
                  (append_assoc out (g.item ∷ []) (map fact_of (take n gs))))
      | inr more ↦
          let left = g.remaining_sends - 1 in
          let stays : ltb 0 (dec32 g.remaining_sends) ≡ true = ground arith in
          let fewer : dec32 g.remaining_sends ≡ left = omega arith in
          let entry : GossipQueueItem = record { item = g.item; remaining_sends = left } in
          rw (room, stays, more, fewer)
            (send_entries-eq gs n (out ++ (g.item ∷ [])) (kept ++ (entry ∷ [])) counted h.1
              ∙ ground (
                arith,
                append_assoc out (g.item ∷ []) (map fact_of (take n gs)),
                append_assoc kept (entry ∷ []) (spent n gs),
              ))
    ]

spent-budget :
    (n : ℕ) (gs : List GossipQueueItem)
    → All IsPending gs
    → budget (spent n gs) + min n (length gs) ≡ budget gs
unfolding spent budget
spent-budget zero gs h = omega arith
spent-budget (suc n) [] h = omega arith
spent-budget (suc n) (g ∷ gs) h = ground (arith, spent-budget n gs h.1)

spent-IsPending :
    (n : ℕ) (gs : List GossipQueueItem) → All IsPending gs → All IsPending (spent n gs)
unfolding spent
spent-IsPending zero gs h = h
spent-IsPending (suc n) [] h = tt
spent-IsPending (suc n) (g ∷ gs) h = elim (Bool-cases (g.remaining_sends == 1)) [
  | inl last ↦ rw last (spent-IsPending n gs h.1)
  | inr more ↦ rw more (ground (arith, h.0), spent-IsPending n gs h.1)
]

spent-contains :
    (n : ℕ) (gs : List GossipQueueItem) (j : NodeId)
    → contains (map about gs) j ≡ false
    → contains (map about (spent n gs)) j ≡ false
unfolding spent contains
spent-contains zero gs j h = h
spent-contains (suc n) [] j h = h
spent-contains (suc n) (g ∷ gs) j h = ground (arith, spent-contains n gs j)

spent-IsNodup :
    (n : ℕ) (gs : List GossipQueueItem) → IsNodup (map about gs) → IsNodup (map about (spent n gs))
unfolding spent
spent-IsNodup zero gs h = h
spent-IsNodup (suc n) [] h = h
spent-IsNodup (suc n) (g ∷ gs) h = elim (Bool-cases (g.remaining_sends == 1)) [
  | inl last ↦ rw last (spent-IsNodup n gs h.1)
  | inr more ↦ rw more (spent-contains n gs g.item.member h.0, spent-IsNodup n gs h.1)
]

-- The queue holds one fact for each member, to be sent one to four times more.
abbrev pub IsQueue : List GossipQueueItem → Type 0
IsQueue gs = All IsPending gs × IsNodup (map about gs)

-- From a queue with one fact for each member, each to be sent one to four times, `take_gossip` takes the
-- first eight in order; of these, each is still queued with one sending less, or is gone if it had one left;
-- all others are queued as they were; the order is kept, the sum of sendings falls by the number taken, and
-- the queue is again such a one.
pub take_gossip-sends :
    (c : SwimCore)
    → IsQueue c.gossip_queue
    → let (d, out) = take_gossip c in
      (out ≡ map fact_of (take max_gossip_per_message c.gossip_queue))
      × (d.gossip_queue ≡ spent max_gossip_per_message c.gossip_queue)
      × (budget d.gossip_queue + min max_gossip_per_message (length c.gossip_queue)
          ≡ budget c.gossip_queue)
      × IsQueue d.gossip_queue
unfolding take_gossip
take_gossip-sends c (h, d) =
    rw (send_entries-eq c.gossip_queue max_gossip_per_message [] [] refl h) (
      refl,
      refl,
      spent-budget max_gossip_per_message c.gossip_queue h,
      (
        spent-IsPending max_gossip_per_message c.gossip_queue h,
        spent-IsNodup max_gossip_per_message c.gossip_queue d,
      ),
    )

put_last-contains :
    (item : GossipItem) (k : NodeId) (gs : List GossipQueueItem)
    → (k == item.member) ≡ false
    → contains (map about gs) k ≡ false
    → contains
        (map about (
          retain_others item.member gs
          ++ (record { item = item; remaining_sends = gossip_retransmit_count } ∷ [])))
        k
      ≡ false
unfolding retain_others contains
put_last-contains item k [] ne h = ground (arith, ==_iff k item.member, ==_iff item.member k)
put_last-contains item k (g ∷ gs) ne h = ground (arith, put_last-contains item k gs ne)

-- A fact that is put last, behind those about other members.
pub put_last-IsQueue :
    (item : GossipItem) (gs : List GossipQueueItem)
    → IsQueue gs
    → IsQueue (
        retain_others item.member gs
        ++ (record { item = item; remaining_sends = gossip_retransmit_count } ∷ []))
unfolding retain_others contains
put_last-IsQueue item [] h = (((omega arith, omega arith), tt), (refl, tt))
put_last-IsQueue item (g ∷ gs) h = elim (Bool-cases (g.item.member == item.member)) [
  | inl e ↦ rw e (put_last-IsQueue item gs (h.0.1, h.1.1))
  | inr e ↦
      let rest = put_last-IsQueue item gs (h.0.1, h.1.1) in
      rw e ((h.0.0, rest.0), (put_last-contains item g.item.member gs e h.1.0, rest.1))
]
