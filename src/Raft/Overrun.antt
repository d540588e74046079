-- ===== src/Raft/Overrun.antt =====
-- Followers whose logs are longer than the leader's (crates/gems-cluster/src/raft.rs): the follower
-- answers with the length of its whole log, and the leader takes that for a match.
use gems.Prelude.{
  ℕ, zero, suc, ◌%◌, ◌+◌, ◌-◌, ◌<◌, ◌≤◌, ◌≡◌, ◌∙◌, refl, leb, leb_false→lt, inc32, u32_mod, Option,
  ◌>>=◌, ap, inl, inr, true, false, none, some, List, [], ◌∷◌, length, arith, ◌==◌, ==_iff,
  Bool-cases, Option-cases, u64_mod,
}
use gems.Prelude.Maps
use gems.Prelude.Maps.{lookup, lookup-insert}
use gems.Prelude.Sets.{contains}
use gems.Raft.State.{NodeId, leader, RaftCore, Envelope, AppendRequest, append_entries_request}
use gems.Raft.Sending.{next_index_of, append_entries_for, replicate_to, replicate_to_all_peers}
use gems.Raft.Election.{replicating}
use gems.Raft.Commit.{advance_commit_index}
use gems.Raft.Follower.{handle_append_entries}
use gems.Raft.Reconcile.{handle_append_entries-eq-append_result}
use gems.Raft.Core.{tick, tick_as, handle_append_response, follower_matched}

-- One peer that cannot be sent to stops the whole round.
replicate_to_panics :
    (c : RaftCore) (peer : NodeId) (ps : List NodeId)
    → append_entries_for c peer ≡ none
    → contains ps peer ≡ true
    → replicate_to c ps ≡ none
unfolding replicate_to contains
replicate_to_panics c peer [] e h = cc
replicate_to_panics c peer (p ∷ ps) e h = elim (Bool-cases (p == peer)) [
  | inl same ↦ let q : p ≡ peer = (==_iff p peer).0 same in rw (q, e)
  | inr other ↦ elim (Option-cases (append_entries_for c p)) [
    | inl gone ↦ rw gone
    | inr (rpc, sent) ↦ rw (sent, replicate_to_panics c peer ps e (rw other at h))
  ]
]

append_entries_for_panics :
    (c : RaftCore) (peer : NodeId)
    → length c.log < next_index_of c peer - 1
    → append_entries_for c peer ≡ none
unfolding append_entries_for next_index_of
append_entries_for_panics c peer h = ground arith

-- What a leader knows of a follower after a match, whether or not its commit index moves.
next_index-follower_matched :
    (c d : RaftCore) (peer index : ℕ) (out : List Envelope)
    → follower_matched c peer index ≡ some (d, out)
    → (d.log ≡ c.log)
      × (d.peers ≡ c.peers)
      × (d.next_index ≡ Maps.insert peer ((index + 1) % u64_mod) c.next_index)
      × (d.role ≡ c.role)
      × (d.heartbeat_interval ≡ c.heartbeat_interval)
      × (d.heartbeat_elapsed ≡ c.heartbeat_elapsed)
unfolding follower_matched advance_commit_index replicating
next_index-follower_matched c d peer index out h = ground arith

-- The leader takes a peer for holding more than the leader's own log.
record IsOverrun (d : RaftCore) (peer : NodeId) : Type 0 where
  pub behind : length d.log < next_index_of d peer - 1
  pub member : contains d.peers peer ≡ true

replicate_to_all_peers_panics :
    (d : RaftCore) (peer : NodeId) → IsOverrun d peer → replicate_to_all_peers d ≡ none
unfolding replicate_to_all_peers
replicate_to_all_peers_panics d peer over =
    replicate_to_panics d peer d.peers (append_entries_for_panics d peer over.behind) over.member

follower_matched-IsOverrun :
    (c d : RaftCore) (peer index : ℕ) (out : List Envelope)
    → length c.log < index
    → index + 1 < u64_mod
    → contains c.peers peer ≡ true
    → follower_matched c peer index ≡ some (d, out)
    → IsOverrun d peer
follower_matched-IsOverrun c d peer index out longer room member h =
    let (log, peers, next, _, _, _) = next_index-follower_matched c d peer index out h in
    let place : next_index_of d peer ≡ index + 1 =
      unfold next_index_of in rw (next, lookup-insert) (ground arith) in
    record { behind = omega (arith, place, ap length log); member = rw peers member }

-- A number of ticks with nothing in between.
unfoldable pub tick_times : ℕ → RaftCore → Option RaftCore
tick_times zero c = some c
tick_times (suc n) c = do s ← tick c; tick_times n s.0

heartbeat_panics :
    (d : RaftCore) (peer : NodeId)
    → d.role ≡ leader
    → IsOverrun d peer
    → leb d.heartbeat_interval (inc32 d.heartbeat_elapsed) ≡ true
    → tick d ≡ none
unfolding tick tick_as replicating next_index_of
heartbeat_panics d peer led over due =
    let stuck : replicate_to_all_peers (record d { heartbeat_elapsed = 0 }) ≡ none =
      replicate_to_all_peers_panics (record d { heartbeat_elapsed = 0 }) peer
        (record { behind = over.behind; member = over.member }) in
    ap (λ role. tick_as role d) led ∙ rw due (rw stuck refl)

heartbeat_waits :
    (d : RaftCore)
    → d.role ≡ leader
    → leb d.heartbeat_interval (inc32 d.heartbeat_elapsed) ≡ false
    → tick d ≡ some (record d { heartbeat_elapsed = inc32 d.heartbeat_elapsed }, [])
unfolding tick tick_as
heartbeat_waits d led early = ap (λ role. tick_as role d) led ∙ rw early refl

ticks_panic :
    (k : ℕ) (d : RaftCore) (peer : NodeId)
    → d.role ≡ leader
    → IsOverrun d peer
    → d.heartbeat_elapsed ≤ d.heartbeat_interval
    → d.heartbeat_interval + 1 < u32_mod
    → d.heartbeat_interval ≤ d.heartbeat_elapsed + suc k
    → tick_times (suc k) d ≡ none
unfolding tick_times next_index_of
ticks_panic zero d peer led over waited small near =
    elim (Bool-cases (leb d.heartbeat_interval (inc32 d.heartbeat_elapsed))) [
      | inl due ↦ rw (heartbeat_panics d peer led over due) refl
      | inr early ↦
          let left : inc32 d.heartbeat_elapsed < d.heartbeat_interval = leb_false→lt _ _ early in
          let next : inc32 d.heartbeat_elapsed ≡ d.heartbeat_elapsed + 1 = omega arith in
          absurd (omega arith)
    ]
ticks_panic (suc k) d peer led over waited small near =
    elim (Bool-cases (leb d.heartbeat_interval (inc32 d.heartbeat_elapsed))) [
      | inl due ↦ rw (heartbeat_panics d peer led over due) refl
      | inr early ↦
          let left : inc32 d.heartbeat_elapsed < d.heartbeat_interval = leb_false→lt _ _ early in
          let next : inc32 d.heartbeat_elapsed ≡ d.heartbeat_elapsed + 1 = omega arith in
          rw (heartbeat_waits d led early) (
            ticks_panic k (record d { heartbeat_elapsed = inc32 d.heartbeat_elapsed }) peer led
              (record { behind = over.behind; member = over.member }) (omega arith) small
              (omega arith))
    ]

accepted_answer :
    (f : RaftCore) (r : AppendRequest)
    → (handle_append_entries f r).2 ≡ true
    → ((handle_append_entries f r).1 ≡ r.term)
      × ((handle_append_entries f r).3 ≡ length (handle_append_entries f r).0.log)
accepted_answer f r = rw handle_append_entries-eq-append_result (λ h. ground arith)

sent_in_own_term :
    (c : RaftCore) (peer : NodeId) (r : AppendRequest)
    → append_entries_for c peer ≡ some (append_entries_request r)
    → r.term ≡ c.current_term
unfolding append_entries_for
sent_in_own_term c peer r h = ground arith

response-eq-follower_matched :
    (c : RaftCore) (peer index : ℕ)
    → c.role ≡ leader
    → handle_append_response c c.current_term true index peer ≡ follower_matched c peer index
unfolding handle_append_response
response-eq-follower_matched c peer index led = ground arith

-- Whatever the leader sent it, a follower that accepts and is left with a log longer than the leader's makes
-- the leader panic: either when it takes the answer, or, if no message and no proposal comes in between, within
-- one tick more than its heartbeat interval. The follower is a peer of the leader, its log's length is short of
-- the end of `u64`, and the interval of that of `u32`; the leader has waited no longer than the interval.
pub longer_follower_panics_leader :
    (c f : RaftCore) (r : AppendRequest)
    → c.role ≡ leader
    → contains c.peers f.id ≡ true
    → c.heartbeat_elapsed ≤ c.heartbeat_interval
    → c.heartbeat_interval + 1 < u32_mod
    → append_entries_for c f.id ≡ some (append_entries_request r)
    → (handle_append_entries f r).2 ≡ true
    → length c.log < length (handle_append_entries f r).0.log
    → length (handle_append_entries f r).0.log + 1 < u64_mod
    → (do
      s ←
          handle_append_response c
            (handle_append_entries f r).1
            true
            (handle_append_entries f r).3
            f.id
      tick_times (suc c.heartbeat_interval) s.0)
      ≡ none
longer_follower_panics_leader c f r led member waited small sent accepted longer room =
    let (term, index) = accepted_answer f r accepted in
    let own = sent_in_own_term c f.id r sent in
    let reached = length (handle_append_entries f r).0.log in
    let answer : handle_append_response c (handle_append_entries f r).1 true
          (handle_append_entries f r).3 f.id
        ≡ follower_matched c f.id reached =
      cc (response-eq-follower_matched c f.id reached led) in
    elim (Option-cases (follower_matched c f.id reached)) [
      | inl gone ↦ rw answer (rw gone refl)
      | inr ((d, out), taken) ↦
          let (_, _, _, role, interval, elapsed) =
            next_index-follower_matched c d f.id reached out taken in
          rw answer (
            rw taken (
              ticks_panic c.heartbeat_interval d f.id (role ∙ led)
                (follower_matched-IsOverrun c d f.id reached out longer room member taken)
                (omega (arith, interval, elapsed)) (omega (arith, interval))
                (omega (arith, interval))))
    ]
