-- ===== src/Raft/Draining.antt =====
-- The hand-off of committed entries (`take_newly_committed` of crates/gems-cluster/src/raft.rs).
use gems.Prelude.{
  ℕ, zero, suc, ◌+◌, ◌-◌, ◌≤◌, ◌<◌, ◌≡◌, refl, none, some, List, [], ◌∷◌, length, take, drop,
  get_elem?, get_elem?-lt, Option-cases, inl, inr, ◌⊎◌, ltb, ltb→lt, ltb_false→le, Bool-cases, ◌∙◌,
  arith, ◌>>=◌,
}
use gems.Raft.State.{RaftCore, LogEntry}
use gems.Raft.Commit.{drain, take_newly_committed}

drain-cons :
    (k applied : ℕ) (e : LogEntry) (log : List LogEntry)
    → drain k (suc applied) (e ∷ log) ≡ drain k applied log
unfolding drain
drain-cons zero applied e log = refl
drain-cons (suc k) applied e log =
    let next : suc applied + 1 ≡ suc (applied + 1) = omega arith in
    rw (next, drain-cons k (applied + 1) e log)

drain_front :
    (k : ℕ) (e : LogEntry) (log : List LogEntry)
    → drain (suc k) 0 (e ∷ log) ≡ (do rest ← drain k 1 (e ∷ log); some (e ∷ rest))
unfolding drain
drain_front k e log = refl

drain-slice :
    (k applied : ℕ) (log : List LogEntry)
    → applied + k ≤ length log
    → drain k applied log ≡ some (take k (drop applied log))
drain-slice zero zero log h = unfold drain in refl
drain-slice (suc k) zero [] h = absurd (omega arith)
drain-slice (suc k) zero (x ∷ log) h =
    drain_front k x log ∙ rw (drain-cons k 0 x log, drain-slice k zero log (omega arith))
drain-slice zero (suc applied) [] h = unfold drain in refl
drain-slice (suc k) (suc applied) [] h = absurd (omega arith)
drain-slice k (suc applied) (e ∷ log) h =
    drain-cons k applied e log ∙ drain-slice k applied log (omega arith)

drain_past_end :
    (k applied : ℕ) (log : List LogEntry)
    → 0 < k
    → length log < applied + k
    → drain k applied log ≡ none
unfolding drain
drain_past_end zero applied log p h = absurd (omega arith)
drain_past_end (suc k) applied log p h = elim (Option-cases (get_elem? log applied)) [
  | inl gone ↦ rw gone
  | inr (e, found) ↦
      let inside = get_elem?-lt log applied found in
      rw (found, drain_past_end k (applied + 1) log (omega arith) (omega arith))
]

-- What a call that does not panic has done.
abbrev pub HandsOver : RaftCore → Type 0
HandsOver c =
    (take_newly_committed c
      ≡ some (
        record c { last_applied = c.commit_index },
        take (c.commit_index - c.last_applied) (drop c.last_applied c.log),
      ))
    × (take_newly_committed (record c { last_applied = c.commit_index })
        ≡ some (record c { last_applied = c.commit_index }, []))

module _ (c : RaftCore) where
  take_newly_committed-nothing :
      c.commit_index ≤ c.last_applied → take_newly_committed c ≡ some (c, [])
  unfolding take_newly_committed drain
  take_newly_committed-nothing h =
      let rest : c.commit_index - c.last_applied ≡ 0 = omega arith in
      let same : c.last_applied + 0 ≡ c.last_applied = omega arith in rw (rest, same) refl

  take_newly_committed-slice :
      c.last_applied ≤ c.commit_index → c.commit_index ≤ length c.log → HandsOver c
  unfolding take_newly_committed
  take_newly_committed-slice ordered logged =
      let end : c.last_applied + (c.commit_index - c.last_applied) ≡ c.commit_index = omega arith in
      let rest : c.commit_index - c.commit_index ≡ 0 = omega arith in
      let same : c.commit_index + 0 ≡ c.commit_index = omega arith in
      (
        rw (drain-slice (c.commit_index - c.last_applied) c.last_applied c.log (omega arith), end),
        rw (rest, same),
      )

  take_newly_committed_panics :
      c.last_applied < c.commit_index
      → length c.log < c.commit_index
      → take_newly_committed c ≡ none
  unfolding take_newly_committed
  take_newly_committed_panics h l = rw (
      drain_past_end (c.commit_index - c.last_applied) c.last_applied c.log (omega arith)
        (omega arith))

-- The hand-off of committed entries in every state: if no entry is committed behind the last one applied,
-- nothing is handed over and nothing changes; if the commit index lies behind the last one applied and within
-- the log, exactly the entries between are handed over, in order and each once, and a second call hands over
-- nothing; and if it lies behind the log's end, the call panics.
pub take_newly_committed_lem :
    (c : RaftCore)
    → ((c.commit_index ≤ c.last_applied) × (take_newly_committed c ≡ some (c, [])))
      ⊎ (((c.last_applied < c.commit_index) × (c.commit_index ≤ length c.log) × HandsOver c)
          ⊎ ((c.last_applied < c.commit_index)
              × (length c.log < c.commit_index)
              × (take_newly_committed c ≡ none)))
take_newly_committed_lem c = elim (Bool-cases (ltb c.last_applied c.commit_index)) [
  | inl some_left ↦
      let more : c.last_applied < c.commit_index = ltb→lt _ _ some_left in
      elim (Bool-cases (ltb (length c.log) c.commit_index)) [
        | inl past ↦
            let gone : length c.log < c.commit_index = ltb→lt _ _ past in
            inr (inr (more, gone, take_newly_committed_panics c more gone))
        | inr within ↦
            let logged : c.commit_index ≤ length c.log = ltb_false→le _ _ within in
            inr (inl (more, logged, take_newly_committed-slice c (omega arith) logged))
      ]
  | inr nothing ↦
      let old : c.commit_index ≤ c.last_applied = ltb_false→le _ _ nothing in
      inl (old, take_newly_committed-nothing c old)
]
