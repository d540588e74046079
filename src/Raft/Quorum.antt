-- ===== src/Raft/Quorum.antt =====
-- `advance_commit_index` of crates/gems-cluster/src/raft.rs: how far the commit index moves.
use gems.Prelude.{
  ℕ, ◌+◌, ◌-◌, ◌/◌, ◌≤◌, ◌<◌, ◌≡◌, length, length-append, length-map, get_or, arith, ap, ltb, ◌&&◌,
  ◌==◌, if◌then◌else◌,
}
use native.Mathlib.Decide.{dec_lt}
use gems.Prelude.Sorting.{sort_desc, count_ge, sort_desc-reach, sort_desc-bound, length-sort_desc}
use gems.Raft.State.{RaftCore, log_term_at}
use gems.Raft.Election.{majority}
use gems.Raft.Commit.{match_indices, commit_candidate, advance_commit_index}

-- How many nodes are believed to hold the log up to `index`: peers by their match index, and the
-- leader itself.
abbrev pub holders : RaftCore → ℕ → ℕ
holders c index = count_ge index (match_indices c)

length-match_indices : (c : RaftCore) → length (match_indices c) ≡ length c.peers + 1
unfolding match_indices
length-match_indices c = rw (length-append, length-map) (omega arith)

-- The place read in the sorted list: a majority without one.
candidate_place : RaftCore → ℕ
candidate_place c = (length c.peers + 1) / 2

commit_candidate-get_or :
    (c : RaftCore) → commit_candidate c ≡ get_or (sort_desc (match_indices c)) (candidate_place c) 0
unfolding commit_candidate candidate_place
commit_candidate-get_or c =
    let place : length (sort_desc (match_indices c)) / 2 + 1 - 1 ≡ (length c.peers + 1) / 2 =
      omega (arith, length-sort_desc (match_indices c), length-match_indices c) in
    ap (λ k. get_or (sort_desc (match_indices c)) k 0) place

commit_candidate_reach : (c : RaftCore) → majority c ≤ holders c (commit_candidate c)
unfolding majority candidate_place
commit_candidate_reach c = rw commit_candidate-get_or (
    omega (
      arith,
      sort_desc-reach (candidate_place c) (match_indices c) (omega (arith, length-match_indices c)),
    ))

commit_candidate_bound : (c : RaftCore) (n : ℕ) → commit_candidate c < n → holders c n < majority c
unfolding majority candidate_place
commit_candidate_bound c n h = omega (
  arith,
  sort_desc-bound (candidate_place c) n (match_indices c) (rw commit_candidate-get_or at h),
)

-- The commit index moves only forward, to an index that a majority holds and whose entry is of the
-- leader's current term.
pub commit_moves_on_majority :
    (c : RaftCore)
    → c.commit_index < (advance_commit_index c).commit_index
    → (majority c ≤ holders c (advance_commit_index c).commit_index)
      × (log_term_at c (advance_commit_index c).commit_index ≡ c.current_term)
unfolding advance_commit_index
commit_moves_on_majority c h = ground (arith, commit_candidate_reach c)

-- Let `m` be the highest index that a majority holds. The commit index becomes `m` exactly if it was
-- lower and the entry at `m` is of the leader's current term; else it stays.
pub commit_index-advance :
    (c : RaftCore) (m : ℕ)
    → majority c ≤ holders c m
    → ((k : ℕ) → m < k → holders c k < majority c)
    → (advance_commit_index c).commit_index
      ≡ (if ltb c.commit_index m && log_term_at c m == c.current_term then m else c.commit_index)
unfolding advance_commit_index
commit_index-advance c m held highest =
    let same : commit_candidate c ≡ m = elim (dec_lt m (commit_candidate c)) [
      | yes low ↦ absurd (omega (arith, highest _ low, commit_candidate_reach c))
      | no not_low ↦ elim (dec_lt (commit_candidate c) m) [
        | yes high ↦ absurd (omega (arith, commit_candidate_bound c m high))
        | no not_high ↦ omega arith
      ]
    ] in
    rw same (ground arith)
