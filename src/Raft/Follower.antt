-- ===== src/Raft/Follower.antt =====
-- What a node does with a leader's entries (`handle_append_entries` of
-- crates/gems-cluster/src/raft.rs).
use gems.Prelude.{
  ℕ, ◌+◌, ◌-◌, Bool, true, false, not, ◌&&◌, ◌||◌, List, [], ◌∷◌, ◌++◌, length, take, min, ltb, leb,
  ◌==◌, if◌then◌else◌,
}
use gems.Raft.State.{Term, RaftCore, LogEntry, AppendRequest, last_log_index, log_term_at, term_at}
use gems.Raft.Election.{become_follower}

-- One round of the loop over the entries: `index` is `prev_log_index + 1 + i`.
unfoldable pub store_entry : ℕ → LogEntry → List LogEntry → List LogEntry
store_entry index entry log =
    if leb index (length log)
    then (if term_at log index == entry.term then log else take (index - 1) log ++ (entry ∷ []))
    else log ++ (entry ∷ [])

unfoldable pub store_entries : ℕ → List LogEntry → List LogEntry → List LogEntry
unfolding store_entry
store_entries index [] log = log
store_entries index (entry ∷ rest) log =
    store_entries (index + 1) rest (store_entry index entry log)

-- The test on the entry before the new ones.
unfoldable pub has_gap : RaftCore → ℕ → Term → Bool
unfolding last_log_index log_term_at
has_gap c prev_log_index prev_log_term =
    ltb 0 prev_log_index
    && (ltb (last_log_index c) prev_log_index
        || not (log_term_at c prev_log_index == prev_log_term))

unfoldable pub store_and_commit : RaftCore → ℕ → List LogEntry → ℕ → RaftCore
store_and_commit c prev_log_index entries leader_commit =
    let log = store_entries (prev_log_index + 1) entries c.log in
    record c {
      log = log;
      commit_index =
          if ltb c.commit_index leader_commit
          then min leader_commit (length log)
          else c.commit_index;
    }

-- The new state, and the term, success and match index to answer with.
unfoldable pub handle_append_entries : RaftCore → AppendRequest → RaftCore × Term × Bool × ℕ
unfolding become_follower has_gap store_and_commit
handle_append_entries c r =
    if ltb r.term c.current_term
    then (c, c.current_term, false, 0)
    else let c' = become_follower c r.term in
      if has_gap c' r.prev_log_index r.prev_log_term
      then (c', c'.current_term, false, 0)
      else let c'' = store_and_commit c' r.prev_log_index r.entries r.leader_commit in
        (c'', c''.current_term, true, length c''.log)
