-- ===== src/Raft/Reconcile.antt =====
-- `handle_append_entries` of crates/gems-cluster/src/raft.rs against a description of the log that
-- it should leave.
use gems.Prelude.{
  ℕ, zero, suc, ◌+◌, ◌≤◌, ◌≡◌, refl, ap, ◌∙◌, inl, inr, Bool, true, false, not, ◌&&◌, ◌||◌, List,
  [], ◌∷◌, ◌++◌, length, take, drop, min, arith, ltb, ◌==◌, if◌then◌else◌, Bool-cases,
}
use gems.Raft.State.{RaftCore, LogEntry, AppendRequest, Term, term_at}
use gems.Raft.Election.{become_follower}
use gems.Raft.Follower.{store_entry, store_entries, handle_append_entries}

-- The entries behind the previous one: they stay while the terms agree, and at the first
-- disagreement the leader's replace all that is left.
unfoldable pub reconcile : List LogEntry → List LogEntry → List LogEntry
reconcile old [] = old
reconcile [] (e ∷ new) = e ∷ new
reconcile (o ∷ old) (e ∷ new) = if o.term == e.term then o ∷ reconcile old new else e ∷ new

store_entry-cons :
    (i j : ℕ) (o e : LogEntry) (log : List LogEntry)
    → j ≡ suc i
    → store_entry (suc j) e (o ∷ log) ≡ o ∷ store_entry j e log
unfolding store_entry
store_entry-cons i j o e log h = ground arith

store_entry-front :
    (e o : LogEntry) (log : List LogEntry)
    → store_entry 1 e (o ∷ log) ≡ (if o.term == e.term then o ∷ log else e ∷ [])
unfolding store_entry
store_entry-front e o log = ground arith

store_entries-cons :
    (i j : ℕ) (o : LogEntry) (es log : List LogEntry)
    → j ≡ suc i
    → store_entries (suc j) es (o ∷ log) ≡ o ∷ store_entries j es log
unfolding store_entries
store_entries-cons i j o [] log h = refl
store_entries-cons i j o (e ∷ es) log h =
    let next : suc j + 1 ≡ suc (j + 1) = omega arith in
    rw (store_entry-cons i j o e log h, next)
      (store_entries-cons j (j + 1) o es (store_entry j e log) (omega arith))

reconcile-nil : (new : List LogEntry) → reconcile [] new ≡ new
unfolding reconcile
reconcile-nil [] = refl
reconcile-nil (e ∷ new) = refl

store_entries-front : (es log : List LogEntry) → store_entries 1 es log ≡ reconcile log es
unfolding store_entries reconcile
store_entries-front [] log = refl
store_entries-front (e ∷ es) [] =
    store_entries-cons 0 1 e es [] refl
    ∙ ap (λ l. e ∷ l) (store_entries-front es [] ∙ reconcile-nil es)
store_entries-front (e ∷ es) (o ∷ log) =
    rw store_entry-front (elim (Bool-cases (o.term == e.term)) [
      | inl same ↦
          rw same
            (store_entries-cons 0 1 o es log refl ∙ ap (λ l. o ∷ l) (store_entries-front es log))
      | inr other ↦ rw other (
          store_entries-cons 0 1 e es [] refl
          ∙ ap (λ l. e ∷ l) (store_entries-front es [] ∙ reconcile-nil es))
    ])

-- The loop over the entries leaves the log up to the previous entry alone, and reconciles the rest.
pub store_entries-reconcile :
    (prev : ℕ) (es log : List LogEntry)
    → prev ≤ length log
    → store_entries (prev + 1) es log ≡ take prev log ++ reconcile (drop prev log) es
store_entries-reconcile zero es log h = store_entries-front es log
store_entries-reconcile (suc p) es [] h = absurd (omega arith)
store_entries-reconcile (suc p) es (x ∷ log) h =
    let next : suc p + 1 ≡ suc (p + 1) = omega arith in
    rw next (
      store_entries-cons p (p + 1) x es log (omega arith)
      ∙ ap (λ l. x ∷ l) (store_entries-reconcile p es log (omega arith)))

abbrev pub reconciled : RaftCore → AppendRequest → List LogEntry
reconciled c r = take r.prev_log_index c.log ++ reconcile (drop r.prev_log_index c.log) r.entries

-- What `handle_append_entries` should do, in one equation for each of its three ways out.
abbrev pub append_result : RaftCore → AppendRequest → RaftCore × Term × Bool × ℕ
append_result c r =
    if ltb r.term c.current_term
    then (c, c.current_term, false, 0)
    else if ltb 0 r.prev_log_index
        && (ltb (length c.log) r.prev_log_index
            || not (term_at c.log r.prev_log_index == r.prev_log_term))
    then (become_follower c r.term, r.term, false, 0)
    else (
      record (become_follower c r.term) {
        log = reconciled c r;
        commit_index =
            if ltb c.commit_index r.leader_commit
            then min r.leader_commit (length (reconciled c r))
            else c.commit_index;
      },
      r.term,
      true,
      length (reconciled c r),
    )

-- On every request: an older term is refused and changes nothing; a missing or different previous
-- entry is refused and only the leader's term is adopted; else the entries up to the previous one
-- stay, those behind it are reconciled with the leader's, and the commit index follows the leader's
-- as far as the log goes.
pub handle_append_entries-eq-append_result :
    (c : RaftCore) (r : AppendRequest) → handle_append_entries c r ≡ append_result c r
unfolding handle_append_entries
handle_append_entries-eq-append_result c r =
    ground (arith, store_entries-reconcile r.prev_log_index r.entries c.log)
