-- ===== src/Raft/Redelivery.antt =====
-- Requests that are accepted, and requests that arrive again (crates/gems-cluster/src/raft.rs, `handle_append_entries`).
use gems.Prelude.{
  ℕ, zero, suc, ◌≤◌, ◌≡◌, refl, sym, ap, ◌≢◌, ◌∙◌, inl, inr, true, false, List, [], ◌∷◌, ◌++◌,
  length, take, drop, arith, ◌==◌, Bool-cases, ==_iff, ◌⊎◌,
}
use gems.Raft.State.{RaftCore, LogEntry, AppendRequest, term_at}
use gems.Raft.Election.{become_follower}
use gems.Raft.Follower.{handle_append_entries}
use gems.Raft.Reconcile.{reconcile, reconciled, handle_append_entries-eq-append_result}

-- `log` holds an entry of the same term at the place of each of `es`.
abbrev pub Holds : List LogEntry → List LogEntry → Type 0
Holds log [] = Unit {0}
Holds [] (e ∷ es) = ⊥
Holds (o ∷ log) (e ∷ es) = (o.term ≡ e.term) × Holds log es

Holds-self : (es : List LogEntry) → Holds es es
Holds-self [] = tt
Holds-self (e ∷ es) = (refl, Holds-self es)

Holds-reconcile : (old es : List LogEntry) → Holds (reconcile old es) es
unfolding reconcile
Holds-reconcile old [] = tt
Holds-reconcile [] (e ∷ es) = (refl, Holds-self es)
Holds-reconcile (o ∷ old) (e ∷ es) = elim (Bool-cases (o.term == e.term)) [
  | inl same ↦ rw same ((==_iff o.term e.term).0 same, Holds-reconcile old es)
  | inr other ↦ rw other (refl, Holds-self es)
]

-- What is held already is left as it is, with all that stands behind it.
pub reconcile_held : (log es : List LogEntry) → Holds log es → reconcile log es ≡ log
unfolding reconcile
reconcile_held log [] h = refl
reconcile_held [] (e ∷ es) h = absurd h
reconcile_held (o ∷ log) (e ∷ es) h =
    rw ((==_iff o.term e.term).1 h.0) (ap (λ l. o ∷ l) (reconcile_held log es h.1))

module _ {ℓ} {A : Type ℓ} where
  pub take-append_take :
      (n : ℕ) (xs ys : List A) → n ≤ length xs → take n (take n xs ++ ys) ≡ take n xs
  take-append_take zero xs ys h = refl
  take-append_take (suc n) [] ys h = absurd (omega arith)
  take-append_take (suc n) (x ∷ xs) ys h = ap (λ l. x ∷ l) (take-append_take n xs ys (omega arith))

  pub drop-append_take : (n : ℕ) (xs ys : List A) → n ≤ length xs → drop n (take n xs ++ ys) ≡ ys
  drop-append_take zero xs ys h = refl
  drop-append_take (suc n) [] ys h = absurd (omega arith)
  drop-append_take (suc n) (x ∷ xs) ys h = drop-append_take n xs ys (omega arith)

-- `log` is what `old` becomes when `es` are stored from its front on: an entry of `old` whose term is the
-- sent one's stays; from the first place where it is another or none, the sent entries themselves stand.
abbrev pub IsStored : List LogEntry → List LogEntry → List LogEntry → Type 0
IsStored old log [] = log ≡ old
IsStored old [] (e ∷ es) = ⊥
IsStored [] (x ∷ log) (e ∷ es) = (x ∷ log) ≡ (e ∷ es)
IsStored (o ∷ old) (x ∷ log) (e ∷ es) =
    ((o.term ≡ e.term) × (x ≡ o) × IsStored old log es)
    ⊎ ((o.term ≢ e.term) × ((x ∷ log) ≡ (e ∷ es)))

-- The log that a request leaves, and whether it was accepted.
append_cases :
    (c : RaftCore) (r : AppendRequest)
    → (((handle_append_entries c r).2 ≡ false) × ((handle_append_entries c r).0.log ≡ c.log))
      ⊎ (((handle_append_entries c r).2 ≡ true)
          × (r.prev_log_index ≤ length c.log)
          × ((r.prev_log_index ≡ 0) ⊎ (term_at c.log r.prev_log_index ≡ r.prev_log_term))
          × ((handle_append_entries c r).0.log ≡ reconciled c r))
unfolding become_follower
append_cases c r = rw handle_append_entries-eq-append_result (ground arith)

refused_again :
    (c : RaftCore) (r : AppendRequest)
    → (handle_append_entries c r).2 ≡ false
    → (handle_append_entries (handle_append_entries c r).0 r).2 ≡ false
unfolding become_follower
refused_again c r h = ground (
  arith,
  handle_append_entries-eq-append_result c r,
  handle_append_entries-eq-append_result (handle_append_entries c r).0 r,
)

-- A request that arrives a second time changes nothing in the log.
pub log-redelivery :
    (c : RaftCore) (r : AppendRequest)
    → (handle_append_entries (handle_append_entries c r).0 r).0.log
      ≡ (handle_append_entries c r).0.log
log-redelivery c r =
    let d = (handle_append_entries c r).0 in
    elim (append_cases d r) [
      | inl (_, same) ↦ same
      | inr (again, _, _, e') ↦ elim (append_cases c r) [
        | inl (refused, _) ↦ cc (refused_again c r refused)
        | inr (_, fits, _, e) ↦
            let rest = reconcile (drop r.prev_log_index c.log) r.entries in
            let front : take r.prev_log_index d.log ≡ take r.prev_log_index c.log =
              rw e (take-append_take r.prev_log_index c.log rest fits) in
            let back : drop r.prev_log_index d.log ≡ rest =
              rw e (drop-append_take r.prev_log_index c.log rest fits) in
            e'
            ∙ (rw (front, back)
                  (ap (λ l. take r.prev_log_index c.log ++ l)
                    (reconcile_held rest r.entries
                      (Holds-reconcile (drop r.prev_log_index c.log) r.entries)))
                ∙ sym e)
      ]
    ]
