-- ===== src/Raft/Runs.antt =====
-- Concrete runs of the consensus state machine, and its theorems at concrete inputs.
use gems.Prelude.{
  length, suc, ◌>>=◌, ℕ, ◌≤◌, ◌<◌, ◌≡◌, ◌⊎◌, refl, inl, inr, true, none, some, List, [], ◌∷◌, arith,
  ltb, ◌==◌, ◌&&◌, if◌then◌else◌,
}
use gems.Prelude.Results.{Result, ok}
use gems.Prelude.Sets
use gems.Prelude.Sets.{contains}
use gems.Prelude.Maps.{lookup, insert}
use gems.Prelude.Sorting.{count_ge}
use gems.Record.{LogRecord, delete}
use gems.Raft.State.{
  NodeId, Term, leader, RaftCore, LogEntry, Envelope, AppendRequest, new, request_vote_request,
  log_term_at, RaftError,
}
use gems.Raft.Sending.{append_entries_for, replicate_to, replicate_to_all_peers}
use gems.Raft.Election.{
  Sends, majority, start_election, check_election_win, handle_vote_response, handle_request_vote,
}
use gems.Raft.Commit.{advance_commit_index, match_indices, take_newly_committed}
use gems.Raft.Follower.{handle_append_entries, store_entries}
use gems.Raft.Core.{tick, receive, propose, handle_append_response}
use gems.Raft.Terms.{Follows, entry_points-Follows}
use gems.Raft.Ballots.{grant}
use gems.Raft.Cluster.{Cluster, after, Reach, here, next, ticks, delivers}
use gems.Raft.Cluster.Safety.{boot, Leads, IsConfigured, election_safety}
use gems.Raft.Reconcile.{append_result, handle_append_entries-eq-append_result}
use gems.Raft.Redelivery.{log-redelivery}
use gems.Raft.Quorum.{holders, commit_index-advance}
use gems.Raft.Draining.{HandsOver, take_newly_committed_lem}
use gems.Raft.Appending.{Extends, leader_appends_only}
use gems.Raft.Overrun.{tick_times, longer_follower_panics_leader}

abbrev state_of : Sends → RaftCore → RaftCore
state_of none c = c
state_of (some (d, out)) c = d

abbrev sent_by : Sends → List Envelope
sent_by none = []
sent_by (some (d, out)) = out

abbrev entry : Term → LogEntry
entry t = record { term = t; command = delete (t ∷ []) }

abbrev members : List NodeId
members = 1 ∷ 2 ∷ 3 ∷ []

abbrev peers_of : NodeId → List NodeId
peers_of i = if i == 1 then 2 ∷ 3 ∷ [] else if i == 2 then 1 ∷ 3 ∷ [] else 1 ∷ 2 ∷ []

abbrev start : Cluster
unfolding boot
start = boot peers_of (λ i. 1) 5

-- Node 1's clock runs out, node 2 grants its vote, and node 1 counts it.
abbrev asked : Cluster
unfolding boot tick start_election check_election_win after
asked = let r = tick (start.nodes 1) in after start 1 (state_of r (start.nodes 1)) (sent_by r)

abbrev ask_two : Envelope
ask_two = record {
  from = 1;
  to = 2;
  rpc =
      request_vote_request
        (record { term = 1; candidate_id = 1; last_log_index = 0; last_log_term = 0 });
}

abbrev voted : Cluster
unfolding asked receive handle_request_vote
voted =
    let r = receive (asked.nodes 2) ask_two in
    after asked 2 (state_of r (asked.nodes 2)) (sent_by r)

abbrev elected : Cluster
unfolding voted handle_vote_response
elected =
    let r = receive (voted.nodes 1) (grant 2 1 1) in
    after voted 1 (state_of r (voted.nodes 1)) (sent_by r)

node_one-Leads : Leads elected 1 1
unfolding elected append_entries_for replicate_to_all_peers Sets.insert contains replicate_to lookup
node_one-Leads = (refl, refl)

members_are-IsConfigured : IsConfigured members peers_of
members_are-IsConfigured i h = ground arith

election_runs : Reach members start elected
unfolding elected append_entries_for replicate_to_all_peers Sets.insert contains replicate_to lookup
election_runs =
    next
      (next (next here (ticks 1 _ _ refl (omega arith) refl refl))
        (delivers ask_two _ _ refl (inl refl) refl refl))
      (delivers (grant 2 1 1) _ _ refl (inr (inr (inl refl))) refl refl)

election_safety_example : ◌≡◌ {A = ℕ} 1 1
unfolding contains boot start
election_safety_example =
    election_safety members peers_of (λ i. 1) 5 elected elected 1 1 1 members_are-IsConfigured
      election_runs here refl refl node_one-Leads node_one-Leads

-- A node of the second term with three entries, and a request that replaces the last one.
abbrev three : RaftCore
unfolding new
three = record (new 2 (1 ∷ 3 ∷ []) 9 9) {
  current_term = 2;
  log = entry 1 ∷ entry 1 ∷ entry 1 ∷ [];
  commit_index = 1;
}

abbrev replacing : AppendRequest
replacing = record {
  term = 3;
  leader_id = 1;
  prev_log_index = 2;
  prev_log_term = 1;
  entries = entry 3 ∷ [];
  leader_commit = 3;
}

entry_points-Follows_example :
    ((d : RaftCore) (out : List Envelope) → tick three ≡ some (d, out) → Follows three d)
    × ((e : Envelope) (d : RaftCore) (out : List Envelope)
        → receive three e ≡ some (d, out)
        → Follows three d)
    × ((command : LogRecord) (d : RaftCore) (r : Result RaftError (ℕ × List Envelope))
        → propose three command ≡ some (d, r)
        → Follows three d)
unfolding three
entry_points-Follows_example = entry_points-Follows three (omega arith)

append_result_example : handle_append_entries three replacing ≡ append_result three replacing
append_result_example = handle_append_entries-eq-append_result three replacing

replaced_log : (handle_append_entries three replacing).0.log ≡ entry 1 ∷ entry 1 ∷ entry 3 ∷ []
unfolding three handle_append_entries store_entries
replaced_log = refl

log-redelivery_example :
    (handle_append_entries (handle_append_entries three replacing).0 replacing).0.log
    ≡ (handle_append_entries three replacing).0.log
log-redelivery_example = log-redelivery three replacing

-- A leader of the second term whose peers hold three entries and one.
abbrev leading : RaftCore
unfolding new
leading = record (new 1 (2 ∷ 3 ∷ []) 9 9) {
  current_term = 2;
  role = leader;
  log = entry 1 ∷ entry 2 ∷ entry 2 ∷ [];
  match_index = (2, 3) ∷ (3, 1) ∷ [];
  next_index = (2, 4) ∷ (3, 2) ∷ [];
}

majority_holds_three : majority leading ≤ holders leading 3
unfolding leading majority match_indices count_ge lookup
majority_holds_three = omega arith

no_majority_above : (k : ℕ) → 3 < k → holders leading k < majority leading
unfolding leading majority match_indices count_ge lookup
no_majority_above k h = ground arith

commit_index-advance_example : (advance_commit_index leading).commit_index ≡ (
    if ltb leading.commit_index 3 && log_term_at leading 3 == leading.current_term
    then 3
    else leading.commit_index)
commit_index-advance_example = commit_index-advance leading 3 majority_holds_three no_majority_above

abbrev draining : RaftCore
unfolding leading
draining = record leading { commit_index = 3; last_applied = 1 }

take_newly_committed_lem_example :
    ((draining.commit_index ≤ draining.last_applied)
      × (take_newly_committed draining ≡ some (draining, [])))
    ⊎ (((draining.last_applied < draining.commit_index)
          × (draining.commit_index ≤ length draining.log)
          × HandsOver draining)
        ⊎ ((draining.last_applied < draining.commit_index)
            × (length draining.log < draining.commit_index)
            × (take_newly_committed draining ≡ none)))
take_newly_committed_lem_example = take_newly_committed_lem draining

leader_appends_only_example :
    ((d : RaftCore) (out : List Envelope) → tick leading ≡ some (d, out) → Extends leading d [])
    × ((m : Envelope) (d : RaftCore) (out : List Envelope)
        → receive leading m ≡ some (d, out)
        → d.role ≡ leader
        → Extends leading d [])
    × ((command : LogRecord) (d : RaftCore) (i : ℕ) (out : List Envelope)
        → propose leading command ≡ some (d, ok (i, out))
        → Extends leading d (record { term = leading.current_term; command = command } ∷ []))
unfolding leading
leader_appends_only_example = leader_appends_only leading refl

-- A leader of the second term with an empty log, and a follower that kept an entry of the first.
abbrev short : RaftCore
unfolding new
short = record (new 1 (2 ∷ 3 ∷ []) 9 9) { current_term = 2; role = leader }

abbrev kept : RaftCore
unfolding new
kept = record (new 2 (1 ∷ 3 ∷ []) 9 9) { current_term = 1; log = entry 1 ∷ [] }

abbrev heartbeat : AppendRequest
heartbeat = record {
  term = 2;
  leader_id = 1;
  prev_log_index = 0;
  prev_log_term = 0;
  entries = [];
  leader_commit = 0;
}

abbrev matched : RaftCore
unfolding short
matched = record short { match_index = (2, 1) ∷ []; next_index = (2, 2) ∷ [] }

longer_follower_panics_leader_example :
    (do s ← handle_append_response short 2 true 1 2; tick_times (suc short.heartbeat_interval) s.0)
    ≡ none
unfolding matched kept append_entries_for handle_append_entries contains lookup insert store_entries
longer_follower_panics_leader_example =
    longer_follower_panics_leader short kept heartbeat refl refl (omega arith) (omega arith) refl
      refl (omega arith) (omega arith)
