-- ===== src/Raft/Receiving.antt =====
-- The messages that a node receives and the commands that it takes keep its ballots backed.
use gems.Prelude.{
  ℕ, ◌≡◌, inl, inr, refl, ap, ◌∙◌, Bool, true, ◌&&◌, some, List, [], ◌∷◌, ◌==◌, ltb, arith,
  >>=-eq-some, Bool-cases,
}
use gems.Prelude.Results.{Result, ok, err}
use gems.Record.{LogRecord}
use gems.Raft.State.{
  NodeId, Term, RaftCore, Envelope, Rpc, request_vote_request, request_vote_response,
  append_entries_request, append_entries_response, RaftError, envelope_to, not_leader,
  last_log_index, AppendRequest,
}
use gems.Raft.Sending.{append_entries_for}
use gems.Raft.Election.{become_follower, majority, handle_request_vote, is_leader, Sends}
use gems.Raft.Commit.{advance_commit_index}
use gems.Raft.Follower.{handle_append_entries}
use gems.Raft.Core.{
  propose, receive, receive_rpc, handle_append_response, record_match, back_up, push_command,
  follower_matched, follower_refused, spread,
}
use gems.Raft.Ballots.{
  IsElectoral, IsFair, Keeps, Granted, silent-Keeps, replicating-IsFair, append_entries_for-IsFair,
}
use gems.Raft.Voting.{
  become_follower-IsElectoral, vote_response-Keeps, same_ballots, request_vote-IsElectoral,
  request_vote_granted,
}

append_entries-IsElectoral :
    (sent : List Envelope) (c : RaftCore) (r : AppendRequest)
    → IsElectoral sent c
    → IsElectoral sent (handle_append_entries c r).0
unfolding handle_append_entries majority
append_entries-IsElectoral sent c r inv = ground arith

-- What a leader knows of its followers says nothing of its ballots.
progress-IsElectoral :
    (sent : List Envelope) (c : RaftCore) (peer index : ℕ)
    → IsElectoral sent c
    → IsElectoral sent (advance_commit_index (record_match c peer index))
unfolding advance_commit_index record_match
progress-IsElectoral sent c peer index inv =
    same_ballots sent c (advance_commit_index (record_match c peer index)) (ground arith)
      (λ a. ground arith) inv

back_up-IsElectoral :
    (sent : List Envelope) (c : RaftCore) (peer : ℕ)
    → IsElectoral sent c
    → IsElectoral sent (back_up c peer)
unfolding back_up majority
back_up-IsElectoral sent c peer inv = ground arith

follower_matched-Keeps :
    (sent : List Envelope) (c : RaftCore) (peer index : ℕ) {d : RaftCore} {out : List Envelope}
    → follower_matched c peer index ≡ some (d, out)
    → Keeps sent c d out
unfolding follower_matched
follower_matched-Keeps sent c peer index {d} {out} h =
    let advanced = advance_commit_index (record_match c peer index) in
    let inv = progress-IsElectoral sent c peer index in
    elim (Bool-cases (ltb c.commit_index advanced.commit_index)) [
      | inl moved ↦
          let (same, fair) = replicating-IsFair advanced (rw moved at h) in
          rw same (record { electoral = inv; fair = fair })
      | inr still ↦ silent-Keeps sent c advanced inv (rw still at h)
    ]

follower_refused-Keeps :
    (sent : List Envelope) (c : RaftCore) (peer : ℕ) {d : RaftCore} {out : List Envelope}
    → follower_refused c peer ≡ some (d, out)
    → Keeps sent c d out
unfolding follower_refused
follower_refused-Keeps sent c peer {d} {out} h =
    let (rpc, r, e) = >>=-eq-some (append_entries_for (back_up c peer) peer) _ h in
    let same : d ≡ back_up c peer = cc in
    let sends : out ≡ envelope_to (back_up c peer) peer rpc ∷ [] = cc in
    rw (same, sends)
      (record {
        electoral = back_up-IsElectoral sent c peer;
        fair = ((refl, append_entries_for-IsFair (back_up c peer) peer peer rpc r), tt);
      })

append_response-Keeps :
    (sent : List Envelope) (c : RaftCore) (term : Term) (success : Bool) (index : ℕ) (peer : NodeId)
    {d : RaftCore} {out : List Envelope}
    → handle_append_response c term success index peer ≡ some (d, out)
    → Keeps sent c d out
unfolding handle_append_response
append_response-Keeps sent c term success index peer {d} {out} h =
    elim (Bool-cases (ltb c.current_term term)) [
      | inl newer ↦
          silent-Keeps sent c (become_follower c term) (become_follower-IsElectoral sent c term)
            (ground arith)
      | inr known ↦ elim (Bool-cases (is_leader c.role && c.current_term == term)) [
        | inr other ↦ silent-Keeps sent c c (λ inv. inv) (rw other at (rw known at h))
        | inl ours ↦ elim (Bool-cases success) [
          | inl done ↦
              follower_matched-Keeps sent c peer index (rw done at (rw ours at (rw known at h)))
          | inr gap ↦ follower_refused-Keeps sent c peer (rw gap at (rw ours at (rw known at h)))
        ]
      ]
    ]

push_command-IsElectoral :
    (sent : List Envelope) (c : RaftCore) (command : LogRecord)
    → IsElectoral sent c
    → IsElectoral sent (push_command c command)
unfolding push_command majority
push_command-IsElectoral sent c command inv = ground arith

advance-IsElectoral :
    (sent : List Envelope) (c : RaftCore)
    → IsElectoral sent c
    → IsElectoral sent (advance_commit_index c)
unfolding advance_commit_index
advance-IsElectoral sent c inv =
    same_ballots sent c (advance_commit_index c) (ground arith) (λ a. ground arith) inv

spread-Keeps :
    (sent : List Envelope) (ps : List NodeId) (c : RaftCore) {d : RaftCore} {out : List Envelope}
    → spread ps c ≡ some (d, out)
    → Keeps sent c d out
unfolding spread
spread-Keeps sent [] c h =
    silent-Keeps sent c (advance_commit_index c) (advance-IsElectoral sent c) h
spread-Keeps sent (p ∷ ps) c h =
    let (same, fair) = replicating-IsFair c h in
    rw same (record { electoral = λ inv. inv; fair = fair })

-- The messages that a proposal sends, if it is taken.
abbrev pub outbox : Result RaftError (ℕ × List Envelope) → List Envelope
outbox (ok (index, out)) = out
outbox (err e) = []

pub propose-Keeps :
    (sent : List Envelope) (c : RaftCore) (command : LogRecord) {d : RaftCore}
    {r : Result RaftError (ℕ × List Envelope)}
    → propose c command ≡ some (d, r)
    → Keeps sent c d (outbox r)
unfolding propose
propose-Keeps sent c command {d} {r} h = elim (Bool-cases (is_leader c.role)) [
  | inr other ↦
      let same : d ≡ c = ground arith in
      let failed : r ≡ err not_leader = ground arith in
      rw (same, failed) (record { electoral = λ inv. inv; fair = tt })
  | inl led ↦
      let (s, e, e') = >>=-eq-some (spread c.peers (push_command c command)) _ (rw led at h) in
      let kept = spread-Keeps sent c.peers (push_command c command) {d = s.0} {out = s.1} e in
      let same : d ≡ s.0 = cc in
      let taken : r ≡ ok (last_log_index (push_command c command), s.1) = cc in
      rw (same, taken)
        (record {
          electoral = λ inv. kept.electoral (push_command-IsElectoral sent c command inv);
          fair = kept.fair;
        })
]

answer-Keeps :
    (sent : List Envelope) (c d : RaftCore) (m : Envelope) {d' : RaftCore} {out : List Envelope}
    → (IsElectoral sent c → IsElectoral sent d)
    → IsFair d m
    → ◌≡◌ {A = Sends} (some (d, m ∷ [])) (some (d', out))
    → Keeps sent c d' out
answer-Keeps sent c d m {d'} {out} keep fair h =
    let same : d' ≡ d = cc in
    let sends : out ≡ m ∷ [] = cc in
    rw (same, sends) (record { electoral = keep; fair = (fair, tt) })

-- What a node may rely on in a message: it asks for a vote for its own sender, and a vote that it
-- grants was sent.
abbrev pub IsSeen : List Envelope → NodeId → NodeId → Rpc → Type 0
IsSeen sent from to (request_vote_request r) = r.candidate_id ≡ from
IsSeen sent from to (request_vote_response r) =
    r.vote_granted ≡ true → Granted sent r.voter_id r.term to
IsSeen sent from to _ = Unit {0}

receive_rpc-Keeps :
    (sent : List Envelope) (c : RaftCore) (from : NodeId) (rpc : Rpc) {d : RaftCore}
    {out : List Envelope}
    → IsSeen sent from c.id rpc
    → receive_rpc c from rpc ≡ some (d, out)
    → Keeps sent c d out
unfolding receive_rpc
receive_rpc-Keeps sent c from (request_vote_request r) seen h =
    let asked = handle_request_vote c r.term r.candidate_id r.last_log_index r.last_log_term in
    let (own_term, same, agrees) =
      request_vote_granted c r.term r.candidate_id r.last_log_index r.last_log_term in
    answer-Keeps sent c asked.0 _
      (request_vote-IsElectoral sent c r.term r.candidate_id r.last_log_index r.last_log_term)
      (refl, (refl, λ g. (own_term, (agrees g).1 ∙ ap some seen))) h
receive_rpc-Keeps sent c from (request_vote_response r) seen h =
    vote_response-Keeps sent c r.term r.vote_granted r.voter_id seen h
receive_rpc-Keeps sent c from (append_entries_request r) seen h =
    answer-Keeps sent c (handle_append_entries c r).0 _ (append_entries-IsElectoral sent c r)
      (refl, refl) h
receive_rpc-Keeps sent c from (append_entries_response r) seen h =
    append_response-Keeps sent c r.term r.success r.match_index r.follower_id h

pub receive-Keeps :
    (sent : List Envelope) (c : RaftCore) (m : Envelope) {d : RaftCore} {out : List Envelope}
    → IsSeen sent m.from c.id m.rpc
    → receive c m ≡ some (d, out)
    → Keeps sent c d out
unfolding receive
receive-Keeps sent c m seen h = receive_rpc-Keeps sent c m.from m.rpc seen h
