-- ===== src/Wire/RaftState.antt =====
-- The file that keeps a Raft node's persistent state (crates/gems-cluster/src/raft_state.rs).
use Prim.Native.String.{String}
use gems.Prelude.{
  ℕ, ◌-◌, ◌/◌, ◌%◌, ◌<◌, ◌^◌, ◌≡◌, Bool, true, false, Option, none, some, List, [], ◌∷◌, ◌++◌,
  length, All, ltb, if◌then◌else◌, arith,
}
use gems.Prelude.Results.{Result, Error, ok, invalid_value}
use gems.Codec.Bytes.{to_le}
use gems.Codec.Cursor.{Reader, ◌>>=◌, ◌>>◌, pure, run, read_le, repeat, guard, Decodes}
use gems.Codec.Decodes.{bind-Decodes, last-Decodes, guard-Decodes, concat_map, run-Decodes}
use gems.Codec.Fields.{read_flag, flag-Decodes, u32-Decodes, u64-Decodes, count32-Decodes}
use gems.Raft.State.{NodeId, Term, LogEntry, RaftCore, persistent_state}
use gems.Wire.Entries.{entry_bytes, read_entry, IsEntry, entries-Decodes, length-entries}

abbrev pub Saved : Type 0
Saved = Term × Option NodeId × List LogEntry

abbrev truncated : String
truncated = "raft state truncated"

unfoldable pub vote_bytes : Option NodeId → List ℕ
vote_bytes (some id) = (1 ∷ []) ++ to_le 4 id
vote_bytes none = (0 ∷ []) ++ to_le 4 0

unfoldable pub log_bytes : List LogEntry → List ℕ
log_bytes log = to_le 4 (length log % 2 ^ 32) ++ concat_map entry_bytes log

unfoldable pub encode : Saved → List ℕ
encode (term, voted_for, log) = to_le 8 term ++ (vote_bytes voted_for ++ log_bytes log)

abbrev vote_from : Bool → ℕ → Option NodeId
vote_from has_voted_for raw = if has_voted_for then some raw else none

unfoldable pub read_vote : Reader (Option NodeId)
read_vote = do
  has_voted_for ← read_flag truncated
  voted_for_raw ← read_le truncated 4
  pure (vote_from has_voted_for voted_for_raw)

-- `entry_count > buf.len().saturating_sub(pos) / 9`
abbrev too_many : ℕ → ℕ → ℕ → Bool
too_many entry_count len pos = ltb ((len - pos) / 9) entry_count

unfoldable pub read_entries : ℕ → Reader (List LogEntry)
read_entries entry_count =
    guard (too_many entry_count)
      (invalid_value "raft state entry_count exceeds what the file could hold")
    >> repeat entry_count (read_entry truncated "raft state log entry truncated")

unfoldable pub read_log : Reader (List LogEntry)
unfolding read_entries
read_log = read_le truncated 4 >>= read_entries

unfoldable pub read_saved : Reader Saved
unfolding read_vote read_log
read_saved = do
  term ← read_le truncated 8
  voted_for ← read_vote
  log ← read_log
  pure (term, voted_for, log)

unfoldable pub decode : List ℕ → Result Error Saved
decode = run read_saved

abbrev pub IsVote : Option NodeId → Type 0
IsVote none = Unit {0}
IsVote (some id) = id < 2 ^ 32

-- The state of a node whose numbers fit their types and whose log can be counted and read back.
pub record IsSaved (s : Saved) : Type 0 where
  pub term_fits : s.0 < 2 ^ 64
  pub vote_fits : IsVote s.1
  pub count_fits : length s.2 < 2 ^ 32
  pub each_entry : All IsEntry s.2

vote-Decodes : (v : Option NodeId) → IsVote v → Decodes read_vote (vote_bytes v) v
unfolding read_vote vote_bytes
vote-Decodes none h =
    bind-Decodes _ (flag-Decodes _ false) (last-Decodes _ (u32-Decodes _ 0 (omega arith)))
vote-Decodes (some id) h =
    bind-Decodes _ (flag-Decodes _ true) (last-Decodes _ (u32-Decodes _ id h))

log-Decodes :
    (log : List LogEntry)
    → length log < 2 ^ 32
    → All IsEntry log
    → Decodes read_log (log_bytes log) log
unfolding read_log log_bytes read_entries
log-Decodes log small each = bind-Decodes _ (count32-Decodes _ (length log) small) (
    guard-Decodes (too_many (length log)) _
      (λ len pos room. ground (arith, length-entries log each)) (entries-Decodes _ _ log each))

-- What a node has to keep over a restart is read back from the file that it is saved in, if the term fits 64
-- and the vote 32 bits and the log has fewer than 2 ^ 32 entries, each with a term of 64 bits and a command that
-- is a deletion of a 24-byte identifier, or an insertion with a header whose fields have the sizes of their
-- types, whose name is a text of at most 63 and whose description is one of at most 254 bytes, and with a body of
-- at most 64 MiB less 440 bytes.
pub saved_round_trip :
    (core : RaftCore)
    → IsSaved (persistent_state core)
    → decode (encode (persistent_state core)) ≡ ok (persistent_state core)
unfolding decode read_saved encode
saved_round_trip core fits =
    let (term, voted_for, log) = persistent_state core in
    run-Decodes (
      bind-Decodes _ (u64-Decodes _ term fits.term_fits) (
        bind-Decodes _ (vote-Decodes voted_for fits.vote_fits)
          (last-Decodes _ (log-Decodes log fits.count_fits fits.each_entry))))
