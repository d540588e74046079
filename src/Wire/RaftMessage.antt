-- ===== src/Wire/RaftMessage.antt =====
-- Raft's messages between nodes (the module `wire` of crates/gems-cluster/src/raft.rs).
use Prim.Native.String.{String}
use gems.Prelude.{
  ℕ, ◌/◌, ◌%◌, ◌≤◌, ◌<◌, ◌^◌, ◌≡◌, Bool, Option, none, some, List, [], ◌∷◌, ◌++◌, length, take, All,
  ltb, ◌==◌, if◌then◌else◌, arith,
}
use gems.Prelude.Results.{Result, Error, ok, err, invalid_value}
use gems.Codec.Bytes.{to_le}
use gems.Codec.Cursor.{Reader, ◌>>=◌, ◌>>◌, pure, lift, read_u8, read_le, repeat, guard, Decodes}
use gems.Codec.Decodes.{bind-Decodes, last-Decodes, guard-Decodes, u8-Decodes, concat_map}
use gems.Codec.Fields.{
  bool_byte, read_flag, flag-Decodes, u32-Decodes, u64-Decodes, count32-Decodes,
}
use gems.Raft.State.{
  NodeId, LogEntry, VoteRequest, VoteResponse, AppendRequest, AppendResponse, Rpc, Envelope,
  request_vote_request, request_vote_response, append_entries_request, append_entries_response,
}
use gems.Wire.Frame.{max_frame_len}
use gems.Wire.Entries.{entry_bytes, read_entry, IsEntry, entries-Decodes, length-entries}
use gems.Wire.Sealed.{sealed, decode_sealed, decode_sealed-sealed, decode_sealed-partial}

abbrev request_vote_request_tag : ℕ
request_vote_request_tag = 1

abbrev request_vote_response_tag : ℕ
request_vote_response_tag = 2

abbrev append_entries_request_tag : ℕ
append_entries_request_tag = 3

abbrev append_entries_response_tag : ℕ
append_entries_response_tag = 4

unfoldable pub vote_request_bytes : VoteRequest → List ℕ
vote_request_bytes r =
    to_le 8 r.term
    ++ (to_le 4 r.candidate_id ++ (to_le 8 r.last_log_index ++ to_le 8 r.last_log_term))

unfoldable pub vote_response_bytes : VoteResponse → List ℕ
vote_response_bytes r = to_le 8 r.term ++ ((bool_byte r.vote_granted ∷ []) ++ to_le 4 r.voter_id)

unfoldable pub entries_bytes : List LogEntry → List ℕ
entries_bytes entries = to_le 4 (length entries % 2 ^ 32) ++ concat_map entry_bytes entries

unfoldable pub append_request_bytes : AppendRequest → List ℕ
append_request_bytes r =
    to_le 8 r.term
    ++ (to_le 4 r.leader_id
        ++ (to_le 8 r.prev_log_index
            ++ (to_le 8 r.prev_log_term ++ (entries_bytes r.entries ++ to_le 8 r.leader_commit))))

unfoldable pub append_response_bytes : AppendResponse → List ℕ
append_response_bytes r =
    to_le 8 r.term
    ++ ((bool_byte r.success ∷ []) ++ (to_le 8 r.match_index ++ to_le 4 r.follower_id))

unfoldable pub rpc_bytes : Rpc → List ℕ
rpc_bytes (request_vote_request r) = (request_vote_request_tag ∷ []) ++ vote_request_bytes r
rpc_bytes (request_vote_response r) = (request_vote_response_tag ∷ []) ++ vote_response_bytes r
rpc_bytes (append_entries_request r) = (append_entries_request_tag ∷ []) ++ append_request_bytes r
rpc_bytes (append_entries_response r) =
    (append_entries_response_tag ∷ []) ++ append_response_bytes r

unfoldable pub payload_of : Envelope → List ℕ
payload_of envelope = to_le 4 envelope.from ++ (to_le 4 envelope.to ++ rpc_bytes envelope.rpc)

unfoldable pub encode : Envelope → List ℕ → List ℕ
encode envelope secret = sealed secret (payload_of envelope)

abbrev truncated : String
truncated = "Raft envelope truncated"

unfoldable pub read_vote_request : Reader Rpc
read_vote_request = do
  term ← read_le truncated 8
  candidate_id ← read_le truncated 4
  last_log_index ← read_le truncated 8
  last_log_term ← read_le truncated 8
  pure (
      request_vote_request (record {
        term = term;
        candidate_id = candidate_id;
        last_log_index = last_log_index;
        last_log_term = last_log_term;
      }))

unfoldable pub read_vote_response : Reader Rpc
read_vote_response = do
  term ← read_le truncated 8
  vote_granted ← read_flag truncated
  voter_id ← read_le truncated 4
  pure (
      request_vote_response
        (record { term = term; vote_granted = vote_granted; voter_id = voter_id }))

-- `entry_count > payload.len() / 12`
abbrev too_many : ℕ → ℕ → ℕ → Bool
too_many entry_count len pos = ltb (len / 12) entry_count

unfoldable pub read_entries_of : ℕ → Reader (List LogEntry)
read_entries_of entry_count =
    guard (too_many entry_count)
      (invalid_value "AppendEntries entry count exceeds what the payload could hold")
    >> repeat entry_count (read_entry truncated "truncated log entry inside AppendEntries payload")

unfoldable pub read_entries : Reader (List LogEntry)
unfolding read_entries_of
read_entries = read_le truncated 4 >>= read_entries_of

unfoldable pub read_append_request : Reader Rpc
unfolding read_entries
read_append_request = do
  term ← read_le truncated 8
  leader_id ← read_le truncated 4
  prev_log_index ← read_le truncated 8
  prev_log_term ← read_le truncated 8
  entries ← read_entries
  leader_commit ← read_le truncated 8
  pure (
      append_entries_request (record {
        term = term;
        leader_id = leader_id;
        prev_log_index = prev_log_index;
        prev_log_term = prev_log_term;
        entries = entries;
        leader_commit = leader_commit;
      }))

unfoldable pub read_append_response : Reader Rpc
read_append_response = do
  term ← read_le truncated 8
  success ← read_flag truncated
  match_index ← read_le truncated 8
  follower_id ← read_le truncated 4
  pure (
      append_entries_response (record {
        term = term;
        success = success;
        match_index = match_index;
        follower_id = follower_id;
      }))

unfoldable pub read_rpc_of : ℕ → Reader Rpc
read_rpc_of tag =
    if tag == request_vote_request_tag
    then read_vote_request
    else if tag == request_vote_response_tag
    then read_vote_response
    else if tag == append_entries_request_tag
    then read_append_request
    else if tag == append_entries_response_tag
    then read_append_response
    else lift (err (invalid_value "unknown Raft RPC tag"))

unfoldable pub read_rpc : Reader Rpc
read_rpc = read_u8 truncated >>= read_rpc_of

abbrev envelope_of : NodeId → NodeId → Rpc → Envelope
envelope_of from to rpc = record { from = from; to = to; rpc = rpc }

unfoldable pub read_envelope : Reader Envelope
unfolding read_rpc
read_envelope = do
  from ← read_le truncated 4
  to ← read_le truncated 4
  rpc ← read_rpc
  pure (envelope_of from to rpc)

unfoldable pub decode : List ℕ → List ℕ → Result Error (Option (Envelope × ℕ))
decode buf secret =
    decode_sealed "Raft envelope exceeds the maximum frame size"
      "Raft envelope authentication tag mismatch" read_envelope buf secret

-- The numbers fit their types, and the commands of the entries are records that are read back.
abbrev pub IsRpc : Rpc → Type 0
IsRpc (request_vote_request r) =
    (r.term < 2 ^ 64)
    × (r.candidate_id < 2 ^ 32)
    × (r.last_log_index < 2 ^ 64)
    × (r.last_log_term < 2 ^ 64)
IsRpc (request_vote_response r) = (r.term < 2 ^ 64) × (r.voter_id < 2 ^ 32)
IsRpc (append_entries_request r) =
    (r.term < 2 ^ 64)
    × (r.leader_id < 2 ^ 32)
    × (r.prev_log_index < 2 ^ 64)
    × (r.prev_log_term < 2 ^ 64)
    × (length r.entries < 2 ^ 32)
    × All IsEntry r.entries
    × (r.leader_commit < 2 ^ 64)
IsRpc (append_entries_response r) =
    (r.term < 2 ^ 64) × (r.match_index < 2 ^ 64) × (r.follower_id < 2 ^ 32)

pub record IsEnvelope (e : Envelope) : Type 0 where
  pub from_fits : e.from < 2 ^ 32
  pub to_fits : e.to < 2 ^ 32
  pub rpc_fits : IsRpc e.rpc
  pub payload_fits : length (payload_of e) ≤ max_frame_len

entries_of-Decodes :
    (log : List LogEntry)
    → length log < 2 ^ 32
    → All IsEntry log
    → Decodes read_entries (entries_bytes log) log
unfolding read_entries entries_bytes read_entries_of
entries_of-Decodes log small each = bind-Decodes _ (count32-Decodes _ (length log) small) (
    guard-Decodes (too_many (length log)) _
      (λ len pos room. ground (arith, length-entries log each)) (entries-Decodes _ _ log each))

rpc-Decodes : (r : Rpc) → IsRpc r → Decodes read_rpc (rpc_bytes r) r
unfolding read_rpc read_rpc_of rpc_bytes read_vote_request vote_request_bytes read_vote_response
    vote_response_bytes read_append_request append_request_bytes read_append_response
    append_response_bytes
rpc-Decodes (request_vote_request r) (term, candidate, index, last) =
    bind-Decodes _ (u8-Decodes _) (
      bind-Decodes _ (u64-Decodes _ r.term term) (
        bind-Decodes _ (u32-Decodes _ r.candidate_id candidate) (
          bind-Decodes _ (u64-Decodes _ r.last_log_index index)
            (last-Decodes _ (u64-Decodes _ r.last_log_term last)))))
rpc-Decodes (request_vote_response r) (term, voter) = bind-Decodes _ (u8-Decodes _) (
    bind-Decodes _ (u64-Decodes _ r.term term) (
      bind-Decodes _ (flag-Decodes _ r.vote_granted)
        (last-Decodes _ (u32-Decodes _ r.voter_id voter))))
rpc-Decodes (append_entries_request r) (term, leader, index, prev, count, each, commit) =
    bind-Decodes _ (u8-Decodes _) (
      bind-Decodes _ (u64-Decodes _ r.term term) (
        bind-Decodes _ (u32-Decodes _ r.leader_id leader) (
          bind-Decodes _ (u64-Decodes _ r.prev_log_index index) (
            bind-Decodes _ (u64-Decodes _ r.prev_log_term prev) (
              bind-Decodes _ (entries_of-Decodes r.entries count each)
                (last-Decodes _ (u64-Decodes _ r.leader_commit commit)))))))
rpc-Decodes (append_entries_response r) (term, index, follower) = bind-Decodes _ (u8-Decodes _) (
    bind-Decodes _ (u64-Decodes _ r.term term) (
      bind-Decodes _ (flag-Decodes _ r.success) (
        bind-Decodes _ (u64-Decodes _ r.match_index index)
          (last-Decodes _ (u32-Decodes _ r.follower_id follower)))))

envelope-Decodes : (e : Envelope) → IsEnvelope e → Decodes read_envelope (payload_of e) e
unfolding read_envelope payload_of
envelope-Decodes e fits = bind-Decodes _ (u32-Decodes _ e.from fits.from_fits) (
    bind-Decodes _ (u32-Decodes _ e.to fits.to_fits)
      (last-Decodes _ (rpc-Decodes e.rpc fits.rpc_fits)))

-- A message of Raft whose numbers fit their types and that is no longer than a frame may be is read back by
-- who has the secret, whatever follows it, if it carries fewer than 2 ^ 32 entries, each with a term of 64 bits
-- and a command that is a deletion of a 24-byte identifier, or an insertion with a header whose fields have the
-- sizes of their types, whose name is a text of at most 63 and whose description is one of at most 254 bytes, and
-- with a body of at most 64 MiB less 440 bytes. Of a part of it decode waits for the rest.
pub raft_message_round_trip :
    (e : Envelope) (secret post : List ℕ) (n : ℕ)
    → IsEnvelope e
    → n < length (encode e secret)
    → (decode (encode e secret ++ post) secret ≡ ok (some (e, length (encode e secret))))
      × (decode (take n (encode e secret)) secret ≡ ok none)
unfolding decode encode
raft_message_round_trip e secret post n fits short = (
  decode_sealed-sealed read_envelope (payload_of e) _ _ secret post fits.payload_fits
      (envelope-Decodes e fits),
  decode_sealed-partial read_envelope (payload_of e) _ _ secret n fits.payload_fits short,
)
