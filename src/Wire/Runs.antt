-- ===== src/Wire/Runs.antt =====
-- Concrete records, states and messages, and the theorems at them.
use gems.Prelude.{
  ℕ, ◌+◌, ◌<◌, ◌≡◌, refl, some, none, List, [], ◌∷◌, ◌++◌, length, take, replicate, arith, inr,
}
use gems.Prelude.Results.{ok}
use gems.Prelude.Utf8.{from_utf8_lossy}
use gems.Common.Hmac.{tag_len}
use gems.Codec.Bytes.{to_le}
use gems.Codec.Decodes.{concat_map}
use gems.Wire.Entries.{entry_bytes}
use gems.Catalog.Kind.{plain_data}
use gems.Catalog.Header.{EntityHeader}
use gems.Catalog.HeaderTrip.{IsHeader, IsShort}
use gems.Record.{LogRecord, insert, delete}
use gems.Raft.State.{
  LogEntry, RaftCore, restore, persistent_state, append_entries_request, Envelope,
}
use gems.Gossip.State.{suspect, ping}
use gems.Gossip.State
use gems.Wire.Frame.{max_frame_len, framed}
use gems.Wire.Sealed.{Authentic, length-sealed}
use gems.Wire.Record.{IsRecord, length-encode, record_round_trip}
use gems.Wire.Record
use gems.Wire.RaftState.{saved_round_trip}
use gems.Wire.RaftState
use gems.Wire.RaftMessage.{raft_message_round_trip}
use gems.Wire.RaftMessage
use gems.Wire.GossipMessage.{gossip_message_round_trip}
use gems.Wire.GossipMessage
use gems.Wire.Receiving.{raft_message-Authentic, gossip_message-Authentic, waiting_is_bounded}

abbrev widgets : EntityHeader
widgets = record {
  id = replicate 24 7;
  created_by = replicate 16 1;
  modified_by = replicate 16 2;
  modified_at_ns = 456;
  name = 97 ∷ [];
  description = 98 ∷ 99 ∷ [];
  flags = 4;
  entity_kind = plain_data;
  schema_ref = replicate 24 9;
  body_offset = 512;
  body_len = 128;
}

widgets-IsHeader : IsHeader widgets
widgets-IsHeader = record {
  id_fits = refl;
  created_by_fits = refl;
  modified_by_fits = refl;
  modified_at_fits = omega arith;
  flags_fit = omega arith;
  schema_ref_fits = refl;
  body_offset_fits = omega arith;
  body_len_fits = omega arith;
}

widgets-IsShort : IsShort widgets
unfolding from_utf8_lossy
widgets-IsShort = record {
  name_short = omega arith;
  name_text = refl;
  description_short = omega arith;
  description_text = refl;
}

abbrev new_widgets : LogRecord
new_widgets = insert widgets (1 ∷ 2 ∷ 3 ∷ [])

new_widgets-IsRecord : IsRecord new_widgets
new_widgets-IsRecord = record {
  header_fits = widgets-IsHeader;
  header_short = widgets-IsShort;
  body_fits = omega arith;
}

record_round_trip_example :
    (Record.decode (Record.encode new_widgets ++ (5 ∷ []))
      ≡ ok (some (new_widgets, length (Record.encode new_widgets))))
    × (Record.decode (take 3 (Record.encode new_widgets)) ≡ ok none)
record_round_trip_example =
    record_round_trip new_widgets (5 ∷ []) 3 new_widgets-IsRecord
      (omega (arith, length-encode new_widgets new_widgets-IsRecord))

abbrev dropped : LogEntry
dropped = record { term = 4; command = delete (replicate 24 3) }

abbrev core : RaftCore
core = restore 1 (2 ∷ 3 ∷ []) 10 5 4 (some 2) (dropped ∷ dropped ∷ [])

saved_round_trip_example :
    RaftState.decode (RaftState.encode (persistent_state core)) ≡ ok (persistent_state core)
unfolding restore persistent_state
saved_round_trip_example = saved_round_trip core (record {
  term_fits = omega arith;
  vote_fits = omega arith;
  count_fits = omega arith;
  each_entry = ((omega arith, refl), ((omega arith, refl), tt));
})

abbrev secret : List ℕ
secret = 115 ∷ 51 ∷ []

abbrev append_one : Envelope
append_one = record {
  from = 1;
  to = 2;
  rpc = append_entries_request (record {
    term = 4;
    leader_id = 1;
    prev_log_index = 7;
    prev_log_term = 3;
    entries = dropped ∷ [];
    leader_commit = 7;
  });
}

append_one-IsEnvelope : RaftMessage.IsEnvelope append_one
unfolding RaftMessage.payload_of RaftMessage.rpc_bytes RaftMessage.append_request_bytes
    RaftMessage.entries_bytes concat_map entry_bytes Record.encode Record.payload_of framed to_le
append_one-IsEnvelope = record {
  from_fits = omega arith;
  to_fits = omega arith;
  rpc_fits = (
    omega arith,
    omega arith,
    omega arith,
    omega arith,
    omega arith,
    ((omega arith, refl), tt),
    omega arith,
  );
  payload_fits = omega arith;
}

append_one-longer : 3 < length (RaftMessage.encode append_one secret)
unfolding RaftMessage.encode
append_one-longer = omega (
  arith,
  length-sealed secret (RaftMessage.payload_of append_one) append_one-IsEnvelope.payload_fits,
)

raft_message_round_trip_example :
    (RaftMessage.decode (RaftMessage.encode append_one secret ++ (5 ∷ [])) secret
      ≡ ok (some (append_one, length (RaftMessage.encode append_one secret))))
    × (RaftMessage.decode (take 3 (RaftMessage.encode append_one secret)) secret ≡ ok none)
raft_message_round_trip_example =
    raft_message_round_trip append_one secret (5 ∷ []) 3 append_one-IsEnvelope append_one-longer

abbrev ping_one : State.Envelope
ping_one = record {
  from = 1;
  to = 2;
  message = ping 9 3 (record { member = 3; status = suspect; incarnation = 5 } ∷ []);
}

ping_one-IsEnvelope : GossipMessage.IsEnvelope ping_one
unfolding GossipMessage.payload_of GossipMessage.message_bytes GossipMessage.encode_ping_or_ack_body
    GossipMessage.gossip_bytes GossipMessage.item_bytes concat_map to_le
ping_one-IsEnvelope = record {
  from_fits = omega arith;
  to_fits = omega arith;
  message_fits = (omega arith, omega arith, omega arith, ((omega arith, omega arith), tt));
  payload_fits = omega arith;
}

ping_one-longer : 3 < length (GossipMessage.encode ping_one secret)
unfolding GossipMessage.encode
ping_one-longer = omega (
  arith,
  length-sealed secret (GossipMessage.payload_of ping_one) ping_one-IsEnvelope.payload_fits,
)

gossip_message_round_trip_example :
    (GossipMessage.decode (GossipMessage.encode ping_one secret ++ (5 ∷ [])) secret
      ≡ ok (some (ping_one, length (GossipMessage.encode ping_one secret))))
    × (GossipMessage.decode (take 3 (GossipMessage.encode ping_one secret)) secret ≡ ok none)
gossip_message_round_trip_example =
    gossip_message_round_trip ping_one secret (5 ∷ []) 3 ping_one-IsEnvelope ping_one-longer

raft_message-Authentic_example :
    Authentic RaftMessage.read_envelope
      (RaftMessage.encode append_one secret ++ (5 ∷ []))
      secret
      append_one
      (length (RaftMessage.encode append_one secret))
raft_message-Authentic_example =
    raft_message-Authentic (RaftMessage.encode append_one secret ++ (5 ∷ [])) secret append_one
      (length (RaftMessage.encode append_one secret)) raft_message_round_trip_example.0

gossip_message-Authentic_example :
    Authentic GossipMessage.read_envelope
      (GossipMessage.encode ping_one secret ++ (5 ∷ []))
      secret
      ping_one
      (length (GossipMessage.encode ping_one secret))
gossip_message-Authentic_example =
    gossip_message-Authentic (GossipMessage.encode ping_one secret ++ (5 ∷ [])) secret ping_one
      (length (GossipMessage.encode ping_one secret)) gossip_message_round_trip_example.0

waiting_is_bounded_example :
    length (take 3 (GossipMessage.encode ping_one secret)) < 4 + max_frame_len + tag_len
waiting_is_bounded_example =
    waiting_is_bounded (take 3 (GossipMessage.encode ping_one secret)) secret
      (inr (inr gossip_message_round_trip_example.1))
