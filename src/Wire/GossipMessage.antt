-- ===== src/Wire/GossipMessage.antt =====
-- The messages of failure detection (the module `wire` of crates/gems-cluster/src/gossip.rs).
use Prim.Native.String.{String}
use gems.Prelude.{
  ℕ, ◌-◌, ◌*◌, ◌/◌, ◌%◌, ◌≤◌, ◌<◌, ◌^◌, ◌≡◌, refl, Bool, Option, none, some, List, [], ◌∷◌, ◌++◌,
  length, take, All, All-map, ltb, ◌==◌, if◌then◌else◌, arith, length-append,
}
use gems.Prelude.Results.{Result, Error, ok, err, invalid_value}
use gems.Codec.Bytes.{to_le, length-to_le}
use gems.Codec.Cursor.{Reader, ◌>>=◌, ◌>>◌, pure, lift, read_u8, read_le, repeat, guard, Decodes}
use gems.Codec.Decodes.{
  bind-Decodes, end-Decodes, last-Decodes, lift-Decodes, guard-Decodes, u8-Decodes, repeat-Decodes,
  concat_map,
}
use gems.Codec.Fields.{u32-Decodes, u64-Decodes, count32-Decodes}
use gems.Gossip.State.{
  NodeId, Incarnation, Status, alive, suspect, dead, GossipItem, SwimMessage, ping, ack, Envelope,
}
use gems.Wire.Frame.{max_frame_len}
use gems.Wire.Sealed.{sealed, decode_sealed, decode_sealed-sealed, decode_sealed-partial}

abbrev ping_tag : ℕ
ping_tag = 1

abbrev ack_tag : ℕ
ack_tag = 2

unfoldable pub encode_status : Status → ℕ
encode_status alive = 0
encode_status suspect = 1
encode_status dead = 2

unfoldable pub decode_status : ℕ → Result Error Status
decode_status b =
    if b == 0
    then ok alive
    else if b == 1
    then ok suspect
    else if b == 2
    then ok dead
    else err (invalid_value "unknown SWIM status byte")

unfoldable pub item_bytes : GossipItem → List ℕ
item_bytes item =
    to_le 4 item.member ++ ((encode_status item.status ∷ []) ++ to_le 8 item.incarnation)

unfoldable pub gossip_bytes : List GossipItem → List ℕ
gossip_bytes gossip = to_le 4 (length gossip % 2 ^ 32) ++ concat_map item_bytes gossip

unfoldable pub encode_ping_or_ack_body : ℕ → Incarnation → List GossipItem → List ℕ
encode_ping_or_ack_body seq sender_incarnation gossip =
    to_le 4 seq ++ (to_le 8 sender_incarnation ++ gossip_bytes gossip)

unfoldable pub message_bytes : SwimMessage → List ℕ
message_bytes (ping seq sender_incarnation gossip) =
    (ping_tag ∷ []) ++ encode_ping_or_ack_body seq sender_incarnation gossip
message_bytes (ack seq sender_incarnation gossip) =
    (ack_tag ∷ []) ++ encode_ping_or_ack_body seq sender_incarnation gossip

unfoldable pub payload_of : Envelope → List ℕ
payload_of envelope =
    to_le 4 envelope.from ++ (to_le 4 envelope.to ++ message_bytes envelope.message)

unfoldable pub encode : Envelope → List ℕ → List ℕ
encode envelope secret = sealed secret (payload_of envelope)

abbrev truncated : String
truncated = "SWIM envelope truncated"

abbrev item_of : NodeId → Status → Incarnation → GossipItem
item_of member status incarnation = record {
  member = member;
  status = status;
  incarnation = incarnation;
}

unfoldable pub read_status : Reader Status
read_status = read_u8 truncated >>= λ b. lift (decode_status b)

unfoldable pub read_item : Reader GossipItem
unfolding read_status
read_item = do
  member ← read_le truncated 4
  status ← read_status
  incarnation ← read_le truncated 8
  pure (item_of member status incarnation)

-- `count > buf.len().saturating_sub(*pos) / 13`
abbrev too_many : ℕ → ℕ → ℕ → Bool
too_many count len pos = ltb ((len - pos) / 13) count

unfoldable pub read_items : ℕ → Reader (List GossipItem)
unfolding read_item
read_items count =
    guard (too_many count)
      (invalid_value "SWIM gossip item count exceeds what the payload could hold")
    >> repeat count read_item

unfoldable pub read_gossip : Reader (List GossipItem)
unfolding read_items
read_gossip = read_le truncated 4 >>= read_items

abbrev Body : Type 0
Body = ℕ × Incarnation × List GossipItem

abbrev body_of : ℕ → Incarnation → List GossipItem → Body
body_of seq sender_incarnation gossip = (seq, sender_incarnation, gossip)

unfoldable pub decode_ping_or_ack_body : Reader Body
unfolding read_gossip
decode_ping_or_ack_body = do
  seq ← read_le truncated 4
  sender_incarnation ← read_le truncated 8
  gossip ← read_gossip
  pure (body_of seq sender_incarnation gossip)

unfoldable pub message_of : ℕ → Body → Result Error SwimMessage
message_of tag (seq, sender_incarnation, gossip) =
    if tag == ping_tag
    then ok (ping seq sender_incarnation gossip)
    else if tag == ack_tag
    then ok (ack seq sender_incarnation gossip)
    else err (invalid_value "unknown SWIM message tag")

unfoldable pub read_message : Reader SwimMessage
unfolding decode_ping_or_ack_body message_of
read_message = do
  tag ← read_u8 truncated
  body ← decode_ping_or_ack_body
  lift (message_of tag body)

abbrev envelope_of : NodeId → NodeId → SwimMessage → Envelope
envelope_of from to message = record { from = from; to = to; message = message }

unfoldable pub read_envelope : Reader Envelope
unfolding read_message
read_envelope = do
  from ← read_le truncated 4
  to ← read_le truncated 4
  message ← read_message
  pure (envelope_of from to message)

unfoldable pub decode : List ℕ → List ℕ → Result Error (Option (Envelope × ℕ))
decode buf secret =
    decode_sealed "SWIM envelope exceeds the maximum frame size"
      "SWIM envelope authentication tag mismatch" read_envelope buf secret

abbrev pub IsItem : GossipItem → Type 0
IsItem item = (item.member < 2 ^ 32) × (item.incarnation < 2 ^ 64)

abbrev IsBody : ℕ → Incarnation → List GossipItem → Type 0
IsBody seq sender_incarnation gossip =
    (seq < 2 ^ 32) × (sender_incarnation < 2 ^ 64) × (length gossip < 2 ^ 32) × All IsItem gossip

abbrev pub IsMessage : SwimMessage → Type 0
IsMessage (ping seq sender_incarnation gossip) = IsBody seq sender_incarnation gossip
IsMessage (ack seq sender_incarnation gossip) = IsBody seq sender_incarnation gossip

-- The numbers fit their types.
pub record IsEnvelope (e : Envelope) : Type 0 where
  pub from_fits : e.from < 2 ^ 32
  pub to_fits : e.to < 2 ^ 32
  pub message_fits : IsMessage e.message
  pub payload_fits : length (payload_of e) ≤ max_frame_len

status-Decodes : (s : Status) → Decodes read_status (encode_status s ∷ []) s
unfolding read_status encode_status decode_status
status-Decodes alive = bind-Decodes _ (u8-Decodes _) (lift-Decodes refl)
status-Decodes suspect = bind-Decodes _ (u8-Decodes _) (lift-Decodes refl)
status-Decodes dead = bind-Decodes _ (u8-Decodes _) (lift-Decodes refl)

item-Decodes : (item : GossipItem) → IsItem item → Decodes read_item (item_bytes item) item
unfolding read_item item_bytes
item-Decodes item (member, incarnation) = bind-Decodes _ (u32-Decodes _ item.member member) (
    bind-Decodes _ (status-Decodes item.status)
      (last-Decodes _ (u64-Decodes _ item.incarnation incarnation)))

length-items :
    (gossip : List GossipItem) → length (concat_map item_bytes gossip) ≡ length gossip * 13
unfolding concat_map item_bytes
length-items [] = omega arith
length-items (item ∷ gossip) = omega (arith, length-items gossip, length-append {0}, length-to_le)

gossip-Decodes :
    (gossip : List GossipItem)
    → length gossip < 2 ^ 32
    → All IsItem gossip
    → Decodes read_gossip (gossip_bytes gossip) gossip
unfolding read_gossip gossip_bytes read_items
gossip-Decodes gossip small each = bind-Decodes _ (count32-Decodes _ (length gossip) small) (
    guard-Decodes (too_many (length gossip)) _ (λ len pos room. ground (arith, length-items gossip))
      (repeat-Decodes read_item item_bytes gossip
        (All-map IsItem (λ i. Decodes read_item (item_bytes i) i) gossip item-Decodes each)))

body-Decodes :
    (seq : ℕ) (inc : Incarnation) (gossip : List GossipItem)
    → IsBody seq inc gossip
    → Decodes decode_ping_or_ack_body (encode_ping_or_ack_body seq inc gossip) (seq, inc, gossip)
unfolding decode_ping_or_ack_body encode_ping_or_ack_body
body-Decodes seq inc gossip (seq_fits, inc_fits, count_fits, each) =
    bind-Decodes _ (u32-Decodes _ seq seq_fits) (
      bind-Decodes _ (u64-Decodes _ inc inc_fits)
        (last-Decodes (body_of seq inc) (gossip-Decodes gossip count_fits each)))

message-Decodes : (m : SwimMessage) → IsMessage m → Decodes read_message (message_bytes m) m
unfolding read_message message_bytes message_of
message-Decodes (ping seq inc gossip) fits =
    bind-Decodes _ (u8-Decodes _)
      (end-Decodes _ (body-Decodes seq inc gossip fits) (lift-Decodes refl))
message-Decodes (ack seq inc gossip) fits =
    bind-Decodes _ (u8-Decodes _)
      (end-Decodes _ (body-Decodes seq inc gossip fits) (lift-Decodes refl))

envelope-Decodes : (e : Envelope) → IsEnvelope e → Decodes read_envelope (payload_of e) e
unfolding read_envelope payload_of
envelope-Decodes e fits = bind-Decodes _ (u32-Decodes _ e.from fits.from_fits) (
    bind-Decodes _ (u32-Decodes _ e.to fits.to_fits)
      (last-Decodes _ (message-Decodes e.message fits.message_fits)))

-- A message of failure detection whose numbers fit their types and that is no longer than a frame
-- may be is read back by who has the secret, whatever follows it. Of a part of it decode waits for
-- the rest.
pub gossip_message_round_trip :
    (e : Envelope) (secret post : List ℕ) (n : ℕ)
    → IsEnvelope e
    → n < length (encode e secret)
    → (decode (encode e secret ++ post) secret ≡ ok (some (e, length (encode e secret))))
      × (decode (take n (encode e secret)) secret ≡ ok none)
unfolding decode encode
gossip_message_round_trip e secret post n fits short = (
  decode_sealed-sealed read_envelope (payload_of e) _ _ secret post fits.payload_fits
      (envelope-Decodes e fits),
  decode_sealed-partial read_envelope (payload_of e) _ _ secret n fits.payload_fits short,
)
