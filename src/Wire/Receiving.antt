-- ===== src/Wire/Receiving.antt =====
-- What the decoders of crates/gems-cluster promise about bytes from anywhere.
use gems.Prelude.{ℕ, ◌+◌, ◌<◌, ◌≡◌, ◌⊎◌, inl, inr, refl, Option, none, some, List, length, arith}
use gems.Prelude.Results.{Result, Error, ok, err, >>=-eq-ok}
use gems.Common.Hmac.{tag_len}
use gems.Wire.Frame.{max_frame_len, Frame, on_frame, take_frame-waits}
use gems.Wire.Sealed.{decode_sealed, Authentic, decode_sealed-Authentic}
use gems.Wire.Record
use gems.Wire.RaftMessage
use gems.Wire.GossipMessage
use gems.Raft.State.{Envelope}
use gems.Gossip.State

-- If decode gets a message of Raft from a buffer, the bytes it used are a length, a payload that reads
-- as the message, and the tag that the secret gives the payload.
pub raft_message-Authentic :
    (buf secret : List ℕ) (e : Envelope) (n : ℕ)
    → RaftMessage.decode buf secret ≡ ok (some (e, n))
    → Authentic RaftMessage.read_envelope buf secret e n
unfolding RaftMessage.decode
raft_message-Authentic buf secret e n h =
    decode_sealed-Authentic _ _ RaftMessage.read_envelope buf secret e n h

-- If decode gets a message of failure detection from a buffer, the bytes it used are a length, a payload
-- that reads as the message, and the tag that the secret gives the payload.
pub gossip_message-Authentic :
    (buf secret : List ℕ) (e : State.Envelope) (n : ℕ)
    → GossipMessage.decode buf secret ≡ ok (some (e, n))
    → Authentic GossipMessage.read_envelope buf secret e n
unfolding GossipMessage.decode
gossip_message-Authentic buf secret e n h =
    decode_sealed-Authentic _ _ GossipMessage.read_envelope buf secret e n h

waits-on_frame {ℓ} :
    {A : Type ℓ} (read : Frame → Result Error A) (r : Result Error (Option Frame))
    → on_frame read r ≡ ok none
    → r ≡ ok none
waits-on_frame read (err e) h = cc
waits-on_frame read (ok none) h = refl
waits-on_frame read (ok (some f)) h =
    let (value, e, last) = >>=-eq-ok (read f) (λ a. ok (some (a, f.total_len))) h in cc

-- A decoder of this crate that asks for more bytes has fewer than a frame of the greatest length may
-- have: 64 MiB and its prefix, and 32 bytes more for the tag of a message.
pub waiting_is_bounded :
    (buf secret : List ℕ)
    → (Record.decode buf ≡ ok none)
      ⊎ ((RaftMessage.decode buf secret ≡ ok none) ⊎ (GossipMessage.decode buf secret ≡ ok none))
    → length buf < 4 + max_frame_len + tag_len
unfolding Record.decode RaftMessage.decode GossipMessage.decode decode_sealed
waiting_is_bounded buf secret (inl h) =
    omega (arith, take_frame-waits _ 0 buf (waits-on_frame _ _ h))
waiting_is_bounded buf secret (inr (inl h)) = take_frame-waits _ tag_len buf (waits-on_frame _ _ h)
waiting_is_bounded buf secret (inr (inr h)) = take_frame-waits _ tag_len buf (waits-on_frame _ _ h)
