-- ===== src/Wire/Record.antt =====
-- The encoding of log records (crates/gems-cluster/src/record.rs).
use Prim.Native.String.{String}
use gems.Prelude.{
  ℕ, ◌+◌, ◌%◌, ◌≤◌, ◌<◌, ◌^◌, ◌≡◌, refl, sym, ap, ◌∙◌, Option, none, some, List, [], ◌∷◌, ◌++◌,
  append-nil, length, take, ◌==◌, if◌then◌else◌, arith, length-append,
}
use gems.Prelude.Results.{Result, Error, ok, err, invalid_value}
use gems.Codec.Bytes.{to_le, length-to_le}
use gems.Codec.Cursor.{Reader, ◌>>=◌, pure, lift, run, read_slice, read_u8, read_le, Decodes}
use gems.Codec.Decodes.{
  bind-Decodes, check-Decodes, last-Decodes, lift-Decodes, slice-Decodes, u8-Decodes, run-Decodes,
}
use gems.Codec.Fields.{count32-Decodes}
use gems.Catalog.Header.{EntityHeader}
use gems.Catalog.HeaderCodec
use gems.Catalog.HeaderTrip.{IsHeader, IsShort, stored-IsShort, decode-stored}
use gems.Catalog.HeaderTrip
use gems.Record.{LogRecord, insert, delete}
use gems.Wire.Frame.{
  max_frame_len, framed, take_frame, on_frame, length-framed, take_frame-plain,
  take_frame-plain_partial,
}

abbrev insert_tag : ℕ
insert_tag = 1

abbrev delete_tag : ℕ
delete_tag = 2

-- `(bytes.len() as u32).to_le_bytes()` and the bytes
unfoldable pub with_len : List ℕ → List ℕ
with_len bytes = to_le 4 (length bytes % 2 ^ 32) ++ bytes

unfoldable pub payload_of : LogRecord → List ℕ
payload_of (insert header body) =
    (insert_tag ∷ []) ++ (with_len (HeaderCodec.encode header) ++ with_len body)
payload_of (delete id) = (delete_tag ∷ []) ++ id

unfoldable pub encode : LogRecord → List ℕ
encode record' = framed (payload_of record')

abbrev truncated : String
truncated = "log record payload truncated"

-- `read_u32`, and then `read_slice` of that length
unfoldable pub read_with_len : Reader (List ℕ)
read_with_len = read_le truncated 4 >>= read_slice truncated

abbrev inserted : EntityHeader → List ℕ → LogRecord
inserted header body = insert header body

unfoldable pub read_insert : Reader LogRecord
unfolding read_with_len
read_insert = do
  header_bytes ← read_with_len
  header ← lift (HeaderCodec.decode header_bytes)
  body ← read_with_len
  pure (inserted header body)

unfoldable pub read_delete : Reader LogRecord
read_delete = read_slice truncated 24 >>= λ id. pure (delete id)

unfoldable pub read_tagged : ℕ → Reader LogRecord
unfolding read_insert read_delete
read_tagged tag =
    if tag == insert_tag
    then read_insert
    else if tag == delete_tag
    then read_delete
    else lift (err (invalid_value "unknown log record type"))

unfoldable pub read_record : Reader LogRecord
unfolding read_tagged
read_record = read_u8 "empty log record payload" >>= read_tagged

unfoldable pub decode : List ℕ → Result Error (Option (LogRecord × ℕ))
decode buf =
    on_frame (λ f. run read_record f.payload)
      (take_frame "log record payload exceeds the maximum frame size" 0 buf)

-- The record can be encoded without loss.
pub record IsInsert (header : EntityHeader) (body : List ℕ) : Type 0 where
  pub header_fits : IsHeader header
  pub header_short : IsShort header
  pub body_fits : length body + 440 ≤ max_frame_len

abbrev pub IsRecord : LogRecord → Type 0
IsRecord (insert header body) = IsInsert header body
IsRecord (delete id) = length id ≡ 24

with_len-Decodes :
    (bytes : List ℕ) → length bytes < 2 ^ 32 → Decodes read_with_len (with_len bytes) bytes
unfolding read_with_len with_len
with_len-Decodes bytes h =
    bind-Decodes _ (count32-Decodes truncated (length bytes) h) (slice-Decodes truncated refl)

header_back :
    (h : EntityHeader) → IsHeader h → IsShort h → HeaderCodec.decode (HeaderCodec.encode h) ≡ ok h
header_back h fits short =
    ap HeaderCodec.decode (sym (append-nil (HeaderCodec.encode h)))
    ∙ ((decode-stored h [] fits) ∙ ap (λ x. ok x) (stored-IsShort h short))

header_len : (h : EntityHeader) → IsHeader h → length (HeaderCodec.encode h) < 2 ^ 32
header_len h fits = omega (arith, HeaderTrip.length-encode h fits)

body_len : (body : List ℕ) → length body + 440 ≤ max_frame_len → length body < 2 ^ 32
body_len body fits = omega arith

payload_len : (r : LogRecord) → IsRecord r → length (payload_of r) ≤ max_frame_len
unfolding payload_of with_len
payload_len (insert header body) fits = omega (
  arith,
  length-append {0},
  length-to_le,
  fits.body_fits,
  HeaderTrip.length-encode header fits.header_fits,
)
payload_len (delete id) fits = omega (arith, fits)

record-Decodes : (r : LogRecord) → IsRecord r → Decodes read_record (payload_of r) r
unfolding read_record payload_of read_tagged read_insert read_delete
record-Decodes (insert header body) fits = bind-Decodes _ (u8-Decodes _) (
    bind-Decodes _
      (with_len-Decodes (HeaderCodec.encode header) (header_len header fits.header_fits))
      (check-Decodes _ (lift-Decodes (header_back header fits.header_fits fits.header_short))
        (last-Decodes _ (with_len-Decodes body (body_len body fits.body_fits)))))
record-Decodes (delete id) fits =
    bind-Decodes _ (u8-Decodes _) (last-Decodes _ (slice-Decodes truncated fits))

pub decode-encode :
    (r : LogRecord) (post : List ℕ)
    → IsRecord r
    → decode (encode r ++ post) ≡ ok (some (r, length (encode r)))
unfolding decode encode
decode-encode r post fits =
    let read : run read_record (payload_of r) ≡ ok r = run-Decodes (record-Decodes r fits) in
    rw (take_frame-plain (payload_of r) (payload_len r fits) _ post) (rw read refl)

pub length-encode : (r : LogRecord) → IsRecord r → length (encode r) ≡ 4 + length (payload_of r)
unfolding encode
length-encode r fits = length-framed (payload_of r) (payload_len r fits)

-- The encoding of a record, whatever follows it, is read back and used up, if the record has a
-- header of short texts and a body of at most 64 MiB less 440 bytes, or an identifier of 24 bytes. Of
-- a part of the encoding decode waits for the rest.
pub record_round_trip :
    (r : LogRecord) (post : List ℕ) (n : ℕ)
    → IsRecord r
    → n < length (encode r)
    → (decode (encode r ++ post) ≡ ok (some (r, length (encode r))))
      × (decode (take n (encode r)) ≡ ok none)
unfolding decode encode
record_round_trip r post n fits short =
    let small : length (payload_of r) ≤ max_frame_len = payload_len r fits in
    (decode-encode r post fits, rw (take_frame-plain_partial (payload_of r) small _ n short) refl)
