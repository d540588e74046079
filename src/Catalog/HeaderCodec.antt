-- ===== src/Catalog/HeaderCodec.antt =====
-- The encoding of the header (crates/gems-catalog/src/header.rs). The header's length is fixed, and
-- a checksum of the rest ends it.
use gems.Prelude.{
  ℕ, ◌+◌, ◌-◌, ◌%◌, ◌^◌, not, List, [], ◌∷◌, ◌++◌, length, take, drop, replicate, ltb, ◌==◌,
  if◌then◌else◌,
}
use gems.Prelude.Results.{Result, Error, err, corrupt_page, refuse_if}
use gems.Prelude.Utf8.{from_utf8_lossy}
use gems.Common.Crc32c.{crc32c}
use gems.Codec.Bytes.{to_le, from_le}
use gems.Codec.Cursor.{Reader, ◌>>=◌, ◌>>◌, pure, lift, run, read_slice, read_u8, read_le}
use gems.Catalog.Kind.{EntityKind, from_u8, to_u8}
use gems.Catalog.Header.{EntityHeader}
use gems.Catalog.Truncate.{truncate_utf8}

abbrev pub magic : ℕ
magic = 0x47454d48

abbrev format_version : ℕ
format_version = 1

abbrev pub name_max : ℕ
name_max = 63

abbrev pub description_max : ℕ
description_max = 254

abbrev pub encoded_len : ℕ
encoded_len = 4 + 2 + 24 + 16 + 16 + 8 + 1 + name_max + 2 + description_max + 4 + 1 + 24 + 4 + 4 + 4

abbrev checksum_at : ℕ
checksum_at = encoded_len - 4

-- A text in its field of `max` bytes: `out.resize(out.len() + (max - text.len()), 0)`.
unfoldable pub padded : List ℕ → ℕ → List ℕ
padded text max = text ++ replicate (max - length text) 0

unfoldable pub name_field : List ℕ → List ℕ
name_field name =
    let name_bytes = truncate_utf8 name name_max in
    (length name_bytes % 256 ∷ []) ++ padded name_bytes name_max

unfoldable pub description_field : List ℕ → List ℕ
description_field description =
    let desc_bytes = truncate_utf8 description description_max in
    to_le 2 (length desc_bytes % 2 ^ 16) ++ padded desc_bytes description_max

unfoldable pub magic_version : List ℕ
unfolding to_le
magic_version = to_le 4 magic ++ to_le 2 format_version

unfoldable pub fields : EntityHeader → List ℕ
fields h =
    magic_version
    ++ (h.id
        ++ (h.created_by
            ++ (h.modified_by
                ++ (to_le 8 h.modified_at_ns
                    ++ (name_field h.name
                        ++ (description_field h.description
                            ++ (to_le 4 h.flags
                                ++ ((to_u8 h.entity_kind ∷ [])
                                    ++ (h.schema_ref
                                        ++ (to_le 4 h.body_offset ++ to_le 4 h.body_len))))))))))

unfoldable pub encode : EntityHeader → List ℕ
unfolding fields crc32c to_le
encode h = fields h ++ to_le 4 (crc32c (fields h))

-- A length read from the header is checked before the field is read.
unfoldable pub refuse_longer : ℕ → ℕ → Error → Reader (Unit {0})
refuse_longer len max cause = lift (refuse_if (ltb max len) cause)

-- `String::from_utf8_lossy(&buf[pos..pos + len])`, then `pos += max`
unfoldable pub read_padded : ℕ → ℕ → Reader (List ℕ)
unfolding from_utf8_lossy
read_padded len max = do field ← read_slice "" max; pure (from_utf8_lossy (take len field))

unfoldable pub read_name : Reader (List ℕ)
unfolding refuse_longer read_padded
read_name = do
  name_len ← read_u8 ""
  refuse_longer name_len name_max (corrupt_page "entity header name length exceeds the maximum")
  read_padded name_len name_max

unfoldable pub read_description : Reader (List ℕ)
unfolding refuse_longer read_padded
read_description = do
  desc_len ← read_le "" 2
  refuse_longer desc_len description_max
      (corrupt_page "entity header description length exceeds the maximum")
  read_padded desc_len description_max

unfoldable pub read_entity_kind : Reader EntityKind
unfolding from_u8
read_entity_kind = read_u8 "" >>= λ b. lift (from_u8 b)

-- The length is known to be enough, so that no slice is out of range. The magic number and the
-- version are passed over.
unfoldable pub read_fields : Reader EntityHeader
unfolding read_name read_description read_entity_kind
read_fields = do
  magic_version ← read_slice "" 6
  id ← read_slice "" 24
  created_by ← read_slice "" 16
  modified_by ← read_slice "" 16
  modified_at_ns ← read_le "" 8
  name ← read_name
  description ← read_description
  flags ← read_le "" 4
  entity_kind ← read_entity_kind
  schema_ref ← read_slice "" 24
  body_offset ← read_le "" 4
  body_len ← read_le "" 4
  pure (record {
    id = id;
    created_by = created_by;
    modified_by = modified_by;
    modified_at_ns = modified_at_ns;
    name = name;
    description = description;
    flags = flags;
    entity_kind = entity_kind;
    schema_ref = schema_ref;
    body_offset = body_offset;
    body_len = body_len;
  })

unfoldable pub decode : List ℕ → Result Error EntityHeader
unfolding read_fields from_le crc32c
decode buf =
    if ltb (length buf) encoded_len
    then err (corrupt_page "entity header shorter than expected")
    else if not (from_le (take 4 buf) == magic)
    then err (corrupt_page "entity header magic mismatch")
    else if not (from_le (take 4 (drop checksum_at buf)) == crc32c (take checksum_at buf))
    then err (corrupt_page "entity header checksum mismatch")
    else run read_fields buf
