-- ===== src/Catalog/HeaderTrip.antt =====
-- What is read back of a header (crates/gems-catalog/src/header.rs).
use gems.Prelude.{
  ℕ, ◌-◌, ◌%◌, ◌≤◌, ◌<◌, ◌^◌, ◌≡◌, refl, suc, ap, subst, true, false, List, [], ◌∷◌, ◌++◌,
  append_assoc, length, take, drop, replicate, ltb, ◌==◌, arith, length-append, length-replicate,
  take-append_length, drop-append_length, ==_iff,
}
use gems.Prelude.Results.{Error, ok}
use gems.Prelude.Utf8.{from_utf8_lossy, IsText}
use gems.Common.Crc32c.{crc32c, crc32c_small}
use gems.Codec.Bytes.{to_le, from_le, from_le-to_le, length-to_le, le_bound}
use gems.Codec.Cursor.{run, Decodes}
use gems.Codec.Decodes.{
  bind-Decodes, check-Decodes, last-Decodes, lift-Decodes, slice-Decodes, u8-Decodes,
  run_append-Decodes,
}
use gems.Codec.Fields.{length_byte-Decodes, count16-Decodes, u32-Decodes, u64-Decodes}
use gems.Catalog.Kind.{EntityKind, to_u8, from_u8-to_u8}
use gems.Catalog.Header.{EntityHeader}
use gems.Catalog.HeaderCodec.{
  magic, name_max, description_max, encoded_len, magic_version, padded, name_field,
  description_field, fields, encode, refuse_longer, read_padded, read_name, read_description,
  read_entity_kind, read_fields, decode,
}
use gems.Catalog.Truncate.{
  truncate_utf8, truncate_utf8-short, length-truncate_utf8, IsCut, truncate_utf8-IsCut,
}

-- The fields have the sizes that their types give them.
pub record IsHeader (h : EntityHeader) : Type 0 where
  pub id_fits : length h.id ≡ 24
  pub created_by_fits : length h.created_by ≡ 16
  pub modified_by_fits : length h.modified_by ≡ 16
  pub modified_at_fits : h.modified_at_ns < 2 ^ 64
  pub flags_fit : h.flags < 2 ^ 32
  pub schema_ref_fits : length h.schema_ref ≡ 24
  pub body_offset_fits : h.body_offset < 2 ^ 32
  pub body_len_fits : h.body_len < 2 ^ 32

-- What is left of a text that is cut to a number of bytes.
abbrev pub cut : List ℕ → ℕ → List ℕ
cut text max = from_utf8_lossy (truncate_utf8 text max)

abbrev pub stored : EntityHeader → EntityHeader
stored h = record {
  id = h.id;
  created_by = h.created_by;
  modified_by = h.modified_by;
  modified_at_ns = h.modified_at_ns;
  name = cut h.name name_max;
  description = cut h.description description_max;
  flags = h.flags;
  entity_kind = h.entity_kind;
  schema_ref = h.schema_ref;
  body_offset = h.body_offset;
  body_len = h.body_len;
}

length-padded : (text : List ℕ) (max : ℕ) → length text ≤ max → length (padded text max) ≡ max
unfolding padded
length-padded text max h = omega (
  arith,
  length-append text (replicate (max - length text) 0),
  length-replicate {A = ℕ} (max - length text) 0,
)

take-padded : (text : List ℕ) (max : ℕ) → take (length text) (padded text max) ≡ text
unfolding padded
take-padded text max = take-append_length text (replicate (max - length text) 0)

padded-Decodes :
    (text : List ℕ) (max : ℕ)
    → length text ≤ max
    → Decodes (read_padded (length text) max) (padded text max) (from_utf8_lossy text)
unfolding read_padded
padded-Decodes text max h =
    subst (λ t. Decodes (read_padded (length text) max) (padded text max) (from_utf8_lossy t))
      (take-padded text max)
      (last-Decodes (λ field. from_utf8_lossy (take (length text) field))
        (slice-Decodes "" (length-padded text max h)))

not_longer : (len max : ℕ) (cause : Error) → len ≤ max → Decodes (refuse_longer len max cause) [] tt
unfolding refuse_longer
not_longer len max cause h =
    let fits : ltb max len ≡ false = ground arith in lift-Decodes (rw fits refl)

name-Decodes : (name : List ℕ) → Decodes read_name (name_field name) (cut name name_max)
unfolding read_name name_field
name-Decodes name =
    let text = truncate_utf8 name name_max in
    let short : length text ≤ name_max = length-truncate_utf8 name name_max in
    bind-Decodes _ (length_byte-Decodes "" (length text) (omega arith)) (
      check-Decodes _ (not_longer (length text) name_max _ short)
        (padded-Decodes text name_max short))

description-Decodes :
    (description : List ℕ)
    → Decodes read_description (description_field description) (cut description description_max)
unfolding read_description description_field
description-Decodes description =
    let text = truncate_utf8 description description_max in
    let short : length text ≤ description_max = length-truncate_utf8 description description_max in
    bind-Decodes _ (count16-Decodes "" (length text) (omega arith)) (
      check-Decodes _ (not_longer (length text) description_max _ short)
        (padded-Decodes text description_max short))

kind-Decodes : (k : EntityKind) → Decodes read_entity_kind (to_u8 k ∷ []) k
unfolding read_entity_kind
kind-Decodes k = bind-Decodes _ (u8-Decodes "") (lift-Decodes (from_u8-to_u8 k))

length-magic_version : length magic_version ≡ 6
unfolding magic_version to_le
length-magic_version = refl

fields-Decodes : (h : EntityHeader) → IsHeader h → Decodes read_fields (fields h) (stored h)
unfolding read_fields fields
fields-Decodes h fits =
    bind-Decodes _ (slice-Decodes "" {bs = magic_version} length-magic_version) (
      bind-Decodes _ (slice-Decodes "" fits.id_fits) (
        bind-Decodes _ (slice-Decodes "" fits.created_by_fits) (
          bind-Decodes _ (slice-Decodes "" fits.modified_by_fits) (
            bind-Decodes _ (u64-Decodes "" h.modified_at_ns fits.modified_at_fits) (
              bind-Decodes _ (name-Decodes h.name) (
                bind-Decodes _ (description-Decodes h.description) (
                  bind-Decodes _ (u32-Decodes "" h.flags fits.flags_fit) (
                    bind-Decodes _ (kind-Decodes h.entity_kind) (
                      bind-Decodes _ (slice-Decodes "" fits.schema_ref_fits) (
                        bind-Decodes _ (u32-Decodes "" h.body_offset fits.body_offset_fits)
                          (last-Decodes _ (u32-Decodes "" h.body_len fits.body_len_fits))))))))))))

length-name_field : (name : List ℕ) → length (name_field name) ≡ 64
unfolding name_field
length-name_field name =
    ap suc
      (length-padded (truncate_utf8 name name_max) name_max (length-truncate_utf8 name name_max))

length-description_field : (description : List ℕ) → length (description_field description) ≡ 256
unfolding description_field
length-description_field description =
    let text = truncate_utf8 description description_max in
    omega (
      arith,
      length-append (to_le 2 (length text % 2 ^ 16)) (padded text description_max),
      length-to_le 2 (length text % 2 ^ 16),
      length-padded text description_max (length-truncate_utf8 description description_max),
    )

-- Its value is a sum of literals.
length-fields : (h : EntityHeader) → IsHeader h → length (fields h) ≡ 427
unfolding fields
length-fields h fits = omega (
  arith,
  length-append {0},
  length-to_le,
  length-magic_version,
  length-name_field,
  length-description_field,
  fits.id_fits,
  fits.created_by_fits,
  fits.modified_by_fits,
  fits.schema_ref_fits,
)

pub length-encode : (h : EntityHeader) → IsHeader h → length (encode h) ≡ encoded_len
unfolding encode
length-encode h fits = omega (
  arith,
  length-append (fields h) (to_le 4 (crc32c (fields h))),
  length-fields h fits,
  length-to_le 4 (crc32c (fields h)),
)

-- The two slices that decode takes out of an encoding, and the checks that they pass.
module _ (front sum post : List ℕ) (front_len : length front ≡ 427) (sum_len : length sum ≡ 4) where
  take-front : take 427 ((front ++ sum) ++ post) ≡ front
  take-front =
      rw (append_assoc front sum post) (rw (← front_len) (take-append_length front (sum ++ post)))

  take-sum : take 4 (drop 427 ((front ++ sum) ++ post)) ≡ sum
  take-sum = rw (append_assoc front sum post) (
      rw (← front_len) (
        rw (drop-append_length front (sum ++ post)) (rw (← sum_len) (take-append_length sum post))))

magic-fields : (h : EntityHeader) (post : List ℕ) → from_le (take 4 (encode h ++ post)) ≡ magic
unfolding encode fields magic_version to_le from_le
magic-fields h post = refl

checksum-encode :
    (h : EntityHeader) (post : List ℕ)
    → IsHeader h
    → from_le (take 4 (drop 427 (encode h ++ post))) ≡ crc32c (take 427 (encode h ++ post))
unfolding encode le_bound
checksum-encode h post fits =
    let sum = to_le 4 (crc32c (fields h)) in
    rw (take-sum (fields h) sum post (length-fields h fits) (length-to_le 4 (crc32c (fields h)))) (
      rw
        (take-front (fields h) sum post (length-fields h fits) (length-to_le 4 (crc32c (fields h))))
        (from_le-to_le 4 (crc32c (fields h)) (crc32c_small (fields h))))

run-fields :
    (h : EntityHeader) (post : List ℕ)
    → IsHeader h
    → run read_fields (encode h ++ post) ≡ ok (stored h)
unfolding encode
run-fields h post fits =
    rw (append_assoc (fields h) (to_le 4 (crc32c (fields h))) post)
      (run_append-Decodes _ (fields-Decodes h fits))

pub decode-stored :
    (h : EntityHeader) (post : List ℕ) → IsHeader h → decode (encode h ++ post) ≡ ok (stored h)
unfolding decode
decode-stored h post fits =
    let long : ltb (length (encode h ++ post)) encoded_len ≡ false =
      ground (arith, length-append (encode h) post, length-encode h fits) in
    let first : (from_le (take 4 (encode h ++ post)) == magic) ≡ true =
      (==_iff _ _).1 (magic-fields h post) in
    let last : (from_le (take 4 (drop 427 (encode h ++ post)))
          == crc32c (take 427 (encode h ++ post)))
        ≡ true =
      (==_iff _ _).1 (checksum-encode h post fits) in
    rw long (rw first (rw last (run-fields h post fits)))

-- A header whose fields have the sizes of their types is encoded in 431 bytes. From these, whatever
-- follows them, decode reads the header with another name and description: those are what from_utf8_lossy makes
-- of the longest parts, of at most 63 and 254 bytes, that end at a boundary between characters, or of the whole
-- where it is no longer than that.
pub header_round_trip :
    (h : EntityHeader) (post : List ℕ)
    → IsHeader h
    → (length (encode h) ≡ encoded_len)
      × (name : List ℕ) × IsCut h.name 63 name
      × (description : List ℕ) × IsCut h.description 254 description
      × (decode (encode h ++ post)
          ≡ ok
              (record h { name = from_utf8_lossy name; description = from_utf8_lossy description }))
header_round_trip h post fits = (
  length-encode h fits,
  truncate_utf8 h.name name_max,
  truncate_utf8-IsCut h.name name_max,
  truncate_utf8 h.description description_max,
  truncate_utf8-IsCut h.description description_max,
  decode-stored h post fits,
)

-- A header with a short name and description, which are texts.
pub record IsShort (h : EntityHeader) : Type 0 where
  pub name_short : length h.name ≤ name_max
  pub name_text : IsText h.name
  pub description_short : length h.description ≤ description_max
  pub description_text : IsText h.description

cut-short : (text : List ℕ) (max : ℕ) → length text ≤ max → IsText text → cut text max ≡ text
cut-short text max short utf8 = rw (truncate_utf8-short text max short) utf8

pub stored-IsShort : (h : EntityHeader) → IsShort h → stored h ≡ h
stored-IsShort h s =
    rw (cut-short h.name name_max s.name_short s.name_text)
      (rw (cut-short h.description description_max s.description_short s.description_text) refl)
