-- ===== src/Catalog/Bodies/EntityAttribute.antt =====
-- crates/gems-catalog/src/entity_attribute.rs. A float is its bit pattern.
use Prim.Native.String.{String}
use gems.Prelude.{
  ℕ, ◌%◌, ◌^◌, ◌<◌, ◌≤◌, ◌≡◌, refl, Bool, true, false, Option, none, some, List, [], ◌∷◌, ◌++◌,
  length, ltb, ◌==◌, if◌then◌else◌, arith, length-append,
}
use gems.Prelude.Results.{Result, Error, ok, err, invalid_value}
use gems.Prelude.Utf8.{from_utf8_lossy, IsText}
use gems.Codec.Bytes.{to_le, le_bound, length-to_le}
use gems.Codec.Tag.{TypeTag, tag_byte, tag_from_u8, tag_from_u8-tag_byte}
use gems.Codec.Cursor.{Reader, ◌>>=◌, pure, lift, read_u8, read_le, read_slice, run, Decodes}
use gems.Codec.Decodes.{
  slice-Decodes, u8-Decodes, le-Decodes, bind-Decodes, check-Decodes, last-Decodes, lift-Decodes,
  run-Decodes,
}
use gems.Codec.Fields.{
  bool_byte, read_flag, read_text, flag-Decodes, text-Decodes, length_byte-Decodes,
}
use gems.Catalog.Header.{Tuid}
use gems.Catalog.Truncate.{truncate_utf8, truncate_utf8-short}
use gems.Catalog.Util.{IsTuid}

pub data Cardinality : Type 0 where
  single multiple : Cardinality

pub data Indexed : Type 0 where
  not_indexed bitmap btree : Indexed

pub record ValidationRule : Type 0 where
  pub min : Option ℕ
  pub max : Option ℕ
  pub regex_ref : Tuid
  pub enum_ref : Tuid
  pub precision : ℕ

pub record FormatRule : Type 0 where
  pub template : List ℕ

pub record EntityAttribute : Type 0 where
  pub prototype : TypeTag
  pub cardinality : Cardinality
  pub nullable : Bool
  pub indexed : Indexed
  pub validation : ValidationRule
  pub format : FormatRule

abbrev pub format_template_max : ℕ
format_template_max = 32

unfoldable pub cardinality_byte : Cardinality → ℕ
cardinality_byte single = 0
cardinality_byte multiple = 1

unfoldable pub indexed_byte : Indexed → ℕ
indexed_byte not_indexed = 0
indexed_byte bitmap = 1
indexed_byte btree = 2

-- An optional value behind its flag, zero if there is none.
unfoldable pub optional_le : Option ℕ → List ℕ
unfolding to_le
optional_le (some v) = (1 ∷ []) ++ to_le 8 v
optional_le none = (0 ∷ []) ++ to_le 8 0

unfoldable pub encode : EntityAttribute → List ℕ
unfolding tag_byte cardinality_byte indexed_byte optional_le truncate_utf8
encode a =
    let template_bytes = truncate_utf8 a.format.template format_template_max in
    (tag_byte a.prototype ∷ [])
    ++ ((cardinality_byte a.cardinality ∷ [])
        ++ ((bool_byte a.nullable ∷ [])
            ++ ((indexed_byte a.indexed ∷ [])
                ++ (optional_le a.validation.min
                    ++ (optional_le a.validation.max
                        ++ (a.validation.regex_ref
                            ++ (a.validation.enum_ref
                                ++ ((a.validation.precision ∷ [])
                                    ++ ((length template_bytes % 256 ∷ [])
                                        ++ template_bytes)))))))))

unfoldable pub cardinality_from : ℕ → Result Error Cardinality
cardinality_from b =
    if b == 0
    then ok single
    else if b == 1
    then ok multiple
    else err (invalid_value "unknown cardinality")

unfoldable pub indexed_from : ℕ → Result Error Indexed
indexed_from b =
    if b == 0
    then ok not_indexed
    else if b == 1
    then ok bitmap
    else if b == 2
    then ok btree
    else err (invalid_value "unknown indexed mode")

abbrev pub then_some : Bool → ℕ → Option ℕ
then_some true v = some v
then_some false v = none

-- The fixed part is tested as a whole, so that these reads do not fail.
abbrev too_short : String
too_short = "EntityAttribute buffer too short"

unfoldable pub read_optional : Reader (Option ℕ)
read_optional = do
  present ← read_flag too_short
  raw ← read_le too_short 8
  pure (then_some present raw)

unfoldable pub read_attribute : Reader EntityAttribute
unfolding tag_from_u8 cardinality_from indexed_from read_optional from_utf8_lossy
read_attribute = do
  prototype_byte ← read_u8 too_short
  prototype ← lift (tag_from_u8 prototype_byte)
  cardinality_byte ← read_u8 too_short
  cardinality ← lift (cardinality_from cardinality_byte)
  nullable ← read_flag too_short
  indexed_byte ← read_u8 too_short
  indexed ← lift (indexed_from indexed_byte)
  min ← read_optional
  max ← read_optional
  regex_ref ← read_slice too_short 24
  enum_ref ← read_slice too_short 24
  precision ← read_u8 too_short
  template_len ← read_u8 too_short
  template ← read_text "EntityAttribute format template truncated" template_len
  pure (record {
    prototype = prototype;
    cardinality = cardinality;
    nullable = nullable;
    indexed = indexed;
    validation = record {
      min = min;
      max = max;
      regex_ref = regex_ref;
      enum_ref = enum_ref;
      precision = precision;
    };
    format = record { template = template };
  })

abbrev pub fixed_len : ℕ
fixed_len = 72

unfoldable pub decode : List ℕ → Result Error EntityAttribute
unfolding read_attribute
decode buf =
    if ltb (length buf) fixed_len then err (invalid_value too_short) else run read_attribute buf

-- What a program can hold in an attribute, with a template that is not cut.
abbrev pub IsOptional : Option ℕ → Type 0
IsOptional none = Unit {0}
IsOptional (some v) = v < 2 ^ 64

pub record IsAttribute (a : EntityAttribute) : Type 0 where
  pub min_fits : IsOptional a.validation.min
  pub max_fits : IsOptional a.validation.max
  pub regex_fits : IsTuid a.validation.regex_ref
  pub enum_fits : IsTuid a.validation.enum_ref
  pub template_fits : length a.format.template ≤ format_template_max
  pub template_text : IsText a.format.template

optional-Decodes : (o : Option ℕ) → IsOptional o → Decodes read_optional (optional_le o) o
unfolding read_optional optional_le le_bound
optional-Decodes none h =
    bind-Decodes _ (flag-Decodes _ false) (last-Decodes _ (le-Decodes _ 8 0 (omega arith)))
optional-Decodes (some v) h =
    bind-Decodes _ (flag-Decodes _ true) (last-Decodes _ (le-Decodes _ 8 v h))

cardinality_from-byte : (c : Cardinality) → cardinality_from (cardinality_byte c) ≡ ok c
unfolding cardinality_from cardinality_byte
cardinality_from-byte single = refl
cardinality_from-byte multiple = refl

indexed_from-byte : (i : Indexed) → indexed_from (indexed_byte i) ≡ ok i
unfolding indexed_from indexed_byte
indexed_from-byte not_indexed = refl
indexed_from-byte bitmap = refl
indexed_from-byte btree = refl

length-optional_le : (o : Option ℕ) → length (optional_le o) ≡ 9
unfolding optional_le
length-optional_le none = omega (arith, length-to_le 8 0)
length-optional_le (some v) = omega (arith, length-to_le 8 v)

length-encode : (a : EntityAttribute) → IsAttribute a → fixed_len ≤ length (encode a)
unfolding encode
length-encode a fits =
    omega (arith, length-append {0}, length-optional_le, fits.regex_fits, fits.enum_fits)

attribute-Decodes : (a : EntityAttribute) → IsAttribute a → Decodes read_attribute (encode a) a
unfolding read_attribute encode
attribute-Decodes a fits =
    let whole : truncate_utf8 a.format.template format_template_max ≡ a.format.template =
      truncate_utf8-short a.format.template format_template_max fits.template_fits in
    rw whole (
      bind-Decodes _ (u8-Decodes _) (
        check-Decodes _ (lift-Decodes (tag_from_u8-tag_byte a.prototype)) (
          bind-Decodes _ (u8-Decodes _) (
            check-Decodes _ (lift-Decodes (cardinality_from-byte a.cardinality)) (
              bind-Decodes _ (flag-Decodes _ a.nullable) (
                bind-Decodes _ (u8-Decodes _) (
                  check-Decodes _ (lift-Decodes (indexed_from-byte a.indexed)) (
                    bind-Decodes _ (optional-Decodes a.validation.min fits.min_fits) (
                      bind-Decodes _ (optional-Decodes a.validation.max fits.max_fits) (
                        bind-Decodes _ (slice-Decodes _ fits.regex_fits) (
                          bind-Decodes _ (slice-Decodes _ fits.enum_fits) (
                            bind-Decodes _ (u8-Decodes _) (
                              bind-Decodes _
                                (length_byte-Decodes _ (length a.format.template)
                                  (omega (arith, fits.template_fits)))
                                (last-Decodes _
                                  (text-Decodes _ refl fits.template_text)))))))))))))))

-- An attribute that a program can hold, whose template is a text of at most 32 bytes, is read back
-- from its encoding.
pub attribute_round_trip : (a : EntityAttribute) → IsAttribute a → decode (encode a) ≡ ok a
unfolding decode
attribute_round_trip a fits =
    let long : ltb (length (encode a)) fixed_len ≡ false = ground (arith, length-encode a fits) in
    rw long (run-Decodes (attribute-Decodes a fits))
