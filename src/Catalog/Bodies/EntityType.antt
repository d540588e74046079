-- ===== src/Catalog/Bodies/EntityType.antt =====
-- crates/gems-catalog/src/entity_type.rs
use gems.Prelude.{
  ℕ, ◌%◌, ◌^◌, ◌≡◌, refl, Bool, not, ◌&&◌, Option, List, [], ◌∷◌, ◌++◌, map, length, ◌==◌,
  if◌then◌else◌, All, All-map,
}
use gems.Prelude.Results.{Result, Error, ok, err, invalid_value}
use gems.Codec.Bytes.{to_le}
use gems.Codec.Cursor.{Reader, ◌>>=◌, pure, lift, repeat, run, Decodes}
use gems.Codec.Decodes.{
  bind-Decodes, check-Decodes, last-Decodes, lift-Decodes, repeat-map-Decodes, run-Decodes,
  concat_map,
}
use gems.Codec.Fields.{bool_byte, read_flag, flag-Decodes}
use gems.Catalog.Header.{Tuid, contains_tuid}
use gems.Catalog.Util.{
  read_u8, read_u16, read_tuid, read_tuid_list, read_optional_bytes, write_tuid_list,
  write_optional_bytes, FitsU16, IsTuid, IsOptional, filled, read_u8-Decodes, count-Decodes,
  read_tuid-Decodes, tuid_list-Decodes, optional-Decodes,
}

pub data EntityTypeKind : Type 0 where
  structural auxiliary : EntityTypeKind

pub record AttributeRef : Type 0 where
  pub attribute_id : Tuid
  pub required : Bool
  pub default : Option (List ℕ)

pub record EntityType : Type 0 where
  pub kind : EntityTypeKind
  pub attributes : List AttributeRef
  pub compatible_with : List Tuid
  pub incompatible_with : List Tuid

unfoldable pub is_compatible_with : EntityType → Tuid → Bool
unfolding contains_tuid
is_compatible_with t other =
    not (contains_tuid t.incompatible_with other) && contains_tuid t.compatible_with other

unfoldable pub type_kind_byte : EntityTypeKind → ℕ
type_kind_byte structural = 0
type_kind_byte auxiliary = 1

unfoldable pub attribute_ref_bytes : AttributeRef → List ℕ
unfolding write_optional_bytes
attribute_ref_bytes a =
    a.attribute_id ++ ((bool_byte a.required ∷ []) ++ write_optional_bytes a.default)

unfoldable pub encode : EntityType → List ℕ
unfolding type_kind_byte write_tuid_list attribute_ref_bytes
encode t =
    (type_kind_byte t.kind ∷ [])
    ++ (to_le 2 (length t.attributes % 2 ^ 16)
        ++ (concat_map attribute_ref_bytes t.attributes
            ++ (write_tuid_list t.compatible_with ++ write_tuid_list t.incompatible_with)))

unfoldable pub type_kind_from : ℕ → Result Error EntityTypeKind
type_kind_from b =
    if b == 0
    then ok structural
    else if b == 1
    then ok auxiliary
    else err (invalid_value "unknown EntityType kind")

unfoldable pub read_attribute_ref : Reader AttributeRef
unfolding read_tuid read_optional_bytes
read_attribute_ref = do
  attribute_id ← read_tuid
  required ← read_flag "buffer truncated reading u8"
  default ← read_optional_bytes
  pure (record { attribute_id = attribute_id; required = required; default = default })

unfoldable pub read_entity_type : Reader EntityType
unfolding read_u8 type_kind_from read_u16 read_attribute_ref read_tuid_list
read_entity_type = do
  kind_byte ← read_u8
  kind ← lift (type_kind_from kind_byte)
  attr_count ← read_u16
  attributes ← repeat attr_count read_attribute_ref
  compatible_with ← read_tuid_list
  incompatible_with ← read_tuid_list
  pure (record {
    kind = kind;
    attributes = attributes;
    compatible_with = compatible_with;
    incompatible_with = incompatible_with;
  })

unfoldable pub decode : List ℕ → Result Error EntityType
unfolding read_entity_type
decode = run read_entity_type

abbrev pub IsAttributeRef : AttributeRef → Type 0
IsAttributeRef a = IsTuid a.attribute_id × IsOptional a.default

-- The lists of a type that its encoding can count.
pub record IsEntityType (t : EntityType) : Type 0 where
  pub attributes_fit : FitsU16 (length t.attributes)
  pub each_attribute : All IsAttributeRef t.attributes
  pub compatible_fit : FitsU16 (length t.compatible_with)
  pub each_compatible : All IsTuid t.compatible_with
  pub incompatible_fit : FitsU16 (length t.incompatible_with)
  pub each_incompatible : All IsTuid t.incompatible_with

type_kind_from-byte : (k : EntityTypeKind) → type_kind_from (type_kind_byte k) ≡ ok k
unfolding type_kind_from type_kind_byte
type_kind_from-byte structural = refl
type_kind_from-byte auxiliary = refl

abbrev filled_ref : AttributeRef → AttributeRef
filled_ref a = record a { default = filled a.default }

-- The type with no default value that is empty.
abbrev pub filled_type : EntityType → EntityType
filled_type t = record t { attributes = map filled_ref t.attributes }

attribute_ref-Decodes :
    (a : AttributeRef)
    → IsAttributeRef a
    → Decodes read_attribute_ref (attribute_ref_bytes a) (filled_ref a)
unfolding read_attribute_ref attribute_ref_bytes
attribute_ref-Decodes a (id, default) = bind-Decodes _ (read_tuid-Decodes id) (
    bind-Decodes _ (flag-Decodes _ a.required)
      (last-Decodes _ (optional-Decodes a.default default)))

-- An entity type is read back from its encoding, an empty default value as none.
pub entity_type_round_trip :
    (t : EntityType) → IsEntityType t → decode (encode t) ≡ ok (filled_type t)
unfolding decode encode read_entity_type
entity_type_round_trip t fits = run-Decodes (
    bind-Decodes _ read_u8-Decodes (
      check-Decodes _ (lift-Decodes (type_kind_from-byte t.kind)) (
        bind-Decodes _ (count-Decodes (length t.attributes) fits.attributes_fit) (
          bind-Decodes _
            (repeat-map-Decodes read_attribute_ref attribute_ref_bytes filled_ref t.attributes (
              All-map IsAttributeRef
                (λ a. Decodes read_attribute_ref (attribute_ref_bytes a) (filled_ref a))
                t.attributes attribute_ref-Decodes fits.each_attribute))
            (bind-Decodes _
              (tuid_list-Decodes t.compatible_with fits.compatible_fit fits.each_compatible)
              (last-Decodes _ (
                tuid_list-Decodes t.incompatible_with fits.incompatible_fit
                  fits.each_incompatible)))))))
