-- ===== src/Codec/Tag.antt =====
-- The type tags of crates/gems-codec/src/gbv.rs.
use gems.Prelude.{ℕ, ◌≡◌, refl, ◌==◌, if◌then◌else◌}
use gems.Prelude.Results.{Result, Error, ok, err, invalid_value}

pub data TypeTag : Type 0 where
  int64 float64 boolean str bin point_2d point_3d poly_2d poly_3d geo_2d geo_3d : TypeTag
  ipv4 ipv6 cidr4 cidr6 regex currency date_time duration uuid enum_ref : TypeTag
  array entity_ref : TypeTag

-- `tag as u8`
unfoldable pub tag_byte : TypeTag → ℕ
tag_byte int64 = 0
tag_byte float64 = 1
tag_byte boolean = 2
tag_byte str = 3
tag_byte bin = 4
tag_byte point_2d = 5
tag_byte point_3d = 6
tag_byte poly_2d = 7
tag_byte poly_3d = 8
tag_byte geo_2d = 9
tag_byte geo_3d = 10
tag_byte ipv4 = 11
tag_byte ipv6 = 12
tag_byte cidr4 = 13
tag_byte cidr6 = 14
tag_byte regex = 15
tag_byte currency = 16
tag_byte date_time = 17
tag_byte duration = 18
tag_byte uuid = 19
tag_byte enum_ref = 20
tag_byte array = 21
tag_byte entity_ref = 22

unfoldable pub tag_from_u8 : ℕ → Result Error TypeTag
tag_from_u8 v =
    if v == 0
    then ok int64
    else if v == 1
    then ok float64
    else if v == 2
    then ok boolean
    else if v == 3
    then ok str
    else if v == 4
    then ok bin
    else if v == 5
    then ok point_2d
    else if v == 6
    then ok point_3d
    else if v == 7
    then ok poly_2d
    else if v == 8
    then ok poly_3d
    else if v == 9
    then ok geo_2d
    else if v == 10
    then ok geo_3d
    else if v == 11
    then ok ipv4
    else if v == 12
    then ok ipv6
    else if v == 13
    then ok cidr4
    else if v == 14
    then ok cidr6
    else if v == 15
    then ok regex
    else if v == 16
    then ok currency
    else if v == 17
    then ok date_time
    else if v == 18
    then ok duration
    else if v == 19
    then ok uuid
    else if v == 20
    then ok enum_ref
    else if v == 21
    then ok array
    else if v == 22
    then ok entity_ref
    else err (invalid_value "unknown GBV type tag")

pub tag_from_u8-tag_byte : (t : TypeTag) → tag_from_u8 (tag_byte t) ≡ ok t
unfolding tag_from_u8 tag_byte
tag_from_u8-tag_byte int64 = refl
tag_from_u8-tag_byte float64 = refl
tag_from_u8-tag_byte boolean = refl
tag_from_u8-tag_byte str = refl
tag_from_u8-tag_byte bin = refl
tag_from_u8-tag_byte point_2d = refl
tag_from_u8-tag_byte point_3d = refl
tag_from_u8-tag_byte poly_2d = refl
tag_from_u8-tag_byte poly_3d = refl
tag_from_u8-tag_byte geo_2d = refl
tag_from_u8-tag_byte geo_3d = refl
tag_from_u8-tag_byte ipv4 = refl
tag_from_u8-tag_byte ipv6 = refl
tag_from_u8-tag_byte cidr4 = refl
tag_from_u8-tag_byte cidr6 = refl
tag_from_u8-tag_byte regex = refl
tag_from_u8-tag_byte currency = refl
tag_from_u8-tag_byte date_time = refl
tag_from_u8-tag_byte duration = refl
tag_from_u8-tag_byte uuid = refl
tag_from_u8-tag_byte enum_ref = refl
tag_from_u8-tag_byte array = refl
tag_from_u8-tag_byte entity_ref = refl
