-- ===== src/Catalog/Bodies/Link.antt =====
-- crates/gems-catalog/src/link.rs. An `i64` is its bit pattern.
use gems.Prelude.{
  ℕ, ◌^◌, ◌<◌, ◌≡◌, refl, Bool, true, false, Option, none, some, List, [], ◌∷◌, ◌++◌, length, ◌==◌,
  if◌then◌else◌, ltb, get_or, All, arith,
}
use gems.Prelude.Results.{Result, Error, ok, err, invalid_value}
use gems.Codec.Bytes.{to_le}
use gems.Codec.Cursor.{Reader, ◌>>=◌, pure, lift, run, Decodes}
use gems.Codec.Decodes.{bind-Decodes, check-Decodes, last-Decodes, lift-Decodes, run-Decodes}
use gems.Codec.Fields.{bool_byte, flag, read_flag, flag-Decodes}
use gems.Catalog.Header.{Tuid}
use gems.Catalog.Util.{
  read_u8, read_i64, read_tuid, read_tuid_list, write_tuid_list, FitsU16, IsTuid, read_u8-Decodes,
  read_i64-Decodes, read_tuid-Decodes, tuid_list-Decodes,
}

pub record LinkType : Type 0 where
  pub directional : Bool
  pub temporal_allowed : Bool

unfoldable pub encode_link_type : LinkType → List ℕ
encode_link_type t = bool_byte t.directional ∷ bool_byte t.temporal_allowed ∷ []

unfoldable pub decode_link_type : List ℕ → Result Error LinkType
decode_link_type buf =
    if ltb (length buf) 2
    then err (invalid_value "LinkType buffer too short")
    else ok
        (record { directional = flag (get_or buf 0 0); temporal_allowed = flag (get_or buf 1 0) })

pub data LinkTemporality : Type 0 where
  constant temporal : LinkTemporality

pub record Link : Type 0 where
  pub source : List Tuid
  pub target : List Tuid
  pub link_type : Tuid
  pub temporality : LinkTemporality
  pub from : Option ℕ
  pub to : Option ℕ

unfoldable pub write_optional_i64 : Option ℕ → List ℕ
write_optional_i64 (some v) = (1 ∷ []) ++ to_le 8 v
write_optional_i64 none = (0 ∷ []) ++ to_le 8 0

abbrev pub then_some : Bool → ℕ → Option ℕ
then_some true v = some v
then_some false v = none

unfoldable pub read_optional_i64 : Reader (Option ℕ)
unfolding read_i64
read_optional_i64 = do
  present ← read_flag "buffer truncated reading u8"
  value ← read_i64
  pure (then_some present value)

unfoldable pub temporality_byte : LinkTemporality → ℕ
temporality_byte constant = 0
temporality_byte temporal = 1

unfoldable pub temporality_from : ℕ → Result Error LinkTemporality
temporality_from b =
    if b == 0
    then ok constant
    else if b == 1
    then ok temporal
    else err (invalid_value "unknown link temporality")

unfoldable pub encode : Link → List ℕ
unfolding write_tuid_list temporality_byte write_optional_i64
encode l =
    write_tuid_list l.source
    ++ (write_tuid_list l.target
        ++ (l.link_type
            ++ ((temporality_byte l.temporality ∷ [])
                ++ (write_optional_i64 l.from ++ write_optional_i64 l.to))))

unfoldable pub read_link : Reader Link
unfolding read_tuid_list read_tuid read_u8 temporality_from read_optional_i64
read_link = do
  source ← read_tuid_list
  target ← read_tuid_list
  link_type ← read_tuid
  byte ← read_u8
  temporality ← lift (temporality_from byte)
  from ← read_optional_i64
  to ← read_optional_i64
  pure (record {
    source = source;
    target = target;
    link_type = link_type;
    temporality = temporality;
    from = from;
    to = to;
  })

unfoldable pub decode : List ℕ → Result Error Link
unfolding read_link
decode = run read_link

abbrev pub IsInstant : Option ℕ → Type 0
IsInstant none = Unit {0}
IsInstant (some v) = v < 2 ^ 64

pub record IsLink (l : Link) : Type 0 where
  pub source_fits : FitsU16 (length l.source)
  pub each_source : All IsTuid l.source
  pub target_fits : FitsU16 (length l.target)
  pub each_target : All IsTuid l.target
  pub link_type_fits : IsTuid l.link_type
  pub from_fits : IsInstant l.from
  pub to_fits : IsInstant l.to

temporality_from-byte : (t : LinkTemporality) → temporality_from (temporality_byte t) ≡ ok t
unfolding temporality_from temporality_byte
temporality_from-byte constant = refl
temporality_from-byte temporal = refl

instant-Decodes : (o : Option ℕ) → IsInstant o → Decodes read_optional_i64 (write_optional_i64 o) o
unfolding read_optional_i64 write_optional_i64
instant-Decodes none h =
    bind-Decodes _ (flag-Decodes _ false) (last-Decodes _ (read_i64-Decodes 0 (omega arith)))
instant-Decodes (some v) h =
    bind-Decodes _ (flag-Decodes _ true) (last-Decodes _ (read_i64-Decodes v h))

-- A link is read back from its encoding.
pub link_round_trip : (l : Link) → IsLink l → decode (encode l) ≡ ok l
unfolding decode encode read_link
link_round_trip l fits = run-Decodes (
    bind-Decodes _ (tuid_list-Decodes l.source fits.source_fits fits.each_source) (
      bind-Decodes _ (tuid_list-Decodes l.target fits.target_fits fits.each_target) (
        bind-Decodes _ (read_tuid-Decodes fits.link_type_fits) (
          bind-Decodes _ read_u8-Decodes (
            check-Decodes _ (lift-Decodes (temporality_from-byte l.temporality)) (
              bind-Decodes _ (instant-Decodes l.from fits.from_fits)
                (last-Decodes _ (instant-Decodes l.to fits.to_fits))))))))

-- A link type is read back from its encoding.
pub link_type_round_trip : (t : LinkType) → decode_link_type (encode_link_type t) ≡ ok t
unfolding decode_link_type encode_link_type
link_type_round_trip t = ground arith
