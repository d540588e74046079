-- ===== src/Catalog/Util.antt =====
-- crates/gems-catalog/src/util.rs: the primitives of the encodings of entity bodies. A text is the
-- bytes of its UTF-8 form, and a signed number its bit pattern.
use gems.Prelude.{
  ℕ, ◌%◌, ◌^◌, ◌<◌, ◌≡◌, refl, subst, Option, none, some, List, [], ◌∷◌, ◌++◌, length, All, All-map,
  arith,
}
use gems.Prelude.Utf8.{from_utf8_lossy, IsText}
use gems.Codec.Bytes.{to_le, le_bound}
use gems.Codec.Cursor
use gems.Codec.Cursor.{Reader, ◌>>=◌, pure, read_slice, read_le, repeat, Decodes}
use gems.Codec.Decodes.{
  slice-Decodes, u8-Decodes, le-Decodes, bind-Decodes, last-Decodes, repeat-Decodes, concat_map,
}
use gems.Catalog.Header.{Tuid}

unfoldable pub read_u8 : Reader ℕ
read_u8 = Cursor.read_u8 "buffer truncated reading u8"

unfoldable pub read_bytes : ℕ → Reader (List ℕ)
read_bytes len = read_slice "buffer truncated" len

unfoldable pub read_u16 : Reader ℕ
read_u16 = read_le "buffer truncated" 2

unfoldable pub read_i64 : Reader ℕ
read_i64 = read_le "buffer truncated" 8

unfoldable pub read_tuid : Reader Tuid
read_tuid = read_slice "buffer truncated" 24

unfoldable pub write_u16_prefixed : List ℕ → List ℕ
write_u16_prefixed bytes = to_le 2 (length bytes % 2 ^ 16) ++ bytes

unfoldable pub read_u16_prefixed : Reader (List ℕ)
unfolding read_u16 read_bytes
read_u16_prefixed = do len ← read_u16; read_bytes len

unfoldable pub write_string_prefixed : List ℕ → List ℕ
unfolding write_u16_prefixed
write_string_prefixed s = write_u16_prefixed s

unfoldable pub read_string_prefixed : Reader (List ℕ)
unfolding read_u16_prefixed from_utf8_lossy
read_string_prefixed = do bytes ← read_u16_prefixed; pure (from_utf8_lossy bytes)

unfoldable pub write_tuid_list : List Tuid → List ℕ
write_tuid_list list = to_le 2 (length list % 2 ^ 16) ++ concat_map (λ t. t) list

unfoldable pub read_tuid_list : Reader (List Tuid)
unfolding read_u16 read_tuid
read_tuid_list = do count ← read_u16; repeat count read_tuid

unfoldable pub write_optional_bytes : Option (List ℕ) → List ℕ
unfolding write_u16_prefixed
write_optional_bytes (some b) = write_u16_prefixed b
write_optional_bytes none = to_le 2 0

abbrev pub unless_empty : List ℕ → Option (List ℕ)
unless_empty [] = none
unless_empty (b ∷ bs) = some (b ∷ bs)

unfoldable pub read_optional_bytes : Reader (Option (List ℕ))
unfolding read_u16_prefixed
read_optional_bytes = do bytes ← read_u16_prefixed; pure (unless_empty bytes)

-- The lengths that a `u16` prefix can say.
abbrev pub FitsU16 : ℕ → Type 0
FitsU16 n = n < 2 ^ 16

abbrev pub IsTuid : Tuid → Type 0
IsTuid t = length t ≡ 24

pub read_u8-Decodes : {b : ℕ} → Decodes read_u8 (b ∷ []) b
unfolding read_u8
read_u8-Decodes = u8-Decodes _

pub read_u16-Decodes : (n : ℕ) → FitsU16 n → Decodes read_u16 (to_le 2 n) n
unfolding read_u16 le_bound
read_u16-Decodes n h = le-Decodes _ 2 n h

pub read_i64-Decodes : (n : ℕ) → n < 2 ^ 64 → Decodes read_i64 (to_le 8 n) n
unfolding read_i64 le_bound
read_i64-Decodes n h = le-Decodes _ 8 n h

pub read_tuid-Decodes : {t : Tuid} → IsTuid t → Decodes read_tuid t t
unfolding read_tuid
read_tuid-Decodes h = slice-Decodes _ h

-- A length that is written behind its prefix is read back as it was.
pub count-Decodes : (n : ℕ) → FitsU16 n → Decodes read_u16 (to_le 2 (n % 2 ^ 16)) n
count-Decodes n h = let same : n % 2 ^ 16 ≡ n = omega arith in rw same (read_u16-Decodes n h)

pub prefixed-Decodes :
    (bytes : List ℕ)
    → FitsU16 (length bytes)
    → Decodes read_u16_prefixed (write_u16_prefixed bytes) bytes
unfolding read_u16_prefixed write_u16_prefixed read_bytes
prefixed-Decodes bytes h = bind-Decodes _ (count-Decodes (length bytes) h) (slice-Decodes _ refl)

pub string-Decodes :
    (s : List ℕ)
    → FitsU16 (length s)
    → IsText s
    → Decodes read_string_prefixed (write_string_prefixed s) s
unfolding read_string_prefixed write_string_prefixed
string-Decodes s h text =
    subst (λ v. Decodes read_string_prefixed (write_string_prefixed s) v) text
      (last-Decodes from_utf8_lossy (prefixed-Decodes s h))

pub tuid_list-Decodes :
    (list : List Tuid)
    → FitsU16 (length list)
    → All IsTuid list
    → Decodes read_tuid_list (write_tuid_list list) list
unfolding read_tuid_list write_tuid_list
tuid_list-Decodes list h all = bind-Decodes _ (count-Decodes (length list) h) (
    repeat-Decodes read_tuid (λ t. t) list
      (All-map IsTuid (λ t. Decodes read_tuid t t) list (λ t e. read_tuid-Decodes e) all))

abbrev pub IsOptional : Option (List ℕ) → Type 0
IsOptional none = Unit {0}
IsOptional (some b) = FitsU16 (length b)

-- An optional field that is there but empty counts as none.
abbrev pub filled : Option (List ℕ) → Option (List ℕ)
filled none = none
filled (some b) = unless_empty b

pub optional-Decodes :
    (o : Option (List ℕ))
    → IsOptional o
    → Decodes read_optional_bytes (write_optional_bytes o) (filled o)
unfolding read_optional_bytes write_optional_bytes write_u16_prefixed to_le
optional-Decodes none h = last-Decodes unless_empty (prefixed-Decodes [] (omega arith))
optional-Decodes (some b) fits = last-Decodes unless_empty (prefixed-Decodes b fits)
