-- ===== src/Codec/Fields.antt =====
-- Fields that several encodings share: a flag in one byte, and a text of a given length.
use Prim.Native.String.{String}
use gems.Prelude.{
  ℕ, ◌≡◌, subst, Bool, true, false, not, List, [], ◌∷◌, length, ◌==◌, ◌%◌, ◌<◌, arith, ◌^◌,
}
use gems.Prelude.Utf8.{from_utf8_lossy, IsText}
use gems.Codec.Bytes.{to_le, le_bound}
use gems.Codec.Cursor.{Reader, ◌>>=◌, pure, read_u8, read_slice, read_le, Decodes}
use gems.Codec.Decodes.{u8-Decodes, slice-Decodes, last-Decodes, le-Decodes}

-- `b as u8`
abbrev pub bool_byte : Bool → ℕ
bool_byte true = 1
bool_byte false = 0

-- `b != 0`
abbrev pub flag : ℕ → Bool
flag b = not (b == 0)

unfoldable pub read_flag : String → Reader Bool
read_flag detail = do b ← read_u8 detail; pure (flag b)

unfoldable pub read_text : String → ℕ → Reader (List ℕ)
unfolding from_utf8_lossy
read_text detail len = do bytes ← read_slice detail len; pure (from_utf8_lossy bytes)

pub flag-Decodes : (detail : String) (b : Bool) → Decodes (read_flag detail) (bool_byte b ∷ []) b
unfolding read_flag
flag-Decodes detail true = last-Decodes flag (u8-Decodes detail)
flag-Decodes detail false = last-Decodes flag (u8-Decodes detail)

pub text-Decodes :
    (detail : String) {len : ℕ} {s : List ℕ}
    → length s ≡ len
    → IsText s
    → Decodes (read_text detail len) s s
unfolding read_text
text-Decodes detail {len} {s} e text =
    subst (λ v. Decodes (read_text detail len) s v) text
      (last-Decodes from_utf8_lossy (slice-Decodes detail e))

-- A length below 256 that is written as a byte.
pub length_byte-Decodes :
    (detail : String) (n : ℕ) → n < 256 → Decodes (read_u8 detail) (n % 256 ∷ []) n
length_byte-Decodes detail n h = let same : n % 256 ≡ n = omega arith in rw same (u8-Decodes detail)

pub u16-Decodes : (detail : String) (n : ℕ) → n < 2 ^ 16 → Decodes (read_le detail 2) (to_le 2 n) n
unfolding le_bound
u16-Decodes detail n h = le-Decodes detail 2 n h

pub u32-Decodes : (detail : String) (n : ℕ) → n < 2 ^ 32 → Decodes (read_le detail 4) (to_le 4 n) n
unfolding le_bound
u32-Decodes detail n h = le-Decodes detail 4 n h

pub u64-Decodes : (detail : String) (n : ℕ) → n < 2 ^ 64 → Decodes (read_le detail 8) (to_le 8 n) n
unfolding le_bound
u64-Decodes detail n h = le-Decodes detail 8 n h

-- A length that is written as a `u32`.
pub count32-Decodes :
    (detail : String) (n : ℕ) → n < 2 ^ 32 → Decodes (read_le detail 4) (to_le 4 (n % 2 ^ 32)) n
count32-Decodes detail n h =
    let same : n % 2 ^ 32 ≡ n = omega arith in rw same (u32-Decodes detail n h)

-- A length that is written as a `u16`.
pub count16-Decodes :
    (detail : String) (n : ℕ) → n < 2 ^ 16 → Decodes (read_le detail 2) (to_le 2 (n % 2 ^ 16)) n
count16-Decodes detail n h =
    let same : n % 2 ^ 16 ≡ n = omega arith in rw same (u16-Decodes detail n h)
