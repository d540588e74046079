-- ===== src/Codec/Cursor.antt =====
-- Reading a buffer at a position that moves on, as the decoders of crates/gems-catalog and
-- crates/gems-cluster do with `buf` and `&mut pos`. A reader returns what it read and the new
-- position.
use Prim.Native.String.{String}
use gems.Prelude.{
  ℕ, zero, suc, ◌+◌, ◌≡◌, Option, none, some, List, [], ◌∷◌, ◌++◌, length, take, drop, get_elem?,
  ltb, if◌then◌else◌, Bool,
}
use gems.Prelude.Results.{Result, Error, ok, err, invalid_value}
use gems.Codec.Bytes.{from_le}

abbrev pub Reader {ℓ} : Type ℓ → Type ℓ
Reader A = List ℕ → ℕ → Result Error (A × ℕ)

abbrev after {ℓ κ} :
    {A : Type ℓ} {B : Type κ}
    → List ℕ
    → (A → Reader B)
    → Result Error (A × ℕ)
    → Result Error (B × ℕ)
after buf next (ok (a, pos)) = next a buf pos
after buf next (err e) = err e

infixl 5 ◌>>=◌ ◌>>◌
unfoldable pub ◌>>=◌ {ℓ κ} : {A : Type ℓ} {B : Type κ} → Reader A → (A → Reader B) → Reader B
◌>>=◌ rd next buf pos = after buf next (rd buf pos)

abbrev pub ◌>>◌ {ℓ κ} : {A : Type ℓ} {B : Type κ} → Reader A → Reader B → Reader B
rd >> next = rd >>= λ _. next

unfoldable pub pure {ℓ} : {A : Type ℓ} → A → Reader A
pure a buf pos = ok (a, pos)

-- A check of a value that was read.
unfoldable pub lift {ℓ} : {A : Type ℓ} → Result Error A → Reader A
lift (ok a) buf pos = ok (a, pos)
lift (err e) buf pos = err e

abbrev value {ℓ} : {A : Type ℓ} → Result Error (A × ℕ) → Result Error A
value (ok (a, pos)) = ok a
value (err e) = err e

-- A decoder that starts at the front and ignores what is left.
unfoldable pub run {ℓ} : {A : Type ℓ} → Reader A → List ℕ → Result Error A
run rd buf = value (rd buf 0)

-- `&buf[pos..pos + len]` behind a test of the length
unfoldable pub read_slice : String → ℕ → Reader (List ℕ)
read_slice detail len buf pos =
    if ltb (length buf) (pos + len)
    then err (invalid_value detail)
    else ok (take len (drop pos buf), pos + len)

abbrev byte : String → Option ℕ → ℕ → Result Error (ℕ × ℕ)
byte detail none pos = err (invalid_value detail)
byte detail (some b) pos = ok (b, pos + 1)

-- `*buf.get(*pos).ok_or(e)?`
unfoldable pub read_u8 : String → Reader ℕ
read_u8 detail buf pos = byte detail (get_elem? buf pos) pos

-- A little-endian number of `w` bytes.
unfoldable pub read_le : String → ℕ → Reader ℕ
unfolding read_slice ◌>>=◌ pure from_le
read_le detail w = read_slice detail w >>= λ bytes. pure (from_le bytes)

-- `for _ in 0..n { out.push(read(buf, &mut pos)?) }`
unfoldable pub repeat {ℓ} : {A : Type ℓ} → ℕ → Reader A → Reader (List A)
unfolding ◌>>=◌ pure
repeat zero rd = pure []
repeat (suc n) rd = do a ← rd; rest ← repeat n rd; pure (a ∷ rest)

-- `if test { return Err(e) }`, where the test looks at the buffer's length and the position.
unfoldable pub guard : (ℕ → ℕ → Bool) → Error → Reader (Unit {0})
guard test cause buf pos = if test (length buf) pos then err cause else ok (tt, pos)

-- What is left of the buffer from a position that lies in it.
pub record Rest (buf : List ℕ) (pos : ℕ) (rest : List ℕ) : Type 0 where
  pub fits : length buf ≡ pos + length rest
  pub left : drop pos buf ≡ rest

-- Wherever the bytes `bs` lie in a buffer, the reader gets `a` from them and stops behind them.
pub record Decodes {ℓ} {A : Type ℓ} (rd : Reader A) (bs : List ℕ) (a : A) : Type ℓ where
  pub reads :
      (buf : List ℕ) (pos : ℕ) (post : List ℕ)
      → Rest buf pos (bs ++ post)
      → (rd buf pos ≡ ok (a, pos + length bs)) × Rest buf (pos + length bs) post
