-- ===== src/Common/Base64Url.antt =====
-- crates/gems-common/src/base64url.rs. A string of this alphabet is the list of its bytes; a shift is written
-- as a multiplication or division, `& 0x3f` and `as u8` as a remainder.
use Prim.Native.Nat.{bit_or}
use Prim.Native.String.{String}
use gems.Prelude.{
  ℕ, ◌+◌, ◌-◌, ◌*◌, ◌/◌, ◌%◌, ◌^◌, ◌<◌, ◌≡◌, refl, ap, subst, ◌∙◌, Bool, true, false, not, ◌&&◌,
  List, [], ◌∷◌, get_or, leb, ◌==◌, ==_iff, if◌then◌else◌, All, arith,
}
use gems.Prelude.Results.{Result, ok, err, ◌>>=◌}
use gems.Prelude.Tables.{passes, passes_at}
use gems.Common.Bits.{bit_or-shifted}

-- "ABCDEFGHIJKLMNOPQRSTUVWXYZabcdefghijklmnopqrstuvwxyz0123456789-_"
abbrev alphabet : List ℕ
alphabet =
    65 ∷ 66 ∷ 67 ∷ 68 ∷ 69 ∷ 70 ∷ 71 ∷ 72 ∷ 73 ∷ 74 ∷ 75 ∷ 76 ∷ 77 ∷ 78 ∷ 79 ∷ 80 ∷ 81 ∷ 82 ∷ 83
    ∷ 84 ∷ 85 ∷ 86 ∷ 87 ∷ 88 ∷ 89 ∷ 90 ∷ 97 ∷ 98 ∷ 99 ∷ 100 ∷ 101 ∷ 102 ∷ 103 ∷ 104 ∷ 105 ∷ 106
    ∷ 107 ∷ 108 ∷ 109 ∷ 110 ∷ 111 ∷ 112 ∷ 113 ∷ 114 ∷ 115 ∷ 116 ∷ 117 ∷ 118 ∷ 119 ∷ 120 ∷ 121 ∷ 122
    ∷ 48 ∷ 49 ∷ 50 ∷ 51 ∷ 52 ∷ 53 ∷ 54 ∷ 55 ∷ 56 ∷ 57 ∷ 45 ∷ 95 ∷ []

-- `ALPHABET[(n >> shift & 0x3f) as usize]`
unfoldable symbol : ℕ → ℕ
symbol n = get_or alphabet (n % 64) 0

abbrev word : ℕ → ℕ → ℕ → ℕ
word b0 b1 b2 = bit_or (bit_or (b0 * 2 ^ 16) (b1 * 2 ^ 8)) b2

unfoldable pub encode : List ℕ → List ℕ
unfolding symbol
encode [] = []
encode (b0 ∷ []) = let n = word b0 0 0 in symbol (n / 2 ^ 18) ∷ symbol (n / 2 ^ 12) ∷ []
encode (b0 ∷ b1 ∷ []) =
    let n = word b0 b1 0 in symbol (n / 2 ^ 18) ∷ symbol (n / 2 ^ 12) ∷ symbol (n / 2 ^ 6) ∷ []
encode (b0 ∷ b1 ∷ b2 ∷ rest) =
    let n = word b0 b1 b2 in
    symbol (n / 2 ^ 18) ∷ symbol (n / 2 ^ 12) ∷ symbol (n / 2 ^ 6) ∷ symbol n ∷ encode rest

abbrev within : ℕ → ℕ → ℕ → Bool
within low c high = leb low c && leb c high

unfoldable value : ℕ → Result String ℕ
value c =
    if within 65 c 90
    then ok (c - 65)
    else if within 97 c 122
    then ok (c - 97 + 26)
    else if within 48 c 57
    then ok (c - 48 + 52)
    else if c == 45
    then ok 62
    else if c == 95
    then ok 63
    else err "invalid base64url character"

-- `bytes.contains(&b'=')`
unfoldable has_padding : List ℕ → Bool
has_padding [] = false
has_padding (c ∷ cs) = let rest = has_padding cs in if c == 61 then true else rest

abbrev pair : ℕ → ℕ → ℕ
pair v0 v1 = bit_or (v0 * 2 ^ 18) (v1 * 2 ^ 12)

-- The loop over the chunks of four.
unfoldable decode_chunks : List ℕ → Result String (List ℕ)
unfolding value
decode_chunks [] = ok []
decode_chunks (c0 ∷ []) = err "invalid base64url length"
decode_chunks (c0 ∷ c1 ∷ []) =
    value c0 >>= λ v0. value c1 >>= λ v1. ok (pair v0 v1 / 2 ^ 16 % 256 ∷ [])
decode_chunks (c0 ∷ c1 ∷ c2 ∷ []) = value c0 >>= λ v0. value c1 >>= λ v1. value c2 >>= λ v2.
    ok (pair v0 v1 / 2 ^ 16 % 256 ∷ bit_or (pair v0 v1) (v2 * 2 ^ 6) / 2 ^ 8 % 256 ∷ [])
decode_chunks (c0 ∷ c1 ∷ c2 ∷ c3 ∷ rest) = value c0 >>= λ v0. value c1 >>= λ v1. value c2 >>= λ v2.
    value c3 >>= λ v3. decode_chunks rest >>= λ more. ok (
      pair v0 v1 / 2 ^ 16 % 256
      ∷ bit_or (pair v0 v1) (v2 * 2 ^ 6) / 2 ^ 8 % 256
      ∷ bit_or (bit_or (pair v0 v1) (v2 * 2 ^ 6)) v3 % 256
      ∷ more)

unfoldable pub decode : List ℕ → Result String (List ℕ)
unfolding has_padding decode_chunks
decode input =
    if has_padding input then err "base64url input must not be padded" else decode_chunks input

abbrev is_value : Result String ℕ → ℕ → Bool
is_value (err cause) v = false
is_value (ok found) v = found == v

abbrev row : ℕ → Bool
row v = is_value (value (symbol v)) v && not (symbol v == 61)

all_rows : passes row 64 ≡ true
unfolding passes value symbol
all_rows = refl

is_value_sound : (r : Result String ℕ) (v : ℕ) → is_value r v ≡ true → r ≡ ok v
is_value_sound (err cause) v h = cc
is_value_sound (ok found) v h = ap (λ x. ok x) ((==_iff _ _).0 h)

both : (a b : Bool) → (a && not b) ≡ true → (a ≡ true) × (b ≡ false)
both true false h = (refl, refl)
both true true h = cc
both false b h = cc

symbol-mod : (v : ℕ) → symbol (v % 64) ≡ symbol v
unfolding symbol
symbol-mod v = let again : v % 64 % 64 ≡ v % 64 = omega arith in ap (λ i. get_or alphabet i 0) again

symbol-value : (v : ℕ) → (value (symbol v) ≡ ok (v % 64)) × ((symbol v == 61) ≡ false)
symbol-value v =
    let here : row (v % 64) ≡ true = passes_at row {rows = 64} all_rows (v % 64) (omega arith) in
    let same : symbol (v % 64) ≡ symbol v = symbol-mod v in
    let tested : (is_value (value (symbol v)) (v % 64) && not (symbol v == 61)) ≡ true =
      subst (λ s. (is_value (value s) (v % 64) && not (s == 61)) ≡ true) same here in
    let (is, other) = both (is_value (value (symbol v)) (v % 64)) (symbol v == 61) tested in
    (is_value_sound (value (symbol v)) (v % 64) is, other)

-- The bytes of a group as one number.
word-sum : (b0 b1 b2 : ℕ) → b1 < 256 → b2 < 256 → word b0 b1 b2 ≡ b0 * 65536 + b1 * 256 + b2
word-sum b0 b1 b2 h1 h2 =
    let high : bit_or (b0 * 2 ^ 16) (b1 * 2 ^ 8) ≡ (b0 * 256 + b1) * 2 ^ 8 =
      bit_or-shifted 16 b0 (b1 * 2 ^ 8) (omega arith) ∙ omega arith in
    ap (λ x. bit_or x b2) high ∙ (bit_or-shifted 8 (b0 * 256 + b1) b2 (omega arith) ∙ omega arith)

pair-sum : (v0 v1 : ℕ) → v1 < 64 → pair v0 v1 ≡ (v0 * 64 + v1) * 2 ^ 12
pair-sum v0 v1 h = bit_or-shifted 18 v0 (v1 * 2 ^ 12) (omega arith) ∙ omega arith

triple-sum :
    (v0 v1 v2 : ℕ)
    → v1 < 64
    → v2 < 64
    → bit_or (pair v0 v1) (v2 * 2 ^ 6) ≡ (v0 * 4096 + v1 * 64 + v2) * 2 ^ 6
triple-sum v0 v1 v2 h1 h2 =
    ap (λ x. bit_or x (v2 * 2 ^ 6)) (pair-sum v0 v1 h1)
    ∙ (bit_or-shifted 12 (v0 * 64 + v1) (v2 * 2 ^ 6) (omega arith) ∙ omega arith)

whole-sum :
    (v0 v1 v2 v3 : ℕ)
    → v1 < 64
    → v2 < 64
    → v3 < 64
    → bit_or (bit_or (pair v0 v1) (v2 * 2 ^ 6)) v3 ≡ v0 * 262144 + v1 * 4096 + v2 * 64 + v3
whole-sum v0 v1 v2 v3 h1 h2 h3 =
    ap (λ x. bit_or x v3) (triple-sum v0 v1 v2 h1 h2)
    ∙ (bit_or-shifted 6 (v0 * 4096 + v1 * 64 + v2) v3 (omega arith) ∙ omega arith)

abbrev pub IsBytes : List ℕ → Type 0
IsBytes bytes = All (λ b. b < 256) bytes

has_padding-encode : (bytes : List ℕ) → has_padding (encode bytes) ≡ false
unfolding encode has_padding
has_padding-encode [] = refl
has_padding-encode (b0 ∷ []) =
    let n = word b0 0 0 in
    rw ((symbol-value (n / 2 ^ 18)).1) (rw ((symbol-value (n / 2 ^ 12)).1) refl)
has_padding-encode (b0 ∷ b1 ∷ []) =
    let n = word b0 b1 0 in
    rw ((symbol-value (n / 2 ^ 18)).1)
      (rw ((symbol-value (n / 2 ^ 12)).1) (rw ((symbol-value (n / 2 ^ 6)).1) refl))
has_padding-encode (b0 ∷ b1 ∷ b2 ∷ rest) =
    let n = word b0 b1 b2 in
    rw ((symbol-value (n / 2 ^ 18)).1) (
      rw ((symbol-value (n / 2 ^ 12)).1)
        (rw ((symbol-value (n / 2 ^ 6)).1) (rw ((symbol-value n).1) (has_padding-encode rest))))

module _ (b0 b1 b2 : ℕ) (h0 : b0 < 256) (h1 : b1 < 256) (h2 : b2 < 256) where
  abbrev n : ℕ
  n = word b0 b1 b2

  abbrev v0 : ℕ
  v0 = n / 2 ^ 18 % 64

  abbrev v1 : ℕ
  v1 = n / 2 ^ 12 % 64

  abbrev v2 : ℕ
  v2 = n / 2 ^ 6 % 64

  sum : n ≡ b0 * 65536 + b1 * 256 + b2
  sum = word-sum b0 b1 b2 h1 h2

  first_byte : pair v0 v1 / 2 ^ 16 % 256 ≡ b0
  first_byte = omega (arith, sum, pair-sum v0 v1 (omega arith))

  second_byte : bit_or (pair v0 v1) (v2 * 2 ^ 6) / 2 ^ 8 % 256 ≡ b1
  second_byte = omega (arith, sum, triple-sum v0 v1 v2 (omega arith) (omega arith))

  third_byte : bit_or (bit_or (pair v0 v1) (v2 * 2 ^ 6)) (n % 64) % 256 ≡ b2
  third_byte =
      omega (arith, sum, whole-sum v0 v1 v2 (n % 64) (omega arith) (omega arith) (omega arith))

decode_chunks-encode : (bytes : List ℕ) → IsBytes bytes → decode_chunks (encode bytes) ≡ ok bytes
unfolding encode decode_chunks
decode_chunks-encode [] small = refl
decode_chunks-encode (b0 ∷ []) (h0, _) =
    let n = word b0 0 0 in
    rw ((symbol-value (n / 2 ^ 18)).0) (
      rw ((symbol-value (n / 2 ^ 12)).0)
        (rw (first_byte b0 0 0 h0 (omega arith) (omega arith)) refl))
decode_chunks-encode (b0 ∷ b1 ∷ []) (h0, (h1, _)) =
    let n = word b0 b1 0 in
    rw ((symbol-value (n / 2 ^ 18)).0) (
      rw ((symbol-value (n / 2 ^ 12)).0) (
        rw ((symbol-value (n / 2 ^ 6)).0) (
          rw (first_byte b0 b1 0 h0 h1 (omega arith))
            (rw (second_byte b0 b1 0 h0 h1 (omega arith)) refl))))
decode_chunks-encode (b0 ∷ b1 ∷ b2 ∷ rest) (h0, (h1, (h2, small))) =
    let n = word b0 b1 b2 in
    rw ((symbol-value (n / 2 ^ 18)).0) (
      rw ((symbol-value (n / 2 ^ 12)).0) (
        rw ((symbol-value (n / 2 ^ 6)).0) (
          rw ((symbol-value n).0) (
            rw (decode_chunks-encode rest small) (
              rw (first_byte b0 b1 b2 h0 h1 h2)
                (rw (second_byte b0 b1 b2 h0 h1 h2) (rw (third_byte b0 b1 b2 h0 h1 h2) refl)))))))

-- The base64url encoding of bytes is decoded to them.
pub decode-encode_bytes : (bytes : List ℕ) → IsBytes bytes → decode (encode bytes) ≡ ok bytes
unfolding decode
decode-encode_bytes bytes small = rw (has_padding-encode bytes) (decode_chunks-encode bytes small)
