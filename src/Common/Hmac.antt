-- ===== src/Common/Hmac.antt =====
-- crates/gems-common/src/hmac.rs
use Prim.Native.Nat.{bit_or, bit_xor}
use gems.Prelude.{
  ℕ, ◌-◌, ◌≡◌, ◌↔◌, refl, ap, Bool, true, false, List, [], ◌∷◌, ◌++◌, length, map, replicate, ltb,
  ◌==◌, if◌then◌else◌, arith, not, ==_iff,
}
use gems.Common.Sha256.{sha256, output_len}
use gems.Common.Padding.{length-sha256}
use gems.Common.Bits.{bit_xor_self, bit_xor-zero, bit_or-zero}

abbrev block_len : ℕ
block_len = 64

abbrev pub tag_len : ℕ
tag_len = output_len

-- A short key is copied into a block of zeros.
unfoldable pub block_key : List ℕ → List ℕ
unfolding sha256
block_key key =
    if ltb block_len (length key)
    then sha256 key ++ replicate (block_len - output_len) 0
    else key ++ replicate (block_len - length key) 0

unfoldable pub hmac_sha256 : List ℕ → List ℕ → List ℕ
unfolding block_key sha256
hmac_sha256 key message =
    let ipad = map (λ b. bit_xor 0x36 b) (block_key key) in
    let opad = map (λ b. bit_xor 0x5c b) (block_key key) in
    let inner_hash = sha256 (ipad ++ message) in sha256 (opad ++ inner_hash)

pub length-hmac_sha256 : (key message : List ℕ) → length (hmac_sha256 key message) ≡ tag_len
unfolding hmac_sha256
length-hmac_sha256 key message =
    let opad = map (λ b. bit_xor 0x5c b) (block_key key) in
    let ipad = map (λ b. bit_xor 0x36 b) (block_key key) in
    length-sha256 (opad ++ sha256 (ipad ++ message))

-- `for (x, y) in a.iter().zip(b.iter()) { diff |= x ^ y }`
unfoldable pub diff_of : ℕ → List ℕ → List ℕ → ℕ
diff_of diff [] b = diff
diff_of diff (x ∷ xs) [] = diff
diff_of diff (x ∷ xs) (y ∷ ys) = diff_of (bit_or diff (bit_xor x y)) xs ys

unfoldable pub constant_time_eq : List ℕ → List ℕ → Bool
unfolding diff_of
constant_time_eq a b = if not (length a == length b) then false else diff_of 0 a b == 0

diff_of_self : (a : List ℕ) → diff_of 0 a a ≡ 0
unfolding diff_of
diff_of_self [] = refl
diff_of_self (x ∷ xs) = rw (bit_xor_self x) (diff_of_self xs)

diff_of-zero :
    (diff : ℕ) (a b : List ℕ) → length a ≡ length b → diff_of diff a b ≡ 0 → (diff ≡ 0) × (a ≡ b)
unfolding diff_of
diff_of-zero diff [] [] len h = (h, refl)
diff_of-zero diff [] (y ∷ ys) len h = absurd (omega (arith, len))
diff_of-zero diff (x ∷ xs) [] len h = absurd (omega (arith, len))
diff_of-zero diff (x ∷ xs) (y ∷ ys) len h =
    let rest = diff_of-zero (bit_or diff (bit_xor x y)) xs ys (omega (arith, len)) h in
    let step = bit_or-zero diff (bit_xor x y) rest.0 in
    let same : x ≡ y = bit_xor-zero x y step.1 in
    let tails : xs ≡ ys = rest.1 in (step.0, rw same (ap (λ t. y ∷ t) tails))

-- constant_time_eq accepts two byte strings exactly if they are equal.
pub constant_time_eq-exact : (a b : List ℕ) → (constant_time_eq a b ≡ true) ↔ (a ≡ b)
unfolding constant_time_eq
constant_time_eq-exact a b = (
  λ accepted. (diff_of-zero 0 a b (ground arith) (ground arith)).1,
  λ same. rw same (
      let equal : (length b == length b) ≡ true = (==_iff _ _).1 refl in
      rw equal (rw (diff_of_self b) refl)),
)
