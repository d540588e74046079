-- ===== src/Common/Sha256.antt =====
-- crates/gems-common/src/sha256.rs. A word is a number below 2 ^ 32.
use Prim.Native.Nat.{bit_and, bit_xor}
use gems.Prelude.{
  ℕ, zero, suc, ◌+◌, ◌-◌, ◌*◌, ◌/◌, ◌%◌, ◌^◌, List, [], ◌∷◌, ◌++◌, length, take, drop, get_or, ◌==◌,
  if◌then◌else◌,
}

abbrev word_bound : ℕ
word_bound = 0x100000000

abbrev k : List ℕ
k =
    0x428a2f98 ∷ 0x71374491 ∷ 0xb5c0fbcf ∷ 0xe9b5dba5 ∷ 0x3956c25b ∷ 0x59f111f1 ∷ 0x923f82a4
    ∷ 0xab1c5ed5 ∷ 0xd807aa98 ∷ 0x12835b01 ∷ 0x243185be ∷ 0x550c7dc3 ∷ 0x72be5d74 ∷ 0x80deb1fe
    ∷ 0x9bdc06a7 ∷ 0xc19bf174 ∷ 0xe49b69c1 ∷ 0xefbe4786 ∷ 0x0fc19dc6 ∷ 0x240ca1cc ∷ 0x2de92c6f
    ∷ 0x4a7484aa ∷ 0x5cb0a9dc ∷ 0x76f988da ∷ 0x983e5152 ∷ 0xa831c66d ∷ 0xb00327c8 ∷ 0xbf597fc7
    ∷ 0xc6e00bf3 ∷ 0xd5a79147 ∷ 0x06ca6351 ∷ 0x14292967 ∷ 0x27b70a85 ∷ 0x2e1b2138 ∷ 0x4d2c6dfc
    ∷ 0x53380d13 ∷ 0x650a7354 ∷ 0x766a0abb ∷ 0x81c2c92e ∷ 0x92722c85 ∷ 0xa2bfe8a1 ∷ 0xa81a664b
    ∷ 0xc24b8b70 ∷ 0xc76c51a3 ∷ 0xd192e819 ∷ 0xd6990624 ∷ 0xf40e3585 ∷ 0x106aa070 ∷ 0x19a4c116
    ∷ 0x1e376c08 ∷ 0x2748774c ∷ 0x34b0bcb5 ∷ 0x391c0cb3 ∷ 0x4ed8aa4a ∷ 0x5b9cca4f ∷ 0x682e6ff3
    ∷ 0x748f82ee ∷ 0x78a5636f ∷ 0x84c87814 ∷ 0x8cc70208 ∷ 0x90befffa ∷ 0xa4506ceb ∷ 0xbef9a3f7
    ∷ 0xc67178f2 ∷ []

-- The eight words `h`, and the working variables.
pub record Words : Type 0 where
  pub a : ℕ
  pub b : ℕ
  pub c : ℕ
  pub d : ℕ
  pub e : ℕ
  pub f : ℕ
  pub g : ℕ
  pub hh : ℕ

abbrev h0 : Words
h0 = record {
  a = 0x6a09e667;
  b = 0xbb67ae85;
  c = 0x3c6ef372;
  d = 0xa54ff53a;
  e = 0x510e527f;
  f = 0x9b05688c;
  g = 0x1f83d9ab;
  hh = 0x5be0cd19;
}

abbrev pub output_len : ℕ
output_len = 32

abbrev wrapping_add : ℕ → ℕ → ℕ
wrapping_add x y = (x + y) % word_bound

abbrev rotate_right : ℕ → ℕ → ℕ
rotate_right x n = x / 2 ^ n + x % 2 ^ n * 2 ^ (32 - n)

abbrev complement : ℕ → ℕ
complement x = 0xffffffff - x

-- `while padded.len() % 64 != 56 { padded.push(0) }`; the first argument bounds the rounds.
unfoldable pub push_zeros : ℕ → List ℕ → List ℕ
push_zeros zero padded = padded
push_zeros (suc n) padded =
    let rest = push_zeros n (padded ++ (0 ∷ [])) in
    if length padded % 64 == 56 then padded else rest

-- The `w` low bytes of `n`, the highest first.
unfoldable pub to_be : ℕ → ℕ → List ℕ
to_be zero n = []
to_be (suc w) n = to_be w (n / 256) ++ (n % 256 ∷ [])

unfoldable pub from_be : ℕ → List ℕ → ℕ
from_be acc [] = acc
from_be acc (b ∷ bs) = from_be (acc * 256 + b) bs

unfoldable pub pad : List ℕ → List ℕ
unfolding push_zeros to_be
pad input =
    let bit_len = length input * 8 % 2 ^ 64 in
    push_zeros 64 (input ++ (0x80 ∷ [])) ++ to_be 8 bit_len

-- The words of a chunk.
unfoldable pub words_of : ℕ → List ℕ → List ℕ
unfolding from_be
words_of zero chunk = []
words_of (suc n) chunk = from_be 0 (take 4 chunk) ∷ words_of n (drop 4 chunk)

-- `w[i]`, where `w` holds the words before it.
unfoldable pub next_word : List ℕ → ℕ
next_word w =
    let i = length w in
    let x = get_or w (i - 15) 0 in
    let y = get_or w (i - 2) 0 in
    let s0 = bit_xor (bit_xor (rotate_right x 7) (rotate_right x 18)) (x / 2 ^ 3) in
    let s1 = bit_xor (bit_xor (rotate_right y 17) (rotate_right y 19)) (y / 2 ^ 10) in
    wrapping_add (wrapping_add (wrapping_add (get_or w (i - 16) 0) s0) (get_or w (i - 7) 0)) s1

unfoldable pub extend_words : ℕ → List ℕ → List ℕ
unfolding next_word
extend_words zero w = w
extend_words (suc n) w = extend_words n (w ++ (next_word w ∷ []))

unfoldable pub hash_round : ℕ → ℕ → Words → Words
hash_round ki wi v =
    let s1 = bit_xor (bit_xor (rotate_right v.e 6) (rotate_right v.e 11)) (rotate_right v.e 25) in
    let ch = bit_xor (bit_and v.e v.f) (bit_and (complement v.e) v.g) in
    let temp1 = wrapping_add (wrapping_add (wrapping_add (wrapping_add v.hh s1) ch) ki) wi in
    let s0 = bit_xor (bit_xor (rotate_right v.a 2) (rotate_right v.a 13)) (rotate_right v.a 22) in
    let maj = bit_xor (bit_xor (bit_and v.a v.b) (bit_and v.a v.c)) (bit_and v.b v.c) in
    let temp2 = wrapping_add s0 maj in
    record {
      a = wrapping_add temp1 temp2;
      b = v.a;
      c = v.b;
      d = v.c;
      e = wrapping_add v.d temp1;
      f = v.e;
      g = v.f;
      hh = v.g;
    }

-- `for i in 0..64`
unfoldable pub hash_rounds : List ℕ → List ℕ → Words → Words
unfolding hash_round
hash_rounds [] ws v = v
hash_rounds (ki ∷ ks) [] v = v
hash_rounds (ki ∷ ks) (wi ∷ ws) v = hash_rounds ks ws (hash_round ki wi v)

unfoldable pub add_words : Words → Words → Words
add_words h v = record {
  a = wrapping_add h.a v.a;
  b = wrapping_add h.b v.b;
  c = wrapping_add h.c v.c;
  d = wrapping_add h.d v.d;
  e = wrapping_add h.e v.e;
  f = wrapping_add h.f v.f;
  g = wrapping_add h.g v.g;
  hh = wrapping_add h.hh v.hh;
}

unfoldable pub hash_chunk : Words → List ℕ → Words
unfolding words_of extend_words hash_rounds add_words
hash_chunk h chunk = add_words h (hash_rounds k (extend_words 48 (words_of 16 chunk)) h)

-- `for chunk in chunks`, of which there are `n`; what is left behind them is ignored.
unfoldable pub hash_chunks : ℕ → Words → List ℕ → Words
unfolding hash_chunk
hash_chunks zero h padded = h
hash_chunks (suc n) h padded = hash_chunks n (hash_chunk h (take 64 padded)) (drop 64 padded)

unfoldable pub digest : Words → List ℕ
unfolding to_be
digest h =
    to_be 4 h.a
    ++ to_be 4 h.b
    ++ to_be 4 h.c
    ++ to_be 4 h.d
    ++ to_be 4 h.e
    ++ to_be 4 h.f
    ++ to_be 4 h.g
    ++ to_be 4 h.hh

unfoldable pub hash_padded : List ℕ → Words
unfolding hash_chunks
hash_padded padded = hash_chunks (length padded / 64) h0 padded

unfoldable pub sha256 : List ℕ → List ℕ
unfolding pad hash_padded digest
sha256 input = digest (hash_padded (pad input))
