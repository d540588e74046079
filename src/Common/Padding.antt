-- ===== src/Common/Padding.antt =====
-- The padding of crates/gems-common/src/sha256.rs, and the length of its digests.
use gems.Prelude.{
  ℕ, zero, suc, ◌+◌, ◌-◌, ◌*◌, ◌/◌, ◌%◌, ◌≤◌, ◌≡◌, refl, List, [], ◌∷◌, ◌++◌, length, take, ◌==◌,
  length-append, arith, Bool-cases, inl, inr, append_assoc, take-append_length, append-nil, ◌∙◌, ap,
  sym, ◌≢◌, ==_iff, ◌^◌,
}
use mathlib.Core.Bool.{true≢false}
use gems.Common.Sha256.{Words, push_zeros, to_be, pad, digest, hash_padded, sha256, output_len}

-- The zeros that are missing to 56 bytes of a block.
abbrev missing : ℕ → ℕ
missing n = (120 - n % 64) % 64

push_zeros_rounds :
    (n : ℕ) (p : List ℕ)
    → missing (length p) ≤ n
    → (length (push_zeros n p) ≡ length p + missing (length p))
      × (zs : List ℕ) × (push_zeros n p ≡ p ++ zs)
unfolding push_zeros
push_zeros_rounds zero p h = (omega arith, [], sym (append-nil p))
push_zeros_rounds (suc n) p h = elim (Bool-cases (length p % 64 == 56)) [
  | inl e ↦
      let done : length p % 64 ≡ 56 = (==_iff _ _).0 e in
      (rw e (omega arith), [], rw e (sym (append-nil p)))
  | inr e ↦
      let more : length p % 64 ≢ 56 = λ q. true≢false (sym ((==_iff _ _).1 q) ∙ e) in
      let longer : length (p ++ (0 ∷ [])) ≡ length p + 1 = length-append p (0 ∷ []) in
      let (len, zs, eq) = push_zeros_rounds n (p ++ (0 ∷ [])) (omega arith) in
      (rw e (omega (arith, len)), 0 ∷ zs, rw e (eq ∙ append_assoc p (0 ∷ []) zs))
]

length-to_be : (w n : ℕ) → length (to_be w n) ≡ w
unfolding to_be
length-to_be zero n = refl
length-to_be (suc w) n =
    omega (arith, length-append (to_be w (n / 256)) (n % 256 ∷ []), length-to_be w (n / 256))

length-digest : (h : Words) → length (digest h) ≡ output_len
unfolding digest
length-digest h = refl

pub length-sha256 : (input : List ℕ) → length (sha256 input) ≡ output_len
unfolding sha256
length-sha256 input = length-digest (hash_padded (pad input))

take-front :
    (input mark zs count : List ℕ) → take (length input) (((input ++ mark) ++ zs) ++ count) ≡ input
take-front input mark zs count =
    rw (append_assoc (input ++ mark) zs count) (
      rw (append_assoc input mark (zs ++ count)) (take-append_length input (mark ++ (zs ++ count))))

-- The loop of the padding ends: the padded input is a whole number of blocks, so that
-- no byte is left over, it begins with the input, and it is at least nine and at most seventy-two
-- bytes longer.
pub pad-IsWhole :
    (input : List ℕ)
    → (length (pad input) % 64 ≡ 0)
      × (length input + 9 ≤ length (pad input))
      × (length (pad input) ≤ length input + 72)
      × (take (length input) (pad input) ≡ input)
unfolding pad
pad-IsWhole input =
    let marked = input ++ (0x80 ∷ []) in
    let (len, zs, eq) = push_zeros_rounds 64 marked (omega arith) in
    let one : length marked ≡ length input + 1 = length-append input (0x80 ∷ []) in
    let count = to_be 8 (length input * 8 % 2 ^ 64) in
    let eight : length count ≡ 8 = length-to_be 8 (length input * 8 % 2 ^ 64) in
    let total = length-append (push_zeros 64 marked) count in
    (
      omega (arith, len, total),
      omega (arith, len, total),
      omega (arith, len, total),
      ap (λ p. take (length input) (p ++ count)) eq ∙ take-front input (0x80 ∷ []) zs count,
    )
