-- ===== src/Common/Bits.antt =====
-- The laws of `|`, `^` and `&` on which crates/gems-common/src/hmac.rs, base64url.rs and pagesize.rs rest.
use Prim.Native.Nat.{
  bit_and, bit_or, bit_xor, bit_and-bitwise, digits, differ, max, bit_or-bitwise, bit_xor-bitwise,
}
use native.Mathlib.Nat.{mul_assoc}
use gems.Prelude.{
  ℕ, zero, suc, ◌+◌, ◌-◌, ◌*◌, ◌/◌, ◌%◌, ◌^◌, ◌≤◌, ◌<◌, ◌≡◌, refl, sym, ap, ◌∙◌, min, arith,
}

differ-zero : (x y : ℕ) → differ x y ≡ 0 → x ≡ y
differ-zero zero y h = sym h
differ-zero (suc x) zero h = h
differ-zero (suc x) (suc y) h = ap suc (differ-zero x y h)

differ_self : (x : ℕ) → differ x x ≡ 0
differ_self zero = refl
differ_self (suc x) = differ_self x

xor_digits-zero : (n a b : ℕ) → a ≤ n → digits (λ b. b) differ n a b ≡ 0 → a ≡ b
xor_digits-zero zero zero b h e = sym e
xor_digits-zero zero (suc a) b h e = absurd (omega arith)
xor_digits-zero (suc n) zero b h e = sym e
xor_digits-zero (suc n) (suc a) b h e =
    let halves : suc a / 2 ≡ b / 2 =
      xor_digits-zero n (suc a / 2) (b / 2) (omega arith) (omega (arith, e)) in
    let ends : suc a % 2 ≡ b % 2 = differ-zero (suc a % 2) (b % 2) (omega (arith, e)) in omega arith

xor_digits_self : (n a : ℕ) → a ≤ n → digits (λ b. b) differ n a a ≡ 0
xor_digits_self zero zero h = refl
xor_digits_self zero (suc a) h = absurd (omega arith)
xor_digits_self (suc n) zero h = refl
xor_digits_self (suc n) (suc a) h =
    omega (arith, xor_digits_self n (suc a / 2) (omega arith), differ_self (suc a % 2))

or_digits-zero : (n a b : ℕ) → a ≤ n → digits (λ b. b) max n a b ≡ 0 → (a ≡ 0) × (b ≡ 0)
or_digits-zero zero zero b h e = (refl, e)
or_digits-zero zero (suc a) b h e = absurd (omega arith)
or_digits-zero (suc n) zero b h e = (refl, e)
or_digits-zero (suc n) (suc a) b h e =
    let halves = or_digits-zero n (suc a / 2) (b / 2) (omega arith) (omega (arith, e)) in
    let half : suc a / 2 ≡ 0 = halves.0 in
    let half' : b / 2 ≡ 0 = halves.1 in (omega (arith, e), omega (arith, e))

pub bit_xor_self : (a : ℕ) → bit_xor a a ≡ 0
bit_xor_self a = (λ i. bit_xor-bitwise a a i) ∙ xor_digits_self a a (omega arith)

pub bit_xor-zero : (a b : ℕ) → bit_xor a b ≡ 0 → a ≡ b
bit_xor-zero a b e = xor_digits-zero a a b (omega arith) (sym (λ i. bit_xor-bitwise a b i) ∙ e)

pub bit_or-zero : (a b : ℕ) → bit_or a b ≡ 0 → (a ≡ 0) × (b ≡ 0)
bit_or-zero a b e = or_digits-zero a a b (omega arith) (sym (λ i. bit_or-bitwise a b i) ∙ e)

-- The rounds that `digits` has beyond the first number's size change nothing.
and_digits_enough :
    (n m a b : ℕ) → a ≤ n → a ≤ m → digits (λ c. 0) min n a b ≡ digits (λ c. 0) min m a b
and_digits_enough zero zero a b h k = refl
and_digits_enough zero (suc m) zero b h k = refl
and_digits_enough (suc n) zero zero b h k = refl
and_digits_enough (suc n) (suc m) zero b h k = refl
and_digits_enough zero m (suc a) b h k = absurd (omega arith)
and_digits_enough (suc n) zero (suc a) b h k = absurd (omega arith)
and_digits_enough (suc n) (suc m) (suc a) b h k =
    ap (λ q. q * 2 + min (suc a % 2) (b % 2))
      (and_digits_enough n m (suc a / 2) (b / 2) (omega arith) (omega arith))

pub bit_and-zero_left : (b : ℕ) → bit_and 0 b ≡ 0
bit_and-zero_left b = λ i. bit_and-bitwise 0 b i

-- The lowest digit, and the rest.
pub bit_and-halves : (a b : ℕ) → bit_and a b ≡ bit_and (a / 2) (b / 2) * 2 + min (a % 2) (b % 2)
bit_and-halves zero b = omega (arith, bit_and-zero_left b, bit_and-zero_left (b / 2))
bit_and-halves (suc a) b =
    (λ i. bit_and-bitwise (suc a) b i)
    ∙ ap (λ q. q * 2 + min (suc a % 2) (b % 2))
        (and_digits_enough a (suc a / 2) (suc a / 2) (b / 2) (omega arith) (omega arith)
          ∙ sym (λ i. bit_and-bitwise (suc a / 2) (b / 2) i))

pub bit_and-double : (a b : ℕ) → bit_and a (2 * b) ≡ bit_and (a / 2) b * 2
bit_and-double a b =
    let half : 2 * b / 2 ≡ b = omega arith in
    omega (arith, bit_and-halves a (2 * b), ap (bit_and (a / 2)) half)

-- A mask of ones keeps a number that it covers.
pub bit_and-ones : (w a : ℕ) → a < 2 ^ w → bit_and a (2 ^ w - 1) ≡ a
bit_and-ones zero a h =
    let none : a ≡ 0 = omega arith in ap (λ x. bit_and x 0) none ∙ (bit_and-zero_left 0 ∙ sym none)
bit_and-ones (suc w) a h =
    let half : (2 ^ suc w - 1) / 2 ≡ 2 ^ w - 1 = omega arith in
    omega (
      arith,
      bit_and-halves a (2 ^ suc w - 1),
      ap (bit_and (a / 2)) half,
      bit_and-ones w (a / 2) (omega arith),
    )

or_digits_enough :
    (n m a b : ℕ) → a ≤ n → a ≤ m → digits (λ c. c) max n a b ≡ digits (λ c. c) max m a b
or_digits_enough zero zero a b h k = refl
or_digits_enough zero (suc m) zero b h k = refl
or_digits_enough (suc n) zero zero b h k = refl
or_digits_enough (suc n) (suc m) zero b h k = refl
or_digits_enough zero m (suc a) b h k = absurd (omega arith)
or_digits_enough (suc n) zero (suc a) b h k = absurd (omega arith)
or_digits_enough (suc n) (suc m) (suc a) b h k =
    ap (λ q. q * 2 + max (suc a % 2) (b % 2))
      (or_digits_enough n m (suc a / 2) (b / 2) (omega arith) (omega arith))

bit_or-zero_left : (b : ℕ) → bit_or 0 b ≡ b
bit_or-zero_left b = λ i. bit_or-bitwise 0 b i

bit_or-halves : (a b : ℕ) → bit_or a b ≡ bit_or (a / 2) (b / 2) * 2 + max (a % 2) (b % 2)
bit_or-halves zero b = omega (arith, bit_or-zero_left b, bit_or-zero_left (b / 2))
bit_or-halves (suc a) b =
    (λ i. bit_or-bitwise (suc a) b i)
    ∙ ap (λ q. q * 2 + max (suc a % 2) (b % 2))
        (or_digits_enough a (suc a / 2) (suc a / 2) (b / 2) (omega arith) (omega arith)
          ∙ sym (λ i. bit_or-bitwise (suc a / 2) (b / 2) i))

or_digits-zero_right : (n a : ℕ) → a ≤ n → digits (λ c. c) max n a 0 ≡ a
or_digits-zero_right zero zero h = refl
or_digits-zero_right zero (suc a) h = absurd (omega arith)
or_digits-zero_right (suc n) zero h = refl
or_digits-zero_right (suc n) (suc a) h =
    omega (arith, or_digits-zero_right n (suc a / 2) (omega arith))

-- A number shifted to the left of another.
pub bit_or-shifted : (w a b : ℕ) → b < 2 ^ w → bit_or (a * 2 ^ w) b ≡ a * 2 ^ w + b
bit_or-shifted zero a b h =
    let none : b ≡ 0 = omega arith in
    let whole : a * 2 ^ 0 ≡ a = omega arith in
    rw none (
      rw whole ((λ i. bit_or-bitwise a 0 i) ∙ or_digits-zero_right a a (omega arith) ∙ omega arith))
bit_or-shifted (suc w) a b h =
    let double : a * 2 ^ suc w ≡ a * 2 ^ w * 2 =
      ap (λ x. a * x) (omega arith) ∙ sym (mul_assoc a (2 ^ w) 2) in
    let half : a * 2 ^ suc w / 2 ≡ a * 2 ^ w = omega (arith, double) in
    omega (
      arith,
      double,
      bit_or-halves (a * 2 ^ suc w) b,
      ap (λ x. bit_or x (b / 2)) half,
      bit_or-shifted w a (b / 2) (omega arith),
    )
