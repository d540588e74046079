-- ===== src/Prelude/Sets.antt =====
-- `HashSet<u32>` as a list without repetition, and counting in it.
use Prim.Native.Nat.{ℕ, suc, ◌+◌, ◌≤◌, ◌<◌}
use mathlib.Core.Path.{◌≡◌, refl}
use mathlib.Core.Bool.{Bool, true, false, ◌||◌}
use mathlib.Core.List.{List, [], ◌∷◌}
use native.Mathlib.Omega.{arith}
use gems.Prelude.Tests.{◌==◌, if◌then◌else◌, Bool-cases, ==_iff}
use gems.Prelude.Lists.{All, length}
use mathlib.Core.Logic.{◌≢◌, inl, inr}

unfoldable pub contains : List ℕ → ℕ → Bool
contains [] a = false
contains (x ∷ xs) a = (x == a) || contains xs a

-- s.insert(a)
unfoldable pub insert : ℕ → List ℕ → List ℕ
insert a s = if contains s a then s else a ∷ s

-- Every element stands in the list once.
abbrev pub IsNodup : List ℕ → Type 0
IsNodup [] = Unit {0}
IsNodup (x ∷ xs) = (contains xs x ≡ false) × IsNodup xs

pub contains-insert : (a b : ℕ) (s : List ℕ) → contains (insert a s) b ≡ ((a == b) || contains s b)
unfolding insert contains
contains-insert a b s = ground arith

pub insert-IsNodup : (a : ℕ) (s : List ℕ) → IsNodup s → IsNodup (insert a s)
unfolding insert
insert-IsNodup a s h = ground arith

pub All-contains : (P : ℕ → Type 0) (s : List ℕ) (v : ℕ) → All P s → contains s v ≡ true → P v
unfolding contains
All-contains P [] v h m = cc
All-contains P (x ∷ xs) v h m = elim (Bool-cases (x == v)) [
  | inl e ↦ rw (← (==_iff x v).0 e) h.0
  | inr ne ↦ All-contains P xs v h.1 (rw ne at m)
]

-- All of `xs` stand in `ns`.
abbrev pub IsWithin : List ℕ → List ℕ → Type 0
IsWithin ns xs = All (λ v. contains ns v ≡ true) xs

erase : ℕ → List ℕ → List ℕ
erase a [] = []
erase a (x ∷ xs) = if x == a then xs else x ∷ erase a xs

contains-erase_ne :
    (a b : ℕ) (s : List ℕ) → a ≢ b → contains s b ≡ true → contains (erase a s) b ≡ true
unfolding contains erase
contains-erase_ne a b [] ne h = h
contains-erase_ne a b (x ∷ xs) ne h = ground (arith, contains-erase_ne a b xs ne)

length-erase : (a : ℕ) (s : List ℕ) → contains s a ≡ true → suc (length (erase a s)) ≡ length s
unfolding contains erase
length-erase a [] h = cc
length-erase a (x ∷ xs) h = ground (arith, length-erase a xs)

IsWithin-erase :
    (a : ℕ) (ns xs : List ℕ) → contains xs a ≡ false → IsWithin ns xs → IsWithin (erase a ns) xs
unfolding contains
IsWithin-erase a ns [] h w = tt
IsWithin-erase a ns (x ∷ xs) h w =
    (contains-erase_ne a x ns (λ e. ground arith) w.0, IsWithin-erase a ns xs (ground arith) w.1)

length-IsWithin : (xs ns : List ℕ) → IsNodup xs → IsWithin ns xs → length xs ≤ length ns
length-IsWithin [] ns d w = omega arith
length-IsWithin (x ∷ xs) ns d w = omega (
  arith,
  length-erase x ns w.0,
  length-IsWithin xs (erase x ns) d.1 (IsWithin-erase x ns xs d.0 w.1),
)

-- Two sets within `ns` that hold more elements than `ns` share one.
pub overlap :
    (xs ys ns : List ℕ)
    → IsNodup xs
    → IsNodup ys
    → IsWithin ns xs
    → IsWithin ns ys
    → length ns < length xs + length ys
    → (v : ℕ) × (contains xs v ≡ true) × (contains ys v ≡ true)
unfolding contains
overlap [] ys ns dx dy wx wy more = absurd (omega (arith, length-IsWithin ys ns dy wy))
overlap (x ∷ xs) ys ns dx dy wx wy more = elim (Bool-cases (contains ys x)) [
  | inl shared ↦ (x, rw ((==_iff x x).1 refl), shared)
  | inr apart ↦
      let (v, inx, iny) =
        overlap xs ys (erase x ns) dx.1 dy (IsWithin-erase x ns xs dx.0 wx.1)
          (IsWithin-erase x ns ys apart wy) (omega (arith, length-erase x ns wx.0)) in
      (v, ground arith, iny)
]
