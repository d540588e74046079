-- ===== src/Prelude/Ascending.antt =====
-- `sort_unstable` followed by `dedup` on numbers: the ascending list of a set.
use Prim.Native.Nat.{ℕ, ◌≤◌, ◌<◌}
use mathlib.Core.Path.{◌≡◌, refl, sym, ap, ◌∙◌}
use mathlib.Core.Logic.{inl, inr}
use mathlib.Core.Bool.{false, ◌||◌}
use mathlib.Core.List.{List, [], ◌∷◌}
use native.Mathlib.Omega.{arith}
use gems.Prelude.Tests.{leb, ◌==◌, if◌then◌else◌, Bool-cases, ==_iff, leb→le, leb_false→lt}
use gems.Prelude.Lists.{All, All-map}
use gems.Prelude.Sets.{contains}

unfoldable pub insert_asc : ℕ → List ℕ → List ℕ
insert_asc a [] = a ∷ []
insert_asc a (x ∷ xs) = if leb a x then a ∷ x ∷ xs else x ∷ insert_asc a xs

-- xs.sort_unstable()
unfoldable pub sort_unstable : List ℕ → List ℕ
unfolding insert_asc
sort_unstable [] = []
sort_unstable (x ∷ xs) = insert_asc x (sort_unstable xs)

unfoldable pub put_front : ℕ → List ℕ → List ℕ
put_front a [] = a ∷ []
put_front a (x ∷ xs) = if a == x then x ∷ xs else a ∷ x ∷ xs

-- xs.dedup()
unfoldable pub dedup : List ℕ → List ℕ
unfolding put_front
dedup [] = []
dedup (x ∷ xs) = put_front x (dedup xs)

-- Every element is below all that follow it.
abbrev pub IsAscending : List ℕ → Type 0
IsAscending [] = Unit {0}
IsAscending (x ∷ xs) = All (λ y. x < y) xs × IsAscending xs

abbrev IsSorted : List ℕ → Type 0
IsSorted [] = Unit {0}
IsSorted (x ∷ xs) = All (λ y. x ≤ y) xs × IsSorted xs

insert_asc-All : (P : ℕ → Type 0) (a : ℕ) (xs : List ℕ) → P a → All P xs → All P (insert_asc a xs)
unfolding insert_asc
insert_asc-All P a [] pa h = (pa, tt)
insert_asc-All P a (x ∷ xs) pa h = elim (Bool-cases (leb a x)) [
  | inl e ↦ rw e (pa, h)
  | inr e ↦ rw e (h.0, insert_asc-All P a xs pa h.1)
]

insert_asc-IsSorted : (a : ℕ) (xs : List ℕ) → IsSorted xs → IsSorted (insert_asc a xs)
unfolding insert_asc
insert_asc-IsSorted a [] h = (tt, tt)
insert_asc-IsSorted a (x ∷ xs) h = elim (Bool-cases (leb a x)) [
  | inl e ↦
      let le : a ≤ x = leb→le a x e in
      rw e ((le, All-map (λ y. x ≤ y) (λ y. a ≤ y) xs (λ y l. omega (arith, le, l)) h.0), h)
  | inr e ↦ rw e (
    insert_asc-All (λ y. x ≤ y) a xs (omega (arith, leb_false→lt a x e)) h.0,
    insert_asc-IsSorted a xs h.1,
  )
]

sort_unstable-IsSorted : (xs : List ℕ) → IsSorted (sort_unstable xs)
unfolding sort_unstable
sort_unstable-IsSorted [] = tt
sort_unstable-IsSorted (x ∷ xs) =
    insert_asc-IsSorted x (sort_unstable xs) (sort_unstable-IsSorted xs)

put_front-All : (P : ℕ → Type 0) (a : ℕ) (xs : List ℕ) → P a → All P xs → All P (put_front a xs)
unfolding put_front
put_front-All P a [] pa h = (pa, tt)
put_front-All P a (x ∷ xs) pa h = elim (Bool-cases (a == x)) [
  | inl e ↦ rw e h
  | inr e ↦ rw e (pa, h)
]

dedup-All : (P : ℕ → Type 0) (xs : List ℕ) → All P xs → All P (dedup xs)
unfolding dedup
dedup-All P [] h = h
dedup-All P (x ∷ xs) h = put_front-All P x (dedup xs) h.0 (dedup-All P xs h.1)

put_front-IsAscending :
    (a : ℕ) (xs : List ℕ) → All (λ y. a ≤ y) xs → IsAscending xs → IsAscending (put_front a xs)
unfolding put_front
put_front-IsAscending a [] h s = (tt, tt)
put_front-IsAscending a (x ∷ xs) h s = elim (Bool-cases (a == x)) [
  | inl e ↦ rw e s
  | inr e ↦
      let below : a < x = ground (arith, h.0) in
      rw e ((below, All-map (λ y. x < y) (λ y. a < y) xs (λ y l. omega (arith, below, l)) s.0), s)
]

dedup-IsAscending : (xs : List ℕ) → IsSorted xs → IsAscending (dedup xs)
unfolding dedup
dedup-IsAscending [] h = tt
dedup-IsAscending (x ∷ xs) h =
    put_front-IsAscending x (dedup xs) (dedup-All (λ y. x ≤ y) xs h.0) (dedup-IsAscending xs h.1)

pub distinct-IsAscending : (xs : List ℕ) → IsAscending (dedup (sort_unstable xs))
distinct-IsAscending xs = dedup-IsAscending (sort_unstable xs) (sort_unstable-IsSorted xs)

contains-insert_asc :
    (a b : ℕ) (xs : List ℕ) → contains (insert_asc a xs) b ≡ ((a == b) || contains xs b)
unfolding insert_asc contains
contains-insert_asc a b [] = refl
contains-insert_asc a b (x ∷ xs) = ground (arith, contains-insert_asc a b xs)

contains-put_front :
    (a b : ℕ) (xs : List ℕ) → contains (put_front a xs) b ≡ ((a == b) || contains xs b)
unfolding put_front contains
contains-put_front a b [] = refl
contains-put_front a b (x ∷ xs) = ground arith

contains-sort_unstable : (b : ℕ) (xs : List ℕ) → contains (sort_unstable xs) b ≡ contains xs b
unfolding sort_unstable contains
contains-sort_unstable b [] = refl
contains-sort_unstable b (x ∷ xs) =
    contains-insert_asc x b (sort_unstable xs)
    ∙ ap (λ r. (x == b) || r) (contains-sort_unstable b xs)

contains-dedup : (b : ℕ) (xs : List ℕ) → contains (dedup xs) b ≡ contains xs b
unfolding dedup contains
contains-dedup b [] = refl
contains-dedup b (x ∷ xs) =
    contains-put_front x b (dedup xs) ∙ ap (λ r. (x == b) || r) (contains-dedup b xs)

pub contains-distinct :
    (b : ℕ) (xs : List ℕ) → contains (dedup (sort_unstable xs)) b ≡ contains xs b
contains-distinct b xs = contains-dedup b (sort_unstable xs) ∙ contains-sort_unstable b xs

not_below : (a : ℕ) (xs : List ℕ) → All (λ y. a < y) xs → contains xs a ≡ false
unfolding contains
not_below a [] h = refl
not_below a (x ∷ xs) h = ground (arith, h.0, not_below a xs h.1)

contains-tails :
    (x a : ℕ) (xs ys : List ℕ)
    → All (λ y. x < y) xs
    → All (λ y. x < y) ys
    → contains (x ∷ xs) a ≡ contains (x ∷ ys) a
    → contains xs a ≡ contains ys a
unfolding contains
contains-tails x a xs ys above above' same = elim (Bool-cases (x == a)) [
  | inr ne ↦ rw ne at same
  | inl e ↦
      let here : x ≡ a = (==_iff x a).0 e in
      rw (← here) (not_below x xs above ∙ sym (not_below x ys above'))
]

missed : (x y : ℕ) (ys : List ℕ) → All (λ z. y < z) ys → x < y → contains ys x ≡ false
missed x y ys h l =
    not_below x ys (All-map (λ z. y < z) (λ z. x < z) ys (λ z m. omega (arith, l, m)) h)

-- Two ascending lists that hold the same elements are the same list.
pub ascending_unique :
    (xs ys : List ℕ)
    → IsAscending xs
    → IsAscending ys
    → ((a : ℕ) → contains xs a ≡ contains ys a)
    → xs ≡ ys
unfolding contains
ascending_unique [] [] s t same = refl
ascending_unique [] (y ∷ ys) s t same = ground (arith, same y)
ascending_unique (x ∷ xs) [] s t same = ground (arith, same x)
ascending_unique (x ∷ xs) (y ∷ ys) s t same =
    let head : x ≡ y = ground (arith, same x, same y, missed x y ys t.0, missed y x xs s.0) in
    ap (λ r. x ∷ r)
      (ascending_unique xs ys s.1 t.1
        (λ a. contains-tails x a xs ys s.0 (rw head t.0) (same a ∙ rw head refl)))
    ∙ ap (λ z. z ∷ ys) head
