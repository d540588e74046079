-- ===== src/Prelude/Sorting.antt =====
-- `sort_unstable_by(|a, b| b.cmp(a))` on numbers, and what the sorted list says of counts.
use gems.Prelude.Tests.{leb, if◌then◌else◌, Bool-cases, leb→le, le→leb, leb_false→lt}
use mathlib.Core.Logic.{inl, inr}
use gems.Prelude.Lists.{length, get_or}
use Prim.Native.Nat.{ℕ, zero, suc, ◌+◌, ◌≤◌, ◌<◌}
use mathlib.Core.Path.{◌≡◌, refl}
use mathlib.Core.List.{List, [], ◌∷◌}
use native.Mathlib.Omega.{arith}

unfoldable pub insert_desc : ℕ → List ℕ → List ℕ
insert_desc a [] = a ∷ []
insert_desc a (x ∷ xs) = if leb x a then a ∷ x ∷ xs else x ∷ insert_desc a xs

unfoldable pub sort_desc : List ℕ → List ℕ
unfolding insert_desc
sort_desc [] = []
sort_desc (x ∷ xs) = insert_desc x (sort_desc xs)

-- How many elements are at least `n`.
unfoldable pub count_ge : ℕ → List ℕ → ℕ
count_ge n [] = 0
count_ge n (x ∷ xs) = (if leb n x then 1 else 0) + count_ge n xs

count_ge-insert_desc :
    (n a : ℕ) (xs : List ℕ)
    → count_ge n (insert_desc a xs) ≡ (if leb n a then 1 else 0) + count_ge n xs
unfolding insert_desc count_ge
count_ge-insert_desc n a [] = refl
count_ge-insert_desc n a (x ∷ xs) = ground (arith, count_ge-insert_desc n a xs)

pub count_ge-sort_desc : (n : ℕ) (xs : List ℕ) → count_ge n (sort_desc xs) ≡ count_ge n xs
unfolding count_ge sort_desc
count_ge-sort_desc n [] = refl
count_ge-sort_desc n (x ∷ xs) =
    ground (arith, count_ge-insert_desc n x (sort_desc xs), count_ge-sort_desc n xs)

length-insert_desc : (a : ℕ) (xs : List ℕ) → length (insert_desc a xs) ≡ suc (length xs)
unfolding insert_desc
length-insert_desc a [] = refl
length-insert_desc a (x ∷ xs) = ground (arith, length-insert_desc a xs)

pub length-sort_desc : (xs : List ℕ) → length (sort_desc xs) ≡ length xs
unfolding sort_desc
length-sort_desc [] = refl
length-sort_desc (x ∷ xs) = omega (arith, length-insert_desc x (sort_desc xs), length-sort_desc xs)

abbrev IsBelow : ℕ → List ℕ → Type 0
IsBelow b [] = Unit {0}
IsBelow b (x ∷ xs) = x ≤ b

abbrev IsDescending : List ℕ → Type 0
IsDescending [] = Unit {0}
IsDescending (x ∷ xs) = IsBelow x xs × IsDescending xs

insert_desc-IsBelow : (b a : ℕ) (xs : List ℕ) → a ≤ b → IsBelow b xs → IsBelow b (insert_desc a xs)
unfolding insert_desc
insert_desc-IsBelow b a [] h k = h
insert_desc-IsBelow b a (x ∷ xs) h k = ground arith

insert_desc-IsDescending : (a : ℕ) (xs : List ℕ) → IsDescending xs → IsDescending (insert_desc a xs)
unfolding insert_desc
insert_desc-IsDescending a [] h = (tt, tt)
insert_desc-IsDescending a (x ∷ xs) h = elim (Bool-cases (leb x a)) [
  | inl le ↦ rw le (leb→le x a le, h)
  | inr gt ↦ rw gt (
    insert_desc-IsBelow x a xs (omega (arith, leb_false→lt x a gt)) h.0,
    insert_desc-IsDescending a xs h.1,
  )
]

sort_desc-IsDescending : (xs : List ℕ) → IsDescending (sort_desc xs)
unfolding sort_desc
sort_desc-IsDescending [] = tt
sort_desc-IsDescending (x ∷ xs) =
    insert_desc-IsDescending x (sort_desc xs) (sort_desc-IsDescending xs)

IsBelow-count_ge :
    (n b : ℕ) (xs : List ℕ) → IsDescending xs → IsBelow b xs → b < n → count_ge n xs ≡ 0
unfolding count_ge
IsBelow-count_ge n b [] h k l = refl
IsBelow-count_ge n b (x ∷ xs) h k l = ground (arith, IsBelow-count_ge n x xs h.1 h.0 (omega arith))

IsBelow-get_or : (b j : ℕ) (ys : List ℕ) → IsDescending ys → IsBelow b ys → get_or ys j 0 ≤ b
IsBelow-get_or b j [] d k = omega arith
IsBelow-get_or b zero (y ∷ ys) d k = k
IsBelow-get_or b (suc j) (y ∷ []) d k = omega arith
IsBelow-get_or b (suc j) (y ∷ z ∷ ys) d k = IsBelow-get_or b j (z ∷ ys) d.1 (omega (arith, d.0, k))

-- In a descending list more than `k` elements reach the one at place `k`.
descending_reach :
    (k : ℕ) (xs : List ℕ) → IsDescending xs → k < length xs → suc k ≤ count_ge (get_or xs k 0) xs
unfolding count_ge
descending_reach k [] h l = absurd (omega arith)
descending_reach zero (x ∷ xs) h l = ground arith
descending_reach (suc k) (x ∷ xs) h l =
    rw (le→leb (get_or xs k 0) x (IsBelow-get_or x k xs h.1 h.0))
      (omega (arith, descending_reach k xs h.1 (omega arith)))

-- At most `k` elements pass the one at place `k`.
descending_bound : (k n : ℕ) (xs : List ℕ) → IsDescending xs → get_or xs k 0 < n → count_ge n xs ≤ k
unfolding count_ge
descending_bound k n [] h l = omega arith
descending_bound zero n (x ∷ xs) h l = ground (arith, IsBelow-count_ge n x xs h.1 h.0)
descending_bound (suc k) n (x ∷ xs) h l = ground (arith, descending_bound k n xs h.1)

-- The element at place `k` of the sorted list is the greatest value that more than `k` reach.
pub sort_desc-reach :
    (k : ℕ) (xs : List ℕ) → k < length xs → suc k ≤ count_ge (get_or (sort_desc xs) k 0) xs
sort_desc-reach k xs h = rw (← count_ge-sort_desc (get_or (sort_desc xs) k 0) xs) (
    descending_reach k (sort_desc xs) (sort_desc-IsDescending xs)
      (omega (arith, length-sort_desc xs)))

pub sort_desc-bound : (k n : ℕ) (xs : List ℕ) → get_or (sort_desc xs) k 0 < n → count_ge n xs ≤ k
sort_desc-bound k n xs h =
    rw (← count_ge-sort_desc n xs)
      (descending_bound k n (sort_desc xs) (sort_desc-IsDescending xs) h)
