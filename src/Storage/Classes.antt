-- ===== src/Storage/Classes.antt =====
-- The choice of a block class (crates/gems-storage/src/extent.rs).
use gems.Prelude.{
  ℕ, zero, suc, ◌+◌, ◌-◌, ◌*◌, ◌≤◌, ◌<◌, ◌≡◌, ◌⊎◌, inl, inr, refl, ap, Bool, true, false, ◌&&◌,
  Option, some, ltb, leb, ◌==◌, ==_iff, Bool-cases, ltb→lt, subst, if◌then◌else◌, arith,
}
use gems.Prelude.Results.{Result, Error, ok, err}
use gems.Prelude.Tables.{passes, passes_at}
use gems.Storage.BlockClass.{
  data_region_size, max_block_size, count, BlockClass, from_block_size, block_size,
  slots_per_extent, too_large, double_until, class_of, for_size,
}

is_class : Result Error BlockClass → ℕ → Bool
is_class (ok c) k = c == k
is_class (err e) k = false

is_class_sound : (r : Result Error BlockClass) (k : ℕ) → is_class r k ≡ true → r ≡ ok k
unfolding is_class
is_class_sound (ok c) k h = ap (λ x. ok x) ((==_iff _ _).0 h)
is_class_sound (err e) k h = cc

-- A class and its block size determine each other, and the slots of an extent fill its data region and
-- have a bit each.
abbrev row : ℕ → Bool
row c =
    is_class (from_block_size (block_size c)) c
    && (slots_per_extent c * block_size c == data_region_size)
    && leb (slots_per_extent c) 32768
    && leb 1 (slots_per_extent c)
    && (if c == 15 then block_size c == max_block_size else leb (block_size c * 2) max_block_size)

classes_table : passes row 16 ≡ true
unfolding from_block_size block_size slots_per_extent is_class passes
classes_table = refl

row_of : (c : BlockClass) → c < 16 → row c ≡ true
row_of c h = passes_at row {rows = 16} classes_table c h

edge :
    (c : BlockClass)
    → c < 16
    → ((c ≡ 15) × (block_size c ≡ max_block_size))
      ⊎ ((c < 15) × (block_size c * 2 ≤ max_block_size))
edge c h =
    let all = row_of c h in
    elim (Bool-cases (c == 15)) [
      | inl e ↦ inl (ground (arith, all, e))
      | inr e ↦ inr (ground (arith, all, e))
    ]

-- A block class and its block size determine each other; the slots of an extent fill its data region, there
-- is one at least, and the bitmap has a bit for each.
pub class-IsWhole :
    (c : BlockClass)
    → c < count
    → (from_block_size (block_size c) ≡ ok c)
      × (slots_per_extent c * block_size c ≡ data_region_size)
      × (1 ≤ slots_per_extent c)
      × (slots_per_extent c ≤ 4096 * 8)
class-IsWhole c h =
    let all = row_of c h in
    (
      is_class_sound _ c (ground (arith, all)),
      ground (arith, all),
      ground (arith, all),
      ground (arith, all),
    )

abbrev pub IsFit : ℕ → Option (Result Error BlockClass) → Type 0
IsFit size res =
    ((c : BlockClass) × (res ≡ some (ok c))
      × (c < count)
      × (size ≤ block_size c)
      × ((c ≡ 0) ⊎ (block_size (c - 1) < size)))
    ⊎ ((max_block_size < size) × (res ≡ some (err too_large)))

block_size-double : (k : ℕ) → block_size (suc k) ≡ block_size k * 2
unfolding block_size
block_size-double k = omega arith

doubling :
    (n k size : ℕ)
    → n + k ≡ 16
    → k < 16
    → (k ≡ 0) ⊎ (block_size (k - 1) < size)
    → IsFit size (class_of (double_until (suc n) size (block_size k)))
unfolding double_until
doubling zero k size total small over = absurd (omega arith)
doubling (suc n) k size total small over = elim (Bool-cases (ltb (block_size k) size)) [
  | inl more ↦ elim (edge k small) [
    | inl (last, whole) ↦
        let over_max : ltb max_block_size (block_size k * 2) ≡ true = ground (arith, whole) in
        inr (ground (arith, whole, more), rw more (rw over_max refl))
    | inr (before, fits) ↦
        let not_over : ltb max_block_size (block_size k * 2) ≡ false = ground (arith, fits) in
        let same : suc k - 1 ≡ k = omega arith in
        let next =
          doubling n (suc k) size (omega arith) (omega arith) (inr (rw same (ltb→lt _ _ more))) in
        rw more (
          rw not_over (
            subst (λ b. IsFit size (class_of (double_until (suc n) size b))) (block_size-double k)
              next))
  ]
  | inr enough ↦ inl (k, rw enough (ap some (class-IsWhole k small).0), small, ground arith, over)
]

-- The loop of for_size ends after at most seventeen rounds. A size of at most 16 MiB gets the least class
-- whose blocks hold it, and a larger one is refused.
pub for_size-IsFit : (size : ℕ) → IsFit size (for_size size)
unfolding for_size block_size
for_size-IsFit size = doubling 16 0 size refl (omega arith) (inl refl)
