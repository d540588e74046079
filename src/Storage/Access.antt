-- ===== src/Storage/Access.antt =====
-- What is written to a slot, and what else stays as it is (crates/gems-storage/src/manager.rs).
use native.Mathlib.Nat.{mul-le-mul_right, suc-mul}
use mathlib.Core.Bool.{true≢false}
use gems.Prelude.{
  ℕ, zero, suc, ◌+◌, ◌-◌, ◌*◌, ◌≤◌, ◌<◌, ◌≡◌, ◌≢◌, ◌⊎◌, inl, inr, refl, sym, ap, subst, ◌∙◌, true,
  false, List, [], ◌∷◌, length, get_or, ltb, leb, ◌==◌, ==_iff, Bool-cases, ltb→lt, ltb_false→le,
  arith,
}
use gems.Prelude.Results.{ok}
use gems.Storage.BlockClass.{data_region_size, count, from_index, block_size, slots_per_extent}
use gems.Storage.Classes.{class-IsWhole}
use gems.Storage.Pointer.{SlotPointer}
use gems.Storage.Manager.{
  data_offset, extent_size, done, ExtentManager, read_range, write_range, slice, copy_to,
  as_mut_slice, extent_offset, slot_offset, write, read,
}

pub read_range-same :
    (f g : ℕ → ℕ) (base n : ℕ)
    → ((i : ℕ) → i < n → f (base + i) ≡ g (base + i))
    → read_range f base n ≡ read_range g base n
unfolding read_range
read_range-same f g base zero same = refl
read_range-same f g base (suc n) same =
    let head : f base ≡ g base =
      (let here : base + 0 ≡ base = omega arith in rw here at (same 0 (omega arith))) in
    let tail : read_range f (suc base) n ≡ read_range g (suc base) n =
      read_range-same f g (suc base) n (λ i h.
        let shift : base + suc i ≡ suc base + i = omega arith in
        rw shift at (same (suc i) (omega arith))) in
    rw head (ap (λ r. g base ∷ r) tail)

read_range-is :
    (f : ℕ → ℕ) (base : ℕ) (bytes : List ℕ)
    → ((i : ℕ) → i < length bytes → f (base + i) ≡ get_or bytes i 0)
    → read_range f base (length bytes) ≡ bytes
unfolding read_range
read_range-is f base [] same = refl
read_range-is f base (b ∷ bytes) same =
    let head : f base ≡ b =
      (let here : base + 0 ≡ base = omega arith in rw here at (same 0 (omega arith))) in
    let tail : read_range f (suc base) (length bytes) ≡ bytes =
      read_range-is f (suc base) bytes (λ i h.
        let shift : base + suc i ≡ suc base + i = omega arith in
        rw shift at (same (suc i) (omega arith))) in
    rw head (ap (λ r. b ∷ r) tail)

pub read_range-write_range :
    (f : ℕ → ℕ) (base : ℕ) (bytes : List ℕ)
    → read_range (write_range f base bytes) base (length bytes) ≡ bytes
read_range-write_range f base bytes = read_range-is (write_range f base bytes) base bytes (λ i h.
    let left : leb base (base + i) ≡ true = ground arith in
    let right : ltb (base + i) (base + length bytes) ≡ true = ground arith in
    let back : base + i - base ≡ i = omega arith in rw left (rw right (rw back refl)))

pub outside :
    (f : ℕ → ℕ) (base : ℕ) (bytes : List ℕ) (p : ℕ)
    → (p < base) ⊎ (base + length bytes ≤ p)
    → write_range f base bytes p ≡ f p
outside f base bytes p (inl h) = let left : leb base p ≡ false = ground arith in rw left refl
outside f base bytes p (inr h) =
    let right : ltb p (base + length bytes) ≡ false = ground arith in
    elim (Bool-cases (leb base p)) [ inl e ↦ rw e (rw right refl) | inr e ↦ rw e refl ]

-- The range read lies before or behind the range written.
pub read_range-apart :
    (f : ℕ → ℕ) (base : ℕ) (bytes : List ℕ) (from n : ℕ)
    → (from + n ≤ base) ⊎ (base + length bytes ≤ from)
    → read_range (write_range f base bytes) from n ≡ read_range f from n
read_range-apart f base bytes from n apart =
    read_range-same (write_range f base bytes) f from n (λ i h.
      outside f base bytes (from + i)
        (elim apart [ inl b ↦ inl (omega arith) | inr b ↦ inr (omega arith) ]))

-- The pointer is to a slot of an extent that the mapping holds.
pub record IsPlaced (m : ExtentManager) (p : SlotPointer) : Type 0 where
  pub same_file : p.file_id ≡ m.file_id
  pub class_known : p.block_class < count
  pub slot_known : p.slot_index < slots_per_extent p.block_class
  pub extent_mapped : (p.extent_index + 1) * extent_size ≤ m.file.mapped_len

abbrev pub start : SlotPointer → ℕ
start p = extent_offset p.extent_index + data_offset + p.slot_index * block_size p.block_class

-- A slot lies in the data region of its extent.
slot_inside :
    (c slot : ℕ)
    → c < count
    → slot < slots_per_extent c
    → slot * block_size c + block_size c ≤ data_region_size
slot_inside c slot known inside =
    let whole : slots_per_extent c * block_size c ≡ data_region_size = (class-IsWhole c known).1 in
    let below : suc slot * block_size c ≤ slots_per_extent c * block_size c =
      mul-le-mul_right (block_size c) (omega arith) in
    omega (arith, whole, below, suc-mul slot (block_size c))

slot_offset-placed :
    (m : ExtentManager) (p : SlotPointer)
    → IsPlaced m p
    → slot_offset m p ≡ ok (start p, p.block_class)
unfolding slot_offset from_index
slot_offset-placed m p placed =
    let file : (p.file_id == m.file_id) ≡ true = (==_iff _ _).1 placed.same_file in
    let class : leb count p.block_class ≡ false = ground (arith, placed.class_known) in
    rw file (rw class refl)

-- Two slots that an allocator may have handed out: of two extents, or two of one extent and its class.
abbrev pub IsApart : SlotPointer → SlotPointer → Type 0
IsApart p q =
    (p.extent_index ≢ q.extent_index)
    ⊎ ((p.block_class ≡ q.block_class) × (p.slot_index ≢ q.slot_index))

abbrev Disjoint : ℕ → ℕ → ℕ → ℕ → Type 0
Disjoint from n base len = (from + n ≤ base) ⊎ (base + len ≤ from)

slots_apart :
    (b s t n len : ℕ) (base : ℕ)
    → s ≢ t
    → n ≤ b
    → len ≤ b
    → Disjoint (base + t * b) n (base + s * b) len
slots_apart b s t n len base other small small' = elim (Bool-cases (ltb s t)) [
  | inl h ↦
      let below : suc s * b ≤ t * b = mul-le-mul_right b (ltb→lt _ _ h) in
      inr (omega (arith, below, suc-mul s b))
  | inr h ↦
      let above : t < s = omega (arith, ltb_false→le _ _ h) in
      let below : suc t * b ≤ s * b = mul-le-mul_right b above in
      inl (omega (arith, below, suc-mul t b))
]

module _ (m : ExtentManager) (p q : SlotPointer) (n len : ℕ) (placed : IsPlaced m p)
    (placed' : IsPlaced m q) (small : n ≤ block_size q.block_class)
    (small' : len ≤ block_size p.block_class) where
  extents_apart : p.extent_index ≢ q.extent_index → Disjoint (start q) n (start p) len
  extents_apart other =
      let inside = slot_inside p.block_class p.slot_index placed.class_known placed.slot_known in
      let inside' = slot_inside q.block_class q.slot_index placed'.class_known placed'.slot_known in
      elim (Bool-cases (ltb p.extent_index q.extent_index)) [
        | inl h ↦ inr (omega (arith, ltb→lt _ _ h, inside))
        | inr h ↦ inl (omega (arith, ltb_false→le _ _ h, inside'))
      ]

  in_one_extent :
      p.extent_index ≡ q.extent_index
      → p.block_class ≡ q.block_class
      → p.slot_index ≢ q.slot_index
      → Disjoint (start q) n (start p) len
  in_one_extent extent class other =
      let base = extent_offset p.extent_index + data_offset in
      let b = block_size p.block_class in
      let at : base + q.slot_index * b ≡ start q =
        ap (λ e. extent_offset e + data_offset + q.slot_index * b) extent
        ∙ ap (λ c. extent_offset q.extent_index + data_offset + q.slot_index * block_size c)
            class in
      let fits : n ≤ b = rw class small in
      subst (λ s. Disjoint s n (start p) len) at
        (slots_apart b p.slot_index q.slot_index n len base other fits small')

  ranges_apart : IsApart p q → Disjoint (start q) n (start p) len
  ranges_apart (inl other) = extents_apart other
  ranges_apart (inr (class, other)) = elim (Bool-cases (p.extent_index == q.extent_index)) [
    | inl e ↦ in_one_extent ((==_iff _ _).0 e) class other
    | inr e ↦ extents_apart (λ s. true≢false (sym ((==_iff _ _).1 s) ∙ e))
  ]

-- The header and the bitmap of an extent lie before its data region and behind that of the one before.
overhead_apart :
    (m : ExtentManager) (p : SlotPointer) (extent len : ℕ)
    → IsPlaced m p
    → len ≤ block_size p.block_class
    → Disjoint (extent_offset extent) data_offset (start p) len
overhead_apart m p extent len placed small =
    let inside = slot_inside p.block_class p.slot_index placed.class_known placed.slot_known in
    elim (Bool-cases (ltb p.extent_index extent)) [
      | inl h ↦ inr (omega (arith, ltb→lt _ _ h, inside))
      | inr h ↦ inl (omega (arith, ltb_false→le _ _ h))
    ]

start_mapped :
    (m : ExtentManager) (p : SlotPointer) (n : ℕ)
    → IsPlaced m p
    → n ≤ block_size p.block_class
    → ltb m.file.mapped_len (start p + n) ≡ false
start_mapped m p n placed small =
    let inside = slot_inside p.block_class p.slot_index placed.class_known placed.slot_known in
    ground (arith, inside, placed.extent_mapped)

read-placed :
    (m : ExtentManager) (p : SlotPointer) (n : ℕ)
    → IsPlaced m p
    → n ≤ block_size p.block_class
    → read m p n ≡ done (read_range m.file.byte_at (start p) n)
unfolding read slice
read-placed m p n placed small =
    let fits : ltb (block_size p.block_class) n ≡ false = ground arith in
    rw (slot_offset-placed m p placed) (rw fits (rw (start_mapped m p n placed small) refl))

abbrev written : ExtentManager → SlotPointer → List ℕ → ExtentManager
written m p bytes = record m {
  file = record (m.file) { byte_at = write_range m.file.byte_at (start p) bytes };
}

write-placed :
    (m : ExtentManager) (p : SlotPointer) (bytes : List ℕ)
    → m.file.writable ≡ true
    → IsPlaced m p
    → length bytes ≤ block_size p.block_class
    → write m p bytes ≡ done (written m p bytes)
unfolding write copy_to as_mut_slice
write-placed m p bytes writable placed small =
    let fits : ltb (block_size p.block_class) (length bytes) ≡ false = ground arith in
    rw (slot_offset-placed m p placed)
      (rw fits (rw writable (rw (start_mapped m p (length bytes) placed small) refl)))

written-IsPlaced :
    (m : ExtentManager) (p q : SlotPointer) (bytes : List ℕ)
    → IsPlaced m q
    → IsPlaced (written m p bytes) q
written-IsPlaced m p q bytes placed = record {
  same_file = placed.same_file;
  class_known = placed.class_known;
  slot_known = placed.slot_known;
  extent_mapped = placed.extent_mapped;
}

-- On a writable file, what is written to a slot, if it fits, is read back from it. The contents of a slot
-- that is apart from it, and the header and bitmap of any extent, stay what they were.
pub write-then-read :
    (m : ExtentManager) (p q : SlotPointer) (bytes : List ℕ) (n extent : ℕ)
    → m.file.writable ≡ true
    → IsPlaced m p
    → IsPlaced m q
    → IsApart p q
    → length bytes ≤ block_size p.block_class
    → n ≤ block_size q.block_class
    → (m' : ExtentManager) × (write m p bytes ≡ done m')
      × (read m' p (length bytes) ≡ done bytes)
      × (read m' q n ≡ read m q n)
      × (read_range m'.file.byte_at (extent_offset extent) data_offset
          ≡ read_range m.file.byte_at (extent_offset extent) data_offset)
write-then-read m p q bytes n extent writable placed placed' apart fits small =
    let m' = written m p bytes in
    let there = written-IsPlaced m p p bytes placed in
    let there' = written-IsPlaced m p q bytes placed' in
    (
      m',
      write-placed m p bytes writable placed fits,
      read-placed m' p (length bytes) there fits
          ∙ ap (λ r. done r) (read_range-write_range m.file.byte_at (start p) bytes),
      read-placed m' q n there' small
          ∙ (ap (λ r. done r)
                (read_range-apart m.file.byte_at (start p) bytes (start q) n
                  (ranges_apart m p q n (length bytes) placed placed' small fits apart))
              ∙ sym (read-placed m q n placed' small)),
      read_range-apart m.file.byte_at (start p) bytes (extent_offset extent) data_offset
          (overhead_apart m p extent (length bytes) placed fits),
    )
