-- ===== src/Storage/Runs.antt =====
-- Concrete slots and files, and the theorems at them.
use gems.Prelude.{
  ℕ, zero, suc, ◌/◌, ◌<◌, ◌≤◌, ◌≡◌, ◌↔◌, refl, true, false, some, List, [], ◌∷◌, length, replicate,
  length-replicate, inr, ◌-◌, ◌⊎◌, arith,
}
use gems.Prelude.Results.{ok, err}
use gems.Storage.BlockClass.{
  BlockClass, max_block_size, too_large, for_size, block_size, slots_per_extent,
}
use gems.Storage.Bitmap.{bitmap_bytes, allocate, free}
use gems.Storage.Manager
use gems.Storage.Slots.{IsBitmap, used, first_free, after, mark, operations-refine}
use gems.Storage.Classes.{IsFit, for_size-IsFit}
use gems.Storage.Pointer.{SlotPointer}
use gems.Storage.Manager.{
  done, ExtentFile, ExtentManager, create, extent_size, extent_offset, data_offset, read_range,
  read, write, grow_by_one_extent,
}
use gems.Storage.Access.{IsPlaced, write-then-read}
use gems.Storage.Growth.{grow_times, grown_index}
use gems.Storage.Allocation.{IsSound}
use gems.Storage.View.{IsAllocated}
use gems.Storage.Allocator.{allocate-IsAllocated}

grown_index_example :
    (file : ExtentFile) × (file' : ExtentFile) × (offset : ℕ) × (grow_times 4114 4096
        (create 1).file
      ≡ done file)
    × (grow_by_one_extent 4096 file ≡ done (file', offset))
    × ((offset / extent_size ≡ 4114) ↔ (4114 < 4114))
grown_index_example = grown_index 4114 1 (omega arith)

replicate-IsBitmap : (n : ℕ) → IsBitmap (replicate n 0)
replicate-IsBitmap zero = tt
replicate-IsBitmap (suc n) = (omega arith, replicate-IsBitmap n)

-- The bitmap of a new extent.
unfoldable fresh : List ℕ
fresh = replicate bitmap_bytes 0

fresh-IsBitmap : IsBitmap fresh
unfolding fresh
fresh-IsBitmap = replicate-IsBitmap bitmap_bytes

length-fresh : length fresh ≡ bitmap_bytes
unfolding fresh
length-fresh = length-replicate {A = ℕ} bitmap_bytes 0

operations-refine_example :
    ((bytes' : List ℕ) × (allocate fresh 32768 ≡ some (bytes', first_free 32768 0 (used fresh)))
      × IsBitmap bytes'
      × (length bytes' ≡ length fresh)
      × (used bytes' ≡ after (first_free 32768 0 (used fresh)) (used fresh)))
    × ((bytes' : List ℕ) × (free fresh 9 ≡ some bytes')
        × IsBitmap bytes'
        × (length bytes' ≡ length fresh)
        × (used bytes' ≡ mark (used fresh) 9 false))
operations-refine_example =
    operations-refine fresh 32768 9 fresh-IsBitmap length-fresh (omega arith) (omega arith)

-- A mapping of two extents.
abbrev two_extents : ExtentManager
two_extents = record {
  file = record { mapped_len = 33570816; byte_at = λ p. 0; writable = true };
  file_id = 1;
  extents = 0 ∷ 4 ∷ [];
}

abbrev first : SlotPointer
first = record { file_id = 1; extent_index = 1; slot_index = 5; block_class = 4 }

abbrev second : SlotPointer
second = record { file_id = 1; extent_index = 1; slot_index = 6; block_class = 4 }

first-IsPlaced : IsPlaced two_extents first
unfolding slots_per_extent
first-IsPlaced = record {
  same_file = refl;
  class_known = omega arith;
  slot_known = omega arith;
  extent_mapped = omega arith;
}

second-IsPlaced : IsPlaced two_extents second
unfolding slots_per_extent
second-IsPlaced = record {
  same_file = refl;
  class_known = omega arith;
  slot_known = omega arith;
  extent_mapped = omega arith;
}

write-then-read_example :
    (m' : ExtentManager) × (write two_extents first (7 ∷ 8 ∷ []) ≡ done m')
    × (read m' first 2 ≡ done (7 ∷ 8 ∷ []))
    × (read m' second 3 ≡ read two_extents second 3)
    × (read_range m'.file.byte_at (extent_offset 1) data_offset
        ≡ read_range two_extents.file.byte_at (extent_offset 1) data_offset)
unfolding block_size
write-then-read_example =
    write-then-read two_extents first second (7 ∷ 8 ∷ []) 3 1 refl first-IsPlaced second-IsPlaced
      (inr (refl, λ same. omega (arith, same))) (omega arith) (omega arith)

for_size-IsFit_example : IsFit 5000 (for_size 5000)
for_size-IsFit_example = for_size-IsFit 5000

for_size_test : for_size 5000 ≡ some (ok 4)
unfolding for_size
for_size_test = refl

two_extents-IsSound : IsSound two_extents
two_extents-IsSound = record {
  writable = refl;
  mapped = refl;
  classes = (omega arith, (omega arith, tt));
  bytes = λ p. omega arith;
  zeros = λ p behind. refl;
}

allocate-IsAllocated_example :
    ((class : BlockClass) × (5000 ≤ block_size class)
      × ((class ≡ 0) ⊎ (block_size (class - 1) < 5000))
      × (m' : ExtentManager) × (p : SlotPointer) × (Manager.allocate 4096 two_extents 5000
          ≡ done (m', p))
      × IsAllocated two_extents m' class p)
    ⊎ ((max_block_size < 5000) × (Manager.allocate 4096 two_extents 5000 ≡ some (err too_large)))
allocate-IsAllocated_example =
    allocate-IsAllocated two_extents 5000 two_extents-IsSound (omega arith)
