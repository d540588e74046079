-- ===== src/Storage/Allocation.antt =====
-- `ExtentManager::allocate` of crates/gems-storage/src/manager.rs, on pages of 4096 bytes.
use gems.Prelude.{
  ℕ, zero, suc, ◌+◌, ◌-◌, ◌*◌, ◌≤◌, ◌<◌, ◌≡◌, ◌≢◌, inl, inr, refl, sym, ap, ◌∙◌, true, false, ◌&&◌,
  Option, List, [], ◌∷◌, length, get_or, ltb, leb, Bool-cases, ltb→lt, ltb_false→le, All, arith,
}
use gems.Storage.BlockClass.{count, BlockClass, slots_per_extent}
use gems.Storage.Bitmap.{bitmap_bytes, bit_of}
use gems.Storage.Bitmap
use gems.Storage.Classes.{class-IsWhole}
use gems.Storage.Slots.{Slots, IsBitmap, used, first_free, after, allocate_from-first_free}
use gems.Storage.Manager.{
  extent_header_len, extent_size, done, ExtentFile, ExtentManager, read_range, write_range, slice,
  copy_to, as_mut_slice, extent_offset, with_file, try_allocate_in_extent,
}
use gems.Storage.Access.{read_range-write_range, read_range-apart, outside}
use gems.Storage.Growth.{rounded}

abbrev pub bitmap_base : ℕ → ℕ
bitmap_base extent = extent_offset extent + extent_header_len

abbrev pub bitmap_of : ExtentManager → ℕ → List ℕ
bitmap_of m extent = read_range m.file.byte_at (bitmap_base extent) bitmap_bytes

-- The slots of an extent that are allocated.
abbrev pub taken : ExtentManager → ℕ → Slots
taken m extent = used (bitmap_of m extent)

-- The file has grown by an extent for each entry of the list, and holds bytes, which are zero behind the
-- last extent.
pub record IsSound (m : ExtentManager) : Type 0 where
  pub writable : m.file.writable ≡ true
  pub mapped : m.file.mapped_len ≡ length m.extents * rounded
  pub classes : All (λ c. c < count) m.extents
  pub bytes : (p : ℕ) → m.file.byte_at p < 256
  pub zeros : (p : ℕ) → length m.extents * extent_size ≤ p → m.file.byte_at p ≡ 0

pub length-read_range : (f : ℕ → ℕ) (base n : ℕ) → length (read_range f base n) ≡ n
unfolding read_range
length-read_range f base zero = refl
length-read_range f base (suc n) = ap suc (length-read_range f (suc base) n)

read_range-IsBitmap :
    (f : ℕ → ℕ) (base n : ℕ) → ((p : ℕ) → f p < 256) → IsBitmap (read_range f base n)
unfolding read_range
read_range-IsBitmap f base zero small = tt
read_range-IsBitmap f base (suc n) small = (small base, read_range-IsBitmap f (suc base) n small)

get_or_small : (bytes : List ℕ) (i : ℕ) → IsBitmap bytes → get_or bytes i 0 < 256
get_or_small [] i small = omega arith
get_or_small (b ∷ bytes) zero small = small.0
get_or_small (b ∷ bytes) (suc i) small = get_or_small bytes i small.1

pub write_range_small :
    (f : ℕ → ℕ) (base : ℕ) (bytes : List ℕ)
    → ((p : ℕ) → f p < 256)
    → IsBitmap bytes
    → (p : ℕ) → write_range f base bytes p < 256
write_range_small f base bytes small all p =
    elim (Bool-cases (leb base p && ltb p (base + length bytes))) [
      | inl e ↦ rw e (get_or_small bytes (p - base) all)
      | inr e ↦ rw e (small p)
    ]

pub copy_to-inside :
    (file : ExtentFile) (base : ℕ) (bytes : List ℕ)
    → file.writable ≡ true
    → base + length bytes ≤ file.mapped_len
    → copy_to file base bytes ≡ done (record file { byte_at = write_range file.byte_at base bytes })
unfolding copy_to as_mut_slice
copy_to-inside file base bytes writable room =
    let inside : ltb file.mapped_len (base + length bytes) ≡ false = ground (arith, room) in
    rw writable (rw inside refl)

mutable : (file : ExtentFile) → file.writable ≡ true → as_mut_slice file ≡ done file
unfolding as_mut_slice
mutable file writable = rw writable refl

bitmap_allocate :
    (bytes : List ℕ) (n : ℕ) {r : Option (List ℕ × Option ℕ)}
    → Bitmap.allocate_from n 0 bytes ≡ r
    → Bitmap.allocate bytes n ≡ r
unfolding Bitmap.allocate
bitmap_allocate bytes n run = run

abbrev pub with_bytes : ExtentManager → ℕ → List ℕ → ExtentManager
with_bytes m base bytes =
    with_file m (record (m.file) { byte_at = write_range m.file.byte_at base bytes })

-- What a try in an extent does to the slots of all.
pub record Tried (m m' : ExtentManager) (extent : ℕ) (o : Option ℕ) : Type 0 where
  pub sound : IsSound m'
  pub extents : m'.extents ≡ m.extents
  pub file_id : m'.file_id ≡ m.file_id
  pub mapped : m'.file.mapped_len ≡ m.file.mapped_len
  pub here : taken m' extent ≡ after o (taken m extent)
  pub elsewhere : (e : ℕ) → e ≢ extent → taken m' e ≡ taken m e

module _ (m : ExtentManager) (extent : ℕ) (class : BlockClass) (s : IsSound m)
    (listed : extent < length m.extents) (known : class < count) where
  bitmap_inside : bitmap_base extent + bitmap_bytes ≤ m.file.mapped_len
  bitmap_inside = omega (arith, s.mapped)

  slice-bitmap : slice m.file (bitmap_base extent) bitmap_bytes ≡ done (bitmap_of m extent)
  unfolding slice
  slice-bitmap =
      let inside : ltb m.file.mapped_len (bitmap_base extent + bitmap_bytes) ≡ false =
        ground (arith, bitmap_inside) in
      rw inside refl

  with_bytes-IsSound :
      (bytes : List ℕ)
      → IsBitmap bytes
      → length bytes ≡ bitmap_bytes
      → IsSound (with_bytes m (bitmap_base extent) bytes)
  with_bytes-IsSound bytes small len = record {
    writable = s.writable;
    mapped = s.mapped;
    classes = s.classes;
    bytes = write_range_small m.file.byte_at (bitmap_base extent) bytes s.bytes small;
    zeros = λ p behind.
        outside m.file.byte_at (bitmap_base extent) bytes p (inr (omega (arith, len)))
        ∙ s.zeros p behind;
  }

  elsewhere_same :
      (bytes : List ℕ) (e : ℕ)
      → length bytes ≡ bitmap_bytes
      → e ≢ extent
      → taken (with_bytes m (bitmap_base extent) bytes) e ≡ taken m e
  elsewhere_same bytes e len other = ap used (
      read_range-apart m.file.byte_at (bitmap_base extent) bytes (bitmap_base e) bitmap_bytes
        (elim (Bool-cases (ltb e extent)) [
          | inl h ↦ inl (omega (arith, ltb→lt _ _ h))
          | inr h ↦ inr (omega (arith, ltb_false→le _ _ h, len))
        ]))

  pub try_allocate-Tried :
      (m' : ExtentManager) × (try_allocate_in_extent m extent class
        ≡ done (m', first_free (slots_per_extent class) 0 (taken m extent)))
      × Tried m m' extent (first_free (slots_per_extent class) 0 (taken m extent))
  unfolding try_allocate_in_extent
  try_allocate-Tried =
      let bytes = bitmap_of m extent in
      let whole : length bytes ≡ bitmap_bytes =
        length-read_range m.file.byte_at (bitmap_base extent) bitmap_bytes in
      let fits : slots_per_extent class ≤ 4096 * 8 = (class-IsWhole class known).3 in
      let (bytes', run, small', len, eq) =
        allocate_from-first_free (slots_per_extent class) 0 bytes
          (read_range-IsBitmap m.file.byte_at (bitmap_base extent) bitmap_bytes s.bytes)
          (omega (arith, whole, fits)) in
      let allocated = bitmap_allocate bytes (slots_per_extent class) run in
      let len' : length bytes' ≡ bitmap_bytes = len ∙ whole in
      let copied =
        copy_to-inside m.file (bitmap_base extent) bytes' s.writable
          (omega (arith, len', bitmap_inside)) in
      let back : bitmap_of (with_bytes m (bitmap_base extent) bytes') extent ≡ bytes' =
        ap
          (read_range (write_range m.file.byte_at (bitmap_base extent) bytes') (bitmap_base extent))
          (sym len')
        ∙ read_range-write_range m.file.byte_at (bitmap_base extent) bytes' in
      (
        with_bytes m (bitmap_base extent) bytes',
        rw (mutable m.file s.writable) (rw slice-bitmap (rw allocated (rw copied refl))),
        record {
          sound = with_bytes-IsSound bytes' small' len';
          extents = refl;
          file_id = refl;
          mapped = refl;
          here = ap used back ∙ eq;
          elsewhere = λ e other. elsewhere_same bytes' e len' other;
        },
      )
