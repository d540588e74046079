-- ===== src/Storage/Manager.antt =====
-- `ExtentFile` and `ExtentManager` of crates/gems-storage/src/file.rs and manager.rs. A mapped file is its
-- length and the byte at each position; the calls of the operating system are taken to succeed.
-- `none` is a panic, of a slice that leaves the mapping.
use Prim.Native.Nat.{bit_and}
use gems.Prelude.{
  ℕ, zero, suc, ◌+◌, ◌-◌, ◌*◌, ◌/◌, ◌^◌, Bool, true, not, ◌&&◌, Option, none, some, List, [], ◌∷◌,
  ◌++◌, length, get_or, ltb, leb, ◌==◌, if◌then◌else◌,
}
use gems.Prelude.Results.{Result, Error, ok, err, invalid_value}
use gems.Codec.Bytes.{to_le}
use gems.Storage.BlockClass.{
  data_region_size, BlockClass, from_index, block_size, slots_per_extent, for_size,
}
use gems.Storage.Bitmap.{bitmap_bytes}
use gems.Storage.Bitmap
use gems.Storage.Pointer.{SlotPointer}

abbrev pub extent_header_len : ℕ
extent_header_len = 16

abbrev pub data_offset : ℕ
data_offset = extent_header_len + bitmap_bytes

abbrev pub extent_size : ℕ
extent_size = extent_header_len + bitmap_bytes + data_region_size

abbrev pub Outcome : Type 0 → Type 0
Outcome A = Option (Result Error A)

infixl 5 ◌>>=◌
abbrev pub ◌>>=◌ : {A B : Type 0} → Outcome A → (A → Outcome B) → Outcome B
none >>= next = none
some (err e) >>= next = some (err e)
some (ok a) >>= next = next a

abbrev pub done : {A : Type 0} → A → Outcome A
done a = some (ok a)

pub record ExtentFile : Type 0 where
  pub mapped_len : ℕ
  pub byte_at : ℕ → ℕ
  pub writable : Bool

pub record ExtentManager : Type 0 where
  pub file : ExtentFile
  pub file_id : ℕ
  pub extents : List BlockClass

unfoldable pub read_range : (ℕ → ℕ) → ℕ → ℕ → List ℕ
read_range byte_at base zero = []
read_range byte_at base (suc n) = byte_at base ∷ read_range byte_at (suc base) n

abbrev pub write_range : (ℕ → ℕ) → ℕ → List ℕ → ℕ → ℕ
write_range byte_at base bytes p =
    if leb base p && ltb p (base + length bytes) then get_or bytes (p - base) 0 else byte_at p

-- `&file.as_slice()[base..base + len]`
unfoldable pub slice : ExtentFile → ℕ → ℕ → Outcome (List ℕ)
unfolding read_range
slice file base len =
    if ltb file.mapped_len (base + len) then none else done (read_range file.byte_at base len)

unfoldable pub as_mut_slice : ExtentFile → Outcome ExtentFile
as_mut_slice file =
    if not file.writable
    then some (err (invalid_value "extent file is not writable"))
    else done file

-- `file.as_mut_slice()?[base..base + bytes.len()].copy_from_slice(bytes)`
unfoldable pub copy_to : ExtentFile → ℕ → List ℕ → Outcome ExtentFile
unfolding as_mut_slice
copy_to file base bytes = as_mut_slice file >>= λ file.
    (if ltb file.mapped_len (base + length bytes)
      then none
      else done (record file { byte_at = write_range file.byte_at base bytes }))

-- `(len + page - 1) & !(page - 1)`, where the page size is the system's
unfoldable pub round_up_to_os_page : ℕ → ℕ → ℕ
round_up_to_os_page page len = bit_and (len + page - 1) (2 ^ 64 - 1 - (page - 1))

-- The new bytes are zero.
abbrev pub extended : ℕ → ExtentFile → ExtentFile
extended page file = record file {
  mapped_len = round_up_to_os_page page (file.mapped_len + extent_size);
  byte_at = λ p. if ltb p file.mapped_len then file.byte_at p else 0;
}

unfoldable pub grow_by_one_extent : ℕ → ExtentFile → Outcome (ExtentFile × ℕ)
unfolding round_up_to_os_page
grow_by_one_extent page file =
    if not file.writable
    then some (err (invalid_value "cannot grow a read-only extent file"))
    else done (extended page file, file.mapped_len)

unfoldable pub create : ℕ → ExtentManager
create file_id = record {
  file = record { mapped_len = 0; byte_at = λ p. 0; writable = true };
  file_id = file_id;
  extents = [];
}

-- A file that is there, of `existing_len` bytes.
unfoldable pub from_fd : ℕ → Bool → ℕ → (ℕ → ℕ) → ExtentFile
unfolding round_up_to_os_page
from_fd page writable existing_len byte_at = record {
  mapped_len = if existing_len == 0 then 0 else round_up_to_os_page page existing_len;
  byte_at = byte_at;
  writable = writable;
}

unfoldable pub open_extents : ℕ → ℕ → ExtentFile → Outcome (List BlockClass)
unfolding slice from_index
open_extents zero i file = done []
open_extents (suc n) i file = slice file (i * extent_size) extent_header_len >>= λ header.
    some (from_index (get_or header 6 0)) >>= λ class.
    open_extents n (suc i) file >>= λ rest. done (class ∷ rest)

unfoldable pub open_manager : ℕ → ExtentFile → Outcome ExtentManager
unfolding open_extents
open_manager file_id file = open_extents (file.mapped_len / extent_size) 0 file >>= λ extents.
    done (record { file = file; file_id = file_id; extents = extents })

abbrev pub extent_offset : ℕ → ℕ
extent_offset extent_index = extent_index * extent_size

abbrev pub with_file : ExtentManager → ExtentFile → ExtentManager
with_file m file = record m { file = file }

abbrev pub header_bytes : BlockClass → List ℕ
header_bytes class =
    to_le 4 0x47454d31
    ++ (to_le 2 1
        ++ ((class ∷ 0 ∷ [])
            ++ (to_le 4 (slots_per_extent class) ++ to_le 4 (slots_per_extent class))))

unfoldable pub init_extent_header : ExtentManager → ℕ → BlockClass → Outcome ExtentManager
init_extent_header m extent_index class =
    copy_to m.file (extent_offset extent_index) (header_bytes class) >>= λ file.
    done (with_file m file)

abbrev no_panic : {A : Type 0} → Option A → Outcome A
no_panic none = none
no_panic (some a) = done a

unfoldable pub try_allocate_in_extent :
    ExtentManager → ℕ → BlockClass → Outcome (ExtentManager × Option ℕ)
try_allocate_in_extent m extent_index class =
    let bitmap_base = extent_offset extent_index + extent_header_len in
    as_mut_slice m.file >>= λ file. slice file bitmap_base bitmap_bytes >>= λ bytes.
    no_panic (Bitmap.allocate bytes (slots_per_extent class)) >>= λ (bytes', allocated).
    copy_to m.file bitmap_base bytes' >>= λ file. done (with_file m file, allocated)

unfoldable pub candidates : ℕ → BlockClass → List BlockClass → List ℕ
candidates idx class [] = []
candidates idx class (c ∷ cs) =
    let rest = candidates (suc idx) class cs in if c == class then idx ∷ rest else rest

abbrev pub pointer : ExtentManager → ℕ → ℕ → BlockClass → SlotPointer
pointer m idx slot class = record {
  file_id = m.file_id;
  extent_index = idx;
  slot_index = slot;
  block_class = class;
}

-- Of a new extent, which always has a free slot.
abbrev pub expected :
    BlockClass → ℕ → ExtentManager × Option ℕ → Outcome (ExtentManager × SlotPointer)
expected class idx (m, none) = none
expected class idx (m, some slot) = done (m, pointer m idx slot class)

unfoldable pub allocate_new : ℕ → ExtentManager → BlockClass → Outcome (ExtentManager × SlotPointer)
allocate_new page m class = grow_by_one_extent page m.file >>= λ (file, offset).
    let extent_index = offset / extent_size in
    init_extent_header (with_file m file) extent_index class >>= λ m'.
    try_allocate_in_extent (record m' { extents = m'.extents ++ (class ∷ []) }) extent_index class
    >>= expected class extent_index

abbrev pub found_or :
    BlockClass
    → ℕ
    → (ExtentManager → Outcome (ExtentManager × SlotPointer))
    → ExtentManager × Option ℕ
    → Outcome (ExtentManager × SlotPointer)
found_or class idx otherwise (m, none) = otherwise m
found_or class idx otherwise (m, some slot) = done (m, pointer m idx slot class)

unfoldable pub allocate_in :
    ℕ → BlockClass → List ℕ → ExtentManager → Outcome (ExtentManager × SlotPointer)
allocate_in page class [] m = allocate_new page m class
allocate_in page class (idx ∷ rest) m =
    try_allocate_in_extent m idx class >>= found_or class idx (allocate_in page class rest)

unfoldable pub allocate : ℕ → ExtentManager → ℕ → Outcome (ExtentManager × SlotPointer)
allocate page m size =
    for_size size >>= λ class. allocate_in page class (candidates 0 class m.extents) m

unfoldable pub slot_offset : ExtentManager → SlotPointer → Result Error (ℕ × BlockClass)
unfolding from_index block_size
slot_offset m ptr =
    if not (ptr.file_id == m.file_id)
    then err (invalid_value "SlotPointer belongs to a different file")
    else placed (from_index ptr.block_class) (extent_offset ptr.extent_index + data_offset)
        ptr.slot_index
  where
    placed : Result Error BlockClass → ℕ → ℕ → Result Error (ℕ × BlockClass)
    placed (err e) base slot = err e
    placed (ok class) base slot = ok (base + slot * block_size class, class)

unfoldable pub write : ExtentManager → SlotPointer → List ℕ → Outcome ExtentManager
unfolding slot_offset copy_to block_size
write m ptr bytes = some (slot_offset m ptr) >>= λ (base, class).
    (if ltb (block_size class) (length bytes)
      then some (err (invalid_value "data does not fit in the slot's block class"))
      else (copy_to m.file base bytes >>= λ file. done (with_file m file)))

unfoldable pub read : ExtentManager → SlotPointer → ℕ → Outcome (List ℕ)
unfolding slot_offset slice block_size
read m ptr len = some (slot_offset m ptr) >>= λ (base, class).
    (if ltb (block_size class) len
      then some (err (invalid_value "requested length exceeds the slot's block class"))
      else slice m.file base len)

unfoldable pub free : ExtentManager → SlotPointer → Outcome ExtentManager
unfolding slice copy_to Bitmap.free
free m ptr =
    if not (ptr.file_id == m.file_id)
    then some (err (invalid_value "SlotPointer belongs to a different file"))
    else let bitmap_base = extent_offset ptr.extent_index + extent_header_len in
      as_mut_slice m.file >>= λ file. slice file bitmap_base bitmap_bytes >>= λ bytes.
      no_panic (Bitmap.free bytes ptr.slot_index) >>= λ bytes'.
      copy_to m.file bitmap_base bytes' >>= λ file. done (with_file m file)
