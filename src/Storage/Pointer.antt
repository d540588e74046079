-- ===== src/Storage/Pointer.antt =====
-- crates/gems-storage/src/slot.rs
use gems.Prelude.{ℕ, ◌<◌, ◌^◌, ◌≡◌, refl, List, ◌++◌, take, drop, get_or, [], ◌∷◌}
use gems.Codec.Bytes.{to_le, from_le, from_le-to_le, le_bound}

pub record SlotPointer : Type 0 where
  pub file_id : ℕ
  pub extent_index : ℕ
  pub slot_index : ℕ
  pub block_class : ℕ

unfoldable pub encode : SlotPointer → List ℕ
unfolding to_le
encode p =
    to_le 4 p.file_id ++ (to_le 4 p.extent_index ++ (to_le 4 p.slot_index ++ (p.block_class ∷ [])))

-- Of an array of thirteen bytes.
unfoldable pub decode : List ℕ → SlotPointer
unfolding from_le
decode bytes = record {
  file_id = from_le (take 4 bytes);
  extent_index = from_le (take 4 (drop 4 bytes));
  slot_index = from_le (take 4 (drop 8 bytes));
  block_class = get_or bytes 12 0;
}

pub decode-encode :
    (p : SlotPointer)
    → p.file_id < 2 ^ 32
    → p.extent_index < 2 ^ 32
    → p.slot_index < 2 ^ 32
    → decode (encode p) ≡ p
unfolding encode decode to_le le_bound
decode-encode p file extent slot =
    rw (from_le-to_le 4 p.file_id file)
      (rw (from_le-to_le 4 p.extent_index extent) (rw (from_le-to_le 4 p.slot_index slot) refl))
