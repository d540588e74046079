-- ===== src/Codec/Builder.antt =====
-- `GbvBuilder` of crates/gems-codec/src/gbv.rs.
use gems.Prelude.{ℕ, ◌%◌, List, [], ◌∷◌, ◌++◌, length, u32_mod, leb, if◌then◌else◌, ◌^◌}
use gems.Codec.Bytes.{to_le}
use gems.Codec.Tag.{TypeTag, tag_byte}

pub record DirEntry : Type 0 where
  pub key_id : ℕ
  pub type_tag : ℕ
  pub offset : ℕ
  pub len : ℕ

pub record GbvBuilder : Type 0 where
  pub entries : List DirEntry
  pub values : List ℕ

unfoldable pub new_builder : GbvBuilder
new_builder = record { entries = []; values = [] }

unfoldable pub push : GbvBuilder → ℕ → TypeTag → List ℕ → GbvBuilder
unfolding tag_byte
push b key_id type_tag value = record {
  entries =
      b.entries
      ++ (record {
        key_id = key_id;
        type_tag = tag_byte type_tag;
        offset = length b.values % u32_mod;
        len = length value % u32_mod;
      }
          ∷ []);
  values = b.values ++ value;
}

-- A stable sort by key.
unfoldable pub insert_by_key : DirEntry → List DirEntry → List DirEntry
insert_by_key e [] = e ∷ []
insert_by_key e (x ∷ xs) = if leb e.key_id x.key_id then e ∷ x ∷ xs else x ∷ insert_by_key e xs

unfoldable pub sort_by_key : List DirEntry → List DirEntry
unfolding insert_by_key
sort_by_key [] = []
sort_by_key (x ∷ xs) = insert_by_key x (sort_by_key xs)

unfoldable pub entry_bytes : DirEntry → List ℕ
unfolding to_le
entry_bytes e = to_le 4 e.key_id ++ (e.type_tag ∷ []) ++ to_le 4 e.offset ++ to_le 4 e.len

unfoldable pub directory_bytes : List DirEntry → List ℕ
unfolding entry_bytes
directory_bytes [] = []
directory_bytes (e ∷ es) = entry_bytes e ++ directory_bytes es

unfoldable pub finish : GbvBuilder → List ℕ
unfolding sort_by_key directory_bytes to_le
finish b =
    to_le 2 (length (sort_by_key b.entries) % 2 ^ 16)
    ++ directory_bytes (sort_by_key b.entries)
    ++ b.values
