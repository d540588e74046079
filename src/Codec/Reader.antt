-- ===== src/Codec/Reader.antt =====
-- `GbvReader` of crates/gems-codec/src/gbv.rs. `none` is a panic where a slice is out of range.
use gems.Prelude.{
  ℕ, ◌+◌, ◌*◌, Option, none, some, List, length, take, drop, get_or, ltb, if◌then◌else◌,
}
use gems.Prelude.Results.{Result, Error, ok, err, invalid_value}
use gems.Codec.Bytes.{from_le}
use gems.Codec.Builder.{DirEntry}

abbrev pub directory_entry_len : ℕ
directory_entry_len = 13

pub record GbvReader : Type 0 where
  pub buf : List ℕ
  pub field_count : ℕ
  pub values_start : ℕ

-- buf[start..start + n], on a range that lies in the buffer.
unfoldable pub bytes_at : List ℕ → ℕ → ℕ → List ℕ
bytes_at buf start n = take n (drop start buf)

unfoldable pub open_reader : List ℕ → Result Error GbvReader
unfolding from_le
open_reader buf =
    if ltb (length buf) 2
    then err (invalid_value "GBV buffer too short for header")
    else let field_count = from_le (take 2 buf) in
      let values_start = 2 + field_count * directory_entry_len in
      if ltb (length buf) values_start
      then err (invalid_value "GBV buffer too short for directory")
      else ok (record { buf = buf; field_count = field_count; values_start = values_start })

unfoldable pub entry_at : GbvReader → ℕ → Option DirEntry
unfolding from_le bytes_at
entry_at r i =
    let base = 2 + i * directory_entry_len in
    if ltb (length r.buf) (base + 13)
    then none
    else some (record {
      key_id = from_le (bytes_at r.buf base 4);
      type_tag = get_or r.buf (base + 4) 0;
      offset = from_le (bytes_at r.buf (base + 5) 4);
      len = from_le (bytes_at r.buf (base + 9) 4);
    })

-- A value's bytes, unless its claimed range leaves the buffer.
unfoldable pub field_bytes : GbvReader → DirEntry → Option (List ℕ)
unfolding bytes_at
field_bytes r e =
    let start = r.values_start + e.offset in
    if ltb (length r.buf) (start + e.len) then none else some (bytes_at r.buf start e.len)
