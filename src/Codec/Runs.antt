-- ===== src/Codec/Runs.antt =====
-- A concrete body, and the theorems on the codec at it.
use gems.Prelude.{ℕ, zero, suc, ◌≡◌, ◌<◌, refl, sym, ap, Option, some, arith, List, [], ◌∷◌, All}
use gems.Codec.Tag.{str, bin}
use gems.Codec.Builder.{DirEntry, GbvBuilder, new_builder, push, finish}
use gems.Codec.Reader.{GbvReader, open_reader, entry_at}
use gems.Codec.Search.{Field, some_entry, IsAscending, get, first_from, get-eq-first_from}
use gems.Codec.Redact.{IsShown, IsBuilt, directory, kept_of, redact, redact-hides}

-- Field 7 holds the text "hi" and field 3 the byte 255.
abbrev body : List ℕ
unfolding finish
body = finish (push (push new_builder 7 str (104 ∷ 105 ∷ [])) 3 bin (255 ∷ []))

abbrev reader : GbvReader
unfolding body
reader = record { buf = body; field_count = 2; values_start = 28 }

redact-hides_example :
    (es : List DirEntry) × (directory reader.field_count 0 reader ≡ some es)
    × (d : GbvBuilder) × (redact reader (7 ∷ []) ≡ some (finish d))
    × All (IsShown (7 ∷ [])) d.entries
    × IsBuilt (kept_of reader (7 ∷ []) es) d
unfolding open_reader body push new_builder
redact-hides_example = redact-hides body (7 ∷ []) {r = reader} refl

-- The byte of field 3 is all that is left.
redact_test : redact reader (7 ∷ []) ≡ some (finish (push new_builder 3 bin (255 ∷ [])))
unfolding redact body push new_builder gems.Prelude.Sets.contains
redact_test = refl

reader-IsAscending : IsAscending reader
unfolding entry_at body push new_builder
reader-IsAscending zero zero e f h s at at' = absurd (omega arith)
reader-IsAscending zero (suc zero) e f h s at at' =
    let first : e.key_id ≡ 3 = sym (ap (λ g. g.key_id) (some_entry at)) in
    let second : f.key_id ≡ 7 = sym (ap (λ g. g.key_id) (some_entry at')) in omega arith
reader-IsAscending zero (suc (suc j)) e f h s at at' = absurd (omega arith)
reader-IsAscending (suc i) j e f h s at at' = absurd (omega arith)

get-eq-first_from_example :
    (res : Option Field) × (get reader 7 ≡ some res)
    × (first_from reader.field_count reader 7 0 ≡ some res)
unfolding open_reader body push new_builder
get-eq-first_from_example = get-eq-first_from body reader 7 refl reader-IsAscending

get_test : get reader 7 ≡ some (some (str, 104 ∷ 105 ∷ []))
unfolding get body push new_builder
get_test = refl
