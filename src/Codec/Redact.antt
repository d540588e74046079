-- ===== src/Codec/Redact.antt =====
-- `redact` of crates/gems-codec/src/gbv.rs: a body without the excluded fields.
use gems.Prelude.{
  ℕ, zero, suc, ◌+◌, ◌*◌, ◌<◌, ◌≤◌, ◌≡◌, inl, inr, refl, false, Option, none, some, List, [], ◌∷◌,
  ◌++◌, append-nil, append_assoc, length-append, u32_mod, sym, ap, subst, ◌∙◌, ◌%◌, length, ltb,
  if◌then◌else◌, ◌>>=◌, arith, All, All-append, Bool-cases,
}
use gems.Prelude.Sets.{contains}
use gems.Prelude.Results.{Result, Error, ok, err}
use gems.Codec.Tag.{TypeTag, tag_byte, tag_from_u8}
use gems.Codec.Builder.{DirEntry, GbvBuilder, new_builder, push, finish}
use gems.Codec.Reader.{directory_entry_len, GbvReader, open_reader, entry_at, field_bytes}

-- A field is copied if its tag is known and its bytes lie in the buffer.
unfoldable pub copy_field : GbvBuilder → ℕ → Result Error TypeTag → Option (List ℕ) → GbvBuilder
unfolding push
copy_field b key_id (ok tag) (some bytes) = push b key_id tag bytes
copy_field b key_id (ok tag) none = b
copy_field b key_id (err e) bytes = b

unfoldable pub redact_field : GbvReader → List ℕ → GbvBuilder → DirEntry → GbvBuilder
unfolding copy_field tag_from_u8 field_bytes
redact_field r exclude b e =
    if contains exclude e.key_id
    then b
    else copy_field b e.key_id (tag_from_u8 e.type_tag) (field_bytes r e)

-- The fields from number `i` on, of which `n` are left.
unfoldable pub redact_fields : ℕ → ℕ → GbvReader → List ℕ → GbvBuilder → Option GbvBuilder
unfolding entry_at redact_field
redact_fields zero i r exclude b = some b
redact_fields (suc n) i r exclude b = do
  e ← entry_at r i
  redact_fields n (i + 1) r exclude (redact_field r exclude b e)

unfoldable pub redact : GbvReader → List ℕ → Option (List ℕ)
unfolding redact_fields new_builder finish
redact r exclude = do b ← redact_fields r.field_count 0 r exclude new_builder; some (finish b)

-- The directory of an open reader lies in its buffer.
abbrev pub IsOpen : GbvReader → Type 0
IsOpen r = 2 + r.field_count * directory_entry_len ≤ length r.buf

pub open_reader-IsOpen :
    (buf : List ℕ) {r : GbvReader} → open_reader buf ≡ ok r → (r.buf ≡ buf) × IsOpen r
unfolding open_reader
open_reader-IsOpen buf h = ground arith

pub entry_at-total :
    (r : GbvReader) (i : ℕ)
    → IsOpen r
    → i < r.field_count
    → (e : DirEntry) × (entry_at r i ≡ some e)
unfolding entry_at
entry_at-total r i opened inside =
    let within : ltb (length r.buf) (2 + i * directory_entry_len + 13) ≡ false = ground arith in
    rw within (_, refl)

abbrev pub IsShown : List ℕ → DirEntry → Type 0
IsShown exclude e = contains exclude e.key_id ≡ false

copy_field-IsShown :
    (exclude : List ℕ) (b : GbvBuilder) (key_id : ℕ) (t : Result Error TypeTag)
    (v : Option (List ℕ))
    → contains exclude key_id ≡ false
    → All (IsShown exclude) b.entries
    → All (IsShown exclude) (copy_field b key_id t v).entries
unfolding copy_field push
copy_field-IsShown exclude b key_id (ok tag) (some bytes) shown h =
    All-append (IsShown exclude) b.entries _ h (shown, tt)
copy_field-IsShown exclude b key_id (ok tag) none shown h = h
copy_field-IsShown exclude b key_id (err e) v shown h = h

-- A field that is to be kept: its key, its tag and its bytes.
abbrev pub Kept : Type 0
Kept = ℕ × TypeTag × List ℕ

abbrev readable : ℕ → Result Error TypeTag → Option (List ℕ) → List Kept
readable key_id (ok tag) (some bytes) = (key_id, tag, bytes) ∷ []
readable key_id (ok tag) none = []
readable key_id (err e) bytes = []

-- The fields that are not excluded, have a known tag and lie in the buffer.
unfoldable pub kept_of : GbvReader → List ℕ → List DirEntry → List Kept
kept_of r exclude [] = []
kept_of r exclude (e ∷ es) =
    let rest = kept_of r exclude es in
    if contains exclude e.key_id
    then rest
    else readable e.key_id (tag_from_u8 e.type_tag) (field_bytes r e) ++ rest

-- The directory entries from number `i` on, of which `n` are left.
unfoldable pub directory : ℕ → ℕ → GbvReader → Option (List DirEntry)
directory zero i r = some []
directory (suc n) i r = do e ← entry_at r i; es ← directory n (i + 1) r; some (e ∷ es)

-- The bytes of fields that lie one behind the other, and their directory from an offset on.
unfoldable pub contents : List Kept → List ℕ
contents [] = []
contents ((key_id, tag, bytes) ∷ fs) = bytes ++ contents fs

unfoldable pub layout : ℕ → List Kept → List DirEntry
layout offset [] = []
layout offset ((key_id, tag, bytes) ∷ fs) =
    record {
      key_id = key_id;
      type_tag = tag_byte tag;
      offset = offset % u32_mod;
      len = length bytes % u32_mod;
    }
    ∷ layout (offset + length bytes) fs

-- The builder holds exactly these fields, in this order.
pub record IsBuilt (fs : List Kept) (b : GbvBuilder) : Type 0 where
  pub directory_of : b.entries ≡ layout 0 fs
  pub values_of : b.values ≡ contents fs

contents-append : (fs gs : List Kept) → contents (fs ++ gs) ≡ contents fs ++ contents gs
unfolding contents
contents-append [] gs = refl
contents-append ((key_id, tag, bytes) ∷ fs) gs =
    ap (λ v. bytes ++ v) (contents-append fs gs)
    ∙ sym (append_assoc bytes (contents fs) (contents gs))

layout-append :
    (offset : ℕ) (fs gs : List Kept)
    → layout offset (fs ++ gs) ≡ layout offset fs ++ layout (offset + length (contents fs)) gs
unfolding layout contents
layout-append offset [] gs = let same : offset + 0 ≡ offset = omega arith in rw same refl
layout-append offset ((key_id, tag, bytes) ∷ fs) gs =
    let reach : offset + length (bytes ++ contents fs)
        ≡ offset + length bytes + length (contents fs) =
      omega (arith, length-append bytes (contents fs)) in
    rw reach (rw (layout-append (offset + length bytes) fs gs) refl)

push-IsBuilt :
    (fs : List Kept) (b : GbvBuilder) (key_id : ℕ) (tag : TypeTag) (bytes : List ℕ)
    → IsBuilt fs b
    → IsBuilt (fs ++ ((key_id, tag, bytes) ∷ [])) (push b key_id tag bytes)
unfolding push layout contents
push-IsBuilt fs b key_id tag bytes h =
    let here : 0 + length (contents fs) ≡ length (contents fs) = omega arith in
    record {
      directory_of =
          rw (h.directory_of, h.values_of)
            (rw here at (sym (layout-append 0 fs ((key_id, tag, bytes) ∷ []))));
      values_of = rw (h.values_of) (
          ap (λ v. contents fs ++ v) (sym (append-nil bytes))
          ∙ sym (contents-append fs ((key_id, tag, bytes) ∷ [])));
    }

copy_field-IsBuilt :
    (fs : List Kept) (b : GbvBuilder) (key_id : ℕ) (t : Result Error TypeTag) (v : Option (List ℕ))
    → IsBuilt fs b
    → IsBuilt (fs ++ readable key_id t v) (copy_field b key_id t v)
unfolding copy_field
copy_field-IsBuilt fs b key_id (ok tag) (some bytes) h = push-IsBuilt fs b key_id tag bytes h
copy_field-IsBuilt fs b key_id (ok tag) none h = rw (append-nil fs) h
copy_field-IsBuilt fs b key_id (err e) v h = rw (append-nil fs) h

redact_fields-builds :
    (n i : ℕ) (r : GbvReader) (exclude : List ℕ) (fs : List Kept) (b : GbvBuilder)
    → IsOpen r
    → i + n ≡ r.field_count
    → All (IsShown exclude) b.entries
    → IsBuilt fs b
    → (es : List DirEntry) × (directory n i r ≡ some es)
      × (d : GbvBuilder) × (redact_fields n i r exclude b ≡ some d)
      × All (IsShown exclude) d.entries
      × IsBuilt (fs ++ kept_of r exclude es) d
unfolding redact_fields redact_field directory kept_of
redact_fields-builds zero i r exclude fs b opened counted h built =
    ([], refl, b, refl, h, rw (append-nil fs) built)
redact_fields-builds (suc n) i r exclude fs b opened counted h built =
    let (e, found) = entry_at-total r i opened (omega arith) in
    elim (Bool-cases (contains exclude e.key_id)) [
      | inl hidden ↦
          let (es, listed, d, run, shown, made) =
            redact_fields-builds n (i + 1) r exclude fs b opened (omega arith) h built in
          (e ∷ es, rw found (rw listed refl), d, rw found (rw hidden run), shown, rw hidden made)
      | inr visible ↦
          let more = readable e.key_id (tag_from_u8 e.type_tag) (field_bytes r e) in
          let (es, listed, d, run, shown, made) =
            redact_fields-builds n (i + 1) r exclude (fs ++ more)
              (copy_field b e.key_id (tag_from_u8 e.type_tag) (field_bytes r e)) opened
              (omega arith)
              (copy_field-IsShown exclude b e.key_id (tag_from_u8 e.type_tag) (field_bytes r e)
                visible h)
              (copy_field-IsBuilt fs b e.key_id (tag_from_u8 e.type_tag) (field_bytes r e) built) in
          (
            e ∷ es,
            rw found (rw listed refl),
            d,
            rw found (rw visible run),
            shown,
            rw visible
                (subst (λ gs. IsBuilt gs d) (append_assoc fs more (kept_of r exclude es)) made),
          )
    ]

-- On any buffer that opens, whatever its directory claims, `redact` does not panic. It finishes a builder that
-- has no directory entry of an excluded field, and that holds exactly the fields of the buffer's directory
-- that are not excluded, have a known type tag and lie in the buffer, in order: each with its key, its tag and
-- its bytes, which follow one another, and no other bytes.
pub redact-hides :
    (buf exclude : List ℕ) {r : GbvReader}
    → open_reader buf ≡ ok r
    → (es : List DirEntry) × (directory r.field_count 0 r ≡ some es)
      × (d : GbvBuilder) × (redact r exclude ≡ some (finish d))
      × All (IsShown exclude) d.entries
      × IsBuilt (kept_of r exclude es) d
unfolding redact new_builder layout contents
redact-hides buf exclude {r} h =
    let (es, listed, d, run, shown, made) =
      redact_fields-builds r.field_count 0 r exclude [] new_builder (open_reader-IsOpen buf h).1
        (omega arith) tt (record { directory_of = refl; values_of = refl }) in
    (es, listed, d, rw run refl, shown, made)
