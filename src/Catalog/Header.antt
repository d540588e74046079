-- ===== src/Catalog/Header.antt =====
-- crates/gems-catalog/src/header.rs: the header that every entity carries.
use gems.Prelude.{ℕ, Bool, true, false, List, [], ◌∷◌, ◌==◌, ◌&&◌, ◌||◌, replicate}
use gems.Catalog.Kind.{EntityKind}

-- A `Tuid` is its 24 bytes, and a text is the bytes of its UTF-8 form.
abbrev pub Tuid : Type 0
Tuid = List ℕ

pub record EntityHeader : Type 0 where
  pub id : Tuid
  pub created_by : List ℕ
  pub modified_by : List ℕ
  pub modified_at_ns : ℕ
  pub name : List ℕ
  pub description : List ℕ
  pub flags : ℕ
  pub entity_kind : EntityKind
  pub schema_ref : Tuid
  pub body_offset : ℕ
  pub body_len : ℕ

-- Tuid::NIL
unfoldable pub nil : Tuid
nil = replicate 24 0

unfoldable pub tuid_eq : Tuid → Tuid → Bool
tuid_eq [] [] = true
tuid_eq [] (b ∷ ys) = false
tuid_eq (a ∷ xs) [] = false
tuid_eq (a ∷ xs) (b ∷ ys) = (a == b) && tuid_eq xs ys

-- `list.contains(id)`
unfoldable pub contains_tuid : List Tuid → Tuid → Bool
unfolding tuid_eq
contains_tuid [] id = false
contains_tuid (t ∷ ts) id = tuid_eq t id || contains_tuid ts id
