-- ===== src/Catalog/Truncate.antt =====
-- `truncate_utf8`, which crates/gems-catalog/src/header.rs and entity_attribute.rs both have.
use mathlib.Core.Bool.{true≢false}
use gems.Prelude.{
  ℕ, zero, suc, ◌≤◌, ◌<◌, ◌≡◌, ◌≢◌, ◌⊎◌, inl, inr, refl, sym, ap, ◌∙◌, true, false, ◌==◌, ==_iff,
  Bool-cases, List, length, take, leb, leb_false→lt, le→leb, if◌then◌else◌, length-take, arith,
}
use gems.Prelude.Utf8.{is_char_boundary}

-- `while end > 0 && !s.is_char_boundary(end) { end -= 1 }`
unfoldable pub boundary_below : List ℕ → ℕ → ℕ
unfolding is_char_boundary
boundary_below s zero = zero
boundary_below s (suc end) =
    let lower = boundary_below s end in if is_char_boundary s (suc end) then suc end else lower

unfoldable pub truncate_utf8 : List ℕ → ℕ → List ℕ
unfolding boundary_below
truncate_utf8 s max_bytes =
    if leb (length s) max_bytes then s else take (boundary_below s max_bytes) s

pub truncate_utf8-short :
    (s : List ℕ) (max_bytes : ℕ) → length s ≤ max_bytes → truncate_utf8 s max_bytes ≡ s
unfolding truncate_utf8
truncate_utf8-short s max_bytes h = rw (le→leb (length s) max_bytes h)

boundary_below-le : (s : List ℕ) (end : ℕ) → boundary_below s end ≤ end
unfolding boundary_below
boundary_below-le s zero = omega arith
boundary_below-le s (suc end) = ground (arith, boundary_below-le s end)

pub length-truncate_utf8 :
    (s : List ℕ) (max_bytes : ℕ) → length (truncate_utf8 s max_bytes) ≤ max_bytes
unfolding truncate_utf8
length-truncate_utf8 s max_bytes =
    ground (arith, boundary_below-le s max_bytes, length-take (boundary_below s max_bytes) s)

-- `out` is the text if that is short enough, and otherwise its longest part of at most `max_bytes` bytes that
-- ends at a boundary between characters.
abbrev pub IsCut : List ℕ → ℕ → List ℕ → Type 0
IsCut s max_bytes out =
    ((length s ≤ max_bytes) × (out ≡ s))
    ⊎ ((max_bytes < length s)
        × (stop : ℕ) × (out ≡ take stop s)
        × (stop ≤ max_bytes)
        × ((stop ≡ 0) ⊎ (is_char_boundary s stop ≡ true))
        × ((end : ℕ) → stop < end → end ≤ max_bytes → is_char_boundary s end ≡ false))

boundary_below-at :
    (s : List ℕ) (end : ℕ)
    → (boundary_below s end ≡ 0) ⊎ (is_char_boundary s (boundary_below s end) ≡ true)
unfolding boundary_below
boundary_below-at s zero = inl refl
boundary_below-at s (suc end) = elim (Bool-cases (is_char_boundary s (suc end))) [
  | inl here ↦ rw here (inr here)
  | inr other ↦ rw other (boundary_below-at s end)
]

boundary_below-longest :
    (s : List ℕ) (max end : ℕ)
    → boundary_below s max < end
    → end ≤ max
    → is_char_boundary s end ≡ false
unfolding boundary_below
boundary_below-longest s zero end above below = absurd (omega arith)
boundary_below-longest s (suc max) end above below =
    elim (Bool-cases (is_char_boundary s (suc max))) [
      | inl here ↦ let past : suc max < end = rw here at above in absurd (omega arith)
      | inr other ↦
          let past : boundary_below s max < end = rw other at above in
          elim (Bool-cases (end == suc max)) [
            | inl last ↦ ap (is_char_boundary s) ((==_iff _ _).0 last) ∙ other
            | inr before ↦
                let ne : end ≢ suc max = λ e. true≢false (sym ((==_iff _ _).1 e) ∙ before) in
                boundary_below-longest s max end past (omega arith)
          ]
    ]

pub truncate_utf8-IsCut :
    (s : List ℕ) (max_bytes : ℕ) → IsCut s max_bytes (truncate_utf8 s max_bytes)
unfolding truncate_utf8
truncate_utf8-IsCut s max_bytes = elim (Bool-cases (leb (length s) max_bytes)) [
  | inl short ↦ rw short (inl (ground (arith, short), refl))
  | inr long ↦ rw long (
      inr (
        leb_false→lt _ _ long,
        boundary_below s max_bytes,
        refl,
        boundary_below-le s max_bytes,
        boundary_below-at s max_bytes,
        boundary_below-longest s max_bytes,
      ))
]
