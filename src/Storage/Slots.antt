-- ===== src/Storage/Slots.antt =====
-- The bitmap of crates/gems-storage/src/extent.rs as a set of slots.
use mathlib.Core.Bool.{true≢false}
use gems.Prelude.{
  ℕ, zero, suc, ◌+◌, ◌*◌, ◌/◌, ◌%◌, ◌≤◌, ◌<◌, ◌≡◌, ◌≢◌, inl, inr, refl, sym, ◌∙◌, Bool, true, false,
  Option, none, some, List, [], ◌∷◌, length, get_elem?, set, get_elem?-set_self, get_elem?-set_ne,
  length-set, All, ◌==◌, ==_iff, Bool-cases, if◌then◌else◌, unwrap_or, arith,
}
use gems.Storage.Bitmap.{bitmap_bytes, with_bit, get, put, allocate_from, allocate, free}
use gems.Storage.Bits.{bit-with_bit, with_bit_small}

-- The abstract view: which slots are allocated.
abbrev pub Slots : Type 0
Slots = ℕ → Bool

abbrev pub mark : Slots → ℕ → Bool → Slots
mark s slot value t = if slot == t then value else s t

-- The lowest of the `n` slots from `slot` on that is free.
unfoldable pub first_free : ℕ → ℕ → Slots → Option ℕ
first_free zero slot s = none
first_free (suc n) slot s =
    let rest = first_free n (suc slot) s in if s slot then rest else some slot

abbrev pub after : Option ℕ → Slots → Slots
after none s = s
after (some slot) s = mark s slot true

abbrev pub IsBitmap : List ℕ → Type 0
IsBitmap bytes = All (λ b. b < 256) bytes

abbrev pub used : List ℕ → Slots
used bytes slot = unwrap_or (get bytes slot) false

get_elem?-total :
    (bytes : List ℕ) (i : ℕ)
    → IsBitmap bytes
    → i < length bytes
    → (b : ℕ) × (get_elem? bytes i ≡ some b) × (b < 256)
get_elem?-total [] i small h = absurd (omega arith)
get_elem?-total (b ∷ bytes) zero small h = (b, refl, small.0)
get_elem?-total (b ∷ bytes) (suc i) small h = get_elem?-total bytes i small.1 (omega arith)

set-IsBitmap : (bytes : List ℕ) (i b : ℕ) → IsBitmap bytes → b < 256 → IsBitmap (set bytes i b)
set-IsBitmap [] i b small h = small
set-IsBitmap (x ∷ bytes) zero b small h = (h, small.1)
set-IsBitmap (x ∷ bytes) (suc i) b small h = (small.0, set-IsBitmap bytes i b small.1 h)

module _ (bytes : List ℕ) (slot : ℕ) (small : IsBitmap bytes)
    (inside : slot < length bytes * 8) where
  get-used : get bytes slot ≡ some (used bytes slot)
  unfolding get
  get-used = let (b, at, fits) = get_elem?-total bytes (slot / 8) small (omega arith) in rw at refl

  used-put :
      (value : Bool) (b t : ℕ)
      → get_elem? bytes (slot / 8) ≡ some b
      → b < 256
      → used (set bytes (slot / 8) (with_bit b (slot % 8) value)) t ≡ mark (used bytes) slot value t
  unfolding get
  used-put value b t at fits = elim (Bool-cases (slot / 8 == t / 8)) [
    | inl q ↦
        let same : slot / 8 ≡ t / 8 = (==_iff _ _).0 q in
        let there : get_elem? (set bytes (slot / 8) (with_bit b (slot % 8) value)) (t / 8)
            ≡ some (with_bit b (slot % 8) value) =
          rw (← same)
            (get_elem?-set_self bytes (slot / 8) (with_bit b (slot % 8) value) (omega arith)) in
        let before : get_elem? bytes (t / 8) ≡ some b = rw (← same) at in
        let one : (slot == t) ≡ (slot % 8 == t % 8) = ground arith in
        rw there (
          rw before
            (rw one (bit-with_bit b (slot % 8) fits (omega arith) value (t % 8) (omega arith))))
    | inr q ↦
        let other : slot / 8 ≢ t / 8 = λ s. true≢false (sym ((==_iff _ _).1 s) ∙ q) in
        let apart : (slot == t) ≡ false = ground arith in
        rw (get_elem?-set_ne bytes (with_bit b (slot % 8) value) other) (rw apart refl)
  ]

  pub put-mark :
      (value : Bool)
      → (bytes' : List ℕ) × (put bytes slot value ≡ some bytes')
        × IsBitmap bytes'
        × (length bytes' ≡ length bytes)
        × (used bytes' ≡ mark (used bytes) slot value)
  unfolding put
  put-mark value =
      let (b, at, fits) = get_elem?-total bytes (slot / 8) small (omega arith) in
      let byte = with_bit b (slot % 8) value in
      (
        set bytes (slot / 8) byte,
        rw at refl,
        set-IsBitmap bytes (slot / 8) byte small
            (with_bit_small b (slot % 8) fits (omega arith) value),
        length-set bytes (slot / 8) byte,
        λ i t. used-put value b t at fits i,
      )

pub allocate_from-first_free :
    (n slot : ℕ) (bytes : List ℕ)
    → IsBitmap bytes
    → slot + n ≤ length bytes * 8
    → (bytes' : List ℕ) × (allocate_from n slot bytes
        ≡ some (bytes', first_free n slot (used bytes)))
      × IsBitmap bytes'
      × (length bytes' ≡ length bytes)
      × (used bytes' ≡ after (first_free n slot (used bytes)) (used bytes))
unfolding allocate_from first_free
allocate_from-first_free zero slot bytes small room = (bytes, refl, small, refl, refl)
allocate_from-first_free (suc n) slot bytes small room =
    let known = get-used bytes slot small (omega arith) in
    elim (Bool-cases (used bytes slot)) [
      | inl taken ↦
          let (bytes', run, small', len, eq) =
            allocate_from-first_free n (suc slot) bytes small (omega arith) in
          (bytes', rw known (rw taken run), small', len, rw taken eq)
      | inr taken ↦
          let (bytes', run, small', len, eq) = put-mark bytes slot small (omega arith) true in
          (bytes', rw known (rw taken (rw run refl)), small', len, rw taken eq)
    ]

-- On the bitmap of an extent, allocate takes the lowest free slot of the first `slot_count`, and says
-- so, or leaves all as it is if none is free; free clears its slot; neither changes another slot,
-- panics or leaves something that is no bitmap of an extent.
pub operations-refine :
    (bytes : List ℕ) (slot_count slot : ℕ)
    → IsBitmap bytes
    → length bytes ≡ bitmap_bytes
    → slot_count ≤ bitmap_bytes * 8
    → slot < bitmap_bytes * 8
    → ((bytes' : List ℕ) × (allocate bytes slot_count
          ≡ some (bytes', first_free slot_count 0 (used bytes)))
        × IsBitmap bytes'
        × (length bytes' ≡ length bytes)
        × (used bytes' ≡ after (first_free slot_count 0 (used bytes)) (used bytes)))
      × ((bytes' : List ℕ) × (free bytes slot ≡ some bytes')
          × IsBitmap bytes'
          × (length bytes' ≡ length bytes)
          × (used bytes' ≡ mark (used bytes) slot false))
unfolding allocate free
operations-refine bytes slot_count slot small whole counted inside = (
  allocate_from-first_free slot_count 0 bytes small (omega arith),
  put-mark bytes slot small (omega arith) false,
)
