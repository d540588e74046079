-- ===== src/Storage/View.antt =====
-- The allocator of crates/gems-storage/src/manager.rs as a set of slots for every extent.
use mathlib.Core.Bool.{true≢false}
use gems.Prelude.{
  ℕ, zero, suc, ◌+◌, ◌<◌, ◌≡◌, ◌≢◌, inl, inr, refl, sym, ap, ◌∙◌, true, false, Option, none, some,
  length, ltb, ◌==◌, ==_iff, Bool-cases, if◌then◌else◌, arith, get_elem?,
}
use gems.Storage.BlockClass.{count, BlockClass, slots_per_extent}
use gems.Storage.Slots.{Slots, first_free, after, mark}
use gems.Storage.Pointer.{SlotPointer}
use gems.Storage.Manager.{ExtentManager, pointer}
use gems.Storage.Access.{IsPlaced}
use gems.Storage.Allocation.{taken, IsSound, Tried}

-- The abstract view: the allocated slots of every extent in the list, and none elsewhere.
abbrev pub view : ExtentManager → ℕ → Slots
view m e = if ltb e (length m.extents) then taken m e else (λ s. false)

abbrev pub marked : (ℕ → Slots) → SlotPointer → ℕ → Slots
marked v p e = if e == p.extent_index then mark (v e) p.slot_index true else v e

-- The allocator has handed out one free slot, and changed no other.
pub record IsAllocated (m m' : ExtentManager) (class : BlockClass) (p : SlotPointer) : Type 0 where
  pub sound : IsSound m'
  pub placed : IsPlaced m' p
  pub of_class : p.block_class ≡ class
  pub extent_class : get_elem? m'.extents p.extent_index ≡ some class
  pub was_free : view m p.extent_index p.slot_index ≡ false
  pub now : (e : ℕ) → view m' e ≡ marked (view m) p e

pub first_free-free :
    (n k : ℕ) (s : Slots) (t : ℕ) → first_free n k s ≡ some t → (s t ≡ false) × (t < k + n)
unfolding first_free
first_free-free zero k s t h = cc
first_free-free (suc n) k s t h = elim (Bool-cases (s k)) [
  | inl e ↦
      let (free, less) = first_free-free n (suc k) s t (rw e at h) in (free, omega (arith, less))
  | inr e ↦
      let here : ◌≡◌ {A = Option ℕ} (some k) (some t) = rw e at h in
      let same : k ≡ t = cc in (ap s (sym same) ∙ e, omega arith)
]

pub pointer-IsPlaced :
    (m : ExtentManager) (extent slot : ℕ) (class : BlockClass)
    → IsSound m
    → extent < length m.extents
    → class < count
    → slot < slots_per_extent class
    → IsPlaced m (pointer m extent slot class)
pointer-IsPlaced m extent slot class s listed known inside = record {
  same_file = refl;
  class_known = known;
  slot_known = inside;
  extent_mapped = omega (arith, s.mapped);
}

module _ (m m' : ExtentManager) (extent : ℕ) (o : Option ℕ) (tried : Tried m m' extent o)
    (listed : extent < length m.extents) where
  view-elsewhere : (e : ℕ) → e ≢ extent → view m' e ≡ view m e
  view-elsewhere e other =
      ap (λ l. if ltb e (length l) then taken m' e else (λ s. false)) tried.extents
      ∙ ap (λ t. if ltb e (length m.extents) then t else (λ s. false)) (tried.elsewhere e other)

  view-here : view m' extent ≡ after o (view m extent)
  view-here =
      let inside : ltb extent (length m.extents) ≡ true = ground arith in
      ap (λ l. if ltb extent (length l) then taken m' extent else (λ s. false)) tried.extents
      ∙ rw inside (tried.here)

-- A try that found nothing changed nothing.
pub view-none :
    (m m' : ExtentManager) (extent e : ℕ)
    → Tried m m' extent none
    → extent < length m.extents
    → view m' e ≡ view m e
view-none m m' extent e tried listed = elim (Bool-cases (e == extent)) [
  | inl q ↦
      let same : e ≡ extent = (==_iff _ _).0 q in rw same (view-here m m' extent none tried listed)
  | inr q ↦
      view-elsewhere m m' extent none tried listed e (λ s. true≢false (sym ((==_iff _ _).1 s) ∙ q))
]

pub view-some :
    (m m' : ExtentManager) (extent slot : ℕ) (class : BlockClass) (e : ℕ)
    → Tried m m' extent (some slot)
    → extent < length m.extents
    → view m' e ≡ marked (view m) (pointer m' extent slot class) e
view-some m m' extent slot class e tried listed = elim (Bool-cases (e == extent)) [
  | inl q ↦
      let same : e ≡ extent = (==_iff _ _).0 q in
      rw q (rw same (view-here m m' extent (some slot) tried listed))
  | inr q ↦ rw q (
      view-elsewhere m m' extent (some slot) tried listed e
        (λ s. true≢false (sym ((==_iff _ _).1 s) ∙ q)))
]
