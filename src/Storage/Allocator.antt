-- ===== src/Storage/Allocator.antt =====
-- `ExtentManager::allocate` of crates/gems-storage/src/manager.rs: the extents of a class in turn, and then a
-- new one.
use gems.Prelude.{
  ℕ, suc, ◌+◌, ◌-◌, ◌≤◌, ◌<◌, ◌≡◌, ◌⊎◌, inl, inr, refl, sym, ap, subst, ◌∙◌, none, some, List, [],
  ◌∷◌, length, get_elem?, get_elem?-lt, ◌==◌, ltb, true, if◌then◌else◌, ==_iff, Bool-cases,
  Option-cases, All, arith,
}
use gems.Prelude.Results.{err}
use gems.Storage.BlockClass.{
  count, BlockClass, block_size, slots_per_extent, max_block_size, too_large,
}
use gems.Storage.Classes.{for_size-IsFit}
use gems.Storage.Slots.{mark, first_free}
use gems.Storage.Pointer.{SlotPointer}
use gems.Storage.Manager.{Outcome, done, ExtentManager, pointer, candidates, allocate_in, allocate}
use gems.Storage.Allocation.{taken, IsSound, Tried, try_allocate-Tried}
use gems.Storage.View.{view, IsAllocated, first_free-free, pointer-IsPlaced, view-none, view-some}
use gems.Storage.Fresh.{allocate_new-IsAllocated}

abbrev OfClass : List BlockClass → BlockClass → ℕ → Type 0
OfClass l class i = get_elem? l i ≡ some class

candidates-OfClass :
    (idx : ℕ) (class : BlockClass) (cs l : List BlockClass)
    → ((k : ℕ) → get_elem? l (idx + k) ≡ get_elem? cs k)
    → All (OfClass l class) (candidates idx class cs)
unfolding candidates
candidates-OfClass idx class [] l same = tt
candidates-OfClass idx class (c ∷ cs) l same =
    let here : idx + 0 ≡ idx = omega arith in
    let rest : All (OfClass l class) (candidates (suc idx) class cs) =
      candidates-OfClass (suc idx) class cs l
        (λ k. let shift : idx + suc k ≡ suc idx + k = omega arith in rw shift at (same (suc k))) in
    elim (Bool-cases (c == class)) [
      | inl e ↦
          let head : get_elem? l idx ≡ some c = rw here at (same 0) in
          rw e (head ∙ ap (λ k. some k) ((==_iff _ _).0 e), rest)
      | inr e ↦ rw e rest
    ]

-- The allocator answers with a slot.
abbrev Served : ExtentManager → BlockClass → Outcome (ExtentManager × SlotPointer) → Type 0
Served m class res =
    (m' : ExtentManager) × (p : SlotPointer) × (res ≡ done (m', p)) × IsAllocated m m' class p

-- An extent that was full has not changed what follows.
unchanged :
    (m m1 m' : ExtentManager) (class : BlockClass) (p : SlotPointer)
    → ((e : ℕ) → view m1 e ≡ view m e)
    → IsAllocated m1 m' class p
    → IsAllocated m m' class p
unchanged m m1 m' class p same a = record {
  sound = a.sound;
  placed = a.placed;
  of_class = a.of_class;
  extent_class = a.extent_class;
  was_free = sym (ap (λ v. v p.slot_index) (same p.extent_index)) ∙ a.was_free;
  now =
      λ e. a.now e ∙ ap (λ v. if e == p.extent_index then mark v p.slot_index true else v) (same e);
}

module _ (m m' : ExtentManager) (class : BlockClass) (idx slot : ℕ) (s : IsSound m)
    (known : class < count) (of_class : OfClass m.extents class idx)
    (found : first_free (slots_per_extent class) 0 (taken m idx) ≡ some slot)
    (tried : Tried m m' idx (some slot)) where
  slot-IsAllocated : IsAllocated m m' class (pointer m' idx slot class)
  slot-IsAllocated =
      let listed = get_elem?-lt m.extents idx of_class in
      let there : ltb idx (length m.extents) ≡ true = ground (arith, listed) in
      let (free, inside) = first_free-free (slots_per_extent class) 0 (taken m idx) slot found in
      record {
        sound = tried.sound;
        placed =
            pointer-IsPlaced m' idx slot class tried.sound (rw (tried.extents) listed) known
              (omega (arith, inside));
        of_class = refl;
        extent_class = ap (λ l. get_elem? l idx) tried.extents ∙ of_class;
        was_free = rw there free;
        now = λ e. view-some m m' idx slot class e tried listed;
      }

allocate_in-Served :
    (class : BlockClass) (ids : List ℕ) (m : ExtentManager)
    → IsSound m
    → length m.extents < 4114
    → class < count
    → All (OfClass m.extents class) ids
    → Served m class (allocate_in 4096 class ids m)
unfolding allocate_in
allocate_in-Served class [] m s few known all = allocate_new-IsAllocated m class s few known
allocate_in-Served class (idx ∷ rest) m s few known all =
    let listed = get_elem?-lt m.extents idx all.0 in
    let (m1, run, tried) = try_allocate-Tried m idx class s listed known in
    elim (Option-cases (first_free (slots_per_extent class) 0 (taken m idx))) [
      | inl full ↦
          let tried1 : Tried m m1 idx none = subst (λ o. Tried m m1 idx o) full tried in
          let (m', p, run', a) =
            allocate_in-Served class rest m1 tried1.sound (rw (tried1.extents) few) known
              (rw (tried1.extents) all.1) in
          (
            m',
            p,
            rw run (rw full run'),
            unchanged m m1 m' class p (λ e. view-none m m1 idx e tried1 listed) a,
          )
      | inr (slot, found) ↦
          let tried1 : Tried m m1 idx (some slot) = subst (λ o. Tried m m1 idx o) found tried in
          (
            m1,
            pointer m1 idx slot class,
            rw run (rw found refl),
            slot-IsAllocated m m1 class idx slot s known all.0 found tried1,
          )
    ]

-- On pages of 4096 bytes, of a manager whose file has grown by an extent for each of its list, writable, with
-- zeros behind the last one, and of fewer than 4114 extents: a size of at most 16 MiB gets the least class
-- whose blocks hold it and a slot of an extent of that class, which was free; that slot is marked and no other
-- has changed, in the extents that were there or in a new one; and the manager stays such. A larger size is
-- refused.
pub allocate-IsAllocated :
    (m : ExtentManager) (size : ℕ)
    → IsSound m
    → length m.extents < 4114
    → ((class : BlockClass) × (size ≤ block_size class)
        × ((class ≡ 0) ⊎ (block_size (class - 1) < size))
        × (m' : ExtentManager) × (p : SlotPointer) × (allocate 4096 m size ≡ done (m', p))
        × IsAllocated m m' class p)
      ⊎ ((max_block_size < size) × (allocate 4096 m size ≡ some (err too_large)))
unfolding allocate
allocate-IsAllocated m size s few = elim (for_size-IsFit size) [
  | inl (class, run, known, fits, least) ↦
      let (m', p, run', a) = allocate_in-Served class (candidates 0 class m.extents) m s few known (
        candidates-OfClass 0 class m.extents m.extents
          (λ k. let same : 0 + k ≡ k = omega arith in ap (get_elem? m.extents) same)) in
      inl (class, fits, least, m', p, rw run run', a)
  | inr (large, run) ↦ inr (large, rw run refl)
]
