-- ===== src/Storage/Fresh.antt =====
-- An extent that is new: `allocate`'s last part (crates/gems-storage/src/manager.rs).
use mathlib.Core.Bool.{true≢false}
use gems.Prelude.{
  ℕ, zero, suc, ◌+◌, ◌*◌, ◌/◌, ◌%◌, ◌≤◌, ◌<◌, ◌≡◌, ◌≢◌, ◌⊎◌, inl, inr, refl, sym, ap, subst, ◌∙◌,
  true, false, not, none, some, List, [], ◌∷◌, ◌++◌, length, length-append, ltb, ◌==◌, ==_iff,
  Bool-cases, ltb→lt, if◌then◌else◌, arith,
}
use gems.Codec.Bytes.{to_le}
use gems.Storage.BlockClass.{count, BlockClass, slots_per_extent}
use gems.Storage.Bitmap.{bitmap_bytes, bit_of}
use gems.Storage.Bitmap
use gems.Storage.Classes.{class-IsWhole}
use gems.Storage.Slots.{Slots, IsBitmap, used, first_free, mark}
use gems.Storage.Pointer.{SlotPointer}
use gems.Storage.Manager.{
  extent_header_len, extent_size, done, ExtentManager, read_range, extent_offset, with_file,
  header_bytes, try_allocate_in_extent, pointer, allocate_new, init_extent_header,
  grow_by_one_extent, extended,
}
use gems.Storage.Access.{read_range-same, read_range-apart, outside}
use gems.Storage.Growth.{rounded, IsGrown, grow_once}
use gems.Prelude.{All-append, get_elem?}
use gems.Prelude.Tables.{passes, passes_at}
use gems.Codec.Bytes.{length-to_le}
use gems.Storage.Allocation.{
  taken, IsSound, Tried, bitmap_base, with_bytes, copy_to-inside, write_range_small,
  try_allocate-Tried,
}
use gems.Storage.View.{view, IsAllocated, pointer-IsPlaced, view-some}

zero_bits : passes (λ k. not (bit_of 0 k)) 8 ≡ true
unfolding bit_of passes
zero_bits = refl

zero_bit : (k : ℕ) → k < 8 → bit_of 0 k ≡ false
zero_bit k h = ground (arith, passes_at (λ k. not (bit_of 0 k)) {rows = 8} zero_bits k h)

get_elem?-zeros :
    (f : ℕ → ℕ) (base n i : ℕ)
    → ((p : ℕ) → p < n → f (base + p) ≡ 0)
    → (get_elem? (read_range f base n) i ≡ some 0) ⊎ (get_elem? (read_range f base n) i ≡ none)
unfolding read_range
get_elem?-zeros f base zero i zeros = inr refl
get_elem?-zeros f base (suc n) zero zeros =
    let here : base + 0 ≡ base = omega arith in
    inl (ap (λ b. some b) (rw here at (zeros 0 (omega arith))))
get_elem?-zeros f base (suc n) (suc i) zeros = get_elem?-zeros f (suc base) n i (λ p h.
    let shift : base + suc p ≡ suc base + p = omega arith in
    rw shift at (zeros (suc p) (omega arith)))

used-zeros :
    (f : ℕ → ℕ) (base n : ℕ)
    → ((p : ℕ) → p < n → f (base + p) ≡ 0)
    → used (read_range f base n) ≡ (λ s. false)
unfolding Bitmap.get
used-zeros f base n zeros = λ i s. unused s i
  where
    unused : (s : ℕ) → used (read_range f base n) s ≡ false
    unused s = elim (get_elem?-zeros f base n (s / 8) zeros) [
      | inl e ↦ rw e (zero_bit (s % 8) (omega arith))
      | inr e ↦ rw e refl
    ]

to_le-IsBitmap : (w n : ℕ) → IsBitmap (to_le w n)
unfolding to_le
to_le-IsBitmap zero n = tt
to_le-IsBitmap (suc w) n = (omega arith, to_le-IsBitmap w (n / 256))

abbrev IsByte : ℕ → Type 0
IsByte b = b < 256

header-IsBitmap : (class : BlockClass) → class < count → IsBitmap (header_bytes class)
header-IsBitmap class known =
    let twice = to_le 4 (slots_per_extent class) in
    All-append IsByte (to_le 4 0x47454d31) _ (to_le-IsBitmap 4 _) (
      All-append IsByte (to_le 2 1) _ (to_le-IsBitmap 2 _) (
        All-append IsByte (class ∷ 0 ∷ []) _ (omega arith, (omega arith, tt))
          (All-append IsByte twice twice (to_le-IsBitmap 4 _) (to_le-IsBitmap 4 _))))

length-header_bytes : (class : BlockClass) → length (header_bytes class) ≡ extent_header_len
length-header_bytes class = omega (arith, length-append {0}, length-to_le)

first_free-first : (n : ℕ) (s : Slots) → 1 ≤ n → s 0 ≡ false → first_free n 0 s ≡ some 0
unfolding first_free
first_free-first zero s h free = ground (arith, h)
first_free-first (suc n) s h free = rw free refl

get_elem?-end :
    {A : Type 0} → (xs : List A) (a : A) → get_elem? (xs ++ (a ∷ [])) (length xs) ≡ some a
get_elem?-end [] a = refl
get_elem?-end (x ∷ xs) a = get_elem?-end xs a

module _ (m : ExtentManager) (class : BlockClass) (s : IsSound m) (few : length m.extents < 4114)
    (known : class < count) where
  abbrev n : ℕ
  n = length m.extents

  abbrev grown : ExtentManager
  grown = with_file m (extended 4096 m.file)

  abbrev headed : ExtentManager
  headed = with_bytes grown (extent_offset n) (header_bytes class)

  abbrev listed : ExtentManager
  listed = record headed { extents = m.extents ++ (class ∷ []) }

  grows :
      (grow_by_one_extent 4096 m.file ≡ done (extended 4096 m.file, n * rounded))
      × IsGrown (suc n) (extended 4096 m.file)
  grows =
      grow_once n m.file (omega arith)
        (record { still_writable = s.writable; whole_pages = s.mapped })

  index : n * rounded / extent_size ≡ n
  index = omega arith

  longer : length (m.extents ++ (class ∷ [])) ≡ suc n
  longer = omega (arith, length-append m.extents (class ∷ []))

  extended_small : (p : ℕ) → (extended 4096 m.file).byte_at p < 256
  extended_small p = elim (Bool-cases (ltb p m.file.mapped_len)) [
    | inl e ↦ rw e (s.bytes p)
    | inr e ↦ rw e (omega arith)
  ]

  behind_zero : (p : ℕ) → n * extent_size ≤ p → (extended 4096 m.file).byte_at p ≡ 0
  behind_zero p behind = elim (Bool-cases (ltb p m.file.mapped_len)) [
    | inl e ↦ rw e (s.zeros p behind)
    | inr e ↦ rw e refl
  ]

  listed-IsSound : IsSound listed
  listed-IsSound = record {
    writable = s.writable;
    mapped = grows.1.whole_pages ∙ ap (λ k. k * rounded) (sym longer);
    classes = All-append (λ c. c < count) m.extents (class ∷ []) s.classes (known, tt);
    bytes =
        write_range_small (extended 4096 m.file).byte_at (extent_offset n) (header_bytes class)
          extended_small (header-IsBitmap class known);
    zeros = λ p behind.
        outside (extended 4096 m.file).byte_at (extent_offset n) (header_bytes class) p
          (inr (omega (arith, longer, length-header_bytes class)))
        ∙ behind_zero p (omega (arith, longer));
  }

  listed_free : taken listed n ≡ (λ s. false)
  listed_free = used-zeros listed.file.byte_at (bitmap_base n) bitmap_bytes (λ p h.
      outside (extended 4096 m.file).byte_at (extent_offset n) (header_bytes class)
        (bitmap_base n + p) (inr (omega (arith, length-header_bytes class)))
      ∙ behind_zero (bitmap_base n + p) (omega arith))

  listed_old : (e : ℕ) → e < n → taken listed e ≡ taken m e
  listed_old e old = ap used (
      read_range-apart (extended 4096 m.file).byte_at (extent_offset n) (header_bytes class)
        (bitmap_base e) bitmap_bytes (inl (omega arith))
      ∙ read_range-same (extended 4096 m.file).byte_at m.file.byte_at (bitmap_base e) bitmap_bytes
          (λ i h.
            let before : ltb (bitmap_base e + i) m.file.mapped_len ≡ true =
              ground (arith, s.mapped) in
            rw before refl))

  view-listed : (e : ℕ) → view listed e ≡ view m e
  view-listed e = elim (Bool-cases (ltb e n)) [
    | inl old ↦
        let still : ltb e (length (m.extents ++ (class ∷ []))) ≡ true = ground (arith, longer) in
        rw still (rw old (listed_old e (ltb→lt _ _ old)))
    | inr old ↦ elim (Bool-cases (e == n)) [
      | inl q ↦
          let same : e ≡ n = (==_iff _ _).0 q in
          let still : ltb e (length (m.extents ++ (class ∷ []))) ≡ true = ground (arith, longer) in
          rw still (rw old (ap (taken listed) same ∙ listed_free))
      | inr q ↦
          let other : e ≢ n = λ k. true≢false (sym ((==_iff _ _).1 k) ∙ q) in
          let past : ltb e (length (m.extents ++ (class ∷ []))) ≡ false =
            ground (arith, longer, other) in
          rw past (rw old refl)
    ]
  ]

  headed_run : init_extent_header grown n class ≡ done headed
  unfolding init_extent_header
  headed_run =
      rw
        (copy_to-inside grown.file (extent_offset n) (header_bytes class) s.writable
          (omega (arith, grows.1.whole_pages, length-header_bytes class)))
        refl

  new-Tried :
      (m' : ExtentManager) × (try_allocate_in_extent listed n class ≡ done (m', some 0))
      × Tried listed m' n (some 0)
  new-Tried =
      let (m', run, tried) =
        try_allocate-Tried listed n class listed-IsSound (omega (arith, longer)) known in
      let slots : 0 < slots_per_extent class = (class-IsWhole class known).2 in
      let first : first_free (slots_per_extent class) 0 (taken listed n) ≡ some 0 =
        first_free-first _ _ (class-IsWhole class known).2 (ap (λ t. t 0) listed_free) in
      (m', run ∙ ap (λ o. done (m', o)) first, subst (λ o. Tried listed m' n o) first tried)

  pub allocate_new-IsAllocated :
      (m' : ExtentManager) × (p : SlotPointer) × (allocate_new 4096 m class ≡ done (m', p))
      × IsAllocated m m' class p
  unfolding allocate_new
  allocate_new-IsAllocated =
      let (m', run, tried) = new-Tried in
      let here : n < length m'.extents = rw (tried.extents) (omega (arith, longer)) in
      let last : ltb n n ≡ false = ground arith in
      (
        m',
        pointer m' n 0 class,
        rw (grows.0) (rw index (rw headed_run (rw run refl))),
        record {
          sound = tried.sound;
          placed =
              pointer-IsPlaced m' n 0 class tried.sound here known (class-IsWhole class known).2;
          of_class = refl;
          extent_class = ap (λ l. get_elem? l n) tried.extents ∙ get_elem?-end m.extents class;
          was_free = rw last refl;
          now = λ e.
              view-some listed m' n 0 class e tried (omega (arith, longer))
              ∙ ap (λ v. if e == n then mark v 0 true else v) (view-listed e);
        },
      )
