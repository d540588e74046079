-- ===== src/Codec/Search.antt =====
-- `GbvReader::get` of crates/gems-codec/src/gbv.rs, a binary search of the directory.
use mathlib.Core.Bool.{true≢false}
use gems.Prelude.{
  ℕ, zero, suc, ◌+◌, ◌-◌, ◌/◌, ◌≤◌, ◌<◌, ◌≡◌, ◌≢◌, ◌⊎◌, inl, inr, refl, sym, ap, ◌∙◌, Option, none,
  some, List, ltb, ◌==◌, if◌then◌else◌, ◌>>=◌, arith, Bool-cases, ==_iff, ltb→lt, ltb_false→le,
}
use gems.Prelude.Results.{Result, Error, ok, err}
use gems.Codec.Tag.{TypeTag, tag_from_u8}
use gems.Codec.Builder.{DirEntry}
use gems.Codec.Reader.{GbvReader, open_reader, entry_at, field_bytes}
use gems.Codec.Redact.{IsOpen, open_reader-IsOpen, entry_at-total}

abbrev pub Field : Type 0
Field = TypeTag × List ℕ

abbrev field_of : Result Error TypeTag → Option (List ℕ) → Option Field
field_of (ok tag) (some bytes) = some (tag, bytes)
field_of (ok tag) none = none
field_of (err e) bytes = none

-- What get returns of the entry that it found.
unfoldable pub field : GbvReader → DirEntry → Option Field
unfolding tag_from_u8 field_bytes
field r e = field_of (tag_from_u8 e.type_tag) (field_bytes r e)

-- One round, which goes on with `rest` in the lower or the upper half.
unfoldable pub look :
    GbvReader → ℕ → ℕ → ℕ → ℕ → (ℕ → ℕ → Option (Option Field)) → DirEntry → Option (Option Field)
look r key_id lo hi mid rest e =
    if e.key_id == key_id
    then some (field r e)
    else let lo' = if ltb e.key_id key_id then mid + 1 else lo in
      let hi' = if ltb e.key_id key_id then hi else mid in rest lo' hi'

-- The first argument bounds the rounds; `none` is a panic, or that it did not suffice.
unfoldable pub get_loop : ℕ → GbvReader → ℕ → ℕ → ℕ → Option (Option Field)
unfolding look entry_at field
get_loop zero r key_id lo hi = none
get_loop (suc n) r key_id lo hi =
    let mid = lo + (hi - lo) / 2 in
    if ltb lo hi
    then (entry_at r mid >>= λ e. look r key_id lo hi mid (get_loop n r key_id) e)
    else some none

unfoldable pub get : GbvReader → ℕ → Option (Option Field)
unfolding get_loop
get r key_id = get_loop (suc r.field_count) r key_id 0 r.field_count

-- The reference: the first of the `n` entries from `i` on that has the key.
unfoldable pub first_from : ℕ → GbvReader → ℕ → ℕ → Option (Option Field)
first_from zero r key_id i = some none
first_from (suc n) r key_id i = entry_at r i >>= λ e.
    (let rest = first_from n r key_id (suc i) in
      if e.key_id == key_id then some (field r e) else rest)

-- The directory ascends, as the builder leaves it when it was given every key once.
abbrev pub IsAscending : GbvReader → Type 0
IsAscending r =
    (i j : ℕ) (e f : DirEntry)
    → i < j
    → j < r.field_count
    → entry_at r i ≡ some e
    → entry_at r j ≡ some f
    → e.key_id < f.key_id

abbrev IsFound : GbvReader → ℕ → Option Field → Type 0
IsFound r key_id res =
    (i : ℕ) × (e : DirEntry) × (i < r.field_count)
    × (entry_at r i ≡ some e)
    × (e.key_id ≡ key_id)
    × (res ≡ field r e)

abbrev IsAnswer : GbvReader → ℕ → Option Field → Type 0
IsAnswer r key_id res =
    IsFound r key_id res
    ⊎ (((i : ℕ) (e : DirEntry) → i < r.field_count → entry_at r i ≡ some e → e.key_id ≢ key_id)
        × (res ≡ none))

pub some_entry : {e f : DirEntry} → ◌≡◌ {A = Option DirEntry} (some e) (some f) → e ≡ f
some_entry h = cc

module _ (r : GbvReader) (key_id : ℕ) (opened : IsOpen r) (ascends : IsAscending r) where
  abbrev Below : ℕ → Type 0
  Below lo = (i : ℕ) (e : DirEntry) → i < lo → entry_at r i ≡ some e → e.key_id < key_id

  abbrev Above : ℕ → Type 0
  Above hi =
      (i : ℕ) (e : DirEntry)
      → hi ≤ i
      → i < r.field_count
      → entry_at r i ≡ some e
      → key_id < e.key_id

  raise :
      (mid : ℕ) (e : DirEntry)
      → mid < r.field_count
      → entry_at r mid ≡ some e
      → e.key_id < key_id
      → Below (mid + 1)
  raise mid e inside at less i f before at' = elim (Bool-cases (i == mid)) [
    | inl q ↦
        let same : i ≡ mid = (==_iff _ _).0 q in
        let one : f ≡ e = some_entry (sym at' ∙ (ap (entry_at r) same ∙ at)) in rw one less
    | inr q ↦
        let other : i ≢ mid = λ s. true≢false (sym ((==_iff _ _).1 s) ∙ q) in
        omega (arith, ascends i mid f e (omega arith) inside at' at)
  ]

  lower : (mid : ℕ) (e : DirEntry) → entry_at r mid ≡ some e → key_id < e.key_id → Above mid
  lower mid e at more i f behind inside at' = elim (Bool-cases (i == mid)) [
    | inl q ↦
        let same : i ≡ mid = (==_iff _ _).0 q in
        let one : f ≡ e = some_entry (sym at' ∙ (ap (entry_at r) same ∙ at)) in rw one more
    | inr q ↦
        let other : i ≢ mid = λ s. true≢false (sym ((==_iff _ _).1 s) ∙ q) in
        omega (arith, ascends mid i e f (omega arith) inside at at')
  ]

  get_loop-IsAnswer :
      (n lo hi : ℕ)
      → hi ≤ r.field_count
      → hi - lo < n
      → Below lo
      → Above hi
      → (res : Option Field) × (get_loop n r key_id lo hi ≡ some res) × IsAnswer r key_id res
  unfolding get_loop look
  get_loop-IsAnswer zero lo hi inside enough below above = absurd (omega arith)
  get_loop-IsAnswer (suc n) lo hi inside enough below above = elim (Bool-cases (ltb lo hi)) [
    | inl more ↦
        let wide : lo < hi = ltb→lt _ _ more in
        let mid = lo + (hi - lo) / 2 in
        let (e, at) = entry_at-total r mid opened (omega arith) in
        elim (Bool-cases (e.key_id == key_id)) [
          | inl q ↦ (
            field r e,
            rw more (rw at (rw q refl)),
            inl (mid, e, omega arith, at, (==_iff _ _).0 q, refl),
          )
          | inr q ↦ elim (Bool-cases (ltb e.key_id key_id)) [
            | inl less ↦
                let (res, run, answer) =
                  get_loop-IsAnswer n (mid + 1) hi inside (omega arith)
                    (raise mid e (omega arith) at (ltb→lt _ _ less)) above in
                (res, rw more (rw at (rw q (rw less run))), answer)
            | inr less ↦
                let other : e.key_id ≢ key_id = λ s. true≢false (sym ((==_iff _ _).1 s) ∙ q) in
                let (res, run, answer) =
                  get_loop-IsAnswer n lo mid (omega arith) (omega arith) below
                    (lower mid e at (omega (arith, ltb_false→le _ _ less))) in
                (res, rw more (rw at (rw q (rw less run))), answer)
          ]
        ]
    | inr more ↦
        let narrow : hi ≤ lo = ltb_false→le _ _ more in
        (
          none,
          rw more refl,
          inr (
            λ i e short at same. elim (Bool-cases (ltb i lo)) [
              | inl b ↦ omega (arith, below i e (ltb→lt _ _ b) at)
              | inr b ↦ omega (
                arith,
                ltb_false→le _ _ b,
                above i e (omega (arith, ltb_false→le _ _ b)) short at,
              )
            ],
            refl,
          ),
        )
  ]

  first_from-IsAnswer :
      (n i : ℕ)
      → i + n ≡ r.field_count
      → ((j : ℕ) (e : DirEntry) → j < i → entry_at r j ≡ some e → e.key_id ≢ key_id)
      → (res : Option Field) × (first_from n r key_id i ≡ some res) × IsAnswer r key_id res
  unfolding first_from
  first_from-IsAnswer zero i total passed =
      (none, refl, inr (λ j e short at. passed j e (omega arith) at, refl))
  first_from-IsAnswer (suc n) i total passed =
      let (e, at) = entry_at-total r i opened (omega arith) in
      elim (Bool-cases (e.key_id == key_id)) [
        | inl q ↦
            let equal = (==_iff _ _).0 q in
            (field r e, rw at (rw q refl), inl (i, e, omega arith, at, equal, refl))
        | inr q ↦
            let (res, run, answer) = first_from-IsAnswer n (suc i) (omega arith) (λ j f before at'.
              elim (Bool-cases (j == i)) [
                | inl s ↦
                    let same : j ≡ i = (==_iff _ _).0 s in
                    let one : f ≡ e = some_entry (sym at' ∙ (ap (entry_at r) same ∙ at)) in
                    λ k. true≢false (sym ((==_iff _ _).1 (ap (λ g. g.key_id) (sym one) ∙ k)) ∙ q)
                | inr s ↦
                    let other : j ≢ i = λ k. true≢false (sym ((==_iff _ _).1 k) ∙ s) in
                    passed j f (omega arith) at'
              ]) in
            (res, rw at (rw q run), answer)
      ]

  -- Two entries with one key would contradict the order.
  IsAnswer-unique :
      (res res' : Option Field) → IsAnswer r key_id res → IsAnswer r key_id res' → res ≡ res'
  IsAnswer-unique res res' (inr (missing, nil)) (inr (missing', nil')) = nil ∙ sym nil'
  IsAnswer-unique res res' (inl (i, e, short, at, key, found)) (inr (missing, nil)) =
      absurd (missing i e short at key)
  IsAnswer-unique res res' (inr (missing, nil)) (inl (i, e, short, at, key, found)) =
      absurd (missing i e short at key)
  IsAnswer-unique res res' (inl (i, e, short, at, key, found))
        (inl (j, f, short', at', key', found')) =
      elim (Bool-cases (ltb i j)) [
        | inl b ↦ absurd (omega (arith, ascends i j e f (ltb→lt _ _ b) short' at at'))
        | inr b ↦ elim (Bool-cases (ltb j i)) [
          | inl c ↦ absurd (omega (arith, ascends j i f e (ltb→lt _ _ c) short at' at))
          | inr c ↦
              let same : i ≡ j = omega (arith, ltb_false→le _ _ b, ltb_false→le _ _ c) in
              let one : e ≡ f = some_entry (sym at ∙ (ap (entry_at r) same ∙ at')) in
              found ∙ (ap (field r) one ∙ sym found')
        ]
      ]

-- On a buffer that opens and whose directory ascends, get does not panic, ends after at most one round
-- more than there are fields, and returns what a search from the front returns.
pub get-eq-first_from :
    (buf : List ℕ) (r : GbvReader) (key_id : ℕ)
    → open_reader buf ≡ ok r
    → IsAscending r
    → (res : Option Field) × (get r key_id ≡ some res)
      × (first_from r.field_count r key_id 0 ≡ some res)
unfolding get
get-eq-first_from buf r key_id opens ascends =
    let opened = (open_reader-IsOpen buf opens).1 in
    let (res, run, answer) =
      get_loop-IsAnswer r key_id opened ascends (suc r.field_count) 0 r.field_count (omega arith)
        (omega arith) (λ i e h at. absurd (omega arith)) (λ i e h s at. absurd (omega arith)) in
    let (res', run', answer') =
      first_from-IsAnswer r key_id opened ascends r.field_count 0 (omega arith)
        (λ i e h at. absurd (omega arith)) in
    (
      res,
      run,
      run'
          ∙ ap (λ x. some x)
              (sym (IsAnswer-unique r key_id opened ascends res res' answer answer')),
    )
