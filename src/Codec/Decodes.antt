-- ===== src/Codec/Decodes.antt =====
-- The rules by which a reader is proved to get back what was written.
use Prim.Native.String.{String}
use gems.Prelude.{
  map, ℕ, zero, suc, ◌+◌, ◌≤◌, ◌<◌, ◌≡◌, refl, sym, ap, ◌∙◌, subst, Bool, false, some, List, [],
  ◌∷◌, ◌++◌, append-nil, append_assoc, length, take, drop, get_elem?, ltb, arith, length-append,
  take-append_length, drop-append_length, All,
}
use gems.Prelude.Results.{Result, Error, ok}
use gems.Codec.Bytes.{to_le, from_le, le_bound, from_le-to_le, length-to_le}
use gems.Codec.Cursor.{
  Reader, ◌>>=◌, pure, lift, run, read_slice, read_u8, read_le, repeat, guard, Rest, Decodes,
}

drop-nil : (m : ℕ) → ◌≡◌ {A = List ℕ} (drop m []) []
drop-nil zero = refl
drop-nil (suc m) = refl

drop-drop : (n m : ℕ) (xs : List ℕ) → drop (n + m) xs ≡ drop m (drop n xs)
drop-drop zero m xs = let same : 0 + m ≡ m = omega arith in ap (λ k. drop k xs) same
drop-drop (suc n) m [] =
    let same : suc n + m ≡ suc (n + m) = omega arith in
    ap {B = List ℕ} (λ k. drop k []) same ∙ sym (drop-nil m)
drop-drop (suc n) m (x ∷ xs) =
    let same : suc n + m ≡ suc (n + m) = omega arith in
    ap (λ k. drop k (x ∷ xs)) same ∙ drop-drop n m xs

pub Rest-append :
    (buf : List ℕ) (pos : ℕ) (bs post : List ℕ)
    → Rest buf pos (bs ++ post)
    → Rest buf (pos + length bs) post
Rest-append buf pos bs post r = record {
  fits = omega (arith, r.fits, length-append bs post);
  left =
      drop-drop pos (length bs) buf ∙ (ap (drop (length bs)) r.left ∙ drop-append_length bs post);
}

pub Rest-whole : (bs post : List ℕ) → Rest (bs ++ post) 0 (bs ++ post)
Rest-whole bs post = record { fits = omega arith; left = refl }

pub slice-Decodes :
    (detail : String) {len : ℕ} {bs : List ℕ}
    → length bs ≡ len
    → Decodes (read_slice detail len) bs bs
unfolding read_slice
slice-Decodes detail {len} {bs} e = record {
  reads = λ buf pos post r.
      let enough : ltb (length buf) (pos + length bs) ≡ false =
        ground (arith, r.fits, length-append bs post) in
      let got : take (length bs) (drop pos buf) ≡ bs =
        ap (take (length bs)) r.left ∙ take-append_length bs post in
      (rw (← e) (rw enough (ap (λ b. ok (b, pos + length bs)) got)), Rest-append buf pos bs post r);
}

get_elem?-drop :
    (xs : List ℕ) (n b : ℕ) (ys : List ℕ) → drop n xs ≡ b ∷ ys → get_elem? xs n ≡ some b
get_elem?-drop [] zero b ys h = cc
get_elem?-drop [] (suc n) b ys h = cc
get_elem?-drop (x ∷ xs) zero b ys h = cc
get_elem?-drop (x ∷ xs) (suc n) b ys h = get_elem?-drop xs n b ys h

pub u8-Decodes : (detail : String) {b : ℕ} → Decodes (read_u8 detail) (b ∷ []) b
unfolding read_u8
u8-Decodes detail {b} = record {
  reads = λ buf pos post r.
      (rw (get_elem?-drop buf pos b post r.left) refl, Rest-append buf pos (b ∷ []) post r);
}

module _ {ℓ} {A : Type ℓ} where
  pub pure-Decodes : {a : A} → Decodes (pure a) [] a
  unfolding pure
  pure-Decodes {a} = record {
    reads = λ buf pos post r.
        let same : pos + 0 ≡ pos = omega arith in
        (ap (λ p. ok (a, p)) (sym same), subst (λ p. Rest buf p post) (sym same) r);
  }

  pub lift-Decodes : {r : Result Error A} {a : A} → r ≡ ok a → Decodes (lift r) [] a
  unfolding lift pure
  lift-Decodes e = rw e pure-Decodes

module _ {ℓ κ} {A : Type ℓ} {B : Type κ} where
  pub bind-Decodes :
      {rd : Reader A} (next : A → Reader B) {bs cs : List ℕ} {a : A} {b : B}
      → Decodes rd bs a
      → Decodes (next a) cs b
      → Decodes (rd >>= next) (bs ++ cs) b
  unfolding ◌>>=◌
  bind-Decodes {rd} next {bs} {cs} {a} {b} d e = record {
    reads = λ buf pos post r.
        let (run, rest) = d.reads buf pos (cs ++ post) (rw (← append_assoc bs cs post) r) in
        let (run', rest') = e.reads buf (pos + length bs) post rest in
        let total : pos + length bs + length cs ≡ pos + length (bs ++ cs) =
          omega (arith, length-append bs cs) in
        (rw run (run' ∙ ap (λ p. ok (b, p)) total), subst (λ p. Rest buf p post) total rest');
  }

  -- A step that reads nothing.
  pub check-Decodes :
      {rd : Reader A} (next : A → Reader B) {cs : List ℕ} {a : A} {b : B}
      → Decodes rd [] a
      → Decodes (next a) cs b
      → Decodes (rd >>= next) cs b
  check-Decodes next d e = bind-Decodes next d e

  -- A last step that reads nothing.
  pub end-Decodes :
      {rd : Reader A} (next : A → Reader B) {bs : List ℕ} {a : A} {b : B}
      → Decodes rd bs a
      → Decodes (next a) [] b
      → Decodes (rd >>= next) bs b
  end-Decodes {rd} next {bs} {a} {b} d e =
      subst (λ cs. Decodes (rd >>= next) cs b) (append-nil bs) (bind-Decodes next d e)

  -- The last step, whose value is put together with the earlier ones.
  pub last-Decodes :
      {rd : Reader A} (f : A → B) {bs : List ℕ} {a : A}
      → Decodes rd bs a
      → Decodes (rd >>= λ x. pure (f x)) bs (f a)
  last-Decodes f d = end-Decodes (λ x. pure (f x)) d pure-Decodes

-- A guard that lets pass what is at least as long as the bytes that follow.
pub guard-Decodes {ℓ} :
    {A : Type ℓ} {rd : Reader A} (test : ℕ → ℕ → Bool) (cause : Error) {bs : List ℕ} {a : A}
    → ((len pos : ℕ) → pos + length bs ≤ len → test len pos ≡ false)
    → Decodes rd bs a
    → Decodes (guard test cause >>= λ _. rd) bs a
unfolding guard ◌>>=◌
guard-Decodes test cause {bs} {a} passes d = record {
  reads = λ buf pos post r.
      let enough : pos + length bs ≤ length buf = omega (arith, r.fits, length-append bs post) in
      let (run, rest) = d.reads buf pos post r in (rw (passes (length buf) pos enough) run, rest);
}

pub le-Decodes :
    (detail : String) (w n : ℕ) → n < le_bound w → Decodes (read_le detail w) (to_le w n) n
unfolding read_le
le-Decodes detail w n small =
    subst (λ v. Decodes (read_le detail w) (to_le w n) v) (from_le-to_le w n small)
      (last-Decodes from_le (slice-Decodes detail (length-to_le w n)))

module _ {ℓ} {A : Type ℓ} where
  -- The bytes of a list of values, one after another.
  unfoldable pub concat_map : (A → List ℕ) → List A → List ℕ
  concat_map f [] = []
  concat_map f (x ∷ xs) = f x ++ concat_map f xs

  pub repeat-Decodes :
      (rd : Reader A) (f : A → List ℕ) (xs : List A)
      → All (λ x. Decodes rd (f x) x) xs
      → Decodes (repeat (length xs) rd) (concat_map f xs) xs
  unfolding repeat concat_map
  repeat-Decodes rd f [] h = pure-Decodes
  repeat-Decodes rd f (x ∷ xs) h =
      bind-Decodes _ h.0 (last-Decodes (λ rest. x ∷ rest) (repeat-Decodes rd f xs h.1))

  -- Each element is read back as what `g` makes of it.
  pub repeat-map-Decodes :
      (rd : Reader A) (f : A → List ℕ) (g : A → A) (xs : List A)
      → All (λ x. Decodes rd (f x) (g x)) xs
      → Decodes (repeat (length xs) rd) (concat_map f xs) (map g xs)
  unfolding repeat concat_map
  repeat-map-Decodes rd f g [] h = pure-Decodes
  repeat-map-Decodes rd f g (x ∷ xs) h =
      bind-Decodes _ h.0 (last-Decodes (λ rest. g x ∷ rest) (repeat-map-Decodes rd f g xs h.1))

  pub run-Decodes : {rd : Reader A} {bs : List ℕ} {a : A} → Decodes rd bs a → run rd bs ≡ ok a
  unfolding run
  run-Decodes {rd} {bs} {a} d =
      let (run, rest) =
        d.reads bs 0 [] (rw (append-nil bs) (record { fits = omega arith; left = refl })) in
      rw run refl

  pub run_append-Decodes :
      {rd : Reader A} {bs : List ℕ} (post : List ℕ) {a : A}
      → Decodes rd bs a
      → run rd (bs ++ post) ≡ ok a
  unfolding run
  run_append-Decodes {rd} {bs} post {a} d =
      let (run, rest) = d.reads (bs ++ post) 0 post (record { fits = omega arith; left = refl }) in
      rw run refl
