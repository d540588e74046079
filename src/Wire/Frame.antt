-- ===== src/Wire/Frame.antt =====
-- Frames with a length prefix (crates/gems-cluster/src/frame.rs), and the start of `decode` in
-- record.rs and in the modules `wire` of raft.rs and gossip.rs, which is the same in all three.
use Prim.Native.String.{String}
use gems.Prelude.{
  ℕ, ◌+◌, ◌*◌, ◌%◌, ◌≤◌, ◌<◌, ◌^◌, ◌≡◌, refl, sym, ap, ◌∙◌, true, false, Option, none, some, List,
  [], ◌++◌, append_assoc, append-nil, length, take, drop, ltb, if◌then◌else◌, arith, length-append,
  length-take, take-take_le, take-append_length, drop-append_length, Bool-cases, inl, inr,
}
use gems.Prelude.Results.{Result, Error, ok, err, invalid_value, refuse_if, ◌>>=◌, ◌>>◌}
use gems.Codec.Bytes.{to_le, from_le, from_le-to_le, length-to_le, le_bound}

abbrev pub max_frame_len : ℕ
max_frame_len = 64 * 1024 * 1024

unfoldable pub check_frame_len : ℕ → String → Result Error (Unit {0})
check_frame_len payload_len context =
    refuse_if (ltb max_frame_len payload_len) (invalid_value context)

-- `payload.len() as u32` and the payload
unfoldable pub framed : List ℕ → List ℕ
framed payload = to_le 4 (length payload % 2 ^ 32) ++ payload

-- A frame that the buffer holds whole: its payload, the `trailer` bytes behind it and its length.
pub record Frame : Type 0 where
  pub payload : List ℕ
  pub trailer : List ℕ
  pub total_len : ℕ

unfoldable pub claimed : List ℕ → ℕ
unfolding from_le
claimed buf = from_le (take 4 buf)

unfoldable pub frame_at : ℕ → ℕ → List ℕ → Option Frame
frame_at trailer_len payload_len buf =
    let total_len = 4 + payload_len + trailer_len in
    if ltb (length buf) total_len
    then none
    else some (record {
      payload = take payload_len (drop 4 buf);
      trailer = take trailer_len (drop (4 + payload_len) buf);
      total_len = total_len;
    })

unfoldable pub take_frame : String → ℕ → List ℕ → Result Error (Option Frame)
unfolding check_frame_len claimed frame_at
take_frame context trailer_len buf =
    if ltb (length buf) 4
    then ok none
    else (check_frame_len (claimed buf) context >> ok (frame_at trailer_len (claimed buf) buf))

-- A decoder of frames goes on with a whole frame and waits for more otherwise.
abbrev pub on_frame {ℓ} :
    {A : Type ℓ}
    → (Frame → Result Error A)
    → Result Error (Option Frame)
    → Result Error (Option (A × ℕ))
on_frame read (err e) = err e
on_frame read (ok none) = ok none
on_frame read (ok (some f)) = read f >>= λ a. ok (some (a, f.total_len))

abbrev Fits : List ℕ → Type 0
Fits payload = length payload ≤ max_frame_len

claimed-take : (n : ℕ) → ltb n 4 ≡ false → (buf : List ℕ) → claimed (take n buf) ≡ claimed buf
unfolding claimed
claimed-take n e buf = ap from_le (take-take_le 4 n buf (ground arith))

module _ (payload : List ℕ) (fits : Fits payload) where
  pub length-framed : length (framed payload) ≡ 4 + length payload
  unfolding framed
  length-framed = omega (
    arith,
    length-append (to_le 4 (length payload % 2 ^ 32)) payload,
    length-to_le 4 (length payload % 2 ^ 32),
  )

  claimed-framed : (rest : List ℕ) → claimed (framed payload ++ rest) ≡ length payload
  unfolding claimed framed le_bound
  claimed-framed rest =
      let head = to_le 4 (length payload % 2 ^ 32) in
      let len : length head ≡ 4 = length-to_le 4 _ in
      let same : length payload % 2 ^ 32 ≡ length payload = omega arith in
      rw (append_assoc head payload rest) (
        ap (λ n. from_le (take n (head ++ (payload ++ rest)))) (sym len)
        ∙ (ap from_le (take-append_length head (payload ++ rest))
            ∙ (from_le-to_le 4 (length payload % 2 ^ 32) (omega arith) ∙ same)))

  frame_at-framed :
      (trailer post : List ℕ)
      → frame_at (length trailer) (length payload) ((framed payload ++ trailer) ++ post)
        ≡ some (record {
          payload = payload;
          trailer = trailer;
          total_len = length (framed payload ++ trailer);
        })
  unfolding frame_at framed
  frame_at-framed trailer post =
      let head = to_le 4 (length payload % 2 ^ 32) in
      let whole = ((head ++ payload) ++ trailer) ++ post in
      let len : length head ≡ 4 = length-to_le 4 (length payload % 2 ^ 32) in
      let both : length (head ++ payload) ≡ 4 + length payload =
        omega (arith, len, length-append head payload) in
      let all : length ((head ++ payload) ++ trailer) ≡ 4 + length payload + length trailer =
        omega (arith, both, length-append (head ++ payload) trailer) in
      let long : ltb (length whole) (4 + length payload + length trailer) ≡ false =
        ground (arith, all, length-append ((head ++ payload) ++ trailer) post) in
      let got : take (length payload) (drop 4 whole) ≡ payload =
        ap (λ w. take (length payload) (drop 4 w))
          (append_assoc (head ++ payload) trailer post
            ∙ append_assoc head payload (trailer ++ post))
        ∙ (ap (λ n. take (length payload) (drop n (head ++ (payload ++ (trailer ++ post)))))
              (sym len)
            ∙ (ap (take (length payload)) (drop-append_length head (payload ++ (trailer ++ post)))
                ∙ take-append_length payload (trailer ++ post))) in
      let got' : take (length trailer) (drop (4 + length payload) whole) ≡ trailer =
        ap (λ w. take (length trailer) (drop (4 + length payload) w))
          (append_assoc (head ++ payload) trailer post)
        ∙ (ap (λ n. take (length trailer) (drop n ((head ++ payload) ++ (trailer ++ post))))
              (sym both)
            ∙ (ap (take (length trailer)) (drop-append_length (head ++ payload) (trailer ++ post))
                ∙ take-append_length trailer post)) in
      rw long (rw got (rw got' (rw (← all) refl)))

  -- A frame is taken whole, whatever follows it.
  pub take_frame-framed :
      (context : String) (trailer post : List ℕ)
      → take_frame context (length trailer) ((framed payload ++ trailer) ++ post)
        ≡ ok (
            some (record {
              payload = payload;
              trailer = trailer;
              total_len = length (framed payload ++ trailer);
            }))
  unfolding take_frame check_frame_len
  take_frame-framed context trailer post =
      let whole = (framed payload ++ trailer) ++ post in
      let long : ltb (length whole) 4 ≡ false = ground (
        arith,
        length-framed,
        length-append (framed payload ++ trailer) post,
        length-append (framed payload) trailer,
      ) in
      let says : claimed whole ≡ length payload =
        ap claimed (append_assoc (framed payload) trailer post)
        ∙ claimed-framed (trailer ++ post) in
      let small : ltb max_frame_len (length payload) ≡ false = ground arith in
      rw long (rw says (rw small (rw (frame_at-framed trailer post) refl)))

  -- Of a part of it the decoder waits for the rest.
  pub take_frame-partial :
      (context : String) (trailer : List ℕ) (n : ℕ)
      → n < length (framed payload ++ trailer)
      → take_frame context (length trailer) (take n (framed payload ++ trailer)) ≡ ok none
  unfolding take_frame check_frame_len frame_at
  take_frame-partial context trailer n short =
      let whole = framed payload ++ trailer in
      let len : length (take n whole) ≡ n = omega (arith, length-take n whole) in
      let total : length whole ≡ 4 + length payload + length trailer =
        omega (arith, length-framed, length-append (framed payload) trailer) in
      elim (Bool-cases (ltb n 4)) [
        | inl e ↦ rw len (rw e refl)
        | inr e ↦
            let says : claimed (take n whole) ≡ length payload =
              claimed-take n e whole ∙ claimed-framed trailer in
            let small : ltb max_frame_len (length payload) ≡ false = ground arith in
            let less : ltb n (4 + length payload + length trailer) ≡ true = ground arith in
            rw len (rw e (rw says (rw small (rw less refl))))
      ]

-- The same without a trailer.
module _ (payload : List ℕ) (fits : Fits payload) (context : String) where
  pub take_frame-plain :
      (post : List ℕ)
      → take_frame context 0 (framed payload ++ post)
        ≡ ok
            (some (record { payload = payload; trailer = []; total_len = length (framed payload) }))
  take_frame-plain post =
      let bare : framed payload ++ [] ≡ framed payload = append-nil (framed payload) in
      rw bare at (take_frame-framed payload fits context [] post)

  pub take_frame-plain_partial :
      (n : ℕ)
      → n < length (framed payload)
      → take_frame context 0 (take n (framed payload)) ≡ ok none
  take_frame-plain_partial n short =
      let bare : framed payload ++ [] ≡ framed payload = append-nil (framed payload) in
      rw bare at (take_frame-partial payload fits context [] n (rw bare short))

-- The buffer of a decoder that waits is bounded.
pub take_frame-waits :
    (context : String) (trailer_len : ℕ) (buf : List ℕ)
    → take_frame context trailer_len buf ≡ ok none
    → length buf < 4 + max_frame_len + trailer_len
unfolding take_frame check_frame_len frame_at
take_frame-waits context trailer_len buf h = ground arith
