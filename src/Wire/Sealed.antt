-- ===== src/Wire/Sealed.antt =====
-- Frames that end with a tag made with the cluster's secret: how the modules `wire` of
-- crates/gems-cluster/src/raft.rs and gossip.rs both frame a message, and how their `decode` checks
-- the tag before it reads the payload.
use Prim.Native.String.{String}
use gems.Prelude.{
  ℕ, ◌+◌, ◌≤◌, ◌<◌, ◌≡◌, refl, sym, ap, ◌∙◌, true, not, Option, none, some, List, ◌++◌, length,
  take, drop, arith, length-take, length-drop, length-append, Bool-cases, inl, inr,
}
use gems.Prelude.Results.{Result, Error, ok, err, invalid_value, refuse_if, ◌>>◌, >>=-eq-ok}
use gems.Common.Hmac.{
  hmac_sha256, constant_time_eq, constant_time_eq-exact, tag_len, length-hmac_sha256,
}
use gems.Codec.Cursor.{Reader, run, Decodes}
use gems.Codec.Decodes.{run-Decodes}
use gems.Wire.Frame.{
  max_frame_len, framed, claimed, Frame, check_frame_len, frame_at, take_frame, on_frame,
  take_frame-framed, take_frame-partial, length-framed,
}

unfoldable pub sealed : List ℕ → List ℕ → List ℕ
sealed secret payload = framed payload ++ hmac_sha256 secret payload

module _ {ℓ} {A : Type ℓ} where
  unfoldable pub read_sealed : String → Reader A → List ℕ → Frame → Result Error A
  read_sealed mismatch rd secret f =
      refuse_if (not (constant_time_eq (hmac_sha256 secret f.payload) f.trailer))
        (invalid_value mismatch)
      >> run rd f.payload

  unfoldable pub decode_sealed :
      String → String → Reader A → List ℕ → List ℕ → Result Error (Option (A × ℕ))
  decode_sealed context mismatch rd buf secret =
      on_frame (read_sealed mismatch rd secret) (take_frame context tag_len buf)

  -- What a decoder that returned a message has found in the buffer.
  pub record Authentic (rd : Reader A) (buf secret : List ℕ) (a : A) (n : ℕ) : Type ℓ where
    pub payload : List ℕ
    pub total : n ≡ 4 + length payload + tag_len
    pub inside : n ≤ length buf
    pub content : take (length payload) (drop 4 buf) ≡ payload
    pub tag : take tag_len (drop (4 + length payload) buf) ≡ hmac_sha256 secret payload
    pub message : run rd payload ≡ ok a

module _ {ℓ} {A : Type ℓ} (rd : Reader A) (payload : List ℕ) where
  pub decode_sealed-sealed :
      (context mismatch : String) (secret post : List ℕ) {a : A}
      → length payload ≤ max_frame_len
      → Decodes rd payload a
      → decode_sealed context mismatch rd (sealed secret payload ++ post) secret
        ≡ ok (some (a, length (sealed secret payload)))
  unfolding decode_sealed read_sealed sealed
  decode_sealed-sealed context mismatch secret post fits d =
      let tag = hmac_sha256 secret payload in
      let whole : take_frame context tag_len ((framed payload ++ tag) ++ post)
          ≡ ok (
              some (record {
                payload = payload;
                trailer = tag;
                total_len = length (framed payload ++ tag);
              })) =
        ap (λ t. take_frame context t ((framed payload ++ tag) ++ post))
          (sym (length-hmac_sha256 secret payload))
        ∙ take_frame-framed payload fits context tag post in
      let equal : constant_time_eq tag tag ≡ true = (constant_time_eq-exact tag tag).1 refl in
      rw whole (rw equal (rw (run-Decodes d) refl))

  pub decode_sealed-partial :
      (context mismatch : String) (secret : List ℕ) (n : ℕ)
      → length payload ≤ max_frame_len
      → n < length (sealed secret payload)
      → decode_sealed context mismatch rd (take n (sealed secret payload)) secret ≡ ok none
  unfolding decode_sealed sealed
  decode_sealed-partial context mismatch secret n fits short =
      let tag = hmac_sha256 secret payload in
      let waits : take_frame context tag_len (take n (framed payload ++ tag)) ≡ ok none =
        ap (λ t. take_frame context t (take n (framed payload ++ tag)))
          (sym (length-hmac_sha256 secret payload))
        ∙ take_frame-partial payload fits context tag n short in
      rw waits refl

  accepted :
      (mismatch : String) (secret trailer : List ℕ) (n : ℕ) (a : A)
      → read_sealed mismatch rd secret
          (record { payload = payload; trailer = trailer; total_len = n })
        ≡ ok a
      → (trailer ≡ hmac_sha256 secret payload) × (run rd payload ≡ ok a)
  unfolding read_sealed
  accepted mismatch secret trailer n a h =
      elim (Bool-cases (constant_time_eq (hmac_sha256 secret payload) trailer)) [
        | inl e ↦
            (sym ((constant_time_eq-exact (hmac_sha256 secret payload) trailer).0 e), rw e at h)
        | inr e ↦
            let bad : ◌≡◌ {A = Result Error A} (err (invalid_value mismatch)) (ok a) = rw e at h in
            cc
      ]

module _ {ℓ} {A : Type ℓ} where
  on_frame-found :
      (read : Frame → Result Error A) (r : Result Error (Option Frame)) (a : A) (n : ℕ)
      → on_frame read r ≡ ok (some (a, n))
      → (f : Frame) × (r ≡ ok (some f)) × (read f ≡ ok a) × (n ≡ f.total_len)
  on_frame-found read (err e) a n h = cc
  on_frame-found read (ok none) a n h = cc
  on_frame-found read (ok (some f)) a n h =
      let (value, e, last) = >>=-eq-ok (read f) (λ a. ok (some (a, f.total_len))) h in
      let va : value ≡ a = cc in
      let vn : n ≡ f.total_len = cc in (f, refl, e ∙ ap (λ x. ok x) va, vn)

frame_at-found :
    (trailer_len payload_len : ℕ) (buf : List ℕ) (f : Frame)
    → frame_at trailer_len payload_len buf ≡ some f
    → (4 + payload_len + trailer_len ≤ length buf)
      × (f ≡ record {
        payload = take payload_len (drop 4 buf);
        trailer = take trailer_len (drop (4 + payload_len) buf);
        total_len = 4 + payload_len + trailer_len;
      })
unfolding frame_at
frame_at-found trailer_len payload_len buf f h = ground arith

take_frame-found :
    (context : String) (trailer_len : ℕ) (buf : List ℕ) (f : Frame)
    → take_frame context trailer_len buf ≡ ok (some f)
    → frame_at trailer_len (claimed buf) buf ≡ some f
unfolding take_frame check_frame_len
take_frame-found context trailer_len buf f h = ground arith

module _ {ℓ} {A : Type ℓ} where
  -- Only a frame whose tag is that of its payload is read.
  pub decode_sealed-Authentic :
      (context mismatch : String) (rd : Reader A) (buf secret : List ℕ) (a : A) (n : ℕ)
      → decode_sealed context mismatch rd buf secret ≡ ok (some (a, n))
      → Authentic rd buf secret a n
  unfolding decode_sealed
  decode_sealed-Authentic context mismatch rd buf secret a n h =
      let (f, taken, read, total) =
        on_frame-found (read_sealed mismatch rd secret) (take_frame context tag_len buf) a n h in
      let (fits, shape) =
        frame_at-found tag_len (claimed buf) buf f (take_frame-found context tag_len buf f taken) in
      let payload = take (claimed buf) (drop 4 buf) in
      let trailer = take tag_len (drop (4 + claimed buf) buf) in
      let (tag, message) =
        accepted rd payload mismatch secret trailer (4 + claimed buf + tag_len) a
          (rw shape at read) in
      let len : length payload ≡ claimed buf =
        omega (arith, length-take (claimed buf) (drop 4 buf), length-drop 4 buf) in
      let total' : n ≡ 4 + claimed buf + tag_len = total ∙ ap (λ g. g.total_len) shape in
      record {
        payload = payload;
        total = omega arith;
        inside = omega arith;
        content = ap (λ m. take m (drop 4 buf)) len;
        tag = ap (λ m. take tag_len (drop (4 + m) buf)) len ∙ tag;
        message = message;
      }

pub length-sealed :
    (secret payload : List ℕ)
    → length payload ≤ max_frame_len
    → length (sealed secret payload) ≡ 4 + length payload + tag_len
unfolding sealed
length-sealed secret payload fits = omega (
  arith,
  length-append (framed payload) (hmac_sha256 secret payload),
  length-framed payload fits,
  length-hmac_sha256 secret payload,
)
