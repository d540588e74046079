-- ===== src/Storage/Bits.antt =====
-- A byte of the bitmap before and after a bit is written, by a table of all bytes.
use gems.Prelude.{ℕ, ◌<◌, ◌≡◌, refl, Bool, true, false, not, ◌&&◌, ltb, ◌==◌, if◌then◌else◌, ltb→lt}
use gems.Prelude.Tables.{passes, passes_at}
use gems.Storage.Bitmap.{bit_of, with_bit}

abbrev same : Bool → Bool → Bool
same true b = b
same false b = not b

abbrev writes : ℕ → ℕ → Bool → ℕ → Bool
writes byte bit value m =
    same (bit_of (with_bit byte bit value) m) (if bit == m then value else bit_of byte m)

abbrev stays : ℕ → ℕ → Bool → Bool
stays byte bit value = ltb (with_bit byte bit value) 256

abbrev writes_both : ℕ → ℕ → ℕ → Bool
writes_both byte bit m = writes byte bit true m && writes byte bit false m

abbrev writes_bits : ℕ → ℕ → Bool
writes_bits byte bit = passes (writes_both byte bit) 8

abbrev writes_byte : ℕ → Bool
writes_byte byte = passes (writes_bits byte) 8

writes_table : passes writes_byte 256 ≡ true
unfolding bit_of with_bit passes
writes_table = refl

abbrev stays_both : ℕ → ℕ → Bool
stays_both byte bit = stays byte bit true && stays byte bit false

abbrev stays_byte : ℕ → Bool
stays_byte byte = passes (stays_both byte) 8

stays_table : passes stays_byte 256 ≡ true
unfolding bit_of with_bit passes
stays_table = refl

both_left : (a b : Bool) → (a && b) ≡ true → a ≡ true
both_left true b h = refl
both_left false b h = h

both_right : (a b : Bool) → (a && b) ≡ true → b ≡ true
both_right true b h = h
both_right false b h = cc

same_sound : (a b : Bool) → same a b ≡ true → a ≡ b
same_sound true true h = refl
same_sound true false h = cc
same_sound false true h = cc
same_sound false false h = refl

choose_writes :
    (byte bit m : ℕ) (value : Bool) → writes_both byte bit m ≡ true → writes byte bit value m ≡ true
choose_writes byte bit m true h = both_left (writes byte bit true m) (writes byte bit false m) h
choose_writes byte bit m false h = both_right (writes byte bit true m) (writes byte bit false m) h

choose_stays :
    (byte bit : ℕ) (value : Bool) → stays_both byte bit ≡ true → stays byte bit value ≡ true
choose_stays byte bit true h = both_left (stays byte bit true) (stays byte bit false) h
choose_stays byte bit false h = both_right (stays byte bit true) (stays byte bit false) h

module _ (byte bit : ℕ) (small : byte < 256) (inside : bit < 8) where
  pub bit-with_bit :
      (value : Bool) (m : ℕ)
      → m < 8
      → bit_of (with_bit byte bit value) m ≡ (if bit == m then value else bit_of byte m)
  bit-with_bit value m within =
      let row = passes_at writes_byte {rows = 256} writes_table byte small in
      let cell = passes_at (writes_bits byte) {rows = 8} row bit inside in
      let both = passes_at (writes_both byte bit) {rows = 8} cell m within in
      same_sound _ _ (choose_writes byte bit m value both)

  pub with_bit_small : (value : Bool) → with_bit byte bit value < 256
  with_bit_small value =
      let row = passes_at stays_byte {rows = 256} stays_table byte small in
      let both = passes_at (stays_both byte) {rows = 8} row bit inside in
      ltb→lt _ _ (choose_stays byte bit value both)
