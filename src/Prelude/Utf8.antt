-- ===== src/Prelude/Utf8.antt =====
-- UTF-8 as the standard library reads it (`String::from_utf8_lossy`).
use Prim.Native.Nat.{ℕ, zero, suc}
use mathlib.Core.Path.{◌≡◌}
use mathlib.Core.Bool.{Bool, true, false, ◌&&◌, ◌||◌}
use mathlib.Core.List.{List, [], ◌∷◌, ◌++◌}
use gems.Prelude.Tests.{leb, ltb, ◌==◌, if◌then◌else◌}
use gems.Prelude.Lists.{length, take, drop}

abbrev between : ℕ → ℕ → ℕ → Bool
between lo hi b = leb lo b && leb b hi

-- The byte at the head of a list lies in a range.
abbrev head_in : ℕ → ℕ → List ℕ → Bool
head_in lo hi [] = false
head_in lo hi (b ∷ bs) = between lo hi b

-- Whether the bytes begin with a character, and the length of the character or of the part of one
-- that they begin with.
abbrev Step : Type 0
Step = Bool × ℕ

unfoldable last_of : ℕ → List ℕ → Step
last_of n bs = (head_in 0x80 0xbf bs, if head_in 0x80 0xbf bs then suc n else n)

-- Two continuation bytes are left of four.
unfoldable two_of : List ℕ → Step
unfolding last_of
two_of bs = if head_in 0x80 0xbf bs then last_of 3 (drop 1 bs) else (false, 2)

unfoldable three_bytes : ℕ → ℕ → List ℕ → Step
unfolding last_of
three_bytes lo hi bs = if head_in lo hi bs then last_of 2 (drop 1 bs) else (false, 1)

unfoldable four_bytes : ℕ → ℕ → List ℕ → Step
unfolding two_of
four_bytes lo hi bs = if head_in lo hi bs then two_of (drop 1 bs) else (false, 1)

unfoldable pub utf8_step : ℕ → List ℕ → Step
unfolding last_of three_bytes four_bytes
utf8_step b bs =
    if ltb b 0x80
    then (true, 1)
    else if between 0xc2 0xdf b
    then last_of 1 bs
    else if b == 0xe0
    then three_bytes 0xa0 0xbf bs
    else if b == 0xed
    then three_bytes 0x80 0x9f bs
    else if between 0xe1 0xef b
    then three_bytes 0x80 0xbf bs
    else if b == 0xf0
    then four_bytes 0x90 0xbf bs
    else if between 0xf1 0xf3 b
    then four_bytes 0x80 0xbf bs
    else if b == 0xf4
    then four_bytes 0x80 0x8f bs
    else (false, 1)

-- Each part of a character that is none becomes U+FFFD. The first argument bounds the rounds.
unfoldable lossy : ℕ → List ℕ → List ℕ
unfolding utf8_step
lossy zero bs = []
lossy (suc n) [] = []
lossy (suc n) (b ∷ bs) =
    let (whole, len) = utf8_step b bs in
    let rest = lossy n (drop len (b ∷ bs)) in
    if whole then take len (b ∷ bs) ++ rest else 0xef ∷ 0xbf ∷ 0xbd ∷ rest

unfoldable pub from_utf8_lossy : List ℕ → List ℕ
unfolding lossy
from_utf8_lossy bs = lossy (length bs) bs

-- The bytes of a Rust `String`.
abbrev pub IsText : List ℕ → Type 0
IsText bs = from_utf8_lossy bs ≡ bs

abbrev not_continuation : List ℕ → Bool
not_continuation [] = true
not_continuation (b ∷ bs) = ltb b 0x80 || leb 0xc0 b

-- `s.is_char_boundary(i)` for `i` inside the text
unfoldable pub is_char_boundary : List ℕ → ℕ → Bool
is_char_boundary s i = not_continuation (drop i s)
