-- ===== src/Common/Runs.antt =====
-- Published check values, and concrete runs of the theorems.
use gems.Prelude.{ℕ, ◌≡◌, refl, true, List, [], ◌∷◌, take, length, ◌%◌, ◌+◌, ◌≤◌, ◌↔◌, arith}
use gems.Prelude.Results.{ok}
use gems.Common.Crc32c.{crc32c}
use gems.Common.Sha256.{pad, sha256}
use gems.Common.Hmac.{constant_time_eq, constant_time_eq-exact}
use gems.Common.Padding.{pad-IsWhole}
use gems.Common.Base64Url.{encode, decode, decode-encode_bytes}

abbrev digits : List ℕ
digits = 0x31 ∷ 0x32 ∷ 0x33 ∷ 0x34 ∷ 0x35 ∷ 0x36 ∷ 0x37 ∷ 0x38 ∷ 0x39 ∷ []

crc32c_check : crc32c digits ≡ 0xE3069283
unfolding crc32c
crc32c_check = refl

abbrev abc : List ℕ
abc = 0x61 ∷ 0x62 ∷ 0x63 ∷ []

sha256_check : take 4 (sha256 abc) ≡ 0xba ∷ 0x78 ∷ 0x16 ∷ 0xbf ∷ []
unfolding sha256
sha256_check = refl

pad-IsWhole_example :
    (length (pad abc) % 64 ≡ 0)
    × (length abc + 9 ≤ length (pad abc))
    × (length (pad abc) ≤ length abc + 72)
    × (take (length abc) (pad abc) ≡ abc)
pad-IsWhole_example = pad-IsWhole abc

constant_time_eq-exact_example : (constant_time_eq abc digits ≡ true) ↔ (abc ≡ digits)
constant_time_eq-exact_example = constant_time_eq-exact abc digits

-- "foob" is encoded as "Zm9vYg".
abbrev foob : List ℕ
foob = 102 ∷ 111 ∷ 111 ∷ 98 ∷ []

encode_check : encode foob ≡ 90 ∷ 109 ∷ 57 ∷ 118 ∷ 89 ∷ 103 ∷ []
unfolding encode
encode_check = refl

decode-encode_bytes_example : decode (encode foob) ≡ ok foob
decode-encode_bytes_example =
    decode-encode_bytes foob (omega arith, (omega arith, (omega arith, (omega arith, tt))))
