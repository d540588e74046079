-- ===== src/Prelude/Results.antt =====
-- `Result<T, E>`, and the workspace's error type (crates/gems-common/src/lib.rs).
use Prim.Native.String.{String}
use mathlib.Core.Path.{◌≡◌, refl}
use mathlib.Core.Bool.{Bool, true, false}
use mathlib.Core.Option.{Option, none, some}

pub data Result {ℓ} (E : Type 0) (A : Type ℓ) : Type ℓ where
  ok : A → Result E A
  err : E → Result E A

-- The causes that carry an operating system's error or path carry nothing here.
pub data Error : Type 0 where
  io : Error
  corrupt_extent : String → Error
  corrupt_page : String → Error
  out_of_space : Error
  not_found : Error
  invalid_value : String → Error
  already_locked : Error

infixl 5 ◌>>=◌
abbrev pub ◌>>=◌ {ℓ κ} :
    {E : Type 0} {T : Type ℓ} {U : Type κ} → Result E T → (T → Result E U) → Result E U
err cause >>= next = err cause
ok value >>= next = next value

-- `if cond { return Err(e) }`
abbrev pub refuse_if : {E : Type 0} → Bool → E → Result E (Unit {0})
refuse_if true cause = err cause
refuse_if false cause = ok tt

-- `o.ok_or(e)`
abbrev pub ok_or {ℓ} : {E : Type 0} {T : Type ℓ} → Option T → E → Result E T
ok_or (some value) cause = ok value
ok_or none cause = err cause

infixl 5 ◌>>◌
abbrev pub ◌>>◌ {ℓ} : {E : Type 0} {U : Type ℓ} → Result E (Unit {0}) → Result E U → Result E U
first >> next = first >>= λ _. next

pub >>=-eq-ok {ℓ κ} :
    {E : Type 0} {T : Type ℓ} {U : Type κ} (first : Result E T) (next : T → Result E U) {u : U}
    → (first >>= next) ≡ ok u
    → (value : T) × (first ≡ ok value) × (next value ≡ ok u)
>>=-eq-ok (err cause) next eq = cc
>>=-eq-ok (ok value) next eq = (value, refl, eq)
