-- ===== src/Prelude/Tables.antt =====
-- Finite tables, checked by evaluation.
use Prim.Native.Nat.{ℕ, zero, suc, ◌<◌}
use mathlib.Core.Path.{◌≡◌, sym, ap, ◌∙◌}
use mathlib.Core.Logic.{◌≢◌, inl, inr}
use mathlib.Core.Bool.{Bool, true, false, true≢false}
use native.Mathlib.Omega.{arith}
use gems.Prelude.Tests.{◌==◌, ==_iff, Bool-cases, if◌then◌else◌}

-- Every row of a table passes, of which there are `rows`.
unfoldable pub passes : (ℕ → Bool) → ℕ → Bool
passes row zero = true
passes row (suc rows) = let others = passes row rows in if row rows then others else false

pub passes_at :
    (row : ℕ → Bool) {rows : ℕ} → passes row rows ≡ true → (i : ℕ) → i < rows → row i ≡ true
unfolding passes
passes_at row {rows = zero} every i inside = absurd (omega arith)
passes_at row {rows = suc rows} every i inside = elim (Bool-cases (row rows)) [
  | inl top ↦ elim (Bool-cases (i == rows)) [
    | inl e ↦ ap row ((==_iff _ _).0 e) ∙ top
    | inr e ↦
        let other : i ≢ rows = λ s. true≢false (sym ((==_iff _ _).1 s) ∙ e) in
        passes_at row {rows = rows} (rw top at every) i (omega arith)
  ]
  | inr top ↦ let never : false ≡ true = rw top at every in cc
]
