-- ===== src/Prelude/Table.antt =====
-- Facts over a small range, by evaluation at every value.
use Prim.Native.Nat.{ℕ, zero, suc, ◌<◌}
use mathlib.Core.Path.{◌≡◌}
use mathlib.Core.Bool.{Bool, true, ◌&&◌}
use native.Mathlib.Omega.{arith}

module _ (test : ℕ → Bool) where
  unfoldable pub passes_below : ℕ → Bool
  passes_below zero = true
  passes_below (suc bound) = passes_below bound && test bound

  -- A table that passes says it of each of its entries.
  pub passes_below_lem : (bound x : ℕ) → x < bound → passes_below bound ≡ true → test x ≡ true
  unfolding passes_below
  passes_below_lem zero x inside table = absurd (omega arith)
  passes_below_lem (suc bound) x inside table = ground (arith, passes_below_lem bound x)
