-- ===== src/Prelude/Modulo.antt =====
-- Counting around a cycle.
use Prim.Native.Nat.{ℕ, suc, ◌+◌, ◌%◌, ◌≤◌, ◌<◌}
use mathlib.Core.Path.{◌≡◌, ap, ◌∙◌}
use native.Mathlib.Nat.{mod-lt, mod-eq_of_lt, mod_self, suc-mod}
use native.Mathlib.Omega.{arith}

pub wrap : (cycle n : ℕ) → 0 < cycle → cycle ≤ n % cycle + 1 → (n + 1) % cycle ≡ 0
wrap cycle n h top =
    let full : suc (n % cycle) ≡ cycle = omega (arith, mod-lt n {m = cycle} h) in
    let as_suc : n + 1 ≡ suc n = omega arith in
    rw as_suc (suc-mod n cycle ∙ ap (λ m. m % cycle) full ∙ mod_self cycle)

pub along : (cycle n : ℕ) → 0 < cycle → n % cycle + 1 < cycle → (n + 1) % cycle ≡ n % cycle + 1
along cycle n h below =
    let as_suc : n + 1 ≡ suc n = omega arith in
    rw as_suc (suc-mod n cycle ∙ mod-eq_of_lt (omega arith) ∙ omega arith)
