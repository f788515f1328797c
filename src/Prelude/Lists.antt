-- ===== src/Prelude/Lists.antt =====
-- Lists measured and indexed by native numbers, under the library's names: C's arrays.
use Prim.Native.Nat.{ℕ, zero, suc, ◌+◌, ◌<◌}
use mathlib.Core.Path.{◌≡◌, refl}
use mathlib.Core.List.{List, [], ◌∷◌, ◌++◌}
use mathlib.Core.Option.{Option, none, some}
use native.Mathlib.Omega.{arith}

module _ {ℓ} {A : Type ℓ} where
  abbrev pub length : List A → ℕ
  length [] = 0
  length (x ∷ xs) = suc (length xs)

  abbrev pub get_elem? : List A → ℕ → Option A
  get_elem? [] i = none
  get_elem? (x ∷ xs) zero = some x
  get_elem? (x ∷ xs) (suc i) = get_elem? xs i

  abbrev pub get_or : List A → ℕ → A → A
  get_or [] i d = d
  get_or (x ∷ xs) zero d = x
  get_or (x ∷ xs) (suc i) d = get_or xs i d

  abbrev pub take : ℕ → List A → List A
  take zero xs = []
  take (suc n) [] = []
  take (suc n) (x ∷ xs) = x ∷ take n xs

  abbrev pub replicate : ℕ → A → List A
  replicate zero a = []
  replicate (suc n) a = a ∷ replicate n a

  pub length-replicate : (n : ℕ) (a : A) → length (replicate n a) ≡ n
  length-replicate zero a = refl
  length-replicate (suc n) a = omega (arith, length-replicate n a)

  -- Bytes stored over the front of a buffer.
  abbrev pub overwrite : List A → List A → List A
  overwrite [] old = old
  overwrite (x ∷ xs) [] = []
  overwrite (x ∷ xs) (y ∷ old) = x ∷ overwrite xs old

  pub length-overwrite : (xs old : List A) → length (overwrite xs old) ≡ length old
  length-overwrite [] old = refl
  length-overwrite (x ∷ xs) [] = refl
  length-overwrite (x ∷ xs) (y ∷ old) = omega (arith, length-overwrite xs old)

  pub length-append : (xs ys : List A) → length (xs ++ ys) ≡ length xs + length ys
  length-append [] ys = omega arith
  length-append (x ∷ xs) ys = omega (arith, length-append xs ys)

  pub get_elem?-eq-get_or :
      (xs : List A) (i : ℕ) (d : A) → i < length xs → get_elem? xs i ≡ some (get_or xs i d)
  get_elem?-eq-get_or [] i d h = absurd (omega arith)
  get_elem?-eq-get_or (x ∷ xs) zero d h = refl
  get_elem?-eq-get_or (x ∷ xs) (suc i) d h = get_elem?-eq-get_or xs i d (omega arith)

  -- Behind a prefix of known length the rest is read by its own index.
  pub get_elem?-append :
      (xs ys : List A) (i j : ℕ) → i ≡ length xs + j → get_elem? (xs ++ ys) i ≡ get_elem? ys j
  get_elem?-append [] ys i j e = ground arith
  get_elem?-append (x ∷ xs) ys zero j e = absurd (omega arith)
  get_elem?-append (x ∷ xs) ys (suc i) j e = get_elem?-append xs ys i j (omega arith)

-- A property of every element.
abbrev pub All {ℓ κ} : {A : Type ℓ} → (A → Type κ) → List A → Type κ
All P [] = Unit
All P (x ∷ xs) = P x × All P xs
