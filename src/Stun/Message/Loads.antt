-- ===== src/Stun/Message/Loads.antt =====
-- Loads inside the buffer return a value.
use natmap.Prelude.{
  ℕ, ◌+◌, ◌<◌, ◌≡◌, refl, ◌++◌, get_elem?-append, List, arith, length, get_or, get_elem?-eq-get_or,
  if◌then◌else◌, Bool, true, false,
}
use natmap.Stun.Message.{
  ByteOrder, Run, ok, fault, out_of_fuel, ◌>>=◌, load8, load16, load32, word16, word32,
}

-- The run ends with a value.
abbrev pub Returns {ℓ} : {A : Type ℓ} → Run A → Type ℓ
Returns {A = A} r = (a : A) × (r ≡ ok a)

pub >>=-Returns {ℓ κ} :
    {A : Type ℓ} {B : Type κ} (m : Run A) (f : A → Run B)
    → Returns m
    → ((a : A) → Returns (f a))
    → Returns (m >>= f)
>>=-Returns m f (a, e) h = rw e (h a)

pub Returns-if {ℓ} :
    {A : Type ℓ} {x y : Run A} (b : Bool) → Returns x → Returns y → Returns (if b then x else y)
Returns-if true p q = p
Returns-if false p q = q

module _ (e : ByteOrder) (m : List ℕ) where
  pub load8-Returns : (i : ℕ) → i < length m → Returns (load8 m i)
  load8-Returns i h = (get_or m i 0, rw (get_elem?-eq-get_or m i 0 h, load8))

  pub load16-Returns : (i : ℕ) → i + 1 < length m → Returns (load16 e m i)
  unfolding load16
  load16-Returns i h =
      let (a, p) = load8-Returns i (omega arith) in
      let (b, q) = load8-Returns (i + 1) (omega arith) in (word16 e a b, rw (p, q))

  pub load32-Returns : (i : ℕ) → i + 3 < length m → Returns (load32 e m i)
  unfolding load32
  load32-Returns i h =
      let (a, p) = load8-Returns i (omega arith) in
      let (b, q) = load8-Returns (i + 1) (omega arith) in
      let (c, r) = load8-Returns (i + 2) (omega arith) in
      let (d, s) = load8-Returns (i + 3) (omega arith) in (word32 e a b c d, rw (p, q, r, s))

pub >>=-ext {ℓ κ} :
    {A : Type ℓ} {B : Type κ} (m : Run A) (f g : A → Run B)
    → ((a : A) → f a ≡ g a)
    → (m >>= f) ≡ (m >>= g)
>>=-ext (ok a) f g h = h a
>>=-ext fault f g h = refl
>>=-ext out_of_fuel f g h = refl

module _ (front body : List ℕ) where
  pub load8-append : (i j : ℕ) → i ≡ length front + j → load8 (front ++ body) i ≡ load8 body j
  load8-append i j h = rw (get_elem?-append front body i j h, load8)

module _ (e : ByteOrder) (front body : List ℕ) where
  pub load16-append :
      (i j : ℕ) → i ≡ length front + j → load16 e (front ++ body) i ≡ load16 e body j
  unfolding load16
  load16-append i j h =
      rw (load8-append front body i j h, load8-append front body (i + 1) (j + 1) (omega arith))

  pub load32-append :
      (i j : ℕ) → i ≡ length front + j → load32 e (front ++ body) i ≡ load32 e body j
  unfolding load32
  load32-append i j h = rw (
    load8-append front body i j h,
    load8-append front body (i + 1) (j + 1) (omega arith),
    load8-append front body (i + 2) (j + 2) (omega arith),
    load8-append front body (i + 3) (j + 3) (omega arith),
  )
