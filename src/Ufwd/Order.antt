-- ===== src/Ufwd/Order.antt =====
-- src/hev-ufwd.c: the order that `memcmp` gives.
use natmap.Prelude.{ℕ, ◌≡◌, refl, ap, sym, List, [], ◌∷◌, arith}
use natmap.Ufwd.{negative, equal, positive, compare_bytes, first, memcmp}

compare_bytes-flip : (a b : List ℕ) → compare_bytes a b ≡ positive → compare_bytes b a ≡ negative
unfolding compare_bytes
compare_bytes-flip [] [] h = cc
compare_bytes-flip [] (y ∷ b) h = cc
compare_bytes-flip (x ∷ a) [] h = refl
compare_bytes-flip (x ∷ a) (y ∷ b) h = ground (arith, compare_bytes-flip a b)

compare_bytes_trans :
    (a b c : List ℕ)
    → compare_bytes a b ≡ negative
    → compare_bytes b c ≡ negative
    → compare_bytes a c ≡ negative
unfolding compare_bytes
compare_bytes_trans [] [] c h k = cc
compare_bytes_trans [] (y ∷ b) [] h k = cc
compare_bytes_trans [] (y ∷ b) (z ∷ c) h k = refl
compare_bytes_trans (x ∷ a) [] c h k = cc
compare_bytes_trans (x ∷ a) (y ∷ b) [] h k = cc
compare_bytes_trans (x ∷ a) (y ∷ b) (z ∷ c) h k = ground (arith, compare_bytes_trans a b c)

compare_bytes-equal : (a b : List ℕ) → compare_bytes a b ≡ equal → a ≡ b
unfolding compare_bytes
compare_bytes-equal [] [] h = refl
compare_bytes-equal [] (y ∷ b) h = cc
compare_bytes-equal (x ∷ a) [] h = cc
compare_bytes-equal (x ∷ a) (y ∷ b) h = ground (arith, compare_bytes-equal a b)

flip-compare_bytes : (a b : List ℕ) → compare_bytes a b ≡ negative → compare_bytes b a ≡ positive
unfolding compare_bytes
flip-compare_bytes [] [] h = cc
flip-compare_bytes [] (y ∷ b) h = refl
flip-compare_bytes (x ∷ a) [] h = cc
flip-compare_bytes (x ∷ a) (y ∷ b) h = ground (arith, flip-compare_bytes a b)

module _ (n : ℕ) (a b c : List ℕ) where
  pub memcmp-flip : memcmp a b n ≡ negative → memcmp b a n ≡ positive
  unfolding memcmp
  memcmp-flip h = flip-compare_bytes (first n a) (first n b) h

  pub memcmp-flip_positive : memcmp a b n ≡ positive → memcmp b a n ≡ negative
  unfolding memcmp
  memcmp-flip_positive h = compare_bytes-flip (first n a) (first n b) h

  pub memcmp-below : memcmp a b n ≡ positive → memcmp a c n ≡ negative → memcmp b c n ≡ negative
  unfolding memcmp
  memcmp-below h k =
      compare_bytes_trans (first n b) (first n a) (first n c)
        (compare_bytes-flip (first n a) (first n b) h) k

  pub memcmp-above : memcmp a b n ≡ positive → memcmp b c n ≡ positive → memcmp a c n ≡ positive
  unfolding memcmp
  memcmp-above h k = flip-compare_bytes (first n c) (first n a) (
      compare_bytes_trans (first n c) (first n b) (first n a)
        (compare_bytes-flip (first n b) (first n c) k)
        (compare_bytes-flip (first n a) (first n b) h))

  pub memcmp-equal : memcmp b c n ≡ equal → memcmp a c n ≡ memcmp a b n
  unfolding memcmp
  memcmp-equal h =
      ap (compare_bytes (first n a)) (sym (compare_bytes-equal (first n b) (first n c) h))
