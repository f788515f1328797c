-- ===== src/Ufwd/Server/Activate.antt =====
-- src/hev-ufwd.c: a copied address compares as the received one, and what setting `active` keeps.
use natmap.Prelude.{
  ℕ, zero, suc, ◌≡◌, refl, ap, ap₂, sym, ◌∙◌, inl, inr, List, [], ◌∷◌, ◌++◌, none, some, arith, All,
  map,
}
use mathlib.Core.List.{map-append}
use natmap.Ufwd.{
  Session, Tree, leaf, node, equal, compare_bytes, first, memcmp, items, session_find,
}
use natmap.Ufwd.Sorted.{Above, Sorted}
use natmap.Ufwd.Map.{Sign-cases}
use natmap.Ufwd.Server.{wake, activate}

first-first : (n : ℕ) (a : List ℕ) → first n (first n a) ≡ first n a
unfolding first
first-first zero a = refl
first-first (suc n) [] = ap (λ l. 0 ∷ l) (first-first n [])
first-first (suc n) (x ∷ a) = ap (λ l. x ∷ l) (first-first n a)

compare_bytes-same : (a : List ℕ) → compare_bytes a a ≡ equal
unfolding compare_bytes
compare_bytes-same [] = refl
compare_bytes-same (x ∷ a) = ground (arith, compare_bytes-same a)

pub memcmp-same : (n : ℕ) (a : List ℕ) → memcmp (first n a) a n ≡ equal
unfolding memcmp
memcmp-same n a =
    ap (λ l. compare_bytes l (first n a)) (first-first n a) ∙ compare_bytes-same (first n a)

memcmp-first : (n : ℕ) (a b : List ℕ) → memcmp a (first n b) n ≡ memcmp a b n
unfolding memcmp
memcmp-first n a b = ap (compare_bytes (first n a)) (first-first n b)

-- The copied address is as good as the received one.
pub session_find-first :
    (n : ℕ) (a : List ℕ) (t : Tree) → session_find (first n a) n t ≡ session_find a n t
unfolding session_find
session_find-first n a leaf = refl
session_find-first n a (node c left s right) =
    let copied = memcmp-first n s.addr a in
    elim (Sign-cases (memcmp s.addr a n)) [
      | inl less ↦ rw (copied, less, session_find) (session_find-first n a left)
      | inr (inl same) ↦ rw (copied, same, session_find) refl
      | inr (inr more) ↦ rw (copied, more, session_find) (session_find-first n a right)
    ]

wake-addr : (id : ℕ) (s : Session) → (wake id s).addr ≡ s.addr
wake-addr id s = ground arith

pub session_find-activate :
    (id n : ℕ) (a : List ℕ) (t : Tree)
    → session_find a n (activate id t)
      ≡ elim (session_find a n t) [ none ↦ none | some s ↦ some (wake id s) ]
unfolding session_find activate
session_find-activate id n a leaf = refl
session_find-activate id n a (node c left s right) =
    let moved = ap (λ b. memcmp b a n) (wake-addr id s) in
    elim (Sign-cases (memcmp s.addr a n)) [
      | inl less ↦ rw (moved, less, session_find) (session_find-activate id n a left)
      | inr (inl same) ↦ rw (moved, same, session_find) refl
      | inr (inr more) ↦ rw (moved, more, session_find) (session_find-activate id n a right)
    ]

pub items-activate : (id : ℕ) (t : Tree) → items (activate id t) ≡ map (wake id) (items t)
unfolding items activate
items-activate id leaf = refl
items-activate id (node c left s right) =
    ap₂ (λ l r. l ++ wake id s ∷ r) (items-activate id left) (items-activate id right)
    ∙ sym (map-append (wake id) (items left) (s ∷ items right))

All-wake :
    (n id : ℕ) (s : Session) (l : List Session)
    → All (Above n s) l
    → All (Above n (wake id s)) (map (wake id) l)
All-wake n id s [] h = tt
All-wake n id s (x ∷ l) h = (rw (wake-addr id s, wake-addr id x) h.0, All-wake n id s l h.1)

Sorted-wake : (n id : ℕ) (l : List Session) → Sorted n l → Sorted n (map (wake id) l)
Sorted-wake n id [] h = tt
Sorted-wake n id (s ∷ l) h = (All-wake n id s l h.0, Sorted-wake n id l h.1)

pub Sorted-activate : (n id : ℕ) (t : Tree) → Sorted n (items t) → Sorted n (items (activate id t))
Sorted-activate n id t h = rw (items-activate id t) (Sorted-wake n id (items t) h)
