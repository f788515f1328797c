-- ===== src/Ufwd/Sorted.antt =====
-- src/hev-ufwd.c: the sessions of a tree from left to right, and the search among them.
use natmap.Prelude.{
  ℕ, ◌≡◌, ◌≢◌, refl, sym, ap, Bool, true, false, List, [], ◌∷◌, ◌++◌, Option, none, some,
  if◌then◌else◌, ◌==◌, Bool-cases, inl, inr, arith, All,
}
use natmap.Ufwd.{Session, Sign, negative, equal, positive, memcmp, without}
use natmap.Ufwd.Order.{memcmp-below, memcmp-above, memcmp-equal, memcmp-flip_positive}

abbrev pub is_equal : Sign → Bool
is_equal negative = false
is_equal equal = true
is_equal positive = false

-- The first session of a list with an address.
unfoldable pub find_in : List ℕ → ℕ → List Session → Option Session
find_in saddr len [] = none
find_in saddr len (s ∷ rest) =
    let rest' = find_in saddr len rest in
    if is_equal (memcmp s.addr saddr len) then some s else rest'

-- The first address compares as the larger one.
abbrev pub Above : ℕ → Session → Session → Type 0
Above n x y = memcmp x.addr y.addr n ≡ positive

abbrev pub Misses : List ℕ → ℕ → Session → Type 0
Misses saddr n x = is_equal (memcmp x.addr saddr n) ≡ false

-- The addresses fall from left to right.
abbrev pub Sorted : ℕ → List Session → Type 0
Sorted n [] = Unit
Sorted n (s ∷ rest) = All (Above n s) rest × Sorted n rest

module _ {A : Type 0} (P : A → Type 0) where
  pub All-append : (xs ys : List A) → All P xs → All P ys → All P (xs ++ ys)
  All-append [] ys h k = k
  All-append (x ∷ xs) ys h k = (h.0, All-append xs ys h.1 k)

  pub All-prefix : (xs ys : List A) → All P (xs ++ ys) → All P xs × All P ys
  All-prefix [] ys h = (tt, h)
  All-prefix (x ∷ xs) ys h = let (p, q) = All-prefix xs ys h.1 in ((h.0, p), q)

  pub All-map : (Q : A → Type 0) → ((x : A) → P x → Q x) → (xs : List A) → All P xs → All Q xs
  All-map Q f [] h = tt
  All-map Q f (x ∷ xs) h = (f x h.0, All-map Q f xs h.1)

same_session : {x s : Session} → some x ≡ some s → x ≡ s
same_session h = cc

All-without : (P : Session → Type 0) (id : ℕ) (l : List Session) → All P l → All P (without id l)
unfolding without
All-without P id [] h = tt
All-without P id (s ∷ l) h = elim (Bool-cases (s.id == id)) [
  | inl taken ↦ rw taken (All-without P id l h.1)
  | inr kept ↦ rw kept (h.0, All-without P id l h.1)
]

module _ (n : ℕ) where
  pub Sorted-split :
      (l : List Session) (s : Session) (r : List Session)
      → Sorted n (l ++ s ∷ r)
      → (Sorted n l × All (λ x. Above n x s) l) × (All (Above n s) r × Sorted n r)
  Sorted-split [] s r h = ((tt, tt), h)
  Sorted-split (x ∷ l) s r h =
      let (all_l, above_s) = All-prefix (Above n x) l (s ∷ r) h.0 in
      let ((sorted_l, above_l), right) = Sorted-split l s r h.1 in
      (((all_l, sorted_l), (above_s.0, above_l)), right)

  pub Sorted-join :
      (l : List Session) (s : Session) (r : List Session)
      → Sorted n (l ++ r)
      → All (λ x. Above n x s) l
      → All (Above n s) r
      → Sorted n (l ++ s ∷ r)
  Sorted-join [] s r h above below = (below, h)
  Sorted-join (x ∷ l) s r h above below =
      let (all_l, all_r) = All-prefix (Above n x) l r h.0 in
      (All-append (Above n x) l (s ∷ r) all_l (above.0, all_r), Sorted-join l s r h.1 above.1 below)

  pub Sorted-without : (id : ℕ) (l : List Session) → Sorted n l → Sorted n (without id l)
  unfolding without
  Sorted-without id [] h = tt
  Sorted-without id (s ∷ l) h = elim (Bool-cases (s.id == id)) [
    | inl taken ↦ rw taken (Sorted-without id l h.1)
    | inr kept ↦ rw kept (All-without (Above n s) id l h.0, Sorted-without id l h.1)
  ]

  module _ (saddr : List ℕ) where
    pub find_in-none : (l : List Session) → All (Misses saddr n) l → find_in saddr n l ≡ none
    unfolding find_in
    find_in-none [] h = refl
    find_in-none (s ∷ l) h = rw (h.0, find_in) (find_in-none l h.1)

    pub find_in-front :
        (l r : List Session) → All (Misses saddr n) r → find_in saddr n (l ++ r) ≡ find_in saddr n l
    unfolding find_in
    find_in-front [] r h = find_in-none r h
    find_in-front (s ∷ l) r h = rw (find_in-front l r h) refl

    pub find_in-back :
        (l r : List Session) → All (Misses saddr n) l → find_in saddr n (l ++ r) ≡ find_in saddr n r
    unfolding find_in
    find_in-back [] r h = refl
    find_in-back (s ∷ l) r h = rw (h.0, find_in) (find_in-back l r h.1)

    pub find_in-skip :
        (l : List Session) (s : Session) (r : List Session)
        → Misses saddr n s
        → find_in saddr n (l ++ s ∷ r) ≡ find_in saddr n (l ++ r)
    unfolding find_in
    find_in-skip [] s r h = rw (h, find_in) refl
    find_in-skip (x ∷ l) s r h = rw (find_in-skip l s r h) refl

    pub find_in-without :
        (id : ℕ) (s : Session) (l : List Session)
        → s.id ≢ id
        → find_in saddr n l ≡ some s
        → find_in saddr n (without id l) ≡ some s
    unfolding find_in without
    find_in-without id s [] other found = cc
    find_in-without id s (x ∷ l) other found =
        elim (Bool-cases (is_equal (memcmp x.addr saddr n))) [
          | inl here ↦
              let x_is_s : x ≡ s = same_session (rw (here, find_in) at found) in
              let kept : (x.id == id) ≡ false = ground (arith, ap (λ y. y.id) x_is_s) in
              rw (kept, here, find_in, without) (ap some x_is_s)
          | inr further ↦
              let rest = find_in-without id s l other (rw (further, find_in) at found) in
              elim (Bool-cases (x.id == id)) [
                | inl taken ↦ rw (taken, without) rest
                | inr kept ↦ rw (kept, further, find_in, without) rest
              ]
        ]

    -- Sessions on one side of a session that compares unequal, or equal.
    pub smaller-Misses :
        (s : Session) (r : List Session)
        → All (Above n s) r
        → memcmp s.addr saddr n ≡ negative
        → All (Misses saddr n) r
    smaller-Misses s r h k =
        All-map (Above n s) (Misses saddr n)
          (λ x above. rw (memcmp-below n s.addr x.addr saddr above k) refl) r h

    pub larger-Misses :
        (s : Session) (l : List Session)
        → All (λ x. Above n x s) l
        → memcmp s.addr saddr n ≡ positive
        → All (Misses saddr n) l
    larger-Misses s l h k =
        All-map (λ x. Above n x s) (Misses saddr n)
          (λ x above. rw (memcmp-above n x.addr s.addr saddr above k) refl) l h

    pub equal-Misses :
        (s : Session) (l : List Session)
        → All (λ x. Above n x s) l
        → memcmp s.addr saddr n ≡ equal
        → All (Misses saddr n) l
    equal-Misses s l h k =
        All-map (λ x. Above n x s) (Misses saddr n)
          (λ x above. rw (memcmp-equal n x.addr s.addr saddr k, above) refl) l h

  -- The sessions below the one that is found have other addresses.
  pub find_in-gone :
      (s : Session) (l : List Session)
      → Sorted n l
      → find_in s.addr n l ≡ some s
      → find_in s.addr n (without s.id l) ≡ none
  unfolding find_in without
  find_in-gone s [] h found = cc
  find_in-gone s (x ∷ l) h found = elim (Bool-cases (is_equal (memcmp x.addr s.addr n))) [
    | inl here ↦
        let x_is_s : x ≡ s = same_session (rw (here, find_in) at found) in
        let taken : (x.id == s.id) ≡ true = ground (arith, ap (λ y. y.id) x_is_s) in
        let lower =
          All-map (Above n x) (Misses s.addr n)
            (λ y above.
              rw (sym (ap (λ z. z.addr) x_is_s), memcmp-flip_positive n x.addr y.addr [] above)
                refl)
            l h.0 in
        rw (taken, without)
          (find_in-none s.addr (without s.id l) (All-without (Misses s.addr n) s.id l lower))
    | inr further ↦
        let rest = find_in-gone s l h.1 (rw (further, find_in) at found) in
        elim (Bool-cases (x.id == s.id)) [
          | inl taken ↦ rw (taken, without) rest
          | inr kept ↦ rw (kept, further, find_in, without) rest
        ]
  ]
