-- ===== src/Ufwd/System/Holds.antt =====
-- src/hev-ufwd.c: which sessions a tree holds, behind each operation on it.
use natmap.Prelude.{
  ℕ, ◌≡◌, refl, sym, ◌∙◌, List, [], ◌∷◌, ◌++◌, map, true, not, ◌&&◌, ◌||◌, Bool-cases, inl, inr,
  none, some, arith, ◌==◌,
}
use natmap.Ufwd.{Session, Tree, items, without, session_find}
use natmap.Ufwd.Sorted.{Sorted, find_in}
use natmap.Ufwd.Map.{Placed, session_find-find_in}
use natmap.Ufwd.Server.{wake}
use natmap.Ufwd.System.{holds, session_of, member, remove}

holds-append : (id : ℕ) (l r : List Session) → holds id (l ++ r) ≡ (holds id l || holds id r)
unfolding holds
holds-append id [] r = refl
holds-append id (s ∷ l) r = ground (arith, holds-append id l r)

-- A session that was put among the others.
pub holds-Placed :
    (i n : ℕ) (s : Session) (old new : List Session)
    → Placed s n old new
    → holds i new ≡ ((s.id == i) || holds i old)
unfolding holds
holds-Placed i n s old new p =
    rw
      (
        p.new_items,
        p.old_items,
        holds-append i p.before (s ∷ p.after),
        holds-append i p.before p.after,
      )
      (ground arith)

pub holds-without :
    (i id : ℕ) (l : List Session) → holds i (without id l) ≡ (holds i l && not (i == id))
unfolding holds without
holds-without i id [] = refl
holds-without i id (s ∷ l) = ground (arith, holds-without i id l)

pub member-remove : (i id : ℕ) (l : List ℕ) → member i (remove id l) ≡ (member i l && not (i == id))
unfolding member remove
member-remove i id [] = refl
member-remove i id (x ∷ l) = ground (arith, member-remove i id l)

pub holds-wake : (i id : ℕ) (l : List Session) → holds i (map (wake id) l) ≡ holds i l
unfolding holds
holds-wake i id [] = refl
holds-wake i id (s ∷ l) = ground (arith, holds-wake i id l)

-- A session that the search finds is in the tree, under its pointer.
find_in-holds :
    (saddr : List ℕ) (n : ℕ) (l : List Session) (s : Session)
    → find_in saddr n l ≡ some s
    → holds s.id l ≡ true
unfolding find_in holds
find_in-holds saddr n [] s h = cc
find_in-holds saddr n (x ∷ l) s h = ground (arith, find_in-holds saddr n l s)

pub session_find-holds :
    (saddr : List ℕ) (n : ℕ) (t : Tree) (s : Session)
    → Sorted n (items t)
    → session_find saddr n t ≡ some s
    → holds s.id (items t) ≡ true
session_find-holds saddr n t s h found =
    find_in-holds saddr n (items t) s (sym (session_find-find_in saddr n t h) ∙ found)

pub session_of-holds :
    (id : ℕ) (l : List Session)
    → holds id l ≡ true
    → (s : Session) × (session_of id l ≡ some s) × (s.id ≡ id)
unfolding holds session_of
session_of-holds id [] h = cc
session_of-holds id (s ∷ l) h = elim (Bool-cases (s.id == id)) [
  | inl here ↦ (s, rw here refl, ground arith)
  | inr further ↦
      let (x, found, same) = session_of-holds id l (rw (further, holds) at h) in
      (x, rw (further, session_of) found, same)
]

pub find_in-without-none :
    (saddr : List ℕ) (n id : ℕ) (l : List Session)
    → find_in saddr n l ≡ none
    → find_in saddr n (without id l) ≡ none
unfolding find_in without
find_in-without-none saddr n id [] h = refl
find_in-without-none saddr n id (s ∷ l) h = ground (arith, find_in-without-none saddr n id l)
