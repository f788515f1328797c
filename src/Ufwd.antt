-- ===== src/Ufwd.antt =====
-- src/hev-ufwd.c: the sessions of the UDP forwarder, one for each address that sends.
--
-- The red-black tree is a library's (hev-task-system): `HevRbTree` has what it does behind the
-- search. A node keeps the library's own data, the colour, beside the two children.
pub mod Order
pub mod Sorted
pub mod Map
pub mod Server
pub mod Client
pub mod System
mod Tests
use natmap.Prelude.{
  ℕ, zero, suc, ◌≡◌, Bool, not, List, [], ◌∷◌, ◌++◌, Option, none, some, ltb, ◌==◌, if◌then◌else◌,
}
use natmap.Prelude.Int.{ℤ}

-- `id` is the pointer to the session, `addr` the `alen` bytes that were copied.
pub record Session : Type 0 where
  pub id : ℕ
  pub addr : List ℕ
  pub alen : ℕ
  pub active : Bool
  pub fd : ℤ

pub data Tree : Type 0 where
  leaf : Tree
  node : (colour : ℕ) → Tree → Session → Tree → Tree

-- The sign of what `memcmp` returns.
pub data Sign : Type 0 where
  negative equal positive : Sign

pub compare_bytes : List ℕ → List ℕ → Sign
compare_bytes [] [] = equal
compare_bytes [] (y ∷ b) = negative
compare_bytes (x ∷ a) [] = positive
compare_bytes (x ∷ a) (y ∷ b) =
    let rest = compare_bytes a b in if ltb x y then negative else if ltb y x then positive else rest

-- The first bytes of an address in a zeroed structure.
pub first : ℕ → List ℕ → List ℕ
first zero a = []
first (suc n) [] = 0 ∷ first n []
first (suc n) (x ∷ a) = x ∷ first n a

pub memcmp : List ℕ → List ℕ → ℕ → Sign
unfolding compare_bytes first
memcmp a b n = compare_bytes (first n a) (first n b)

-- `saddr` and `len`
pub session_find : List ℕ → ℕ → Tree → Option Session
session_find saddr len leaf = none
session_find saddr len (node colour left this right) = elim (memcmp this.addr saddr len) [
  | negative ↦ session_find saddr len left
  | positive ↦ session_find saddr len right
  | equal ↦ some this
]

-- The search of `session_add` and the linking of the node; null where it never ends, since the loop
-- stays at a session with the same address.
pub link : ℕ → Session → Tree → Option Tree
link colour s leaf = some (node colour leaf s leaf)
link colour s (node c left this right) = elim (memcmp this.addr s.addr s.alen) [
  | negative ↦ elim (link colour s left) [
    | none ↦ none
    | some left' ↦ some (node c left' this right)
  ]
  | positive ↦ elim (link colour s right) [
    | none ↦ none
    | some right' ↦ some (node c left this right')
  ]
  | equal ↦ none
]

-- The sessions from left to right.
pub items : Tree → List Session
items leaf = []
items (node colour left s right) = items left ++ s ∷ items right

-- The list without a session.
pub without : ℕ → List Session → List Session
without id [] = []
without id (s ∷ rest) = let rest' = without id rest in if s.id == id then rest' else s ∷ rest'

-- `hev_rbtree_node_link` sets the colour, `hev_rbtree_insert_color` and `hev_rbtree_erase` rotate.
pub record HevRbTree : Type 0 where
  pub link_colour : ℕ
  pub insert_color : Tree → Session → Tree
  pub erase : Tree → Session → Tree

-- What is said of them: they keep the order of the nodes, and the second takes its node out.
pub record IsRbTree (lib : HevRbTree) : Type 0 where
  pub insert_color_items : (t : Tree) (s : Session) → items (lib.insert_color t s) ≡ items t
  pub erase_items : (t : Tree) (s : Session) → items (lib.erase t s) ≡ without s.id (items t)

module _ (lib : HevRbTree) where
  pub session_add : Session → Tree → Option Tree
  unfolding link
  session_add s t = elim (link lib.link_colour s t) [
    | none ↦ none
    | some t' ↦ some (lib.insert_color t' s)
  ]

  pub session_del : Session → Tree → Tree
  session_del s t = lib.erase t s
