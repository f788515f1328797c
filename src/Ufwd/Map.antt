-- ===== src/Ufwd/Map.antt =====
-- src/hev-ufwd.c: the session tree is a map from addresses to sessions.
use natmap.Prelude.{
  ℕ, ◌≡◌, ◌≢◌, refl, ap, sym, ◌∙◌, ◌⊎◌, List, [], ◌∷◌, ◌++◌, append_assoc, none, some,
  if◌then◌else◌, All, inl, inr,
}
use natmap.Ufwd.{
  Session, Tree, leaf, node, Sign, negative, equal, positive, memcmp, items, session_find, link,
  HevRbTree, IsRbTree, session_add, session_del,
}
use natmap.Ufwd.Order.{memcmp-flip, memcmp-above}
use natmap.Ufwd.Sorted.{
  is_equal, find_in, Above, Sorted, All-append, All-map, Sorted-split, Sorted-join, Sorted-without,
  find_in-skip, find_in-without, find_in-gone, find_in-front, find_in-back, smaller-Misses,
  larger-Misses, equal-Misses,
}

pub Sign-cases : (x : Sign) → (x ≡ negative) ⊎ ((x ≡ equal) ⊎ (x ≡ positive))
Sign-cases negative = inl refl
Sign-cases equal = inr (inl refl)
Sign-cases positive = inr (inr refl)

-- In a tree whose addresses fall from left to right, `session_find` returns the session that a
-- search through all of them finds.
pub session_find-find_in :
    (saddr : List ℕ) (n : ℕ) (t : Tree)
    → Sorted n (items t)
    → session_find saddr n t ≡ find_in saddr n (items t)
unfolding session_find find_in items
session_find-find_in saddr n leaf h = refl
session_find-find_in saddr n (node c left s right) h =
    let ((sorted_l, above), (below, sorted_r)) = Sorted-split n (items left) s (items right) h in
    elim (Sign-cases (memcmp s.addr saddr n)) [
      | inl less ↦
          let misses = smaller-Misses n saddr s (items right) below less in
          let front = find_in-front n saddr (items left) (s ∷ items right) (rw less refl, misses) in
          rw (less, session_find) (session_find-find_in saddr n left sorted_l ∙ sym front)
      | inr (inl same) ↦
          let misses = equal-Misses n saddr s (items left) above same in
          let back = find_in-back n saddr (items left) (s ∷ items right) misses in
          rw (same, session_find) (sym (back ∙ rw (same, find_in) refl))
      | inr (inr more) ↦
          let misses = larger-Misses n saddr s (items left) above more in
          let back = find_in-back n saddr (items left) (s ∷ items right) misses in
          rw (more, session_find)
            (session_find-find_in saddr n right sorted_r ∙ sym (back ∙ rw (more, find_in) refl))
    ]

-- Where a session stands in a longer list, between the larger and the smaller addresses.
pub record Placed (s : Session) (n : ℕ) (old new : List Session) : Type 0 where
  pub before : List Session
  pub after : List Session
  pub old_items : old ≡ before ++ after
  pub new_items : new ≡ before ++ s ∷ after
  larger : All (λ x. Above n x s) before
  smaller : All (Above n s) after

-- The search for a place ends where the address is new.
link-Placed :
    (colour : ℕ) (s : Session) (t : Tree)
    → Sorted s.alen (items t)
    → session_find s.addr s.alen t ≡ none
    → (t' : Tree) × (link colour s t ≡ some t') × Placed s s.alen (items t) (items t')
unfolding link session_find items
link-Placed colour s leaf h missing = (
  node colour leaf s leaf,
  refl,
  record { before = []; after = []; old_items = refl; new_items = refl; larger = tt; smaller = tt },
)
link-Placed colour s (node c left this right) h missing =
    let n = s.alen in
    let ((sorted_l, above), (below, sorted_r)) = Sorted-split n (items left) this (items right) h in
    elim (Sign-cases (memcmp this.addr s.addr n)) [
      | inl less ↦
          let (left', linked, p) =
            link-Placed colour s left sorted_l (rw (less, session_find) at missing) in
          let over = memcmp-flip n this.addr s.addr [] less in
          (
            node c left' this right,
            rw (less, linked, link) refl,
            record {
              before = p.before;
              after = p.after ++ this ∷ items right;
              old_items =
                  ap (λ l. l ++ this ∷ items right) p.old_items
                  ∙ append_assoc p.before p.after (this ∷ items right);
              new_items =
                  ap (λ l. l ++ this ∷ items right) p.new_items
                  ∙ append_assoc p.before (s ∷ p.after) (this ∷ items right);
              larger = p.larger;
              smaller = All-append (Above n s) p.after (this ∷ items right) p.smaller (
                over,
                All-map (Above n this) (Above n s)
                    (λ x k. memcmp-above n s.addr this.addr x.addr over k) (items right) below,
              );
            },
          )
      | inr (inl same) ↦ cc (rw (same, session_find) at missing)
      | inr (inr more) ↦
          let (right', linked, p) =
            link-Placed colour s right sorted_r (rw (more, session_find) at missing) in
          (
            node c left this right',
            rw (more, linked, link) refl,
            record {
              before = items left ++ this ∷ p.before;
              after = p.after;
              old_items =
                  ap (λ l. items left ++ this ∷ l) p.old_items
                  ∙ sym (append_assoc (items left) (this ∷ p.before) p.after);
              new_items =
                  ap (λ l. items left ++ this ∷ l) p.new_items
                  ∙ sym (append_assoc (items left) (this ∷ p.before) (s ∷ p.after));
              larger =
                  All-append (λ x. Above n x s) (items left) (this ∷ p.before)
                    (All-map (λ x. Above n x this) (λ x. Above n x s)
                      (λ x k. memcmp-above n x.addr this.addr s.addr k more) (items left) above)
                    (more, p.larger);
              smaller = p.smaller;
            },
          )
    ]

Sorted-Placed :
    {s : Session} {n : ℕ} {old new : List Session}
    → Placed s n old new
    → Sorted n old
    → Sorted n new
Sorted-Placed {s} {n} p h =
    rw p.new_items (Sorted-join n p.before s p.after (rw p.old_items at h) p.larger p.smaller)

module _ (saddr : List ℕ) (n : ℕ) where
  -- What the search finds in the longer list.
  find_in-Placed :
      (s : Session) (old new : List Session)
      → Placed s n old new
      → find_in saddr n new
        ≡ (if is_equal (memcmp s.addr saddr n) then some s else find_in saddr n old)
  unfolding find_in
  find_in-Placed s old new p = elim (Sign-cases (memcmp s.addr saddr n)) [
    | inl less ↦
        rw (p.new_items, p.old_items, less) (find_in-skip n saddr p.before s p.after (rw less refl))
    | inr (inr more) ↦
        rw (p.new_items, p.old_items, more) (find_in-skip n saddr p.before s p.after (rw more refl))
    | inr (inl same) ↦
        let misses = equal-Misses n saddr s p.before p.larger same in
        rw (p.new_items, same)
          (find_in-back n saddr p.before (s ∷ p.after) misses ∙ rw (same, find_in) refl)
  ]

module _ (lib : HevRbTree) (balances : IsRbTree lib) where
  -- Where the added session stands among the others.
  pub session_add-Placed :
      (s : Session) (t : Tree)
      → Sorted s.alen (items t)
      → session_find s.addr s.alen t ≡ none
      → (t' : Tree) × (session_add lib s t ≡ some t')
        × Placed s s.alen (items t) (items t')
        × Sorted s.alen (items t')
  unfolding session_add
  session_add-Placed s t h missing =
      let (t', linked, placed) = link-Placed lib.link_colour s t h missing in
      let kept = balances.insert_color_items t' s in
      let p : Placed s s.alen (items t) (items (lib.insert_color t' s)) = rw kept placed in
      (lib.insert_color t' s, rw (linked, session_add) refl, p, Sorted-Placed p h)

  -- With a tree library that keeps the order of the nodes, in a tree whose addresses fall from left
  -- to right, and for every address: where `session_find` finds no session with the address of `s`,
  -- `session_add` ends, in a tree whose addresses still fall; there `session_find` returns `s` if the
  -- address is that of `s`, and what it returned before if not.
  pub session_add-session_find :
      (s : Session) (t : Tree) (saddr : List ℕ)
      → Sorted s.alen (items t)
      → session_find s.addr s.alen t ≡ none
      → (t' : Tree) × (session_add lib s t ≡ some t')
        × Sorted s.alen (items t')
        × (session_find saddr s.alen t' ≡ (
            if is_equal (memcmp s.addr saddr s.alen) then some s else session_find saddr s.alen t))
  session_add-session_find s t saddr h missing =
      let n = s.alen in
      let (t', added, p, sorted) = session_add-Placed s t h missing in
      (
        t',
        added,
        sorted,
        session_find-find_in saddr n t' sorted
            ∙ (find_in-Placed saddr n s (items t) _ p ∙ rw (session_find-find_in saddr n t h) refl),
      )

  -- Behind `session_del` no session is found for its address.
  pub session_del_gone :
      (s : Session) (t : Tree)
      → Sorted s.alen (items t)
      → session_find s.addr s.alen t ≡ some s
      → Sorted s.alen (items (session_del lib s t))
        × (session_find s.addr s.alen (session_del lib s t) ≡ none)
  unfolding session_del
  session_del_gone s t h found =
      let n = s.alen in
      let taken = balances.erase_items t s in
      let sorted : Sorted n (items (lib.erase t s)) =
        rw taken (Sorted-without n s.id (items t) h) in
      (
        sorted,
        session_find-find_in s.addr n (lib.erase t s) sorted
            ∙ rw taken
                (find_in-gone n s (items t) h (sym (session_find-find_in s.addr n t h) ∙ found)),
      )

  -- With a tree library that takes out the node and keeps the order of the others, in a tree whose
  -- addresses fall from left to right: behind `session_del` of a session that `session_find` returned
  -- for its address, the addresses still fall, no session is found for that address, and another
  -- session that was found for some address still is.
  pub session_del-session_find :
      (s s' : Session) (t : Tree) (saddr : List ℕ)
      → Sorted s.alen (items t)
      → session_find s.addr s.alen t ≡ some s
      → s'.id ≢ s.id
      → session_find saddr s.alen t ≡ some s'
      → Sorted s.alen (items (session_del lib s t))
        × (session_find s.addr s.alen (session_del lib s t) ≡ none)
        × (session_find saddr s.alen (session_del lib s t) ≡ some s')
  unfolding session_del
  session_del-session_find s s' t saddr h found other there =
      let n = s.alen in
      let (sorted, gone) = session_del_gone s t h found in
      (
        sorted,
        gone,
        session_find-find_in saddr n (lib.erase t s) sorted
            ∙ rw (balances.erase_items t s) (
                find_in-without n saddr s.id s' (items t) other
                  (sym (session_find-find_in saddr n t h) ∙ there)),
      )
