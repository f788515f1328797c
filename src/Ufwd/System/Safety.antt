-- ===== src/Ufwd/System/Safety.antt =====
-- src/hev-ufwd.c: what holds however the server and the clients' tasks take turns.
use natmap.Prelude.{
  ℕ, ◌≡◌, ◌≢◌, ◌⊎◌, refl, ap, sym, ◌∙◌, List, Bool, true, false, Bool-cases, inl, inr, Option, none,
  some, arith,
}
use natmap.Prelude.Int.{ℤ}
use natmap.Ufwd.{Session, Tree, first, items, session_find, HevRbTree, IsRbTree, session_del}
use natmap.Ufwd.Sorted.{Sorted, Sorted-without}
use natmap.Ufwd.Map.{session_add-Placed, session_find-find_in}
use natmap.Ufwd.Server.Activate.{session_find-first, Sorted-activate, items-activate}
use natmap.Ufwd.System.{
  Phase, stopped, waiting, connecting, sending, endless, freed, State, holds, session_of, member,
  remove, receive, add, made, connect, mark, delete, Step, starts, stops, receives, connects, fails,
  marks, ends, Reach, begin, next,
}
use natmap.Ufwd.System.Holds.{
  holds-Placed, holds-without, member-remove, holds-wake, session_find-holds, session_of-holds,
  find_in-without-none,
}

-- What the server's place says of the tree and the tasks. While a session is made, there is none
-- for the sender; while a datagram is sent, the session has its task, unless `send` gives way.
abbrev pub Allows : (blocking : Bool) (alen : ℕ) → Phase → Tree → List ℕ → Type 0
Allows blocking alen stopped t clients = Unit
Allows blocking alen waiting t clients = Unit
Allows blocking alen (connecting saddr) t clients = session_find saddr alen t ≡ none
Allows blocking alen (sending id) t clients = blocking ≡ false → member id clients ≡ true
Allows blocking alen endless t clients = ⊥
Allows blocking alen freed t clients = blocking ≡ true

-- The addresses fall, and a pointer is in the tree exactly if it has a task.
pub record IsSound (blocking : Bool) (alen : ℕ) (s : State) : Type 0 where
  pub sorted : Sorted alen (items s.tree)
  pub same : (id : ℕ) → member id s.clients ≡ holds id (items s.tree)
  pub allows : Allows blocking alen s.phase s.tree s.clients

module _ (lib : HevRbTree) (balances : IsRbTree lib) (alen : ℕ) (blocking : Bool) where
  abbrev Sound : State → Type 0
  Sound s = IsSound blocking alen s

  -- The same tree and tasks, with the server elsewhere.
  moved :
      (s : State) (p : Phase)
      → Sound s
      → Allows blocking alen p s.tree s.clients
      → Sound (record s { phase = p })
  moved s p h a = record { sorted = h.sorted; same = h.same; allows = a }

  receive-IsSound :
      (saddr : List ℕ) (r : Option Session) (s : State)
      → Sound s
      → session_find saddr alen s.tree ≡ r
      → Sound (receive lib alen saddr r s)
  unfolding receive
  receive-IsSound saddr none s h found = moved s (connecting saddr) h found
  receive-IsSound saddr (some x) s h found =
      moved s (sending x.id) h
        (λ _. h.same x.id ∙ session_find-holds saddr alen s.tree x h.sorted found)

  -- The phase is put as a variable, to be taken apart.
  at_phase :
      (s : State) (p : Phase) → s.phase ≡ p → Sound s → Allows blocking alen p s.tree s.clients
  at_phase s p e h = rw (sym e) h.allows

  connect-IsSound :
      (saddr : List ℕ) (id : ℕ) (fd : ℤ) (s : State)
      → Sound s
      → s.phase ≡ connecting saddr
      → Sound (connect lib alen saddr (some (id, fd)) s)
  unfolding connect add member
  connect-IsSound saddr id fd s h at_place =
      let x = made lib alen saddr id fd in
      let missing : session_find (first alen saddr) alen s.tree ≡ none =
        session_find-first alen saddr s.tree ∙ at_phase s (connecting saddr) at_place h in
      let (t', added, placed, sorted) = session_add-Placed lib balances x s.tree h.sorted missing in
      rw (added, add)
        (record {
          sorted = sorted;
          same = λ i.
              let there = holds-Placed i alen x (items s.tree) (items t') placed in
              let before = h.same i in ground (arith, there, before);
          allows = λ _. ground arith;
        })

  failed-IsSound : (saddr : List ℕ) (s : State) → Sound s → Sound (connect lib alen saddr none s)
  unfolding connect
  failed-IsSound saddr s h = moved s waiting h tt

  -- Where `send` does not give way, the session is there to be marked.
  mark-IsSound : (id : ℕ) (s : State) → Sound s → s.phase ≡ sending id → Sound (mark lib alen id s)
  unfolding mark
  mark-IsSound id s h at_place = elim (Bool-cases (holds id (items s.tree))) [
    | inl there ↦
        rw (there, mark)
          (record {
            sorted = Sorted-activate alen id s.tree h.sorted;
            same = λ i.
                h.same i
                ∙ sym (ap (holds i) (items-activate id s.tree) ∙ holds-wake i id (items s.tree));
            allows = tt;
          })
    | inr gone ↦
        let kept = at_phase s (sending id) at_place h in
        let same = h.same id in rw (gone, mark) (moved s freed h (not_kept kept (same ∙ gone)))
  ]
    where
      not_kept :
          (blocking ≡ false → member id s.clients ≡ true)
          → member id s.clients ≡ false
          → blocking ≡ true
      not_kept kept gone = elim (Bool-cases blocking) [
        | inl gives_way ↦ gives_way
        | inr waits ↦ let there = kept waits in cc
      ]

  -- What the server's place says is still so without a session that it is not sending through.
  Allows-remove :
      (p : Phase) (id : ℕ) (x : Session) (s : State)
      → Sound s
      → x.id ≡ id
      → (blocking ≡ true) ⊎ (p ≢ sending id)
      → Allows blocking alen p s.tree s.clients
      → Allows blocking alen p (session_del lib x s.tree) (remove id s.clients)
  unfolding session_del
  Allows-remove stopped id x s h same other a = tt
  Allows-remove waiting id x s h same other a = tt
  Allows-remove (connecting saddr) id x s h same other a =
      let taken = balances.erase_items s.tree x in
      let sorted : Sorted alen (items (session_del lib x s.tree)) =
        rw taken (Sorted-without alen x.id (items s.tree) h.sorted) in
      session_find-find_in saddr alen (session_del lib x s.tree) sorted
      ∙ rw taken (
          find_in-without-none saddr alen x.id (items s.tree)
            (sym (session_find-find_in saddr alen s.tree h.sorted) ∙ a))
  Allows-remove (sending id') id x s h same (inl gives_way) a = λ waits. cc
  Allows-remove (sending id') id x s h same (inr other) a = λ waits.
      let there = a waits in
      let apart : id' ≢ id = λ e. other (ap sending e) in
      let left = member-remove id' id s.clients in ground (arith, there, apart, left)
  Allows-remove endless id x s h same other a = a
  Allows-remove freed id x s h same other a = a

  delete-IsSound :
      (id : ℕ) (s : State)
      → Sound s
      → member id s.clients ≡ true
      → (blocking ≡ true) ⊎ (s.phase ≢ sending id)
      → Sound (delete lib alen id (session_of id (items s.tree)) s)
  unfolding delete session_del
  delete-IsSound id s h has_task other =
      let (x, found, same) = session_of-holds id (items s.tree) (sym (h.same id) ∙ has_task) in
      let taken = balances.erase_items s.tree x in
      rw (found, delete)
        (record {
          sorted = rw taken (Sorted-without alen x.id (items s.tree) h.sorted);
          same = λ i.
              let less = holds-without i x.id (items s.tree) in
              let fewer = member-remove i id s.clients in
              let before = h.same i in rw taken (ground (arith, less, fewer, before));
          allows = Allows-remove s.phase id x s h same other h.allows;
        })

  step-IsSound : (s s' : State) → Step lib alen blocking s s' → Sound s → Sound s'
  step-IsSound s _ (starts e) h = moved s waiting h tt
  step-IsSound s _ (stops e) h = moved s stopped h tt
  step-IsSound s _ (receives saddr e) h =
      receive-IsSound saddr (session_find saddr alen s.tree) s h refl
  step-IsSound s _ (connects saddr id fd e new) h = connect-IsSound saddr id fd s h e
  step-IsSound s _ (fails saddr e) h = failed-IsSound saddr s h
  step-IsSound s _ (marks id e) h = mark-IsSound id s h e
  step-IsSound s _ (ends id has_task other) h = delete-IsSound id s h has_task other

  -- However the tasks take turns, with a tree library that keeps the order of the nodes: the
  -- addresses fall from left to right, so no two sessions have one address; a pointer is in the
  -- tree exactly if it has a task; while a session is made for a sender, the tree has none for it,
  -- and the search of `session_add` ends; and where `send` does not give way, no memory is written
  -- to that was freed.
  pub Reach-IsSound : (s : State) → Reach lib alen blocking s → IsSound blocking alen s
  unfolding items member holds
  Reach-IsSound _ begin = record { sorted = tt; same = λ id. refl; allows = tt }
  Reach-IsSound s (next {s = s'} r step) = step-IsSound s' s step (Reach-IsSound s' r)

module _ (lib : HevRbTree) (balances : IsRbTree lib) (alen : ℕ) where
  deleted-freed :
      (id : ℕ) (s : State)
      → IsSound true alen s
      → member id s.clients ≡ true
      → let s' = delete lib alen id (session_of id (items s.tree)) s in
        (s'.phase ≡ s.phase) × (member id s'.clients ≡ false)
  unfolding delete
  deleted-freed id s h has_task =
      let (x, found, same) = session_of-holds id (items s.tree) (sym (h.same id) ∙ has_task) in
      let left = member-remove id id s.clients in rw (found, delete) (refl, ground (arith, left))

  -- In every state that the tasks can reach while the server sends through a session that has its
  -- task, with a `send` that gives way: the tasks can go on to reach a state in which the server
  -- writes to the session's memory behind `session_free`.
  pub session_free-freed :
      (id : ℕ) (s : State)
      → Reach lib alen true s
      → s.phase ≡ sending id
      → member id s.clients ≡ true
      → (s' : State) × Reach lib alen true s' × (s'.phase ≡ freed)
  unfolding mark
  session_free-freed id s r at_place has_task =
      let h = Reach-IsSound lib balances alen true s r in
      let s1 = delete lib alen id (session_of id (items s.tree)) s in
      let r1 = next r (ends id has_task (inl refl)) in
      let (still, gone) = deleted-freed id s h has_task in
      let h1 = Reach-IsSound lib balances alen true s1 r1 in
      (
        mark lib alen id s1,
        next r1 (marks id (still ∙ at_place)),
        marked_freed id s1 (sym (h1.same id) ∙ gone),
      )
    where
      marked_freed :
          (id' : ℕ) (s' : State)
          → holds id' (items s'.tree) ≡ false
          → (mark lib alen id' s').phase ≡ freed
      marked_freed id' s' gone = rw (gone, mark) refl
