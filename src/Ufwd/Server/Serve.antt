-- ===== src/Ufwd/Server/Serve.antt =====
-- src/hev-ufwd.c: what one round of the server keeps.
use natmap.Prelude.{
  ℕ, ◌≡◌, refl, ap, ◌∙◌, ◌⊎◌, inl, inr, true, false, List, ◌∷◌, Option, none, some, arith,
  Bool-cases, Option-cases,
}
use mathlib.Core.Path.{subst}
use natmap.Prelude.Int.{ℤ, is_neg}
use natmap.Host.{Host, Trace, sent}
use natmap.Host.Held.{Held, held}
use natmap.Sock.{hev_sock_client_pfwd}
use natmap.Sock.Acquire.{hev_sock_client_pfwd-Acquires}
use natmap.Ufwd.{
  Session, Tree, equal, first, memcmp, items, session_find, HevRbTree, IsRbTree, session_add,
}
use natmap.Ufwd.Sorted.{Sorted}
use natmap.Ufwd.Map.{session_add-session_find}
use natmap.Ufwd.Server.{wake, activate, target_port, session_new, serve, pass_on, add_and_pass_on}
use natmap.Ufwd.Server.Activate.{
  memcmp-same, session_find-first, session_find-activate, Sorted-activate,
}

-- No session can be made: no socket to the target, or no memory.
abbrev pub IsRefused : ℤ → Option ℕ → Type 0
IsRefused fd memory = (is_neg fd ≡ true) ⊎ (memory ≡ none)

-- A session can be made, and has this socket and this memory.
abbrev pub IsGranted : ℤ → Option ℕ → Session → Type 0
IsGranted fd memory s = (is_neg fd ≡ false) × (s.fd ≡ fd) × (memory ≡ some s.id)

-- What became of a session: nothing, and nothing more is held, or one for the address, which holds
-- its socket.
data Made (saddr : List ℕ) (len : ℕ) (fd : ℤ) (memory : Option ℕ) (before now : Held)
    : Option Session → Type 0 where
  refused : IsRefused fd memory → now ≡ before → Made saddr len fd memory before now none
  made :
      (s : Session)
      → IsGranted fd memory s
      → s.addr ≡ first len saddr
      → s.alen ≡ len
      → now ≡ record before { fds = s.fd ∷ before.fds; watches = s.fd ∷ before.watches }
      → Made saddr len fd memory before now (some s)

module _ (host : Host) (mode : ℕ) (taddr tport mport : List ℕ) where
  -- The socket to the target that can be had, or its failure.
  abbrev pub target_fd : Trace → ℤ
  target_fd tr =
      (hev_sock_client_pfwd host mode taddr (target_port host mode taddr tport mport) tr).0

  session_new-Made :
      (saddr : List ℕ) (len : ℕ) (memory : Option ℕ) (tr : Trace)
      → let (r, tr') = session_new host mode taddr tport mport saddr len memory tr in
        Made saddr len (target_fd tr) memory (held tr) (held tr') r
  unfolding session_new
  session_new-Made saddr len memory tr =
      let (fd, tr1) =
        hev_sock_client_pfwd host mode taddr (target_port host mode taddr tport mport) tr in
      let acquired =
        hev_sock_client_pfwd-Acquires host tr mode taddr
          (target_port host mode taddr tport mport) in
      elim (Bool-cases (is_neg fd)) [
        | inl failed ↦ rw failed (refused (inl failed) (rw failed at acquired))
        | inr opened ↦ elim (Option-cases memory) [
          | inl full ↦
              rw (opened, full) (refused (inr refl) (rw ((rw opened at acquired).1) (ground arith)))
          | inr (id, free) ↦
              rw (opened, free) (made _ (opened, refl, refl) refl refl (rw opened at acquired).1)
        ]
      ]

  -- Where a session comes from: it was found, or there was none and it was made.
  abbrev pub IsFrom :
      (saddr : List ℕ) (alen : ℕ) (memory : Option ℕ) (t : Tree) (tr : Trace) → Session → Type 0
  IsFrom saddr alen memory t tr s =
      ((s0 : Session) × (session_find saddr alen t ≡ some s0) × (s ≡ record s0 { active = true }))
      ⊎ ((session_find saddr alen t ≡ none) × IsGranted (target_fd tr) memory s)

  -- What a round leaves: the tree as it was and no more held, where there was no session and none
  -- can be made; or a tree that finds a session for the address, the one that was there or the one
  -- that was made, marked as active, and the datagram sent through its socket.
  pub data Serves (saddr : List ℕ) (alen : ℕ) (bytes : List ℕ) (memory : Option ℕ) (t : Tree)
      (tr : Trace) : Option Tree → Trace → Type 0 where
    dropped :
        (tr' : Trace)
        → session_find saddr alen t ≡ none
        → IsRefused (target_fd tr) memory
        → held tr' ≡ held tr
        → Serves saddr alen bytes memory t tr (some t) tr'
    passed :
        (t' : Tree) (s : Session) (rest : Trace)
        → Sorted alen (items t')
        → session_find saddr alen t' ≡ some s
        → s.active ≡ true
        → IsFrom saddr alen memory t tr s
        → Serves saddr alen bytes memory t tr (some t') (sent s.fd bytes ∷ rest)

  module _ (lib : HevRbTree) (balances : IsRbTree lib) (saddr : List ℕ) (alen : ℕ)
      (bytes : List ℕ) where
    pass_on-Serves :
        (memory : Option ℕ) (t t0 : Tree) (s : Session) (tr tr0 : Trace)
        → Sorted alen (items t)
        → session_find saddr alen t ≡ some s
        → IsFrom saddr alen memory t0 tr0 (record s { active = true })
        → let (r, tr') = pass_on host mode taddr tport mport lib s bytes t tr in
          Serves saddr alen bytes memory t0 tr0 r tr'
    unfolding pass_on
    pass_on-Serves memory t t0 s tr tr0 h found origin =
        let woken : wake s.id s ≡ record s { active = true } = ground arith in
        let there : session_find saddr alen (activate s.id t) ≡ some (record s { active = true }) =
          session_find-activate s.id alen saddr t ∙ rw found (ap some woken) in
        passed (activate s.id t) (record s { active = true }) tr (Sorted-activate alen s.id t h)
          there refl origin

    -- The session that was made is added under the address of the datagram.
    add_made :
        (t : Tree) (s : Session)
        → s.alen ≡ alen
        → Sorted alen (items t)
        → session_find saddr alen t ≡ none
        → s.addr ≡ first alen saddr
        → (t' : Tree) × (session_add lib s t ≡ some t')
          × Sorted alen (items t')
          × (session_find saddr alen t' ≡ some s)
    add_made t s len =
        subst
          (λ n.
            Sorted n (items t)
            → session_find saddr n t ≡ none
            → s.addr ≡ first n saddr
            → (t' : Tree) × (session_add lib s t ≡ some t')
              × Sorted n (items t')
              × (session_find saddr n t' ≡ some s))
          len
          (λ h missing copied.
            let here : memcmp s.addr saddr s.alen ≡ equal =
              ap (λ a. memcmp a saddr s.alen) copied ∙ memcmp-same s.alen saddr in
            let new : session_find s.addr s.alen t ≡ none =
              ap (λ a. session_find a s.alen t) copied
              ∙ (session_find-first s.alen saddr t ∙ missing) in
            let (t', added, sorted, found) =
              session_add-session_find lib balances s t saddr h new in
            (t', added, sorted, found ∙ rw here refl))

    add_and_pass_on-Serves :
        (memory : Option ℕ) (t : Tree) (tr tr1 : Trace) (r : Option Session)
        → Sorted alen (items t)
        → session_find saddr alen t ≡ none
        → Made saddr alen (target_fd tr) memory (held tr) (held tr1) r
        → let (o, tr') = add_and_pass_on host mode taddr tport mport lib r bytes t tr1 in
          Serves saddr alen bytes memory t tr o tr'
    unfolding add_and_pass_on
    add_and_pass_on-Serves memory t tr tr1 _ h missing (refused why same) =
        dropped tr1 missing why same
    add_and_pass_on-Serves memory t tr tr1 _ h missing (made s granted copied len more) =
        let (t', added, sorted, found) = add_made t s len h missing copied in
        rw (added, add_and_pass_on)
          (pass_on-Serves memory t' t s _ tr sorted found (inr (missing, granted)))

    -- For every host, any memory that is left, and a tree library that keeps the order of the nodes,
    -- in a tree whose addresses fall from left to right: one round of the server ends. Where there is
    -- no session for the sender, and either no socket to the target can be had or no memory is
    -- left, the tree and what is held are as before. Else the tree, whose addresses still fall,
    -- finds for the sender the session that was there, or one that was made with this socket and
    -- this memory; it is marked as active, and the datagram was sent through its socket last.
    pub serve-Serves :
        (t : Tree) (memory : Option ℕ) (tr : Trace)
        → Sorted alen (items t)
        → let (r, tr') = serve host mode taddr tport mport lib saddr alen bytes memory t tr in
          Serves saddr alen bytes memory t tr r tr'
    unfolding serve
    serve-Serves t memory tr h = elim (Option-cases (session_find saddr alen t)) [
      | inr (s, found) ↦
          rw (found, serve) (pass_on-Serves memory t t s tr tr h found (inl (s, found, refl)))
      | inl missing ↦
          rw (missing, serve)
            (add_and_pass_on-Serves memory t tr
              (session_new host mode taddr tport mport saddr alen memory tr).1 _ h missing
              (session_new-Made saddr alen memory tr))
    ]
