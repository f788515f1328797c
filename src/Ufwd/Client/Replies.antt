-- ===== src/Ufwd/Client/Replies.antt =====
-- src/hev-ufwd.c: how long a session lives, and what becomes of the target's answers.
use natmap.Prelude.{
  ◌≡◌, refl, sym, ap, List, [], ◌∷◌, Bool, true, false, not, ◌&&◌, ◌||◌, Bool-cases, arith, inl,
  inr, none, some, if◌then◌else◌,
}
use natmap.Prelude.Int.{negsuc, is_nonpos, eq_ℤ, eq_ℤ-refl}
use natmap.Host.{Trace, recv_length, watched, unwatched, closed}
use natmap.Host.Held.{held, drop_fd}
use natmap.Ufwd.{Session, Tree, items, session_find, HevRbTree, IsRbTree, session_del}
use natmap.Ufwd.Sorted.{Sorted}
use natmap.Ufwd.Map.{session_del_gone}
use natmap.Ufwd.Client.{Turn, Reply, reply, client_loop, leave, client_task_entry}

-- A round that is the session's last: nothing came, other than by a timeout of a session that was
-- active meanwhile, or what came could not be passed on.
abbrev pub is_last : Turn → Bool
is_last r =
    if is_nonpos (recv_length r.received)
    then not (eq_ℤ (recv_length r.received) (negsuc 1) && r.active)
    else is_nonpos r.sendto

-- The rounds up to the last one, which belongs to them.
abbrev pub lived : List Turn → List Turn
lived [] = []
lived (r ∷ turns) = if is_last r then r ∷ [] else r ∷ lived turns

abbrev pub is_over : List Turn → Bool
is_over [] = false
is_over (r ∷ turns) = is_last r || is_over turns

-- The replies of the rounds in which a datagram came.
abbrev pub replies_of : Session → List Turn → List Reply
replies_of s [] = []
replies_of s (r ∷ turns) =
    if is_nonpos (recv_length r.received)
    then replies_of s turns
    else reply s r ∷ replies_of s turns

client_loop_lem :
    (s : Session) (turns : List Turn)
    → ((client_loop s turns).replies ≡ replies_of s (lived turns))
      × ((client_loop s turns).ended ≡ is_over turns)
unfolding client_loop
client_loop_lem s [] = (refl, refl)
client_loop_lem s (r ∷ turns) =
    let (all, over) = client_loop_lem s turns in
    let len = recv_length r.received in
    elim (Bool-cases (is_nonpos len)) [
      | inl nothing ↦ elim (Bool-cases (eq_ℤ len (negsuc 1) && r.active)) [
        | inl idle ↦ rw (nothing, idle, nothing, client_loop) (all, over)
        | inr ends ↦ rw (nothing, ends, nothing, client_loop) (refl, refl)
      ]
      | inr came ↦ elim (Bool-cases (is_nonpos r.sendto)) [
        | inl failed ↦ rw (came, failed, came, client_loop) (refl, refl)
        | inr passed ↦ rw (came, passed, came, client_loop) (ap (λ l. reply s r ∷ l) all, over)
      ]
    ]

-- What a run of the task leaves: the session ended, out of the tree and with its descriptor closed;
-- or it waits, and the tree is as it is.
pub data Lives (s : Session) (turns : List Turn) (t : Tree) (tr : Trace)
    : Tree → Trace → Type 0 where
  ended :
      (t' : Tree) (tr' : Trace)
      → is_over turns ≡ true
      → held tr' ≡ record (held tr) { fds = drop_fd s.fd (held tr).fds }
      → Sorted s.alen (items t')
      → session_find s.addr s.alen t' ≡ none
      → Lives s turns t tr t' tr'
  waits :
      (tr' : Trace)
      → is_over turns ≡ false
      → held tr' ≡ record (held tr) { watches = s.fd ∷ (held tr).watches }
      → Lives s turns t tr t tr'

module _ (lib : HevRbTree) (balances : IsRbTree lib) where
  leave-Lives :
      (s : Session) (turns : List Turn) (t : Tree) (tr : Trace) (end : Bool)
      → Sorted s.alen (items t)
      → session_find s.addr s.alen t ≡ some s
      → end ≡ is_over turns
      → let (t', tr') = leave lib s t end (watched s.fd ∷ tr) in Lives s turns t tr t' tr'
  unfolding leave
  leave-Lives s turns t tr false h found over = waits (watched s.fd ∷ tr) (sym over) refl
  leave-Lives s turns t tr true h found over =
      let (sorted, gone) = session_del_gone lib balances s t h found in
      ended (session_del lib s t) (closed s.fd ∷ unwatched s.fd ∷ watched s.fd ∷ tr) (sym over)
        (ground (arith, eq_ℤ-refl s.fd)) sorted gone

  -- For a session that the tree holds, in a tree whose addresses fall from left to right, and with
  -- a library that keeps the order of the nodes: the task passes on each datagram of the rounds up
  -- to the session's last one, in order and to the session's address. Where such a round came, the
  -- session is no longer found, and its descriptor is closed and not registered; else the task
  -- waits, with the tree as it is.
  pub client_task_entry-Lives :
      (s : Session) (turns : List Turn) (t : Tree) (tr : Trace)
      → Sorted s.alen (items t)
      → session_find s.addr s.alen t ≡ some s
      → let ((replies, t'), tr') = client_task_entry lib s turns t tr in
        (replies ≡ replies_of s (lived turns)) × Lives s turns t tr t' tr'
  unfolding client_task_entry
  client_task_entry-Lives s turns t tr h found =
      let (all, over) = client_loop_lem s turns in
      (all, leave-Lives s turns t tr (client_loop s turns).ended h found over)
