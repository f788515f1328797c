-- ===== src/Ufwd/Client.antt =====
-- src/hev-ufwd.c: `client_task_entry`, the task of a session, which passes on what the target answers.
pub mod Replies
use natmap.Prelude.{ℕ, List, [], ◌∷◌, Bool, true, false, ◌&&◌, if◌then◌else◌}
use natmap.Prelude.Int.{ℤ, negsuc, is_nonpos, eq_ℤ}
use natmap.Host.{Io, Received, recv_length, recv_bytes, return, ◌>>=◌, ◌>>◌, close, add_fd, del_fd}
use natmap.Ufwd.{Session, Tree, HevRbTree, session_del}

-- What one round meets: what `recvfrom` gives, -2 on the timeout; whether the server marked the
-- session as active meanwhile; its socket then, and what `sendto` returns.
pub record Turn : Type 0 where
  pub received : Received
  pub active : Bool
  pub sfd : ℤ
  pub sendto : ℤ

-- The arguments of `sendto`.
pub record Reply : Type 0 where
  pub fd : ℤ
  pub bytes : List ℕ
  pub addr : List ℕ
  pub alen : ℕ

pub record Outcome : Type 0 where
  pub replies : List Reply
  pub ended : Bool

abbrev pub reply : Session → Turn → Reply
reply s r = record { fd = r.sfd; bytes = recv_bytes r.received; addr = s.addr; alen = s.alen }

abbrev stop : List Reply → Outcome
stop replies = record { replies = replies; ended = true }

abbrev pub after_reply : Reply → Outcome → Outcome
after_reply a o = record o { replies = a ∷ o.replies }

-- The loop over the rounds that come; it waits where the list ends.
pub client_loop : Session → List Turn → Outcome
client_loop s [] = record { replies = []; ended = false }
client_loop s (r ∷ turns) =
    let rest = client_loop s turns in
    let len = recv_length r.received in
    if is_nonpos len
    then (if eq_ℤ len (negsuc 1) && r.active then rest else stop [])
    else if is_nonpos r.sendto
    then stop (reply s r ∷ [])
    else after_reply (reply s r) rest

module _ (lib : HevRbTree) where
  -- Behind the loop, with the tree as it is then.
  pub leave : Session → Tree → Bool → Io Tree
  leave s t false = return t
  leave s t true = do del_fd s.fd; close s.fd; return (session_del lib s t)

  -- The replies, and the tree that is left; `t` is the tree at the end.
  pub client_task_entry : Session → List Turn → Tree → Io (List Reply × Tree)
  unfolding client_loop leave
  client_task_entry s turns t = do
    add_fd s.fd
    let o = client_loop s turns
    t' ← leave s t o.ended
    return (o.replies, t')
