-- ===== src/Ufwd/Server.antt =====
-- src/hev-ufwd.c: what the server does with one datagram: the session of its sender, a new one if
-- there is none, and the datagram passed on through it.
pub mod Activate
pub mod Serve
use natmap.Prelude.{ℕ, Bool, true, List, Option, none, some, ◌==◌, if◌then◌else◌}
use natmap.Prelude.Int.{ℤ, is_neg}
use natmap.Host.{Host, Io, return, ◌>>=◌, ◌>>◌, close, del_fd, send}
use natmap.Text.{strtoul10}
use natmap.Sock.{hev_sock_client_pfwd}
use natmap.Ufwd.{Session, Tree, leaf, node, first, session_find, HevRbTree, session_add}

-- `s->active = 1` where the session with this pointer lies.
abbrev pub wake : ℕ → Session → Session
wake id s = if s.id == id then record s { active = true } else s

pub activate : ℕ → Tree → Tree
activate id leaf = leaf
activate id (node c left s right) = node c (activate id left) (wake id s) (activate id right)

-- `mode`, `taddr`, `tport` and `mport` are the configuration's.
module _ (host : Host) (mode : ℕ) (taddr tport mport : List ℕ) where
  -- Port 0 stands for the mapped port.
  abbrev pub target_port : List ℕ
  target_port = if strtoul10 tport == 0 then mport else tport

  -- `id` is the pointer that the allocator returns, unless it returns null.
  pub session_new : List ℕ → ℕ → Option ℕ → Io (Option Session)
  session_new saddr len memory = do
    fd ← hev_sock_client_pfwd host mode taddr target_port
    if is_neg fd then return none else (elim memory [
      | none ↦ do del_fd fd; close fd; return none
      | some id ↦ return (
          some
            (record { id = id; addr = first len saddr; alen = len; active = Bool.false; fd = fd }))
    ])

  module _ (lib : HevRbTree) where
    -- `hev_task_io_socket_send (s->fd, ...); s->active = 1`
    pub pass_on : Session → List ℕ → Tree → Io (Option Tree)
    pass_on s bytes t = do sent_len ← send host s.fd bytes; return (some (activate s.id t))

    -- With what `session_new` returned; null where `session_add` never ends.
    pub add_and_pass_on : Option Session → List ℕ → Tree → Io (Option Tree)
    unfolding pass_on
    add_and_pass_on none bytes t = return (some t)
    add_and_pass_on (some s) bytes t = elim (session_add lib s t) [
      | none ↦ return none
      | some t' ↦ do del_fd s.fd; pass_on s bytes t'
    ]

    -- One round of the server's loop, with a datagram of `saddr`; null where it never ends.
    pub serve : List ℕ → ℕ → List ℕ → Option ℕ → Tree → Io (Option Tree)
    unfolding session_new pass_on add_and_pass_on
    serve saddr alen bytes memory t = elim (session_find saddr alen t) [
      | some s ↦ pass_on s bytes t
      | none ↦ do s ← session_new saddr alen memory; add_and_pass_on s bytes t
    ]
