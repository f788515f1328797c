-- ===== src/Sock/Handing.antt =====
-- src/hev-sock.c: opening the server's socket hands no connection to a task.
use natmap.Prelude.{ℕ, ◌≡◌, List, [], ◌∷◌, Option, arith}
use natmap.Prelude.Int.{ℤ}
use natmap.Host.{Host, Trace, SockAddr, handed}
use natmap.Sock.{hev_sock_server_pfwd}

-- The connections that were handed to a task, newest first.
abbrev pub handed_fds : Trace → List ℤ
handed_fds [] = []
handed_fds (handed fd ∷ t) = fd ∷ handed_fds t
handed_fds (_ ∷ t) = handed_fds t

pub handed_fds-hev_sock_server_pfwd :
    (host : Host) (saddr : SockAddr) (type : ℕ) (iface : Option (List ℕ)) (mark : ℕ) (t : Trace)
    → handed_fds (hev_sock_server_pfwd host saddr type iface mark t).1 ≡ handed_fds t
unfolding hev_sock_server_pfwd
handed_fds-hev_sock_server_pfwd host saddr type iface mark t = ground arith
