-- ===== src/Sock/Acquire.antt =====
-- src/hev-sock.c: each function takes a socket and gives everything else back, or fails and gives
-- all of it back, for every host.
use natmap.Prelude.{ℕ, ◌≡◌, List, ◌∷◌, Option, none, some, false, if◌then◌else◌, arith}
use natmap.Prelude.Int.{ℤ, is_neg}
use natmap.Host.{Host, Trace, SockAddr}
use natmap.Host.Held.{Held, held}
use natmap.Sock.{
  hev_sock_client_base, hev_sock_client_stun, hev_sock_client_pfwd, hev_sock_server_pfwd,
}

-- Without a socket, what was held before; with one, that and the socket, open and registered.
abbrev pub Acquires : Held → Option ℤ → Held → Type 0
Acquires before none now = now ≡ before
Acquires before (some fd) now =
    (is_neg fd ≡ false)
    × (now ≡ record before { fds = fd ∷ before.fds; watches = fd ∷ before.watches })

-- The socket besides, open and registered.
abbrev pub with_socket : Option ℤ → Held → Held
with_socket none h = h
with_socket (some fd) h = record h { fds = fd ∷ h.fds; watches = fd ∷ h.watches }

-- A returned descriptor, or nothing for a negative one.
abbrev pub descriptor : ℤ → Option ℤ
descriptor fd = if is_neg fd then none else some fd

abbrev pub socket_of : Option (ℤ × SockAddr) → Option ℤ
socket_of none = none
socket_of (some (fd, name)) = some fd

module _ (host : Host) (t : Trace) where
  -- For every host: where `hev_sock_client_pfwd` returns a negative result, exactly the descriptors,
  -- registrations and address lists are held that were held before; where it returns another one,
  -- these and the returned socket, open and registered.
  pub hev_sock_client_pfwd-Acquires :
      (type : ℕ) (addr port : List ℕ)
      → let (fd, t') = hev_sock_client_pfwd host type addr port t in
        Acquires (held t) (descriptor fd) (held t')
  unfolding hev_sock_client_pfwd
  hev_sock_client_pfwd-Acquires type addr port = ground arith

  -- For every host: where `hev_sock_server_pfwd` returns a negative result, exactly the descriptors,
  -- registrations and address lists are held that were held before; where it returns another one,
  -- these and the returned socket, open and registered.
  pub hev_sock_server_pfwd-Acquires :
      (saddr : SockAddr) (type : ℕ) (iface : Option (List ℕ)) (mark : ℕ)
      → let (fd, t') = hev_sock_server_pfwd host saddr type iface mark t in
        Acquires (held t) (descriptor fd) (held t')
  unfolding hev_sock_server_pfwd
  hev_sock_server_pfwd-Acquires saddr type iface mark = ground arith

  -- For every host: where `hev_sock_client_stun` returns no socket, exactly the descriptors,
  -- registrations and address lists are held that were held before; where it returns one, these and
  -- that socket, open and registered.
  pub hev_sock_client_stun-Acquires :
      (saddr : SockAddr) (type : ℕ) (daddr dport : List ℕ) (iface : Option (List ℕ)) (mark : ℕ)
      (old : SockAddr)
      → let (r, t') = hev_sock_client_stun host saddr type daddr dport iface mark old t in
        Acquires (held t) (socket_of r) (held t')
  unfolding hev_sock_client_stun
  hev_sock_client_stun-Acquires saddr type daddr dport iface mark old = ground arith

  -- For every host: where `hev_sock_client_base` returns no socket, exactly the descriptors,
  -- registrations and address lists are held that were held before, both of its own address lists
  -- freed; where it returns one, these and that socket, open and registered.
  pub hev_sock_client_base-Acquires :
      (family type : ℕ) (saddr sport daddr dport : List ℕ) (iface : Option (List ℕ)) (mark : ℕ)
      → let (r, t') = hev_sock_client_base host family type saddr sport daddr dport iface mark t in
        Acquires (held t) (socket_of r.0) (held t')
  unfolding hev_sock_client_base
  hev_sock_client_base-Acquires family type saddr sport daddr dport iface mark = ground arith
