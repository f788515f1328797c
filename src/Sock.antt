-- ===== src/Sock.antt =====
-- src/hev-sock.c: the sockets of the keepers, of the STUN client and of the forwarders, on Linux.
pub mod Acquire
pub mod Offline
pub mod Handing
mod Tests
use natmap.Prelude.{ℕ, ◌∷◌, List, Option, none, some, Bool, true, false, ◌==◌, if◌then◌else◌, take}
use natmap.Prelude.Int.{ℤ, pos, minus_one, is_neg, or_ℤ}
use natmap.Host.{
  Host, Io, SockAddr, AddrInfo, reuse_addr, reuse_port, bind_to_device, fwmark, port_reuse,
  af_unspec, af_inet, af_inet6, sock_stream, return, ◌>>=◌, ◌>>◌, emit, close, add_fd, del_fd,
  freeaddrinfo, resolution_code, resolution_list, getaddrinfo, socket, set_close_on_exec,
  setsockopt, bind, connect, listen, getsockname,
}

module _ (host : Host) where
  -- Null on an error, else what the resolver stored.
  pub get_addr : ℕ → ℕ → List ℕ → List ℕ → ℕ → Io (Option AddrInfo)
  get_addr family type addr port passive = do
    answer ← getaddrinfo host family type addr port passive
    return (if is_neg (resolution_code answer) then none else resolution_list answer)

  -- The results of the three calls behind `socket` are logged or dropped.
  pub get_sock : ℕ → ℕ → Io ℤ
  get_sock family socktype = do
    fd ← socket host family socktype
    if is_neg fd then return minus_one else (do
      res ← set_close_on_exec host fd
      r1 ← setsockopt host fd reuse_addr
      r2 ← setsockopt host fd reuse_port
      return fd)

  -- `strncpy` copies at most 15 bytes of the name.
  pub bind_iface : ℤ → Option (List ℕ) → Io ℤ
  bind_iface fd none = return (pos 0)
  bind_iface fd (some iface) = setsockopt host fd (bind_to_device (take 15 iface))

  pub bind_fwmark : ℤ → ℕ → Io ℤ
  bind_fwmark fd mark = setsockopt host fd (fwmark mark)

  -- `if (mark) res |= bind_fwmark (fd, mark)`
  pub add_fwmark : ℤ → ℕ → ℤ → Io ℤ
  unfolding bind_fwmark
  add_fwmark fd mark res =
      if mark == 0 then return res else (do r ← bind_fwmark fd mark; return (or_ℤ res r))

  -- A first failure of `bind` makes the owner of the port share it, and is tried once more.
  pub bind_or_reuse : ℤ → SockAddr → List ℕ → Io ℤ
  bind_or_reuse fd addr sport = do
    res ← bind host fd addr
    if is_neg res then (do emit (port_reuse sport); bind host fd addr) else return res

  -- `sock_connect` to `dai`, and the name of the socket; null is the returned -1.
  pub connect_named : ℤ → AddrInfo → Io (Option (ℤ × SockAddr))
  connect_named fd dai = do
    add_fd fd
    res ← connect host fd dai.addr
    freeaddrinfo dai
    if is_neg res then (do del_fd fd; close fd; return none) else (do
      (named, name) ← getsockname host fd
      if is_neg named then (do del_fd fd; close fd; return none) else return (some (fd, name)))

  -- Behind the two resolutions: `sai` is ours and `dai` the peer's.
  base_socket : AddrInfo → AddrInfo → List ℕ → Option (List ℕ) → ℕ → Io (Option (ℤ × SockAddr))
  unfolding get_sock bind_iface add_fwmark bind_or_reuse connect_named
  base_socket sai dai sport iface mark = do
    fd ← get_sock sai.family sai.socktype
    if is_neg fd then (do freeaddrinfo sai; freeaddrinfo dai; return none) else (do
      iface_res ← bind_iface fd iface
      res ← add_fwmark fd mark iface_res
      if is_neg res then (do freeaddrinfo sai; freeaddrinfo dai; close fd; return none) else (do
        bind_res ← bind_or_reuse fd sai.addr sport
        if is_neg bind_res
            then (do freeaddrinfo sai; freeaddrinfo dai; close fd; return none)
            else (do freeaddrinfo sai; connect_named fd dai)))

  -- The socket with its own address, and the peer's address where it was stored (`paddr`).
  pub hev_sock_client_base :
      (family type : ℕ) (saddr sport daddr dport : List ℕ) (iface : Option (List ℕ)) (mark : ℕ)
      → Io (Option (ℤ × SockAddr) × Option SockAddr)
  unfolding get_addr base_socket
  hev_sock_client_base family type saddr sport daddr dport iface mark = do
    found ← get_addr family type saddr sport 0
    elim found [
      | none ↦ return (none, none)
      | some sai ↦ do
        peer ← get_addr sai.family type daddr dport 0
        elim peer [
          | none ↦ do freeaddrinfo sai; return (none, none)
          | some dai ↦ do
            result ← base_socket sai dai sport iface mark
            return (result, some dai.addr)
        ]
    ]

  -- What is copied of the socket's name into `baddr` and `*bport`, over what was there.
  pub copy_name : SockAddr → SockAddr → SockAddr
  copy_name old name =
      if name.family == af_inet
      then record old { port = name.port; addr0 = name.addr0 }
      else if name.family == af_inet6
      then record name { family = old.family }
      else old

  pub hev_sock_client_stun :
      (saddr : SockAddr) (type : ℕ) (daddr dport : List ℕ) (iface : Option (List ℕ)) (mark : ℕ)
      (old : SockAddr)
      → Io (Option (ℤ × SockAddr))
  unfolding get_addr get_sock bind_iface add_fwmark connect_named copy_name
  hev_sock_client_stun saddr type daddr dport iface mark old = do
    peer ← get_addr saddr.family type daddr dport 0
    elim peer [
      | none ↦ return none
      | some dai ↦ do
        fd ← get_sock saddr.family type
        if is_neg fd then (do freeaddrinfo dai; return none) else (do
          iface_res ← bind_iface fd iface
          res ← add_fwmark fd mark iface_res
          if is_neg res then (do freeaddrinfo dai; close fd; return none) else (do
            bind_res ← bind host fd saddr
            if is_neg bind_res then (do freeaddrinfo dai; close fd; return none) else (do
              named ← connect_named fd dai
              return (elim named [ none ↦ none | some (s, name) ↦ some (s, copy_name old name) ]))))
    ]

  pub hev_sock_client_pfwd : ℕ → List ℕ → List ℕ → Io ℤ
  unfolding get_addr get_sock
  hev_sock_client_pfwd type addr port = do
    found ← get_addr af_unspec type addr port 0
    elim found [
      | none ↦ return minus_one
      | some ai ↦ do
        fd ← get_sock ai.family ai.socktype
        if is_neg fd then (do freeaddrinfo ai; return minus_one) else (do
          add_fd fd
          res ← connect host fd ai.addr
          freeaddrinfo ai
          if is_neg res then (do del_fd fd; close fd; return minus_one) else return fd)
    ]

  -- `if (type == SOCK_STREAM) res |= listen (fd, 5)`
  pub add_listen : ℤ → ℕ → ℤ → Io ℤ
  add_listen fd type res =
      if type == sock_stream then (do r ← listen host fd 5; return (or_ℤ res r)) else return res

  pub hev_sock_server_pfwd : SockAddr → ℕ → Option (List ℕ) → ℕ → Io ℤ
  unfolding get_sock bind_iface add_fwmark add_listen
  hev_sock_server_pfwd saddr type iface mark = do
    fd ← get_sock saddr.family type
    if is_neg fd then return minus_one else (do
      bind_res ← bind host fd saddr
      iface_res ← bind_iface fd iface
      marked ← add_fwmark fd mark (or_ℤ bind_res iface_res)
      res ← add_listen fd type marked
      if is_neg res then (do close fd; return minus_one) else (do add_fd fd; return fd))
