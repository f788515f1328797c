-- ===== src/Host.antt =====
-- What the program calls and does not implement: libc, the kernel, and the hev-task-system library
-- (a git submodule), seen from one task.
--
-- A host answers each call by any function of the calls that were made before, so a statement for
-- every host holds for every order and kind of answers. A run leaves the trace of its calls.
pub mod Held
pub mod Samples
use natmap.Prelude.{ℕ, ◌≤◌, length, List, [], ◌∷◌, Option, none, some}
use natmap.Prelude.Int.{ℤ, pos, negsuc}

-- Linux's constants.
abbrev pub af_unspec : ℕ
af_unspec = 0

abbrev pub af_inet : ℕ
af_inet = 2

abbrev pub af_inet6 : ℕ
af_inet6 = 10

abbrev pub sock_stream : ℕ
sock_stream = 1

abbrev pub sock_dgram : ℕ
sock_dgram = 2

-- `struct sockaddr_storage`: family, port and address words as they lie in memory.
pub record SockAddr : Type 0 where
  pub family : ℕ
  pub port : ℕ
  pub addr0 : ℕ
  pub addr1 : ℕ
  pub addr2 : ℕ
  pub addr3 : ℕ

-- `struct addrinfo`; `id` is the pointer that `freeaddrinfo` takes.
pub record AddrInfo : Type 0 where
  pub id : ℕ
  pub family : ℕ
  pub socktype : ℕ
  pub addr : SockAddr

-- The socket options that the program sets.
pub data SockOpt : Type 0 where
  reuse_addr reuse_port : SockOpt
  bind_to_device : List ℕ → SockOpt
  fwmark : ℕ → SockOpt
  congestion : List ℕ → SockOpt

-- What the resolver gives: a negative result, or another one with what it stored for the caller,
-- which may be nothing.
pub data Resolution : Type 0 where
  failed : ℕ → Resolution
  answered : ℕ → Option AddrInfo → Resolution

abbrev pub resolution_code : Resolution → ℤ
resolution_code (failed n) = negsuc n
resolution_code (answered n r) = pos n

abbrev pub resolution_list : Resolution → Option AddrInfo
resolution_list (failed n) = none
resolution_list (answered n r) = r

-- What `hev_exec_run` is given: family, public address and port, bound address and port.
pub record Notice : Type 0 where
  pub family : ℕ
  pub maddr : List ℕ
  pub mport : ℕ
  pub baddr : List ℕ
  pub bport : ℕ

-- What `recv` gives: a negative result, or the bytes that it stored, none at the end of a stream.
pub data Received : Type 0 where
  recv_failed : ℕ → Received
  got : List ℕ → Received

abbrev pub recv_length : Received → ℤ
recv_length (recv_failed n) = negsuc n
recv_length (got bytes) = pos (length bytes)

abbrev pub recv_bytes : Received → List ℕ
recv_bytes (recv_failed n) = []
recv_bytes (got bytes) = bytes

-- A call that was made, with what it gave where it gave a resource.
pub data Event : Type 0 where
  resolved : ℕ → Event
  unresolved : Event
  freed : ℕ → Event
  opened : ℤ → Event
  closed : ℤ → Event
  watched : ℤ → Event
  unwatched : ℤ → Event
  close_on_exec : ℤ → Event
  option_set : ℤ → SockOpt → Event
  bound : ℤ → SockAddr → Event
  connected : ℤ → SockAddr → Event
  listening : ℤ → ℕ → Event
  name_read : ℤ → Event
  port_reuse : List ℕ → Event
  sent : ℤ → List ℕ → Event
  received : ℤ → ℕ → Event
  -- the callback of the STUN client, the public port stored, the notification, a kill of the keeper
  handled : Event
  mport_stored : ℕ → Event
  notified : Notice → Event
  killed : Event
  -- `hev_stun_run`, the kill of a forwarder, a sleep of so many milliseconds
  stun_run : SockAddr → Event
  forwarder_killed : Event
  slept : ℕ → Event
  -- a connection accepted, handed to a new task, and spliced with another under a timeout
  accepted : ℤ → Event
  handed : ℤ → Event
  spliced : ℤ → ℤ → ℤ → Event

-- Newest first.
abbrev pub Trace : Type 0
Trace = List Event

pub record Host : Type 0 where
  -- family, type, node, service, passive
  pub getaddrinfo : Trace → ℕ → ℕ → List ℕ → List ℕ → ℕ → Resolution
  pub socket : Trace → ℕ → ℕ → ℤ
  -- F_SETFD of F_GETFD | FD_CLOEXEC
  pub set_close_on_exec : Trace → ℤ → ℤ
  pub setsockopt : Trace → ℤ → SockOpt → ℤ
  pub bind : Trace → ℤ → SockAddr → ℤ
  pub connect : Trace → ℤ → SockAddr → ℤ
  pub listen : Trace → ℤ → ℕ → ℤ
  pub getsockname : Trace → ℤ → ℤ × SockAddr
  pub send : Trace → ℤ → List ℕ → ℤ
  pub recv : Trace → ℤ → ℕ → Received

-- What POSIX says of `recv`: at most as many bytes as were asked for.
pub record IsPosix (host : Host) : Type 0 where
  pub recv_fits : (t : Trace) (fd : ℤ) (size : ℕ) → length (recv_bytes (host.recv t fd size)) ≤ size

abbrev pub Io : Type 0 → Type 0
Io A = Trace → A × Trace

abbrev pub return : {A : Type 0} → A → Io A
return a t = (a, t)

infixl 5 ◌>>=◌ ◌>>◌
abbrev pub ◌>>=◌ : {A B : Type 0} → Io A → (A → Io B) → Io B
◌>>=◌ m f t = let (a, t') = m t in f a t'

abbrev pub ◌>>◌ : {A B : Type 0} → Io A → Io B → Io B
◌>>◌ m k t = let (a, t') = m t in k t'

abbrev pub emit : Event → Io (Unit {0})
emit e t = (tt, e ∷ t)

abbrev pub close : ℤ → Io (Unit {0})
close fd = emit (closed fd)

abbrev pub add_fd : ℤ → Io (Unit {0})
add_fd fd = emit (watched fd)

abbrev pub del_fd : ℤ → Io (Unit {0})
del_fd fd = emit (unwatched fd)

abbrev pub freeaddrinfo : AddrInfo → Io (Unit {0})
freeaddrinfo ai = emit (freed ai.id)

module _ (host : Host) where
  abbrev resolution_event : Option AddrInfo → Event
  resolution_event none = unresolved
  resolution_event (some ai) = resolved ai.id

  abbrev pub getaddrinfo : ℕ → ℕ → List ℕ → List ℕ → ℕ → Io Resolution
  getaddrinfo family type node service passive t =
      let answer = host.getaddrinfo t family type node service passive in
      (answer, resolution_event (resolution_list answer) ∷ t)

  abbrev pub socket : ℕ → ℕ → Io ℤ
  socket family type t = let fd = host.socket t family type in (fd, opened fd ∷ t)

  abbrev pub set_close_on_exec : ℤ → Io ℤ
  set_close_on_exec fd t = (host.set_close_on_exec t fd, close_on_exec fd ∷ t)

  abbrev pub setsockopt : ℤ → SockOpt → Io ℤ
  setsockopt fd opt t = (host.setsockopt t fd opt, option_set fd opt ∷ t)

  abbrev pub bind : ℤ → SockAddr → Io ℤ
  bind fd addr t = (host.bind t fd addr, bound fd addr ∷ t)

  abbrev pub connect : ℤ → SockAddr → Io ℤ
  connect fd addr t = (host.connect t fd addr, connected fd addr ∷ t)

  abbrev pub listen : ℤ → ℕ → Io ℤ
  listen fd backlog t = (host.listen t fd backlog, listening fd backlog ∷ t)

  abbrev pub getsockname : ℤ → Io (ℤ × SockAddr)
  getsockname fd t = (host.getsockname t fd, name_read fd ∷ t)

  abbrev pub send : ℤ → List ℕ → Io ℤ
  send fd bytes t = (host.send t fd bytes, sent fd bytes ∷ t)

  abbrev pub recv : ℤ → ℕ → Io Received
  recv fd size t = (host.recv t fd size, received fd size ∷ t)
