-- ===== src/Sock/Tests.antt =====
-- Runs of src/hev-sock.c on a host where all calls succeed, and on one where the name of the socket
-- cannot be read.
use natmap.Prelude.{ℕ, ◌≡◌, refl, List, [], ◌∷◌, some, none}
use natmap.Prelude.Int.{pos, minus_one, or_ℤ}
use natmap.Host.{Host, SockAddr, answered, recv_failed}
use natmap.Host.Held.{held}
use natmap.Sock.{hev_sock_client_base}
use natmap.Sock.Acquire.{Acquires, socket_of, hev_sock_client_base-Acquires}

abbrev local : SockAddr
local = record { family = 2; port = 0x5000; addr0 = 0x0100007f; addr1 = 0; addr2 = 0; addr3 = 0 }

abbrev up : Host
up = record {
  getaddrinfo = λ t family type node service passive.
      answered 0 (some (record { id = 7; family = 2; socktype = type; addr = local }));
  socket = λ t family type. pos 3;
  set_close_on_exec = λ t fd. pos 0;
  setsockopt = λ t fd opt. pos 0;
  bind = λ t fd addr. pos 0;
  connect = λ t fd addr. pos 0;
  listen = λ t fd backlog. pos 0;
  getsockname = λ t fd. (pos 0, local);
  send = λ t fd bytes. pos 20;
  recv = λ t fd size. recv_failed 1;
}

abbrev nameless : Host
nameless = record up { getsockname = λ t fd. (minus_one, local) }

abbrev text : List ℕ
text = b'8' ∷ []

hev_sock_client_base-Acquires_example :
    let (r, t) = hev_sock_client_base nameless 2 1 text text text text none 5 [] in
    Acquires (held []) (socket_of r.0) (held t)
hev_sock_client_base-Acquires_example =
    hev_sock_client_base-Acquires nameless [] 2 1 text text text text none 5

base_fails : (hev_sock_client_base nameless 2 1 text text text text none 5 []).0.0 ≡ none
unfolding hev_sock_client_base or_ℤ
base_fails = refl

base_succeeds :
    (hev_sock_client_base up 2 1 text text text text none 5 []).0.0 ≡ some (pos 3, local)
unfolding hev_sock_client_base or_ℤ
base_succeeds = refl
