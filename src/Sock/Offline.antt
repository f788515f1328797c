-- ===== src/Sock/Offline.antt =====
-- src/hev-sock.c on a host that resolves no name.
use natmap.Prelude.{ℕ, ◌≡◌, List, Option, none, arith}
use natmap.Host.{Host, Trace, failed}
use natmap.Sock.{hev_sock_client_base}

pub hev_sock_client_base-failed :
    (host : Host)
    → ((t : Trace) (family type : ℕ) (node service : List ℕ) (passive : ℕ)
        → host.getaddrinfo t family type node service passive ≡ failed 0)
    → (family type : ℕ) (saddr sport daddr dport : List ℕ) (iface : Option (List ℕ)) (mark : ℕ)
      (t : Trace)
    → (hev_sock_client_base host family type saddr sport daddr dport iface mark t).0.0 ≡ none
unfolding hev_sock_client_base
hev_sock_client_base-failed host offline family type saddr sport daddr dport iface mark t =
    ground (arith, offline t family type saddr sport 0)
