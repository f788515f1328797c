-- ===== src/Keeper/Tests.antt =====
-- Runs of the tasks of src/hev-tnsk.c and src/hev-unsk.c with the ports 80 to 82.
use natmap.Prelude.{◌≡◌, refl, List, [], ◌∷◌, false, none, some, arith, get_elem?}
use natmap.Prelude.Int.{pos}
use natmap.Text.{print_unsigned}
use natmap.Conf.{Conf}
use natmap.Conf.Bport.{hev_conf_bport}
use natmap.Conf.Tests.{no_address, ranged, ranged_conf, init_ranged}
use natmap.Host.{sock_stream}
use natmap.Host.Held.{held}
use natmap.Host.Samples.{silent, offline}
use natmap.Sock.{hev_sock_client_base}
use natmap.Sock.Acquire.{socket_of, with_socket}
use natmap.Sock.Offline.{hev_sock_client_base-failed}
use natmap.Keeper.{Keeper, text}
use natmap.Keeper.Walk.{WalksPorts}
use natmap.Tnsk.Task as Tcp
use natmap.Tnsk.Task.Release.{Releases, tnsk_run-Releases}
use natmap.Tnsk.Task.Ports.{attempt, task_entry-WalksPorts, task_entry-get_elem?}

abbrev start : Keeper
start = record { conf = ranged_conf; port_next = false }

-- The request is sent, and the server closes the connection.
abbrev closed : Tcp.Round
closed = record {
  rand = 7;
  answers = record { res = pos 60; killed = false } ∷ record { res = pos 0; killed = false } ∷ [];
}

abbrev first : Conf
first = record ranged_conf { port = b'8' ∷ b'0' ∷ []; bport2 = pos 81 }

first_port : hev_conf_bport 7 false ranged_conf ≡ some first
unfolding hev_conf_bport print_unsigned
first_port = refl

tnsk_run-Releases_example :
    let sock =
      (hev_sock_client_base silent first.type sock_stream
        (text first.baddr)
        first.port
        first.http
        first.hport
        first.iface
        first.mark
        []).0.0 in
    let (r, t) = Tcp.tnsk_run silent closed start [] in
    Releases (held []) (with_socket (socket_of sock) (held [])) (held t) r
tnsk_run-Releases_example = tnsk_run-Releases silent closed start first [] first_port

task_entry-WalksPorts_example :
    (states : List Keeper) × ((Tcp.task_entry silent (closed ∷ closed ∷ []) start []).0
      ≡ some states)
    × WalksPorts 80 82
        (omega arith)
        (omega arith)
        (attempt silent)
        (Tcp.tnsk_run silent)
        0
        (closed ∷ closed ∷ [])
        start
        []
        states
task_entry-WalksPorts_example =
    task_entry-WalksPorts silent no_address 0 ranged ranged_conf init_ranged 80 82 refl refl
      (omega arith) refl (closed ∷ closed ∷ []) []

no_socket :
    (k : Conf) (t : natmap.Host.Trace)
    → (hev_sock_client_base offline k.type sock_stream
        (text k.baddr)
        k.port
        k.http
        k.hport
        k.iface
        k.mark
        t).0.0
      ≡ none
no_socket k t =
    hev_sock_client_base-failed offline (λ t f ty n s p. refl) k.type sock_stream (text k.baddr)
      k.port k.http k.hport k.iface k.mark t

task_entry-get_elem?_example :
    (states : List Keeper) × ((Tcp.task_entry offline (closed ∷ closed ∷ closed ∷ []) start []).0
      ≡ some states)
    × (s : Keeper) × (get_elem? states 2 ≡ some s)
    × (s.conf.port ≡ print_unsigned 82)
task_entry-get_elem?_example =
    task_entry-get_elem? offline no_address 0 ranged ranged_conf init_ranged 80 82 refl refl
      (omega arith) refl no_socket (closed ∷ closed ∷ closed ∷ []) [] 82 (omega arith) (omega arith)
      (omega arith)
