-- ===== src/Stun/Task/Tests.antt =====
-- A run of `task_entry` of src/hev-stun.c.
use natmap.Prelude.{ℕ, ◌+◌, false, [], ◌∷◌, none, replicate, length-replicate}
use natmap.Host.{sock_dgram}
use natmap.Host.Samples.{local, silent, silent-IsPosix}
use natmap.Host.Held.{held}
use natmap.Sock.{hev_sock_client_stun}
use natmap.Sock.Acquire.{with_socket, socket_of}
use natmap.Stun.Message.{little}
use natmap.Stun.Compare.{initial_last}
use natmap.Stun.Exchange.{bufsize}
use natmap.Stun.Client.{Statics}
use natmap.Stun.Task.{Query, task_entry}
use natmap.Stun.Task.Release.{Releases, task_entry-Releases}

abbrev query : Query
query = record { r0 = 5; r1 = 6; r2 = 7; buf = replicate (bufsize + 32) 0 }

abbrev start : Statics
start = record { retries = record { retry1 = 0; retry2 = 0; second = false }; last = initial_last }

task_entry-Releases_example :
    let sock = (hev_sock_client_stun silent local sock_dgram [] [] none 0 local []).0 in
    let (r, t) =
      task_entry silent little sock_dgram local [] [] none 0 local (query ∷ query ∷ []) start [] in
    Releases (held []) (with_socket (socket_of sock) (held [])) (held t) r
task_entry-Releases_example =
    task_entry-Releases silent silent-IsPosix little sock_dgram local [] [] none 0 local
      (query ∷ query ∷ []) start []
      (length-replicate {A = ℕ} (bufsize + 32) 0, (length-replicate {A = ℕ} (bufsize + 32) 0, tt))
