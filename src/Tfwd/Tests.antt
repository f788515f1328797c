-- ===== src/Tfwd/Tests.antt =====
-- Runs of src/hev-tfwd.c.
use natmap.Prelude.{List, [], ◌∷◌, some}
use natmap.Prelude.Int.{ℤ, pos, negsuc}
use natmap.Host.Samples.{local, silent}
use natmap.Conf.{Conf}
use natmap.Conf.Tests.{ranged_conf}
use natmap.Sock.{hev_sock_server_pfwd}
use natmap.Tfwd.{server_task_entry}
use natmap.Tfwd.Release.{Serves, server_task_entry-Serves}

-- In forward mode, to port 0, which stands for the public one.
abbrev forwarding : Conf
forwarding = record ranged_conf {
  taddr = some (b'c' ∷ []);
  tport = some (b'0' ∷ []);
  ttcca = some (b'b' ∷ []);
}

-- Two connections, then a kill.
abbrev answers : List ℤ
answers = pos 7 ∷ pos 8 ∷ negsuc 1 ∷ []

server_task_entry-Serves_example :
    let fd =
      (hev_sock_server_pfwd silent local forwarding.mode forwarding.iface forwarding.mark []).0 in
    let (r, t) = server_task_entry silent local forwarding answers [] in
    Serves silent local forwarding answers [] fd r t
server_task_entry-Serves_example = server_task_entry-Serves silent local forwarding answers []
