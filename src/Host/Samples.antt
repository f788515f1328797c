-- ===== src/Host/Samples.antt =====
-- Hosts for tests.
use natmap.Prelude.{some, arith}
use natmap.Prelude.Int.{pos}
use natmap.Host.{Host, SockAddr, IsPosix, answered, failed, recv_failed}

abbrev pub local : SockAddr
local = record { family = 2; port = 0; addr0 = 0; addr1 = 0; addr2 = 0; addr3 = 0 }

-- A host that opens sockets and never answers.
abbrev pub silent : Host
silent = record {
  getaddrinfo = λ t family type node service passive.
      answered 0 (some (record { id = 1; family = 2; socktype = 2; addr = local }));
  socket = λ t family type. pos 4;
  set_close_on_exec = λ t fd. pos 0;
  setsockopt = λ t fd opt. pos 0;
  bind = λ t fd addr. pos 0;
  connect = λ t fd addr. pos 0;
  listen = λ t fd backlog. pos 0;
  getsockname = λ t fd. (pos 0, local);
  send = λ t fd bytes. pos 20;
  recv = λ t fd size. recv_failed 1;
}

pub silent-IsPosix : IsPosix silent
silent-IsPosix = record { recv_fits = λ t fd size. omega arith }

-- A host that resolves no name.
abbrev pub offline : Host
offline = record silent { getaddrinfo = λ t family type node service passive. failed 0 }
