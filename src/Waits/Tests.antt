-- ===== src/Waits/Tests.antt =====
-- src/hev-sock.c: a connect with a timeout of three seconds.
use natmap.Prelude.{◌≡◌, refl, List, [], ◌∷◌, true, false}
use natmap.Prelude.Int.{pos}
use natmap.Waits.{
  Call, yielded, sleeps, hev_io_yielder, SockConnectCtx, timed_out, connect_io_yielder,
  sock_connect,
}

abbrev ctx : SockConnectCtx
ctx = record { retries = 7; timeout = pos 3000 }

-- It is tried again at once, is woken, and waits in vain.
abbrev calls : List Call
calls =
    record { yields = true; slept = pos 0 }
    ∷ record { yields = false; slept = pos 20 }
    ∷ record { yields = false; slept = pos 0 }
    ∷ []

ends :
    sock_connect ctx calls
    ≡ record { waits = yielded ∷ sleeps (pos 3000) ∷ sleeps (pos 3000) ∷ []; status = timed_out }
unfolding sock_connect connect_io_yielder hev_io_yielder
ends = refl
