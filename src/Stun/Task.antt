-- ===== src/Stun/Task.antt =====
-- src/hev-stun.c: `task_entry`, the task that asks once for TCP, and whenever it is woken for UDP.
pub mod Release
mod Tests
use natmap.Prelude.{ℕ, List, [], ◌∷◌, Bool, true, false, Option, none, some, ◌==◌, if◌then◌else◌}
use natmap.Prelude.Int.{ℤ, is_neg}
use natmap.Host.{Host, Io, SockAddr, killed, sock_dgram, return, ◌>>=◌, ◌>>◌, emit, close, del_fd}
use natmap.Sock.{hev_sock_client_stun}
use natmap.Stun.Message.{ByteOrder, Run, ok, fault, out_of_fuel}
use natmap.Stun.Compare.{Words}
use natmap.Stun.Client.{Statics, stun_bind}

-- What one call of `stun_bind` meets: the values of `rand` and what the stack held.
pub record Query : Type 0 where
  pub r0 : ℕ
  pub r1 : ℕ
  pub r2 : ℕ
  pub buf : List ℕ

abbrev pub base_words : SockAddr → Words
base_words a = record { w0 = a.addr0; w1 = a.addr1; w2 = a.addr2; w3 = a.addr3 }

module _ (host : Host) (e : ByteOrder) (mode : ℕ) where
  -- Behind a call of `stun_bind`, with what the loop goes on with.
  pub next : Run (ℤ × Statics) → (Statics → Io (Run (Bool × Statics))) → Io (Run (Bool × Statics))
  next fault again = return fault
  next out_of_fuel again = return out_of_fuel
  next (ok (res, v)) again =
      if is_neg res
      then (do emit killed; return (ok (true, v)))
      else if mode == sock_dgram
      then again v
      else return (ok (true, v))

  -- The loop, over the calls that it gets to make: true where it ends, false where the task waits to
  -- be woken for a call behind the last of the list.
  pub stun_loop :
      (fd : ℤ) (baddr : Words) (bport : ℕ) → List Query → Statics → Io (Run (Bool × Statics))
  unfolding next
  stun_loop fd baddr bport [] v = return (ok (false, v))
  stun_loop fd baddr bport (q ∷ queries) v = do
    answer ← stun_bind host e baddr bport fd mode q.r0 q.r1 q.r2 q.buf v
    next answer (stun_loop fd baddr bport queries)

  -- `hev_task_del_fd` and `hev_task_io_close` behind the loop.
  pub leave : ℤ → Run (Bool × Statics) → Io (Run (Bool × Statics))
  leave fd fault = return fault
  leave fd out_of_fuel = return out_of_fuel
  leave fd (ok (false, v)) = return (ok (false, v))
  leave fd (ok (true, v)) = do del_fd fd; close fd; return (ok (true, v))

  -- With the socket and its name, if there is one.
  pub run_task : Option (ℤ × SockAddr) → List Query → Statics → Io (Run (Bool × Statics))
  unfolding stun_loop leave
  run_task none queries v = do emit killed; return (ok (true, v))
  run_task (some (fd, base)) queries v = do
    r ← stun_loop fd (base_words base) base.port queries v
    leave fd r

  -- The counts of the retries are set, the one in force stays.
  abbrev pub set_retries : Statics → Statics
  set_retries v = record v { retries = record (v.retries) { retry1 = 10; retry2 = 10 } }

  -- `stun`, `sport`, `iface` and `mark` are the configuration's; `old` is what `baddr` and `bport`
  -- held.
  pub task_entry :
      (saddr : SockAddr) (stun sport : List ℕ) (iface : Option (List ℕ)) (mark : ℕ) (old : SockAddr)
      → List Query
      → Statics
      → Io (Run (Bool × Statics))
  unfolding run_task
  task_entry saddr stun sport iface mark old queries v = do
    sock ← hev_sock_client_stun host saddr mode stun sport iface mark old
    run_task sock queries (set_retries v)
