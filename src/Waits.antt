-- ===== src/Waits.antt =====
-- How a call of the task system waits: the functions that it calls to give way, `hev_io_yielder` of
-- src/hev-misc.c, and `connect_io_yielder` and `sock_connect` of src/hev-sock.c.
pub mod Connect
mod Tests
use natmap.Prelude.{ℕ, ◌+◌, List, [], ◌∷◌, Bool, true, false, leb, if◌then◌else◌}
use natmap.Prelude.Int.{ℤ, pos, minus_one, is_neg, is_nonpos, eq_ℤ}

-- What a task is suspended by: `hev_task_yield`, or `hev_task_sleep` for some time.
pub data Wait : Type 0 where
  yielded waits_io : Wait
  sleeps : ℤ → Wait

-- A call of the function: whether its type is `HEV_TASK_YIELD`, and what `hev_task_sleep` returns.
pub record Call : Type 0 where
  pub yields : Bool
  pub slept : ℤ

-- How it waits, and what it returns; another result than zero ends the caller's waiting.
pub hev_io_yielder : (timeout : ℤ) → Call → Wait × ℤ
hev_io_yielder timeout c =
    if c.yields
    then (yielded, pos 0)
    else if is_neg timeout
    then (waits_io, pos 0)
    else (sleeps timeout, if is_nonpos c.slept then minus_one else pos 0)

pub record SockConnectCtx : Type 0 where
  pub retries : ℕ
  pub timeout : ℤ

-- The waits of a call of connect, and how its waiting stands: it goes on, or the function has ended
-- it, with `EADDRNOTAVAIL` or without.
pub data Status : Type 0 where
  going timed_out not_available : Status

pub record Waiting : Type 0 where
  pub waits : List Wait
  pub status : Status

abbrev pub behind_wait : Wait × ℤ → Waiting → Waiting
behind_wait (w, res) rest =
    if eq_ℤ res (pos 0)
    then record rest { waits = w ∷ rest.waits }
    else record { waits = w ∷ []; status = timed_out }

-- `connect_io_yielder`, for each call that the task system makes of it.
pub connect_io_yielder : SockConnectCtx → List Call → Waiting
unfolding hev_io_yielder
connect_io_yielder ctx [] = record { waits = []; status = going }
connect_io_yielder ctx (c ∷ calls) =
    let rest = connect_io_yielder (record ctx { retries = ctx.retries + 1 }) calls in
    if leb 100 (ctx.retries + 1)
    then record { waits = []; status = not_available }
    else behind_wait (hev_io_yielder ctx.timeout c) rest

pub sock_connect : SockConnectCtx → List Call → Waiting
unfolding connect_io_yielder
sock_connect ctx calls = connect_io_yielder (record ctx { retries = 0 }) calls
