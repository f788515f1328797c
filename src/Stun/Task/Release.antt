-- ===== src/Stun/Task/Release.antt =====
-- src/hev-stun.c: what a task of the STUN client holds.
use natmap.Prelude.{
  ℕ, ◌+◌, ◌≡◌, refl, Bool, true, false, List, [], ◌∷◌, Option, none, some, arith, length, All, ◌==◌,
  inl, inr, Bool-cases,
}
use natmap.Prelude.Int.{ℤ, pos, minus_one, is_neg}
use natmap.Host.{Host, Trace, IsPosix, SockAddr, sock_dgram}
use natmap.Host.Held.{Held, held}
use natmap.Sock.{hev_sock_client_stun}
use natmap.Sock.Acquire.{with_socket, Acquires, socket_of, hev_sock_client_stun-Acquires}
use natmap.Stun.Message.{ByteOrder, Run, ok}
use natmap.Stun.Compare.{Words}
use natmap.Stun.Exchange.{bufsize}
use natmap.Stun.Client.{Statics, stun_bind}
use natmap.Stun.Client.Bind.{nothing, unchanged, changed, stun_bind-Concludes}
use natmap.Stun.Client.Holds.{held-stun_bind}
use natmap.Stun.Task.{Query, base_words, next, stun_loop, leave, run_task, set_retries, task_entry}

-- A run ends holding what was held at first, or waits holding what it holds while it runs.
pub data Releases (before running now : Held) : Run (Bool × Statics) → Type 0 where
  ended : (v : Statics) → now ≡ before → Releases before running now (ok (true, v))
  waiting : (v : Statics) → now ≡ running → Releases before running now (ok (false, v))

-- A loop that ends or waits, and holds what it held.
data Loops (before now : Held) : Run (Bool × Statics) → Type 0 where
  loops : (end : Bool) (v : Statics) → now ≡ before → Loops before now (ok (end, v))

-- The stack that a call of `stun_bind` meets has the size of its buffer.
abbrev pub IsStack : Query → Type 0
IsStack q = length q.buf ≡ bufsize + 32

module _ (host : Host) (posix : IsPosix host) (e : ByteOrder) (mode : ℕ) where
  bind-ok :
      (fd : ℤ) (baddr : Words) (bport : ℕ) (q : Query) (v : Statics) (t : Trace)
      → IsStack q
      → (res : ℤ) × (v' : Statics) × ((stun_bind host e baddr bport fd mode q.r0 q.r1 q.r2 q.buf v
            t).0
          ≡ ok (res, v'))
  bind-ok fd baddr bport q v t h =
      elim (stun_bind-Concludes host e baddr bport posix fd mode q.r0 q.r1 q.r2 q.buf v t h) [
        | nothing v' why r l n ↦ (minus_one, v', r)
        | unchanged x v' some_length found same r l n ↦ (pos 0, v', r)
        | changed x c v' some_length found other r l names n ↦ (pos 0, v', r)
      ]

  next-Loops :
      (before : Held) (answer : Run (ℤ × Statics))
      (again : Statics → Trace → Run (Bool × Statics) × Trace) (res : ℤ) (v : Statics) (t : Trace)
      → answer ≡ ok (res, v)
      → held t ≡ before
      → Loops before (held (again v t).1) (again v t).0
      → let (r, t') = next host e mode answer again t in Loops before (held t') r
  unfolding next
  next-Loops before answer again res v t bound same later = elim (Bool-cases (is_neg res)) [
    | inl failed ↦ rw (bound, failed, next) (loops true v same)
    | inr went ↦ elim (Bool-cases (mode == sock_dgram)) [
      | inl udp ↦ rw (bound, went, udp, next) later
      | inr tcp ↦ rw (bound, went, tcp, next) (loops true v same)
    ]
  ]

  stun_loop-Loops :
      (fd : ℤ) (baddr : Words) (bport : ℕ) (queries : List Query) (v : Statics) (t : Trace)
      → All IsStack queries
      → let (r, t') = stun_loop host e mode fd baddr bport queries v t in Loops (held t) (held t') r
  unfolding stun_loop
  stun_loop-Loops fd baddr bport [] v t h = loops false v refl
  stun_loop-Loops fd baddr bport (q ∷ queries) v t h =
      let (res, v', bound) = bind-ok fd baddr bport q v t h.0 in
      let same = held-stun_bind host e baddr bport fd mode q.r0 q.r1 q.r2 q.buf v t in
      let run = stun_bind host e baddr bport fd mode q.r0 q.r1 q.r2 q.buf v t in
      next-Loops (held t) run.0 (stun_loop host e mode fd baddr bport queries) res v' run.1 bound
        same (rw same at (stun_loop-Loops fd baddr bport queries v' run.1 h.1))

  leave-Releases :
      (fd : ℤ) (before : Held) (r : Run (Bool × Statics)) (t : Trace)
      → Loops (with_socket (some fd) before) (held t) r
      → let (r', t') = leave host e mode fd r t in
        Releases before (with_socket (some fd) before) (held t') r'
  unfolding leave
  leave-Releases fd before _ t (loops true v same) = ended v (rw same (ground arith))
  leave-Releases fd before _ t (loops false v same) = waiting v same

  run_task-Releases :
      (sock : Option (ℤ × SockAddr)) (queries : List Query) (v : Statics) (before : Held)
      (t : Trace)
      → All IsStack queries
      → Acquires before (socket_of sock) (held t)
      → let (r, t') = run_task host e mode sock queries v t in
        Releases before (with_socket (socket_of sock) before) (held t') r
  unfolding run_task
  run_task-Releases none queries v before t h same = ended v same
  run_task-Releases (some (fd, base)) queries v before t h (open_fd, now) =
      let looped = stun_loop-Loops fd (base_words base) base.port queries v t h in
      let run = stun_loop host e mode fd (base_words base) base.port queries v t in
      leave-Releases fd before run.0 run.1 (rw now at looped)

  -- For every host that keeps POSIX's word on `recv`, with buffers of BUFSIZE + 32 bytes holding
  -- anything, and for any number of calls: a run of the client's task stays inside its buffers, and
  -- it ends holding exactly what was held before it, whether its socket failed, a call failed or
  -- the one call over TCP is done; or it waits for the next call, holding its socket besides, open
  -- and registered.
  pub task_entry-Releases :
      (saddr : SockAddr) (stun sport : List ℕ) (iface : Option (List ℕ)) (mark : ℕ) (old : SockAddr)
      (queries : List Query) (v : Statics) (t : Trace)
      → All IsStack queries
      → let sock = (hev_sock_client_stun host saddr mode stun sport iface mark old t).0 in
        let (r, t') = task_entry host e mode saddr stun sport iface mark old queries v t in
        Releases (held t) (with_socket (socket_of sock) (held t)) (held t') r
  unfolding task_entry
  task_entry-Releases saddr stun sport iface mark old queries v t h =
      let sock = hev_sock_client_stun host saddr mode stun sport iface mark old t in
      run_task-Releases sock.0 queries (set_retries host e mode v) (held t) sock.1 h
        (hev_sock_client_stun-Acquires host t saddr mode stun sport iface mark old)
