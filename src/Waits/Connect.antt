-- ===== src/Waits/Connect.antt =====
-- src/hev-sock.c: how long `sock_connect` waits.
use natmap.Prelude.{
  ℕ, zero, suc, ◌+◌, ◌<◌, ◌≤◌, ◌≡◌, ◌⊎◌, inl, inr, refl, List, [], ◌∷◌, true, false, Bool-cases,
  leb, arith, length,
}
use natmap.Prelude.Int.{ℤ, pos, is_neg, is_nonpos, eq_ℤ}
use natmap.Waits.{
  Wait, Call, hev_io_yielder, SockConnectCtx, going, timed_out, not_available, Waiting, behind_wait,
  connect_io_yielder, sock_connect,
}

-- A wait for a time that may run out, or a number of waits that none ended.
abbrev pub AreWaits : (timeout : ℤ) (n : ℕ) → ℕ → Waiting → Type 0
AreWaits timeout n most w =
    ((w.status ≡ going) × (length w.waits ≡ n) × (n ≤ most))
    ⊎ ((w.status ≡ not_available) × (length w.waits ≡ most) × (most < n))
    ⊎ ((w.status ≡ timed_out)
        × (is_neg timeout ≡ false)
        × (length w.waits ≤ n)
        × (length w.waits ≤ most))

-- A wait is ended by its time alone.
one_wait :
    (timeout : ℤ) (c : Call)
    → let res = (hev_io_yielder timeout c).1 in
      (eq_ℤ res (pos 0) ≡ true) ⊎ ((eq_ℤ res (pos 0) ≡ false) × (is_neg timeout ≡ false))
unfolding hev_io_yielder
one_wait timeout c = elim (Bool-cases c.yields) [
  | inl yields ↦ rw (yields, hev_io_yielder) (inl refl)
  | inr waits ↦ elim (Bool-cases (is_neg timeout)) [
    | inl endless ↦ rw (waits, endless, hev_io_yielder) (inl refl)
    | inr timed ↦ elim (Bool-cases (is_nonpos c.slept)) [
      | inl over ↦ rw (waits, timed, over, hev_io_yielder) (inr (refl, refl))
      | inr woken ↦ rw (waits, timed, woken, hev_io_yielder) (inl refl)
    ]
  ]
]

one_more :
    (timeout : ℤ) (x : Wait) (n most : ℕ) (rest : Waiting)
    → AreWaits timeout n most rest
    → AreWaits timeout (suc n) (suc most) (record rest { waits = x ∷ rest.waits })
one_more timeout x n most rest (inl (on, all, few)) = inl (on, omega arith, omega arith)
one_more timeout x n most rest (inr (inl (over, all, many))) =
    inr (inl (over, omega arith, omega arith))
one_more timeout x n most rest (inr (inr (late, timed, fewer, few))) =
    inr (inr (late, timed, omega arith, omega arith))

behind_wait-AreWaits :
    (timeout : ℤ) (c : Call) (n most : ℕ) (rest : Waiting)
    → AreWaits timeout n most rest
    → AreWaits timeout (suc n) (suc most) (behind_wait (hev_io_yielder timeout c) rest)
behind_wait-AreWaits timeout c n most rest h = elim (one_wait timeout c) [
  | inl lasts ↦ rw lasts (one_more timeout (hev_io_yielder timeout c).0 n most rest h)
  | inr (ended, timed) ↦ rw ended (inr (inr (refl, timed, omega arith, omega arith)))
]

yielder-AreWaits :
    (calls : List Call) (most : ℕ) (ctx : SockConnectCtx)
    → ctx.retries + most ≡ 99
    → AreWaits ctx.timeout (length calls) most (connect_io_yielder ctx calls)
unfolding connect_io_yielder
yielder-AreWaits [] most ctx h = inl (refl, refl, omega arith)
yielder-AreWaits (c ∷ calls) zero ctx h =
    let over : leb 100 (ctx.retries + 1) ≡ true = ground arith in
    rw (over, connect_io_yielder) (inr (inl (refl, refl, omega arith)))
yielder-AreWaits (c ∷ calls) (suc most) ctx h =
    let ctx' : SockConnectCtx = record ctx { retries = ctx.retries + 1 } in
    let on : leb 100 (ctx.retries + 1) ≡ false = ground arith in
    let ih = yielder-AreWaits calls most ctx' (omega arith) in
    rw (on, connect_io_yielder)
      (behind_wait-AreWaits ctx.timeout c (length calls) most (connect_io_yielder ctx' calls) ih)

-- Whatever calls of its yielder a connect makes, and whatever the tries before it were, one of three
-- holds: it still goes on, behind as many waits as calls and 99 at most; it has been given up as not
-- available behind 99 waits, with a further call; or, only under a timeout that is not negative, a
-- wait has run out, behind 99 waits at most.
pub sock_connect-AreWaits :
    (ctx : SockConnectCtx) (calls : List Call)
    → AreWaits ctx.timeout (length calls) 99 (sock_connect ctx calls)
unfolding sock_connect
sock_connect-AreWaits ctx calls = yielder-AreWaits calls 99 (record ctx { retries = 0 }) refl
