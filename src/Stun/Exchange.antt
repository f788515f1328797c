-- ===== src/Stun/Exchange.antt =====
-- src/hev-stun.c: `stun_tcp` and `stun_udp`, one request and its response. The buffers are the
-- lists of their bytes, what is in them before the first store included.
pub mod Bounded
pub mod Requests
pub mod Holds
use natmap.Prelude.{
  ℕ, zero, suc, Bool, true, false, List, if◌then◌else◌, ltb, overwrite, ◌||◌, length,
}
use natmap.Prelude.Int.{ℤ, pos, minus_one, is_neg, is_nonpos}
use natmap.Host.{Host, Io, Received, recv_length, recv_bytes, return, ◌>>=◌, ◌>>◌, send, recv}
use natmap.Stun.Message.{ByteOrder, StunMessage, in_memory, of_memory, htons}

abbrev pub bufsize : ℕ
bufsize = 2048

-- The length or -1, the header as it was left, and the buffer.
pub record Response : Type 0 where
  pub len : ℤ
  pub msg : StunMessage
  pub buf : List ℕ

-- `udp_retry1`, `udp_retry2`, and whether `udp_retry` points to the second.
pub record Retries : Type 0 where
  pub retry1 : ℕ
  pub retry2 : ℕ
  pub second : Bool

abbrev pub retries : Retries → ℕ
retries v = if v.second then v.retry2 else v.retry1

module _ (host : Host) (e : ByteOrder) (fd : ℤ) where
  -- The header of the response is received over the request's, then the body.
  pub stun_tcp : StunMessage → List ℕ → Io Response
  stun_tcp msg buf = do
    sent_len ← send host fd (in_memory e msg)
    if is_nonpos sent_len then return (record { len = minus_one; msg = msg; buf = buf }) else (do
      head ← recv host fd 20
      let msg' = of_memory e (overwrite (recv_bytes head) (in_memory e msg))
      if is_nonpos (recv_length head)
          then return (record { len = minus_one; msg = msg; buf = buf })
          else (let size = htons e msg'.size in
              if is_nonpos (pos size) || ltb bufsize size
              then return (record { len = minus_one; msg = msg'; buf = buf })
              else (do
                body ← recv host fd size
                return (record {
                  len = recv_length body;
                  msg = msg';
                  buf = overwrite (recv_bytes body) buf;
                }))))

  -- The loop with the rounds left: null where a `send` failed, else the last length.
  pub stun_udp_loop : ℕ → ℤ → StunMessage → List ℕ → Io (Bool × Response)
  stun_udp_loop zero len msg buf = return (true, record { len = len; msg = msg; buf = buf })
  stun_udp_loop (suc left) len msg buf = do
    sent_len ← send host fd (in_memory e msg)
    if is_nonpos sent_len
        then return (false, record { len = minus_one; msg = msg; buf = buf })
        else (do
          answer ← recv host fd bufsize
          let buf' = overwrite (recv_bytes answer) buf
          let again = stun_udp_loop left (recv_length answer) msg buf'
          if is_nonpos (recv_length answer)
              then again
              else return (true, record { len = recv_length answer; msg = msg; buf = buf' }))

  -- A failed `send` returns before `udp_retry` is set to the second count.
  pub stun_udp : StunMessage → List ℕ → Retries → Io (Response × Retries)
  unfolding stun_udp_loop
  stun_udp msg buf v = do
    (ended, r) ← stun_udp_loop (retries v) minus_one msg buf
    return (r, if ended then record v { second = true } else v)
