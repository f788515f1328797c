-- ===== src/Stun/Client.antt =====
-- src/hev-stun.c: `stun_bind`, one query of the public address and what follows from its answer.
pub mod Bind
pub mod Holds
use natmap.Prelude.{ℕ, ◌%◌, ◌^◌, Bool, List, [], ◌∷◌, Option, none, some, ◌==◌, if◌then◌else◌}
use natmap.Prelude.Int.{ℤ, pos, negsuc, minus_one, is_nonpos}
use natmap.Host.{
  Host, Io, Notice, handled, mport_stored, notified, sock_stream, af_inet, af_inet6, return, ◌>>=◌,
  ◌>>◌, emit,
}
use natmap.Stun.Message.{ByteOrder, Run, ok, fault, out_of_fuel, StunMessage, htons, stun_pack}
use natmap.Stun.Unpack.{Family, inet, inet6, Endpoint, stun_unpack}
use natmap.Stun.Compare.{Words, Last, cmp_addr}
use natmap.Stun.Exchange.{Response, Retries, stun_tcp, stun_udp}

-- The static variables of the file that outlive a query.
pub record Statics : Type 0 where
  pub retries : Retries
  pub last : Last

abbrev pub family_number : Family → ℕ
family_number inet = af_inet
family_number inet6 = af_inet6

abbrev pub address : Endpoint → Words
address x = record { w0 = x.addr0; w1 = x.addr1; w2 = x.addr2; w3 = x.addr3 }

abbrev words : Words → List ℕ
words w = w.w0 ∷ w.w1 ∷ w.w2 ∷ w.w3 ∷ []

-- The arguments of `hev_exec_run`.
abbrev pub notice : Endpoint → Words → ℕ → Notice
notice x baddr bport = record {
  family = family_number x.family;
  maddr = words (address x);
  mport = x.port;
  baddr = words baddr;
  bport = bport % 2 ^ 16;
}

-- The length that is given to `stun_unpack`, 0 for a negative one.
abbrev pub length_of : ℤ → ℕ
length_of (pos n) = n
length_of (negsuc n) = 0

module _ (host : Host) (e : ByteOrder) (baddr : Words) (bport : ℕ) where
  -- `handler ()`, the comparison, and the notification of a change.
  pub report : Endpoint → Statics → Io (Run (ℤ × Statics))
  report x v = do
    emit handled
    let (changed, last') = cmp_addr x.family (address x) x.port baddr (bport % 2 ^ 16) v.last
    let v' = record v { last = last' }
    if changed
        then (do
          emit (mport_stored (htons e x.port))
          emit (notified (notice x baddr bport))
          return (ok (pos 0, v')))
        else return (ok (pos 0, v'))

  -- From the response on; -1 where nothing came or nothing was found in it.
  pub conclude : Response → ℕ → Statics → Io (Run (ℤ × Statics))
  unfolding report
  conclude r offset v =
      if is_nonpos r.len
      then return (ok (minus_one, v))
      else (elim (stun_unpack e r.msg r.buf (length_of r.len) offset) [
        | fault ↦ return fault
        | out_of_fuel ↦ return out_of_fuel
        | ok none ↦ return (ok (minus_one, v))
        | ok (some x) ↦ report x v
      ])

  -- `mode` chooses the exchange and the place of the attributes; `buf` is what the stack held, and
  -- `r0`, `r1` and `r2` are values of `rand`.
  pub stun_bind :
      (fd : ℤ) (mode : ℕ) (r0 r1 r2 : ℕ) (buf : List ℕ) → Statics → Io (Run (ℤ × Statics))
  unfolding conclude
  stun_bind fd mode r0 r1 r2 buf v =
      let msg = stun_pack e r0 r1 r2 in
      if mode == sock_stream then (do r ← stun_tcp host e fd msg buf; conclude r 0 v) else (do
        (r, retries') ← stun_udp host e fd msg buf v.retries
        conclude r 20 (record v { retries = retries' }))
