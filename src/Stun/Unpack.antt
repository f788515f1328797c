-- ===== src/Stun/Unpack.antt =====
-- src/hev-stun.c: `stun_unpack`, the search for a mapped address among the attributes.
pub mod Bounds
pub mod Shift
pub mod Decode
pub mod Mapping
pub mod Results
use natmap.Prelude.{
  ℕ, zero, suc, ◌+◌, ◌-◌, ◌%◌, ◌^◌, ◌≤◌, ◌<◌, ◌≡◌, refl, List, Option, none, some, arith, ltb, ◌==◌,
  if◌then◌else◌, bit_xor,
}
use natmap.Stun.Message.{
  ByteOrder, Run, ok, fault, out_of_fuel, ◌>>=◌, load8, load16, load32, htons, StunMessage,
  mapped_addr, xor_mapped_addr,
}

-- Network families that the client speaks.
pub data Family : Type 0 where
  inet inet6 : Family

-- What the loop leaves in `family`, `*port` and `addr[0..3]`.
pub record Mapped : Type 0 where
  pub family : ℕ
  pub port : ℕ
  pub addr0 : ℕ
  pub addr1 : ℕ
  pub addr2 : ℕ
  pub addr3 : ℕ

-- What `stun_unpack` gives to its caller when it succeeds.
pub record Endpoint : Type 0 where
  pub family : Family
  pub port : ℕ
  pub addr0 : ℕ
  pub addr1 : ℕ
  pub addr2 : ℕ
  pub addr3 : ℕ

-- `switch (family)`: an unknown family is an error, like no attribute at all.
abbrev pub family_of : ℕ → Option Family
family_of f = if f == 1 then some inet else if f == 2 then some inet6 else none

abbrev pub to_endpoint : Option Mapped → Option Endpoint
to_endpoint none = none
to_endpoint (some m) = elim (family_of m.family) [
  | none ↦ none
  | some f ↦ some (record {
    family = f;
    port = m.port;
    addr0 = m.addr0;
    addr1 = m.addr1;
    addr2 = m.addr2;
    addr3 = m.addr3;
  })
]

module _ (e : ByteOrder) (msg : StunMessage) (body : List ℕ) where
  -- `*port = m->port`, `addr[k] = m->addr[k]`, `family = m->family`: `m` is 4 bytes behind `a`.
  pub read_mapped : ℕ → Run Mapped
  read_mapped i = do
    port ← load16 e body (i + 6)
    a0 ← load32 e body (i + 8)
    a1 ← load32 e body (i + 12)
    a2 ← load32 e body (i + 16)
    a3 ← load32 e body (i + 20)
    family ← load8 body (i + 5)
    ok (record { family = family; port = port; addr0 = a0; addr1 = a1; addr2 = a2; addr3 = a3 })

  -- The same through the mask; `*port` is an `unsigned short`.
  pub read_xor_mapped : ℕ → Run Mapped
  unfolding read_mapped
  read_xor_mapped i = do
    m ← read_mapped i
    ok (record {
      family = m.family;
      port = bit_xor m.port msg.magic % 2 ^ 16;
      addr0 = bit_xor m.addr0 msg.magic;
      addr1 = bit_xor m.addr1 msg.tid0;
      addr2 = bit_xor m.addr2 msg.tid1;
      addr3 = bit_xor m.addr3 msg.tid2;
    })

  pub scan : ℕ → ℕ → ℕ → Run (Option Mapped)
  scan len zero i = out_of_fuel
  scan len (suc fuel) i =
      if ltb i len
      then (do
        raw ← load16 e body (i + 2)
        let size = htons e raw
        let rest = scan len fuel (i + 4 + size)
        if size == 0 then ok none else (do
          type ← load16 e body i
          if type == htons e mapped_addr
              then (do m ← read_mapped i; ok (some m))
              else if type == htons e xor_mapped_addr
              then (do m ← read_xor_mapped i; ok (some m))
              else rest))
      else ok none

  -- `none` is the returned -1. Each round moves by at least five bytes, so `len` rounds do.
  pub stun_unpack : ℕ → ℕ → Run (Option Endpoint)
  unfolding scan
  stun_unpack len pos = do m ← scan len (suc len) pos; ok (to_endpoint m)
