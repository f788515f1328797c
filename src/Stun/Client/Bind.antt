-- ===== src/Stun/Client/Bind.antt =====
-- src/hev-stun.c: what a call of `stun_bind` does, for every host.
use natmap.Prelude.{
  ℕ, ◌+◌, ◌%◌, ◌^◌, ◌≤◌, ◌≡◌, ◌⊎◌, ◌∙◌, refl, ap, true, false, List, [], ◌∷◌, Option, none, some,
  arith, length, ◌==◌, if◌then◌else◌, inl, inr, Bool-cases, Option-cases,
}
use mathlib.Core.Path.{subst}
use natmap.Prelude.Int.{ℤ, pos, negsuc, minus_one, is_nonpos}
use natmap.Host.{Host, Trace, IsPosix, Notice, sock_stream, af_inet, af_inet6}
use natmap.Stun.Message.{ByteOrder, Run, ok, StunMessage, stun_pack}
use natmap.Stun.Unpack.{Family, inet, inet6, Endpoint, stun_unpack}
use natmap.Stun.Unpack.Bounds.{stun_unpack-Returns}
use natmap.Stun.Compare.{
  Words, Last, cmp_addr, IsLast, IsRemembered, cmp_addr-IsRemembered, cmp_addr_unchanged,
  cmp_addr_changed,
}
use natmap.Stun.Exchange.{bufsize, Response, stun_tcp, stun_udp}
use natmap.Stun.Exchange.Bounded.{IsBounded, stun_tcp-IsBounded, stun_udp-IsBounded}
use natmap.Stun.Exchange.Requests.{notices, notices-stun_tcp, notices-stun_udp}
use natmap.Stun.Client.{
  Statics, address, family_number, notice, length_of, report, conclude, stun_bind,
}

length_of-fits : (z : ℤ) → ((n : ℕ) → z ≡ pos n → n ≤ bufsize) → length_of z ≤ bufsize
length_of-fits (pos n) h = h n refl
length_of-fits (negsuc n) h = omega arith

abbrev IsFamily : Family → ℕ → Type 0
IsFamily inet n = n ≡ af_inet
IsFamily inet6 n = n ≡ af_inet6

module _ (host : Host) (e : ByteOrder) (baddr : Words) (bport : ℕ) where
  -- The mapping that was found is the one of these variables, or is what they are set to.
  abbrev pub Repeats : Endpoint → Last → Type 0
  Repeats x l = IsLast x.family (address x) x.port baddr (bport % 2 ^ 16) l

  abbrev pub Remembers : Endpoint → Last → Type 0
  Remembers x l = IsRemembered x.family (address x) x.port baddr (bport % 2 ^ 16) l

  -- What the script is told of it.
  abbrev pub Names : Endpoint → Notice → Type 0
  Names x n =
      IsFamily x.family n.family
      × (n.maddr ≡ x.addr0 ∷ x.addr1 ∷ x.addr2 ∷ x.addr3 ∷ [])
      × (n.mport ≡ x.port)
      × (n.baddr ≡ baddr.w0 ∷ baddr.w1 ∷ baddr.w2 ∷ baddr.w3 ∷ [])
      × (n.bport ≡ bport % 2 ^ 16)

  -- What `stun_unpack` finds in a response.
  abbrev pub found_in : Response → ℕ → Run (Option Endpoint)
  found_in r offset = stun_unpack e r.msg r.buf (length_of r.len) offset

  -- A run that finds no mapping in the response `a`, or the mapping of before, or another one.
  pub data Concludes (a : Response) (offset : ℕ) (ns : List Notice) (v : Statics)
      (r : Run (ℤ × Statics) × Trace) : Type 0 where
    nothing :
        (v' : Statics)
        → (is_nonpos a.len ≡ true) ⊎ (found_in a offset ≡ ok none)
        → r.0 ≡ ok (minus_one, v')
        → v'.last ≡ v.last
        → notices r.1 ≡ ns
        → Concludes a offset ns v r
    unchanged :
        (x : Endpoint) (v' : Statics)
        → is_nonpos a.len ≡ false
        → found_in a offset ≡ ok (some x)
        → Repeats x v.last
        → r.0 ≡ ok (pos 0, v')
        → Remembers x v'.last
        → notices r.1 ≡ ns
        → Concludes a offset ns v r
    changed :
        (x : Endpoint) (n : Notice) (v' : Statics)
        → is_nonpos a.len ≡ false
        → found_in a offset ≡ ok (some x)
        → (Repeats x v.last → ⊥)
        → r.0 ≡ ok (pos 0, v')
        → Remembers x v'.last
        → Names x n
        → notices r.1 ≡ n ∷ ns
        → Concludes a offset ns v r

  notice-Names : (x : Endpoint) → Names x (notice x baddr bport)
  notice-Names x = (of_family x.family, refl, refl, refl, refl)
    where
      of_family : (f : Family) → IsFamily f (family_number f)
      of_family inet = refl
      of_family inet6 = refl

  report-Concludes :
      (a : Response) (offset : ℕ) (x : Endpoint) (v v' : Statics) (t : Trace) (ns : List Notice)
      → is_nonpos a.len ≡ false
      → found_in a offset ≡ ok (some x)
      → v'.last ≡ v.last
      → notices t ≡ ns
      → Concludes a offset ns v (report host e baddr bport x v' t)
  unfolding report
  report-Concludes a offset x v v' t ns arrived found h q =
      let mb = bport % 2 ^ 16 in
      let r = cmp_addr x.family (address x) x.port baddr mb v'.last in
      let kept = cmp_addr-IsRemembered x.family (address x) x.port baddr mb v'.last in
      elim (Bool-cases r.0) [
        | inl new ↦ rw new (
            changed x (notice x baddr bport) (record v' { last = r.1 }) arrived found
              (subst (λ (l : Last). Repeats x l → ⊥) h
                (cmp_addr_changed x.family (address x) x.port baddr mb v'.last new))
              refl kept (notice-Names x) (ap (λ l. notice x baddr bport ∷ l) q))
        | inr same ↦ rw same (
            unchanged x (record v' { last = r.1 }) arrived found
              (subst (λ (l : Last). Repeats x l) h
                (cmp_addr_unchanged x.family (address x) x.port baddr mb v'.last same))
              refl kept q)
      ]

  conclude-Concludes :
      (r : Response) (offset : ℕ) (v v' : Statics) (t : Trace) (ns : List Notice)
      → IsBounded (bufsize + 32) r
      → v'.last ≡ v.last
      → notices t ≡ ns
      → Concludes r offset ns v (conclude host e baddr bport r offset v' t)
  unfolding conclude
  conclude-Concludes r offset v v' t ns b h q = elim (Bool-cases (is_nonpos r.len)) [
    | inl none_left ↦ rw (none_left, conclude) (nothing v' (inl none_left) refl h q)
    | inr arrived ↦
        let room = length_of-fits r.len b.fits in
        let (o, unpacked) =
          stun_unpack-Returns e r.msg r.buf (length_of r.len) offset (omega (arith, b.same_size)) in
        elim (Option-cases o) [
          | inl missing ↦
              let e' : found_in r offset ≡ ok none = unpacked ∙ ap ok missing in
              rw (arrived, e', conclude) (nothing v' (inr e') refl h q)
          | inr (x, found) ↦
              let e' : found_in r offset ≡ ok (some x) = unpacked ∙ ap ok found in
              rw (arrived, e', conclude) (report-Concludes r offset x v v' t ns arrived e' h q)
        ]
  ]

  -- The response of the exchange, and where its attributes begin.
  abbrev pub response : ℤ → ℕ → StunMessage → List ℕ → Statics → Trace → Response
  response fd mode msg buf v t =
      if mode == sock_stream
      then (stun_tcp host e fd msg buf t).0
      else (stun_udp host e fd msg buf v.retries t).0.0

  abbrev pub offset_of : ℕ → ℕ
  offset_of mode = if mode == sock_stream then 0 else 20

  -- For every host that keeps POSIX's word on `recv`, with a buffer of BUFSIZE + 32 bytes holding
  -- anything, and in either mode, `stun_bind` stays inside the buffer and ends. Where no response
  -- came or `stun_unpack` finds no mapping in it, it returns -1, notifies nobody and remembers the
  -- last mapping. Else it returns 0 and remembers the mapping that `stun_unpack` finds; and it
  -- notifies of this mapping, by one notification that holds its words and ports, exactly if it
  -- differs from the last one in a port or in the words that the family has of an address.
  pub stun_bind-Concludes :
      (posix : IsPosix host) (fd : ℤ) (mode r0 r1 r2 : ℕ) (buf : List ℕ) (v : Statics) (t : Trace)
      → length buf ≡ bufsize + 32
      → Concludes
          (response fd mode (stun_pack e r0 r1 r2) buf v t)
          (offset_of mode)
          (notices t)
          v
          (stun_bind host e baddr bport fd mode r0 r1 r2 buf v t)
  unfolding stun_bind
  stun_bind-Concludes posix fd mode r0 r1 r2 buf v t size =
      let msg = stun_pack e r0 r1 r2 in
      elim (Bool-cases (mode == sock_stream)) [
        | inl tcp ↦ rw tcp (
            conclude-Concludes (stun_tcp host e fd msg buf t).0 0 v v _ (notices t)
              (rw size at (stun_tcp-IsBounded host posix e fd msg buf t)) refl
              (notices-stun_tcp host e fd msg buf t))
        | inr udp ↦ rw udp (
            conclude-Concludes (stun_udp host e fd msg buf v.retries t).0.0 20 v _ _ (notices t)
              (rw size at (stun_udp-IsBounded host posix e fd msg buf v.retries t)) refl
              (notices-stun_udp host e fd msg buf v.retries t))
      ]
