-- ===== src/Stun/Client/Holds.antt =====
-- src/hev-stun.c: `stun_bind` takes and gives back no resource.
use natmap.Prelude.{
  ℕ, ◌≡◌, refl, ◌∙◌, ◌⊎◌, List, Option, some, none, arith, ◌==◌, inl, inr, Bool-cases,
}
use natmap.Prelude.Int.{ℤ, is_nonpos}
use natmap.Host.{Host, Trace, sock_stream}
use natmap.Host.Held.{held}
use natmap.Stun.Message.{ByteOrder, Run, ok, fault, out_of_fuel, stun_pack}
use natmap.Stun.Unpack.{Endpoint, stun_unpack}
use natmap.Stun.Compare.{Words}
use natmap.Stun.Exchange.{Response, stun_tcp, stun_udp}
use natmap.Stun.Exchange.Holds.{held-stun_tcp, held-stun_udp}
use natmap.Stun.Client.{Statics, length_of, report, conclude, stun_bind}

unpacked_cases :
    (o : Run (Option Endpoint))
    → (o ≡ fault) ⊎ ((o ≡ out_of_fuel) ⊎ ((o ≡ ok none) ⊎ ((x : Endpoint) × (o ≡ ok (some x)))))
unpacked_cases fault = inl refl
unpacked_cases out_of_fuel = inr (inl refl)
unpacked_cases (ok none) = inr (inr (inl refl))
unpacked_cases (ok (some x)) = inr (inr (inr (x, refl)))

module _ (host : Host) (e : ByteOrder) (baddr : Words) (bport : ℕ) where
  held-report :
      (x : Endpoint) (v : Statics) (t : Trace) → held (report host e baddr bport x v t).1 ≡ held t
  unfolding report
  held-report x v t = ground arith

  held-conclude :
      (r : Response) (offset : ℕ) (v : Statics) (t : Trace)
      → held (conclude host e baddr bport r offset v t).1 ≡ held t
  unfolding conclude
  held-conclude r offset v t =
      let o = stun_unpack e r.msg r.buf (length_of r.len) offset in
      elim (Bool-cases (is_nonpos r.len)) [
        | inl nothing_came ↦ rw nothing_came refl
        | inr came ↦ elim (unpacked_cases o) [
          | inl fails ↦ rw (came, fails) refl
          | inr (inl spent) ↦ rw (came, spent) refl
          | inr (inr (inl unknown)) ↦ rw (came, unknown) refl
          | inr (inr (inr (x, found))) ↦ rw (came, found) (held-report x v t)
        ]
      ]

  pub held-stun_bind :
      (fd : ℤ) (mode r0 r1 r2 : ℕ) (buf : List ℕ) (v : Statics) (t : Trace)
      → held (stun_bind host e baddr bport fd mode r0 r1 r2 buf v t).1 ≡ held t
  unfolding stun_bind
  held-stun_bind fd mode r0 r1 r2 buf v t =
      let msg = stun_pack e r0 r1 r2 in
      elim (Bool-cases (mode == sock_stream)) [
        | inl tcp ↦ rw tcp (
            held-conclude (stun_tcp host e fd msg buf t).0 0 v (stun_tcp host e fd msg buf t).1
            ∙ held-stun_tcp host e fd msg buf t)
        | inr udp ↦ rw udp (
            held-conclude (stun_udp host e fd msg buf v.retries t).0.0 20
              (record v { retries = (stun_udp host e fd msg buf v.retries t).0.1 })
              (stun_udp host e fd msg buf v.retries t).1
            ∙ held-stun_udp host e fd msg buf v.retries t)
      ]
