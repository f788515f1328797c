-- ===== src/Stun/Exchange/Holds.antt =====
-- src/hev-stun.c: an exchange takes and gives back no resource.
use natmap.Prelude.{ℕ, zero, suc, ◌≡◌, refl, List, ◌∷◌, arith, overwrite}
use natmap.Prelude.Int.{ℤ, minus_one}
use natmap.Host.{Host, Trace, sent, received, recv_bytes, recv_length}
use natmap.Host.Held.{held}
use natmap.Stun.Message.{ByteOrder, StunMessage, in_memory}
use natmap.Stun.Exchange.{bufsize, Retries, retries, stun_tcp, stun_udp_loop, stun_udp}

module _ (host : Host) (e : ByteOrder) (fd : ℤ) where
  pub held-stun_tcp :
      (msg : StunMessage) (buf : List ℕ) (t : Trace)
      → held (stun_tcp host e fd msg buf t).1 ≡ held t
  unfolding stun_tcp
  held-stun_tcp msg buf t = ground arith

  held-stun_udp_loop :
      (left : ℕ) (len : ℤ) (msg : StunMessage) (buf : List ℕ) (t : Trace)
      → held (stun_udp_loop host e fd left len msg buf t).1 ≡ held t
  unfolding stun_udp_loop
  held-stun_udp_loop zero len msg buf t = refl
  held-stun_udp_loop (suc left) len msg buf t =
      let asked : Trace = sent fd (in_memory e msg) ∷ t in
      let answer = host.recv asked fd bufsize in
      let later = held-stun_udp_loop left (recv_length answer) msg in
      ground (arith, later (overwrite (recv_bytes answer) buf) (received fd bufsize ∷ asked))

  pub held-stun_udp :
      (msg : StunMessage) (buf : List ℕ) (v : Retries) (t : Trace)
      → held (stun_udp host e fd msg buf v t).1 ≡ held t
  unfolding stun_udp
  held-stun_udp msg buf v t = held-stun_udp_loop (retries v) minus_one msg buf t
