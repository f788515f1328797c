-- ===== src/Stun/Exchange/Requests.antt =====
-- src/hev-stun.c: how often an exchange asks, and that it notifies nobody.
use natmap.Prelude.{
  ℕ, zero, suc, ◌+◌, ◌≤◌, ◌≡◌, refl, true, false, List, ◌∷◌, [], arith, ◌⊎◌, inl, inr, Bool-cases,
  overwrite,
}
use natmap.Prelude.Int.{ℤ, minus_one, is_nonpos}
use natmap.Host.{Host, Trace, Notice, notified, sent, received, recv_bytes, recv_length}
use natmap.Stun.Message.{ByteOrder, StunMessage, in_memory}
use natmap.Stun.Exchange.{bufsize, Retries, retries, stun_tcp, stun_udp_loop, stun_udp}

-- The notifications of a trace, newest first.
abbrev pub notices : Trace → List Notice
notices [] = []
notices (notified n ∷ t) = n ∷ notices t
notices (_ ∷ t) = notices t

-- The requests of a trace.
abbrev pub requests : Trace → ℕ
requests [] = 0
requests (sent fd bytes ∷ t) = suc (requests t)
requests (_ ∷ t) = requests t

module _ (host : Host) (e : ByteOrder) (fd : ℤ) where
  pub notices-stun_tcp :
      (msg : StunMessage) (buf : List ℕ) (t : Trace)
      → notices (stun_tcp host e fd msg buf t).1 ≡ notices t
  unfolding stun_tcp
  notices-stun_tcp msg buf t = ground arith

  notices-stun_udp_loop :
      (left : ℕ) (len : ℤ) (msg : StunMessage) (buf : List ℕ) (t : Trace)
      → notices (stun_udp_loop host e fd left len msg buf t).1 ≡ notices t
  unfolding stun_udp_loop
  notices-stun_udp_loop zero len msg buf t = refl
  notices-stun_udp_loop (suc left) len msg buf t =
      let t1 : Trace = sent fd (in_memory e msg) ∷ t in
      let answer = host.recv t1 fd bufsize in
      ground (
        arith,
        notices-stun_udp_loop left (recv_length answer) msg (overwrite (recv_bytes answer) buf)
            (received fd bufsize ∷ t1),
      )

  pub notices-stun_udp :
      (msg : StunMessage) (buf : List ℕ) (v : Retries) (t : Trace)
      → notices (stun_udp host e fd msg buf v t).1 ≡ notices t
  unfolding stun_udp
  notices-stun_udp msg buf v t = notices-stun_udp_loop (retries v) minus_one msg buf t

  -- How the loop ended: by a failed send, by an answer, or by the last round.
  pub stun_udp_loop-requests :
      (left : ℕ) (len : ℤ) (msg : StunMessage) (buf : List ℕ) (t : Trace)
      → is_nonpos len ≡ true
      → let ((ended, r), t') = stun_udp_loop host e fd left len msg buf t in
        (requests t' ≤ requests t + left)
        × (ended ≡ true → is_nonpos r.len ≡ true → requests t' ≡ requests t + left)
        × (ended ≡ false → r.len ≡ minus_one)
  unfolding stun_udp_loop
  stun_udp_loop-requests zero len msg buf t h = (omega arith, λ p q. omega arith, λ p. cc)
  stun_udp_loop-requests (suc left) len msg buf t h =
      let t1 : Trace = sent fd (in_memory e msg) ∷ t in
      let t2 : Trace = received fd bufsize ∷ t1 in
      let answer = host.recv t1 fd bufsize in
      let buf' = overwrite (recv_bytes answer) buf in
      elim (Bool-cases (is_nonpos (host.send t fd (in_memory e msg)))) [
        | inl unsent ↦ rw unsent (omega arith, λ p q. cc, λ p. refl)
        | inr sent_ok ↦ elim (Bool-cases (is_nonpos (recv_length answer))) [
          | inl again ↦
              let rest = stun_udp_loop-requests left (recv_length answer) msg buf' t2 again in
              rw (sent_ok, again)
                (omega (arith, rest.0), λ p q. omega (arith, rest.1 p q), λ p. rest.2 p)
          | inr arrived ↦ rw (sent_ok, arrived) (omega arith, λ p q. cc, λ p. cc)
        ]
      ]

  -- `stun_udp` sends the request at most as often as the count in force says, and it returns a
  -- positive length, or -1 with the count in force left as it was, or it has made every try and
  -- from then on the second count is in force.
  pub stun_udp-requests :
      (msg : StunMessage) (buf : List ℕ) (v : Retries) (t : Trace)
      → let ((r, v'), t') = stun_udp host e fd msg buf v t in
        (requests t' ≤ requests t + retries v)
        × ((is_nonpos r.len ≡ false)
            ⊎ (((r.len ≡ minus_one) × (v' ≡ v))
                ⊎ ((requests t' ≡ requests t + retries v) × (v' ≡ record v { second = true }))))
  unfolding stun_udp
  stun_udp-requests msg buf v t =
      let counted = stun_udp_loop-requests (retries v) minus_one msg buf t refl in
      let r = (stun_udp_loop host e fd (retries v) minus_one msg buf t).0 in
      (
        counted.0,
        elim (Bool-cases (is_nonpos r.1.len)) [
          | inr answered ↦ inl answered
          | inl empty ↦ elim (Bool-cases r.0) [
            | inl ended ↦ inr (inr (counted.1 ended empty, rw ended))
            | inr failed ↦ inr (inl (counted.2 failed, rw failed))
          ]
        ],
      )
