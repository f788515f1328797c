-- ===== src/Stun/Exchange/Bounded.antt =====
-- src/hev-stun.c: the exchanges keep the buffer's size, return a length that fits it, and try over
-- UDP as often as they are told at most.
use natmap.Prelude.{
  ℕ, zero, suc, ◌≤◌, ◌≡◌, refl, List, ◌∷◌, arith, length, length-overwrite, ltb, ◌||◌, inl, inr,
  Bool-cases, overwrite, ◌∙◌,
}
use natmap.Prelude.Int.{ℤ, pos, minus_one, is_nonpos}
use natmap.Host.{
  Host, Trace, IsPosix, sent, received, Received, recv_failed, got, recv_bytes, recv_length,
}
use natmap.Stun.Message.{ByteOrder, StunMessage, in_memory, of_memory, htons}
use natmap.Stun.Exchange.{bufsize, Response, Retries, retries, stun_tcp, stun_udp_loop, stun_udp}

-- A response in a buffer of `size` bytes: its length is at most BUFSIZE.
pub record IsBounded (size : ℕ) (r : Response) : Type 0 where
  pub same_size : length r.buf ≡ size
  pub fits : (n : ℕ) → r.len ≡ pos n → n ≤ bufsize

received_small :
    (r : Received) (size n : ℕ) → length (recv_bytes r) ≤ size → recv_length r ≡ pos n → n ≤ size
received_small (recv_failed m) size n h e = cc
received_small (got bytes) size n h e = ground arith

module _ (host : Host) (posix : IsPosix host) (e : ByteOrder) (fd : ℤ) where
  recv_small : (t : Trace) (size n : ℕ) → recv_length (host.recv t fd size) ≡ pos n → n ≤ size
  recv_small t size n = received_small (host.recv t fd size) size n (posix.recv_fits t fd size)

  pub stun_tcp-IsBounded :
      (msg : StunMessage) (buf : List ℕ) (t : Trace)
      → IsBounded (length buf) (stun_tcp host e fd msg buf t).0
  unfolding stun_tcp
  stun_tcp-IsBounded msg buf t =
      let t1 : Trace = sent fd (in_memory e msg) ∷ t in
      let t2 : Trace = received fd 20 ∷ t1 in
      let head = host.recv t1 fd 20 in
      let size = htons e (of_memory e (overwrite (recv_bytes head) (in_memory e msg))).size in
      let body = host.recv t2 fd size in
      elim (Bool-cases (is_nonpos (host.send t fd (in_memory e msg)))) [
        | inl unsent ↦ rw unsent (record { same_size = refl; fits = λ n h. cc })
        | inr sent_ok ↦ elim (Bool-cases (is_nonpos (recv_length head))) [
          | inl no_head ↦ rw (sent_ok, no_head) (record { same_size = refl; fits = λ n h. cc })
          | inr head_ok ↦ elim (Bool-cases (is_nonpos (pos size) || ltb bufsize size)) [
            | inl refused ↦
                rw (sent_ok, head_ok, refused) (record { same_size = refl; fits = λ n h. cc })
            | inr accepted ↦
                rw (sent_ok, head_ok, accepted)
                  (record {
                    same_size = length-overwrite (recv_bytes body) buf;
                    fits = λ n h. ground (arith, recv_small t2 size n h, accepted);
                  })
          ]
        ]
      ]

  stun_udp_loop-IsBounded :
      (left : ℕ) (len : ℤ) (msg : StunMessage) (buf : List ℕ) (t : Trace)
      → ((n : ℕ) → len ≡ pos n → n ≤ bufsize)
      → IsBounded (length buf) (stun_udp_loop host e fd left len msg buf t).0.1
  unfolding stun_udp_loop
  stun_udp_loop-IsBounded zero len msg buf t h = record { same_size = refl; fits = h }
  stun_udp_loop-IsBounded (suc left) len msg buf t h =
      let t1 : Trace = sent fd (in_memory e msg) ∷ t in
      let t2 : Trace = received fd bufsize ∷ t1 in
      let answer = host.recv t1 fd bufsize in
      let size_kept = length-overwrite (recv_bytes answer) buf in
      let small = recv_small t1 bufsize in
      elim (Bool-cases (is_nonpos (host.send t fd (in_memory e msg)))) [
        | inl unsent ↦ rw unsent (record { same_size = refl; fits = λ n p. cc })
        | inr sent_ok ↦ elim (Bool-cases (is_nonpos (recv_length answer))) [
          | inl again ↦
              let rest =
                stun_udp_loop-IsBounded left (recv_length answer) msg
                  (overwrite (recv_bytes answer) buf) t2 small in
              rw (sent_ok, again)
                (record { same_size = rest.same_size ∙ size_kept; fits = rest.fits })
          | inr arrived ↦ rw (sent_ok, arrived) (record { same_size = size_kept; fits = small })
        ]
      ]

  pub stun_udp-IsBounded :
      (msg : StunMessage) (buf : List ℕ) (v : Retries) (t : Trace)
      → IsBounded (length buf) (stun_udp host e fd msg buf v t).0.0
  unfolding stun_udp
  stun_udp-IsBounded msg buf v t =
      stun_udp_loop-IsBounded (retries v) minus_one msg buf t (λ n h. cc)
