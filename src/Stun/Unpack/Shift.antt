-- ===== src/Stun/Unpack/Shift.antt =====
-- src/hev-stun.c: `stun_unpack` reads by position only, so bytes in front of the attributes (the
-- message header over UDP, attributes already passed over) shift the run and do not change it.
use natmap.Prelude.{
  ℕ, zero, suc, ◌+◌, ◌≡◌, refl, ap, List, ◌++◌, none, arith, ltb, if◌then◌else◌, length,
}
use natmap.Stun.Message.{ByteOrder, ok, load16, htons, StunMessage}
use natmap.Stun.Message.Loads.{>>=-ext, load8-append, load16-append, load32-append}
use natmap.Stun.Unpack.{read_mapped, read_xor_mapped, scan}

module _ (e : ByteOrder) (msg : StunMessage) (front body : List ℕ) where
  read_mapped-append :
      (i j : ℕ)
      → i ≡ length front + j
      → read_mapped e msg (front ++ body) i ≡ read_mapped e msg body j
  unfolding read_mapped
  read_mapped-append i j h = rw (
    load16-append e front body (i + 6) (j + 6) (omega arith),
    load32-append e front body (i + 8) (j + 8) (omega arith),
    load32-append e front body (i + 12) (j + 12) (omega arith),
    load32-append e front body (i + 16) (j + 16) (omega arith),
    load32-append e front body (i + 20) (j + 20) (omega arith),
    load8-append front body (i + 5) (j + 5) (omega arith),
  )

  read_xor_mapped-append :
      (i j : ℕ)
      → i ≡ length front + j
      → read_xor_mapped e msg (front ++ body) i ≡ read_xor_mapped e msg body j
  unfolding read_xor_mapped
  read_xor_mapped-append i j h = rw (read_mapped-append i j h)

  pub scan-append :
      (fuel len' len i j : ℕ)
      → len' ≡ length front + len
      → i ≡ length front + j
      → scan e msg (front ++ body) len' fuel i ≡ scan e msg body len fuel j
  unfolding scan
  scan-append zero len' len i j hl hi = refl
  scan-append (suc fuel) len' len i j hl hi =
      let test : ltb i len' ≡ ltb j len = ground arith in
      rw (test, load16-append e front body (i + 2) (j + 2) (omega arith))
        (ap (λ x. if ltb j len then x else ok none)
          (>>=-ext (load16 e body (j + 2)) _ _ λ raw. rw (
            load16-append e front body i j hi,
            read_mapped-append i j hi,
            read_xor_mapped-append i j hi,
            scan-append fuel len' len (i + 4 + htons e raw) (j + 4 + htons e raw) hl (omega arith),
          )))
