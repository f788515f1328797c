-- ===== src/Stun/Unpack/Bounds.antt =====
-- src/hev-stun.c: `stun_unpack` stays inside `char buf[BUFSIZE + 32]` and ends, whatever arrived.
use natmap.Prelude.{
  ℕ, zero, suc, ◌+◌, ◌≤◌, ◌<◌, refl, inl, inr, List, none, some, arith, ltb, ◌==◌, length,
  Bool-cases,
}
use natmap.Stun.Message.{ByteOrder, htons, mapped_addr, xor_mapped_addr, StunMessage}
use natmap.Stun.Message.Loads.{
  Returns, >>=-Returns, Returns-if, load8-Returns, load16-Returns, load32-Returns,
}
use natmap.Stun.Unpack.{read_mapped, read_xor_mapped, scan, to_endpoint, stun_unpack}

module _ (e : ByteOrder) (msg : StunMessage) (body : List ℕ) where
  read_mapped-Returns : (i : ℕ) → i + 23 < length body → Returns (read_mapped e msg body i)
  unfolding read_mapped
  read_mapped-Returns i h = >>=-Returns _ _ (load16-Returns e body (i + 6) (omega arith)) λ port.
      >>=-Returns _ _ (load32-Returns e body (i + 8) (omega arith)) λ a0.
        >>=-Returns _ _ (load32-Returns e body (i + 12) (omega arith)) λ a1.
          >>=-Returns _ _ (load32-Returns e body (i + 16) (omega arith)) λ a2.
            >>=-Returns _ _ (load32-Returns e body (i + 20) (omega arith))
              λ a3. >>=-Returns _ _ (load8-Returns e body (i + 5) (omega arith)) λ f. (_, refl)

  read_xor_mapped-Returns : (i : ℕ) → i + 23 < length body → Returns (read_xor_mapped e msg body i)
  unfolding read_xor_mapped
  read_xor_mapped-Returns i h = >>=-Returns _ _ (read_mapped-Returns i h) λ m. (_, refl)

  scan-Returns :
      (len fuel i : ℕ)
      → len + 23 ≤ length body
      → 0 < fuel
      → len < fuel + i
      → Returns (scan e msg body len fuel i)
  unfolding scan
  scan-Returns len zero i room some_fuel enough = absurd (omega arith)
  scan-Returns len (suc fuel) i room some_fuel enough = elim (Bool-cases (ltb i len)) [
    | inr past ↦ (none, rw past)
    | inl inside ↦
        let (raw, eraw) = load16-Returns e body (i + 2) (ground arith) in
        let (type, etype) = load16-Returns e body i (ground arith) in
        let (m, em) = read_mapped-Returns i (ground arith) in
        let (x, ex) = read_xor_mapped-Returns i (ground arith) in
        elim (Bool-cases (htons e raw == 0)) [
          | inl empty ↦ (none, rw (inside, eraw, empty))
          | inr full ↦
              let rest =
                scan-Returns len fuel (i + 4 + htons e raw) room (ground arith) (ground arith) in
              rw (inside, eraw, full, etype, em, ex)
                (Returns-if (type == htons e mapped_addr) (some m, refl)
                  (Returns-if (type == htons e xor_mapped_addr) (some x, refl) rest))
        ]
  ]

  -- On any message and any contents of a buffer that has at least 23 bytes more than `len`, from any
  -- position, `stun_unpack` reads only bytes of the buffer and ends, within its fuel.
  pub stun_unpack-Returns :
      (len pos : ℕ) → len + 23 ≤ length body → Returns (stun_unpack e msg body len pos)
  unfolding stun_unpack
  stun_unpack-Returns len pos room =
      let (m, em) = scan-Returns len (suc len) pos room (omega arith) (omega arith) in
      (to_endpoint m, rw em)
