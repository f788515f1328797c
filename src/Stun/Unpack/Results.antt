-- ===== src/Stun/Unpack/Results.antt =====
-- src/hev-stun.c: what `stun_pack` and `stun_unpack` promise to each other and to a server.
use natmap.Prelude.{ℕ, ◌+◌, ◌*◌, ◌/◌, ◌%◌, ◌<◌, ◌≡◌, ◌≢◌, ap, ◌∙◌, List, [], ◌∷◌, some, arith, All}
use natmap.Stun.Message.{ByteOrder, little, big, ok, htons, stun_pack, StunMessage, in_memory}
use natmap.Stun.Wire.{Quad, quad, IsQuad, cookie, Attribute, IsSkipped, xor_mapped4, xor_mapped6}
use natmap.Stun.Unpack.{Endpoint}
use natmap.Stun.Unpack.Mapping.{
  HasId, IsMapping4, IsMapping6, unpacked, unpacked4, unpacked6, code_port_little, code_port_big,
}

-- The four bytes of a word in memory.
abbrev pub quad_of : ByteOrder → ℕ → Quad
quad_of little r = record {
  b0 = r % 256;
  b1 = r / 256 % 256;
  b2 = r / 65536 % 256;
  b3 = r / 16777216 % 256;
}
quad_of big r = record {
  b0 = r / 16777216 % 256;
  b1 = r / 65536 % 256;
  b2 = r / 256 % 256;
  b3 = r % 256;
}

-- On a host of either byte order, and for any values of `rand`, `stun_pack` leaves a binding request
-- in memory: type 1, length 0, the cookie, and the three words as transaction id; and read back as
-- a header it has that cookie and that id.
pub stun_pack-wire :
    (e : ByteOrder) (r0 r1 r2 : ℕ)
    → (in_memory e (stun_pack e r0 r1 r2)
        ≡ 0
          ∷ 1
          ∷ 0
          ∷ 0
          ∷ quad cookie (quad (quad_of e r0) (quad (quad_of e r1) (quad (quad_of e r2) []))))
      × HasId e (quad_of e r0) (quad_of e r1) (quad_of e r2) (stun_pack e r0 r1 r2)
unfolding stun_pack in_memory
stun_pack-wire little r0 r1 r2 = (ground arith, ground arith)
stun_pack-wire big r0 r1 r2 = (ground arith, ground arith)

-- A binding response in a buffer: `front` bytes before the attributes (the header over UDP, nothing
-- over TCP), attributes that carry no address, and the attribute that does, with `rest` behind it.
module _ (e : ByteOrder) (msg : StunMessage) (t0 t1 t2 : Quad) (id : HasId e t0 t1 t2 msg)
    (front : List ℕ) (others : List Attribute) (skipped : All IsSkipped others) (rest : List ℕ)
    (n : ℕ) (some_left : 0 < n) (hi lo : ℕ) (hi_byte : hi < 256) (lo_byte : lo < 256) where
  -- On a little-endian host, from a response that carries the IPv4 address `w` and the port
  -- `hi lo`, both masked, behind any attributes of other types, `stun_unpack` returns the family
  -- IPv4, the address itself and the port itself.
  pub stun_unpack-xor_mapped4 :
      (w g1 g2 g3 : Quad)
      → IsQuad w
      → e ≡ little
      → (x : Endpoint) × (unpacked e msg front others n
            (xor_mapped4 hi lo w (quad g1 (quad g2 (quad g3 rest))))
          ≡ ok (some x))
        × IsMapping4 e w x
        × (htons e x.port ≡ hi * 256 + lo)
  stun_unpack-xor_mapped4 w g1 g2 g3 hw order =
      let (x, found, mapping, port) =
        unpacked4 e msg t0 t1 t2 id front others skipped rest n some_left hi lo w g1 g2 g3 hw in
      (x, found, mapping, ap (htons e) port ∙ rw order (code_port_little hi lo hi_byte lo_byte))

  -- On a little-endian host, from a response that carries the IPv6 address `w0` to `w3` and the port
  -- `hi lo`, masked with the cookie and the transaction id, behind any attributes of other types,
  -- `stun_unpack` returns the family IPv6, the address itself and the port itself.
  pub stun_unpack-xor_mapped6 :
      (w0 w1 w2 w3 : Quad)
      → IsQuad w0 × IsQuad w1 × IsQuad w2 × IsQuad w3
      → IsQuad t0 × IsQuad t1 × IsQuad t2
      → e ≡ little
      → (x : Endpoint) × (unpacked e msg front others n
            (xor_mapped6 hi lo w0 w1 w2 w3 t0 t1 t2 rest)
          ≡ ok (some x))
        × IsMapping6 e w0 w1 w2 w3 x
        × (htons e x.port ≡ hi * 256 + lo)
  stun_unpack-xor_mapped6 w0 w1 w2 w3 hw ht order =
      let (x, found, mapping, port) =
        unpacked6 e msg t0 t1 t2 id front others skipped rest n some_left hi lo w0 w1 w2 w3 hw ht in
      (x, found, mapping, ap (htons e) port ∙ rw order (code_port_little hi lo hi_byte lo_byte))

  -- On a big-endian host, from a response that carries the IPv4 address `w` and the port `hi lo`,
  -- both masked, behind any attributes of other types, `stun_unpack` returns the address itself and
  -- another port, for every port, since it masks with the low half of the cookie's word and not with
  -- the half that stands first on the wire.
  pub stun_unpack-xor_mapped4_big :
      (w g1 g2 g3 : Quad)
      → IsQuad w
      → e ≡ big
      → (x : Endpoint) × (unpacked e msg front others n
            (xor_mapped4 hi lo w (quad g1 (quad g2 (quad g3 rest))))
          ≡ ok (some x))
        × IsMapping4 e w x
        × (htons e x.port ≢ hi * 256 + lo)
  stun_unpack-xor_mapped4_big w g1 g2 g3 hw order =
      let (x, found, mapping, port) =
        unpacked4 e msg t0 t1 t2 id front others skipped rest n some_left hi lo w g1 g2 g3 hw in
      (x, found, mapping, rw (port, order) (code_port_big hi lo hi_byte lo_byte))
