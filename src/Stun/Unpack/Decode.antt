-- ===== src/Stun/Unpack/Decode.antt =====
-- src/hev-stun.c: `stun_unpack` finds the address that the server masked.
use natmap.Prelude.{
  ℕ, zero, suc, ◌+◌, ◌-◌, ◌*◌, ◌/◌, ◌%◌, ◌^◌, ◌<◌, ◌≤◌, ◌≡◌, ◌≢◌, refl, ap, ap₂, ◌∙◌, List, [], ◌∷◌,
  ◌++◌, append_assoc, Option, none, some, Bool, arith, ◌==◌, bit_xor, length, length-append, All,
}
use natmap.Stun.Message.{
  ByteOrder, little, big, ok, load16, load32, htons, word16, word32, StunMessage,
}
use natmap.Stun.Wire.{
  Quad, quad, Attribute, encode_attribute, encode_attributes, IsSkipped, xor_mapped4,
  length-encode_attributes,
}
use natmap.Stun.Unpack.{Mapped, read_mapped, read_xor_mapped, scan, to_endpoint, stun_unpack}
use natmap.Stun.Unpack.Shift.{scan-append}

abbrev pub word : ByteOrder → Quad → ℕ
word e w = word32 e w.b0 w.b1 w.b2 w.b3

-- A 16-bit number from two bytes of the wire.
htons_wire :
    (e : ByteOrder) (hi lo : ℕ) → hi < 256 → lo < 256 → htons e (word16 e hi lo) ≡ hi * 256 + lo
htons_wire little hi lo p q = omega arith
htons_wire big hi lo p q = omega arith

-- A type on the wire is compared with a constant in the host's order.
wire_type_eq :
    (e : ByteOrder) (hi lo k : ℕ)
    → hi < 256
    → lo < 256
    → k < 256
    → hi * 256 + lo ≢ k
    → (word16 e hi lo == htons e k) ≡ Bool.false
wire_type_eq little hi lo k p q r h = ground arith
wire_type_eq big hi lo k p q r h = ground arith

module _ (e : ByteOrder) (msg : StunMessage) where
  scan-skip_one :
      (a : Attribute) (body : List ℕ) (len fuel : ℕ)
      → IsSkipped a
      → 0 < len
      → scan e msg (encode_attribute a ++ body) len (suc fuel) 0
        ≡ scan e msg (encode_attribute a ++ body) len fuel (4 + length a.value)
  unfolding scan load16
  scan-skip_one a body len fuel h some_left =
      let n = length a.value in
      let size = htons_wire e (n / 256) (n % 256) (omega arith) (omega arith) in
      let t1 =
        wire_type_eq e (a.type / 256) (a.type % 256) 1 (omega arith) (omega arith) (omega arith)
          (omega arith) in
      let t2 =
        wire_type_eq e (a.type / 256) (a.type % 256) 32 (omega arith) (omega arith) (omega arith)
          (omega arith) in
      ground (arith, size, t1, t2)

  scan-skip :
      (as' : List Attribute) (body : List ℕ) (len fuel fuel' : ℕ)
      → All IsSkipped as'
      → 0 < len
      → fuel' ≡ length as' + fuel
      → scan e msg (encode_attributes as' ++ body) (length (encode_attributes as') + len) fuel' 0
        ≡ scan e msg body len fuel 0
  scan-skip [] body len fuel fuel' h some_left eq =
      ap₂ (λ l f. scan e msg body l f 0) (omega arith) (omega arith)
  scan-skip (a ∷ as') body len fuel zero h some_left eq = absurd (omega arith)
  scan-skip (a ∷ as') body len fuel (suc fuel') h some_left eq =
      let total = length (encode_attributes (a ∷ as')) + len in
      let inner = encode_attributes as' ++ body in
      let lengths = length-append (encode_attribute a) (encode_attributes as') in
      ap (λ l. scan e msg l total (suc fuel') 0)
        (append_assoc (encode_attribute a) (encode_attributes as') body)
      ∙ scan-skip_one a inner total fuel' h.0 (omega arith)
      ∙ scan-append e msg (encode_attribute a) inner fuel' total
          (length (encode_attributes as') + len) (4 + length a.value) 0 (omega (arith, lengths))
          (omega arith)
      ∙ scan-skip as' body len fuel fuel' h.1 some_left (omega arith)

  -- The attribute itself: sixteen bytes are read as the address, whatever the family.
  pub scan-found :
      (size family p1 p0 : ℕ) (w0 w1 w2 w3 : Quad) (rest : List ℕ) (len fuel : ℕ)
      → 0 < size
      → size < 256
      → 0 < len
      → scan e msg
          (0 ∷ 0x20 ∷ 0 ∷ size ∷ 0 ∷ family ∷ p1 ∷ p0 ∷ quad w0 (quad w1 (quad w2 (quad w3 rest))))
          len
          (suc fuel)
          0
        ≡ ok (
            some (record {
              family = family;
              port = bit_xor (word16 e p1 p0) msg.magic % 2 ^ 16;
              addr0 = bit_xor (word e w0) msg.magic;
              addr1 = bit_xor (word e w1) msg.tid0;
              addr2 = bit_xor (word e w2) msg.tid1;
              addr3 = bit_xor (word e w3) msg.tid2;
            }))
  unfolding scan load16 load32 read_mapped read_xor_mapped
  scan-found size family p1 p0 w0 w1 w2 w3 rest len fuel hs fits some_left =
      let sz = htons_wire e 0 size (omega arith) fits in
      let t1 = wire_type_eq e 0 0x20 1 (omega arith) (omega arith) (omega arith) (omega arith) in
      ground (arith, sz, t1)

  -- Behind any bytes and any other attributes `stun_unpack` comes to the one that it looks for.
  pub unpack-found :
      (front : List ℕ) (as' : List Attribute) (body : List ℕ) (n : ℕ) (m : Option Mapped)
      → All IsSkipped as'
      → 0 < n
      → ((fuel : ℕ) → n ≤ fuel → scan e msg body n (suc fuel) 0 ≡ ok m)
      → stun_unpack e msg
          (front ++ (encode_attributes as' ++ body))
          (length front + (length (encode_attributes as') + n))
          (length front)
        ≡ ok (to_endpoint m)
  unfolding stun_unpack
  unpack-found front as' body n m h some_left found =
      let len = length (encode_attributes as') + n in
      let total = length front + len in
      let fuel = total - length as' in
      let few = length-encode_attributes as' in
      let reached =
        scan-append e msg front (encode_attributes as' ++ body) (suc total) total len (length front)
          0 refl (omega arith)
        ∙ scan-skip as' body n (suc fuel) (suc total) h some_left (omega (arith, few))
        ∙ found fuel (omega (arith, few)) in
      rw reached

  -- One byte of padding in front of the attribute: it is read as the first byte of a type.
  scan-padded :
      (b5 : List ℕ) (n fuel : ℕ)
      → 0 < n
      → n ≤ 2048
      → n ≤ fuel
      → scan e msg (0 ∷ 0 ∷ 0x20 ∷ 0 ∷ b5) n (suc fuel) 0 ≡ ok none
  unfolding scan load16
  scan-padded b5 n zero some_left h enough = absurd (omega arith)
  scan-padded b5 n (suc fuel) some_left h enough =
      let sz = htons_wire e 0x20 0 (omega arith) (omega arith) in
      let t1 = wire_type_eq e 0 0 1 (omega arith) (omega arith) (omega arith) (omega arith) in
      let t2 = wire_type_eq e 0 0 32 (omega arith) (omega arith) (omega arith) (omega arith) in
      ground (arith, sz, t1, t2)

  -- Where one zero byte of padding stands behind the value of an attribute without an address, as the
  -- protocol demands after 4 * k + 3 bytes, and a masked IPv4 address follows, `stun_unpack` returns
  -- -1 on a response that ends within 2048 bytes behind the value.
  pub stun_unpack_padded :
      (front : List ℕ) (a : Attribute) (hi lo : ℕ) (w : Quad) (rest : List ℕ) (n : ℕ)
      → IsSkipped a
      → 0 < n
      → n ≤ 2048
      → stun_unpack e msg
          (front ++ (encode_attributes (a ∷ []) ++ 0 ∷ xor_mapped4 hi lo w rest))
          (length front + (length (encode_attributes (a ∷ [])) + n))
          (length front)
        ≡ ok none
  stun_unpack_padded front a hi lo w rest n h some_left small =
      unpack-found front (a ∷ []) (0 ∷ xor_mapped4 hi lo w rest) n none (h, tt) some_left
        (λ fuel enough. scan-padded _ n fuel some_left small enough)
