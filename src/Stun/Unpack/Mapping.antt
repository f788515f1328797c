-- ===== src/Stun/Unpack/Mapping.antt =====
-- src/hev-stun.c: the address and the port that `stun_unpack` gives are those that the server saw.
use natmap.Prelude.{
  ℕ, ◌+◌, ◌*◌, ◌%◌, ◌^◌, ◌<◌, ◌≡◌, ◌≢◌, refl, ap, ◌∙◌, List, ◌++◌, Option, some, true, not, ◌==◌,
  arith, bit_xor, length, All,
}
use natmap.Prelude.Table.{passes_below, passes_below_lem}
use natmap.Stun.Message.{ByteOrder, little, big, Run, ok, htons, word16, StunMessage}
use natmap.Stun.Message.Masks.{xor-IsByte, word32_unmask, port_unmask_little, port_unmask_big}
use natmap.Stun.Wire.{
  Quad, quad, IsQuad, mask, cookie, Attribute, encode_attributes, IsSkipped, xor_mapped4,
  xor_mapped6,
}
use natmap.Stun.Unpack.{Endpoint, inet, inet6, stun_unpack}
use natmap.Stun.Unpack.Decode.{word, scan-found, unpack-found}

-- The host's view of a header with the magic cookie and the transaction id `t0 t1 t2`.
pub record HasId (e : ByteOrder) (t0 t1 t2 : Quad) (msg : StunMessage) : Type 0 where
  pub magic : msg.magic ≡ word e cookie
  pub tid0 : msg.tid0 ≡ word e t0
  pub tid1 : msg.tid1 ≡ word e t1
  pub tid2 : msg.tid2 ≡ word e t2

word_unmask :
    (e : ByteOrder) (w m : Quad)
    → IsQuad w
    → IsQuad m
    → bit_xor (word e (mask w m)) (word e m) ≡ word e w
word_unmask e w m hw hm = word32_unmask e w.b0 w.b1 w.b2 w.b3 m.b0 m.b1 m.b2 m.b3 hw hm

-- The port in the host's order, as the code takes the mask off.
abbrev pub code_port : ByteOrder → ℕ → ℕ → ℕ
code_port e hi lo = bit_xor (word16 e (bit_xor hi 0x21) (bit_xor lo 0x12)) (word e cookie) % 2 ^ 16

-- A mapped address was returned, and it is the given one.
abbrev pub IsMapping4 : (e : ByteOrder) (w : Quad) → Endpoint → Type 0
IsMapping4 e w x = (x.family ≡ inet) × (x.addr0 ≡ word e w)

abbrev pub IsMapping6 : (e : ByteOrder) (w0 w1 w2 w3 : Quad) → Endpoint → Type 0
IsMapping6 e w0 w1 w2 w3 x =
    (x.family ≡ inet6)
    × (x.addr0 ≡ word e w0)
    × (x.addr1 ≡ word e w1)
    × (x.addr2 ≡ word e w2)
    × (x.addr3 ≡ word e w3)

-- What `stun_unpack` makes of a response with this attribute behind the others; the response ends
-- `n` bytes behind the attribute's start.
abbrev pub unpacked :
    (e : ByteOrder) (msg : StunMessage) (front : List ℕ) (others : List Attribute) (n : ℕ)
    → List ℕ
    → Run (Option Endpoint)
unpacked e msg front others n attribute =
    stun_unpack e msg (front ++ (encode_attributes others ++ attribute))
      (length front + (length (encode_attributes others) + n)) (length front)

module _ (e : ByteOrder) (msg : StunMessage) (t0 t1 t2 : Quad) (id : HasId e t0 t1 t2 msg)
    (front : List ℕ) (others : List Attribute) (skipped : All IsSkipped others) (rest : List ℕ)
    (n : ℕ) (some_left : 0 < n) where
  pub unpacked4 :
      (hi lo : ℕ) (w g1 g2 g3 : Quad)
      → IsQuad w
      → (x : Endpoint) × (unpacked e msg front others n
            (xor_mapped4 hi lo w (quad g1 (quad g2 (quad g3 rest))))
          ≡ ok (some x))
        × IsMapping4 e w x
        × (x.port ≡ code_port e hi lo)
  unpacked4 hi lo w g1 g2 g3 hw = (
    _,
    unpack-found e msg front others _ n _ skipped some_left (λ fuel _.
        scan-found e msg 8 1 _ _ (mask w cookie) g1 g2 g3 rest n fuel (omega arith) (omega arith)
          some_left),
    (
      refl,
      ap (bit_xor (word e (mask w cookie))) id.magic ∙ word_unmask e w cookie hw (omega arith),
    ),
    ap (λ m. bit_xor (word16 e (bit_xor hi 0x21) (bit_xor lo 0x12)) m % 2 ^ 16) id.magic,
  )

  pub unpacked6 :
      (hi lo : ℕ) (w0 w1 w2 w3 : Quad)
      → IsQuad w0 × IsQuad w1 × IsQuad w2 × IsQuad w3
      → IsQuad t0 × IsQuad t1 × IsQuad t2
      → (x : Endpoint) × (unpacked e msg front others n
            (xor_mapped6 hi lo w0 w1 w2 w3 t0 t1 t2 rest)
          ≡ ok (some x))
        × IsMapping6 e w0 w1 w2 w3 x
        × (x.port ≡ code_port e hi lo)
  unpacked6 hi lo w0 w1 w2 w3 hw ht = (
    _,
    unpack-found e msg front others _ n _ skipped some_left (λ fuel _.
        scan-found e msg 20 2 _ _ (mask w0 cookie) (mask w1 t0) (mask w2 t1) (mask w3 t2) rest n
          fuel (omega arith) (omega arith) some_left),
    (
      refl,
      ap (bit_xor (word e (mask w0 cookie))) id.magic ∙ word_unmask e w0 cookie hw.0 (omega arith),
      ap (bit_xor (word e (mask w1 t0))) id.tid0 ∙ word_unmask e w1 t0 hw.1 ht.0,
      ap (bit_xor (word e (mask w2 t1))) id.tid1 ∙ word_unmask e w2 t1 hw.2 ht.1,
      ap (bit_xor (word e (mask w3 t2))) id.tid2 ∙ word_unmask e w3 t2 hw.3 ht.2,
    ),
    ap (λ m. bit_xor (word16 e (bit_xor hi 0x21) (bit_xor lo 0x12)) m % 2 ^ 16) id.magic,
  )

pub code_port_little :
    (hi lo : ℕ) → hi < 256 → lo < 256 → htons little (code_port little hi lo) ≡ hi * 256 + lo
code_port_little hi lo p q = rw (port_unmask_little hi lo p q) (omega arith)

-- No byte survives the wrong masks 0x21 and 0xA4.
byte_table : passes_below (λ b. not (bit_xor (bit_xor b 0x21) 0xA4 == b)) 256 ≡ true
unfolding passes_below
byte_table = refl

pub code_port_big :
    (hi lo : ℕ) → hi < 256 → lo < 256 → htons big (code_port big hi lo) ≢ hi * 256 + lo
code_port_big hi lo p q h =
    let hi' =
      xor-IsByte (bit_xor hi 0x21) 0xA4 (xor-IsByte hi 0x21 p (omega arith)) (omega arith) in
    let lo' =
      xor-IsByte (bit_xor lo 0x12) 0x42 (xor-IsByte lo 0x12 q (omega arith)) (omega arith) in
    ground (
      arith,
      h,
      hi',
      lo',
      port_unmask_big hi lo p q,
      passes_below_lem (λ b. not (bit_xor (bit_xor b 0x21) 0xA4 == b)) 256 hi p byte_table,
    )
