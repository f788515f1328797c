-- ===== src/Stun/Message/Masks.antt =====
-- Exclusive or of words, byte by byte, in either byte order.
use natmap.Prelude.{ℕ, ◌+◌, ◌*◌, ◌%◌, ◌^◌, ◌<◌, ◌≡◌, ap, ap₂, arith, bit_xor}
use natmap.Prelude.Xor.{xor_split, xor_undo, xor-lt}
use natmap.Stun.Message.{ByteOrder, little, big, word16, word32}

abbrev pub IsByte : ℕ → Type 0
IsByte b = b < 256

pub xor-IsByte : (a m : ℕ) → IsByte a → IsByte m → IsByte (bit_xor a m)
xor-IsByte = xor-lt 8

-- In both orders a word is made of two halves.
pair_xor :
    (a0 a1 m0 m1 : ℕ)
    → IsByte a0
    → IsByte m0
    → bit_xor (a0 + a1 * 256) (m0 + m1 * 256) ≡ bit_xor a0 m0 + bit_xor a1 m1 * 256
pair_xor a0 a1 m0 m1 ha hm = omega (
  arith,
  xor_split 8 a1 a0 m1 m0 ha hm,
  ap₂ bit_xor (let e : a0 + a1 * 256 ≡ a1 * 2 ^ 8 + a0 = omega arith in e)
      (let e : m0 + m1 * 256 ≡ m1 * 2 ^ 8 + m0 = omega arith in e),
)

pub word16-xor :
    (e : ByteOrder) (a0 a1 m0 m1 : ℕ)
    → IsByte a0
    → IsByte a1
    → IsByte m0
    → IsByte m1
    → bit_xor (word16 e a0 a1) (word16 e m0 m1) ≡ word16 e (bit_xor a0 m0) (bit_xor a1 m1)
word16-xor little a0 a1 m0 m1 p q r s = pair_xor a0 a1 m0 m1 p r
word16-xor big a0 a1 m0 m1 p q r s = xor_split 8 a0 a1 m0 m1 q s

wide_xor :
    (a b m n : ℕ)
    → a < 65536
    → m < 65536
    → bit_xor (b * 65536 + a) (n * 65536 + m) ≡ bit_xor b n * 65536 + bit_xor a m
wide_xor a b m n p q = xor_split 16 b a n m p q

abbrev halves : ByteOrder → ℕ → ℕ → ℕ
halves little x y = y * 65536 + x
halves big x y = x * 65536 + y

word32-halves :
    (e : ByteOrder) (a b c d : ℕ) → word32 e a b c d ≡ halves e (word16 e a b) (word16 e c d)
word32-halves little a b c d = omega arith
word32-halves big a b c d = omega arith

halves-xor :
    (e : ByteOrder) (x y m n : ℕ)
    → x < 65536
    → y < 65536
    → m < 65536
    → n < 65536
    → bit_xor (halves e x y) (halves e m n) ≡ halves e (bit_xor x m) (bit_xor y n)
halves-xor little x y m n p q r s = wide_xor x y m n p r
halves-xor big x y m n p q r s = wide_xor y x n m q s

word16-lt : (e : ByteOrder) (a b : ℕ) → IsByte a → IsByte b → word16 e a b < 65536
word16-lt little a b p q = omega arith
word16-lt big a b p q = omega arith

-- Four bytes, and the statement that all of them are.
abbrev pub AreBytes : ℕ → ℕ → ℕ → ℕ → Type 0
AreBytes a b c d = IsByte a × IsByte b × IsByte c × IsByte d

-- A word that was masked byte by byte comes back under the mask's word.
pub word32_unmask :
    (e : ByteOrder) (a b c d m0 m1 m2 m3 : ℕ)
    → AreBytes a b c d
    → AreBytes m0 m1 m2 m3
    → bit_xor
        (word32 e (bit_xor a m0) (bit_xor b m1) (bit_xor c m2) (bit_xor d m3))
        (word32 e m0 m1 m2 m3)
      ≡ word32 e a b c d
word32_unmask e a b c d m0 m1 m2 m3 x m =
    let ha = xor-IsByte a m0 x.0 m.0 in
    let hb = xor-IsByte b m1 x.1 m.1 in
    let hc = xor-IsByte c m2 x.2 m.2 in
    let hd = xor-IsByte d m3 x.3 m.3 in
    rw (
      word32-halves e (bit_xor a m0) (bit_xor b m1) (bit_xor c m2) (bit_xor d m3),
      word32-halves e m0 m1 m2 m3,
      word32-halves e a b c d,
      halves-xor e (word16 e (bit_xor a m0) (bit_xor b m1)) (word16 e (bit_xor c m2) (bit_xor d m3))
          (word16 e m0 m1) (word16 e m2 m3) (word16-lt e _ _ ha hb) (word16-lt e _ _ hc hd)
          (word16-lt e _ _ m.0 m.1) (word16-lt e _ _ m.2 m.3),
      word16-xor e (bit_xor a m0) (bit_xor b m1) m0 m1 ha hb m.0 m.1,
      word16-xor e (bit_xor c m2) (bit_xor d m3) m2 m3 hc hd m.2 m.3,
      xor_undo a m0,
      xor_undo b m1,
      xor_undo c m2,
      xor_undo d m3,
    )

-- The mask that the code puts on a port: the low half of the cookie's word, which is the first
-- half in memory on a little-endian host and the second half on a big-endian host.
abbrev port_mask : ByteOrder → ℕ
port_mask little = word16 little 0x21 0x12
port_mask big = word16 big 0xA4 0x42

low_half_xor :
    (e : ByteOrder) (p : ℕ)
    → p < 65536
    → bit_xor p (word32 e 0x21 0x12 0xA4 0x42) % 2 ^ 16 ≡ bit_xor p (port_mask e)
low_half_xor e p h = omega (arith, padded, split e, xor-lt 16 p (port_mask e) h (mask-lt e))
  where
    high : ByteOrder → ℕ
    high little = 0x42A4
    high big = 0x2112

    mask-lt : (o : ByteOrder) → port_mask o < 2 ^ 16
    mask-lt little = omega arith
    mask-lt big = omega arith

    split :
        (o : ByteOrder)
        → bit_xor (0 * 2 ^ 16 + p) (word32 o 0x21 0x12 0xA4 0x42)
          ≡ bit_xor 0 (high o) * 2 ^ 16 + bit_xor p (port_mask o)
    split little = xor_split 16 0 p 0x42A4 0x1221 h (omega arith)
    split big = xor_split 16 0 p 0x2112 0xA442 h (omega arith)

    padded :
        bit_xor (0 * 2 ^ 16 + p) (word32 e 0x21 0x12 0xA4 0x42)
        ≡ bit_xor p (word32 e 0x21 0x12 0xA4 0x42)
    padded = ap (λ t. bit_xor t (word32 e 0x21 0x12 0xA4 0x42)) (omega arith)

module _ (hi lo : ℕ) (hhi : IsByte hi) (hlo : IsByte lo) where
  pub port_unmask_little :
      bit_xor
          (word16 little (bit_xor hi 0x21) (bit_xor lo 0x12))
          (word32 little 0x21 0x12 0xA4 0x42)
        % 2 ^ 16
      ≡ word16 little hi lo
  port_unmask_little =
      let a = xor-IsByte hi 0x21 hhi (omega arith) in
      let b = xor-IsByte lo 0x12 hlo (omega arith) in
      rw (
        low_half_xor little (word16 little (bit_xor hi 0x21) (bit_xor lo 0x12))
            (word16-lt little _ _ a b),
        word16-xor little (bit_xor hi 0x21) (bit_xor lo 0x12) 0x21 0x12 a b (omega arith)
            (omega arith),
        xor_undo hi 0x21,
        xor_undo lo 0x12,
      )

  pub port_unmask_big :
      bit_xor (word16 big (bit_xor hi 0x21) (bit_xor lo 0x12)) (word32 big 0x21 0x12 0xA4 0x42)
        % 2 ^ 16
      ≡ word16 big (bit_xor (bit_xor hi 0x21) 0xA4) (bit_xor (bit_xor lo 0x12) 0x42)
  port_unmask_big =
      let a = xor-IsByte hi 0x21 hhi (omega arith) in
      let b = xor-IsByte lo 0x12 hlo (omega arith) in
      rw (
        low_half_xor big (word16 big (bit_xor hi 0x21) (bit_xor lo 0x12)) (word16-lt big _ _ a b),
        word16-xor big (bit_xor hi 0x21) (bit_xor lo 0x12) 0xA4 0x42 a b (omega arith)
            (omega arith),
      )
