-- ===== src/Stun/Wire.antt =====
-- What a STUN server puts on the wire (RFC 8489, section 14), independently of the code that reads
-- it: attributes, and the masked mapped address.
use natmap.Prelude.{
  ℕ, ◌/◌, ◌%◌, ◌^◌, ◌<◌, ◌≤◌, ◌≢◌, List, [], ◌∷◌, ◌++◌, arith, bit_xor, length, length-append,
}

-- Four bytes in wire order.
pub record Quad : Type 0 where
  pub b0 : ℕ
  pub b1 : ℕ
  pub b2 : ℕ
  pub b3 : ℕ

abbrev pub quad : Quad → List ℕ → List ℕ
quad w rest = w.b0 ∷ w.b1 ∷ w.b2 ∷ w.b3 ∷ rest

abbrev pub IsQuad : Quad → Type 0
IsQuad w = (w.b0 < 256) × (w.b1 < 256) × (w.b2 < 256) × (w.b3 < 256)

abbrev pub mask : Quad → Quad → Quad
mask w m = record {
  b0 = bit_xor w.b0 m.b0;
  b1 = bit_xor w.b1 m.b1;
  b2 = bit_xor w.b2 m.b2;
  b3 = bit_xor w.b3 m.b3;
}

-- The magic cookie.
abbrev pub cookie : Quad
cookie = record { b0 = 0x21; b1 = 0x12; b2 = 0xA4; b3 = 0x42 }

-- An attribute that carries no address; its value's length is what is written on the wire.
pub record Attribute : Type 0 where
  pub type : ℕ
  pub value : List ℕ

abbrev pub encode_attribute : Attribute → List ℕ
encode_attribute a =
    a.type / 256 ∷ a.type % 256 ∷ length a.value / 256 ∷ length a.value % 256 ∷ a.value

abbrev pub encode_attributes : List Attribute → List ℕ
encode_attributes [] = []
encode_attributes (a ∷ as') = encode_attribute a ++ encode_attributes as'

pub record IsSkipped (a : Attribute) : Type 0 where
  pub type_fits : a.type < 2 ^ 16
  pub not_mapped : a.type ≢ 1
  pub not_xor_mapped : a.type ≢ 0x20
  pub not_empty : 0 < length a.value
  pub value_fits : length a.value < 2 ^ 16

-- The header of XOR-MAPPED-ADDRESS: type, length, a reserved byte, the family and the port.
abbrev pub xor_mapped_head : ℕ → ℕ → ℕ → ℕ → List ℕ → List ℕ
xor_mapped_head size family port_hi port_lo rest =
    0 ∷ 0x20 ∷ 0 ∷ size ∷ 0 ∷ family ∷ bit_xor port_hi 0x21 ∷ bit_xor port_lo 0x12 ∷ rest

-- The attribute for a port and an IPv4 or IPv6 address.
abbrev pub xor_mapped4 : ℕ → ℕ → Quad → List ℕ → List ℕ
xor_mapped4 port_hi port_lo w rest = xor_mapped_head 8 1 port_hi port_lo (quad (mask w cookie) rest)

abbrev pub xor_mapped6 : ℕ → ℕ → Quad → Quad → Quad → Quad → Quad → Quad → Quad → List ℕ → List ℕ
xor_mapped6 port_hi port_lo w0 w1 w2 w3 t0 t1 t2 rest =
    xor_mapped_head 20 2 port_hi port_lo
      (quad (mask w0 cookie) (quad (mask w1 t0) (quad (mask w2 t1) (quad (mask w3 t2) rest))))

pub length-encode_attributes : (as' : List Attribute) → length as' ≤ length (encode_attributes as')
length-encode_attributes [] = omega arith
length-encode_attributes (a ∷ as') = omega (
  arith,
  length-append (encode_attribute a) (encode_attributes as'),
  length-encode_attributes as',
)
