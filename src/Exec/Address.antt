-- ===== src/Exec/Address.antt =====
-- src/hev-exec.c: what the script is told is what the STUN server saw.
use natmap.Prelude.{
  ap₂, ℕ, zero, suc, ◌≤◌, ◌+◌, ◌*◌, ◌/◌, ◌%◌, ◌^◌, ◌<◌, ◌≡◌, refl, ap, ◌∙◌, List, [], ◌∷◌, Option,
  none, some, Bool, ◌&&◌, ◌==◌, if◌then◌else◌, take, get_or, length, arith, All,
}
use natmap.Text.{digit, print_unsigned, strtoul10}
use natmap.Text.Decimal.{strtoul10-print_unsigned, length-print_unsigned}
use natmap.Stun.Message.{little, ok, htons, bytes16, bytes32, StunMessage}
use natmap.Stun.Wire.{Quad, quad, IsQuad, Attribute, IsSkipped, xor_mapped4}
use natmap.Stun.Unpack.{Endpoint}
use natmap.Stun.Unpack.Decode.{word}
use natmap.Stun.Unpack.Mapping.{HasId, IsMapping4, unpacked}
use natmap.Stun.Unpack.Results.{stun_unpack-xor_mapped4}
use natmap.Stun.Compare.{Words}
use natmap.Stun.Client.{notice}
use natmap.Exec.{hex_digit, ip4p_text, snprintf, Arguments, arguments}

-- Reading an IP4P address: a prefix, then three groups of four hexadecimal digits.
abbrev group : List ℕ → ℕ → ℕ
group s i =
    ((digit (get_or s i 0) * 16 + digit (get_or s (i + 1) 0)) * 16 + digit (get_or s (i + 2) 0))
      * 16
    + digit (get_or s (i + 3) 0)

abbrev is_ip4p : List ℕ → Bool
is_ip4p s =
    length s == 20
    && (get_or s 0 0 == b'2'
        && get_or s 1 0 == b'0'
        && get_or s 2 0 == b'0'
        && get_or s 3 0 == b'1')
    && (get_or s 4 0 == b':' && get_or s 5 0 == b':')
    && (get_or s 10 0 == b':' && get_or s 15 0 == b':')

pub read_ip4p : List ℕ → Option (ℕ × ℕ × ℕ)
read_ip4p s = if is_ip4p s then some (group s 6, group s 11, group s 16) else none

digit-hex_digit : (d : ℕ) → d < 16 → digit (hex_digit d) ≡ d
digit-hex_digit d h = ground arith

byte_of_hex2 : (b : ℕ) → b < 256 → digit (hex_digit (b / 16)) * 16 + digit (hex_digit (b % 16)) ≡ b
byte_of_hex2 b h =
    omega (arith, digit-hex_digit (b / 16) (omega arith), digit-hex_digit (b % 16) (omega arith))

group_of_hex2 :
    (p q : ℕ)
    → p < 256
    → q < 256
    → ((digit (hex_digit (p / 16)) * 16 + digit (hex_digit (p % 16))) * 16
            + digit (hex_digit (q / 16)))
          * 16
        + digit (hex_digit (q % 16))
      ≡ p * 256 + q
group_of_hex2 p q hp hq = omega (arith, byte_of_hex2 p hp, byte_of_hex2 q hq)

read_ip4p-ip4p_text :
    (p0 p1 b0 b1 b2 b3 : ℕ)
    → (p0 < 256) × (p1 < 256)
    → (b0 < 256) × (b1 < 256) × (b2 < 256) × (b3 < 256)
    → read_ip4p (ip4p_text (p0 ∷ p1 ∷ []) (b0 ∷ b1 ∷ b2 ∷ b3 ∷ []))
      ≡ some (p0 * 256 + p1, b0 * 256 + b1, b2 * 256 + b3)
unfolding read_ip4p ip4p_text
read_ip4p-ip4p_text p0 p1 b0 b1 b2 b3 (hp0, hp1) (h0, h1, h2, h3) =
    cc (group_of_hex2 p0 p1 hp0 hp1, group_of_hex2 b0 b1 h0 h1, group_of_hex2 b2 b3 h2 h3)

take_all : (n : ℕ) (s : List ℕ) → length s ≤ n → take n s ≡ s
take_all zero [] h = refl
take_all zero (c ∷ s) h = absurd (omega arith)
take_all (suc n) [] h = refl
take_all (suc n) (c ∷ s) h = ap (λ t. c ∷ t) (take_all n s (omega arith))

-- A port fits the buffer that it is printed into, and is read back.
port_text : (port : ℕ) → port < 2 ^ 16 → strtoul10 (snprintf 32 (print_unsigned port)) ≡ port
port_text port h =
    rw (take_all 31 (print_unsigned port) (omega (arith, length-print_unsigned port)))
      (strtoul10-print_unsigned port (omega arith))

bytes16-htons :
    (port hi lo : ℕ)
    → hi < 256
    → lo < 256
    → htons little port ≡ hi * 256 + lo
    → bytes16 little port [] ≡ hi ∷ lo ∷ []
bytes16-htons port hi lo p q h =
    let first : port % 256 ≡ hi = omega arith in
    let second : port / 256 % 256 ≡ lo = omega arith in cc

bytes32-word : (w : Quad) → IsQuad w → bytes32 little (word little w) [] ≡ quad w []
bytes32-word w h =
    let first : word little w % 256 ≡ w.b0 = omega arith in
    let second : word little w / 256 % 256 ≡ w.b1 = omega arith in
    let third : word little w / 65536 % 256 ≡ w.b2 = omega arith in
    let fourth : word little w / 16777216 % 256 ≡ w.b3 = omega arith in cc

read_ip4p-bytes :
    (port addr0 hi lo : ℕ) (w : Quad)
    → hi < 256
    → lo < 256
    → IsQuad w
    → addr0 ≡ word little w
    → htons little port ≡ hi * 256 + lo
    → read_ip4p (snprintf 32 (ip4p_text (bytes16 little port []) (bytes32 little addr0 [])))
      ≡ some (hi * 256 + lo, w.b0 * 256 + w.b1, w.b2 * 256 + w.b3)
unfolding ip4p_text
read_ip4p-bytes port addr0 hi lo w p q hw addr h =
    ap₂ (λ m n. read_ip4p (ip4p_text m n)) (bytes16-htons port hi lo p q h)
      (ap (λ r. bytes32 little r []) addr ∙ bytes32-word w hw)
    ∙ read_ip4p-ip4p_text hi lo w.b0 w.b1 w.b2 w.b3 (p, q) hw

-- What the script reads in its arguments.
abbrev pub Tells : Arguments → (hi lo : ℕ) → Quad → Type 0
Tells a hi lo w =
    (read_ip4p a.ip4p ≡ some (hi * 256 + lo, w.b0 * 256 + w.b1, w.b2 * 256 + w.b3))
    × (strtoul10 a.oport ≡ hi * 256 + lo)

module _ (inet_ntop : ℕ → List ℕ → List ℕ) (mode : ℕ) (baddr : Words) (bport : ℕ) where
  arguments_tell :
      (x : Endpoint) (hi lo : ℕ) (w : Quad)
      → hi < 256
      → lo < 256
      → IsQuad w
      → IsMapping4 little w x
      → htons little x.port ≡ hi * 256 + lo
      → Tells (arguments inet_ntop little mode (notice x baddr bport)) hi lo w
  unfolding arguments
  arguments_tell x hi lo w p q hw (family, addr) port = rw family (
    read_ip4p-bytes x.port x.addr0 hi lo w p q hw addr port,
    ap (λ n. strtoul10 (snprintf 32 (print_unsigned n))) port
        ∙ port_text (hi * 256 + lo) (omega arith),
  )

  -- On a little-endian host, from a response that carries the IPv4 address `w` and the port
  -- `hi lo`, both masked, behind any attributes of other types, the script is told both: the
  -- port that it is given reads back as `hi lo`, and so do the port and the address in the IP4P
  -- address that it is given.
  pub stun_unpack-Tells :
      (msg : StunMessage) (t0 t1 t2 : Quad)
      → HasId little t0 t1 t2 msg
      → (front : List ℕ) (others : List Attribute) → All IsSkipped others
      → (rest : List ℕ) (n : ℕ) → 0 < n
      → (hi lo : ℕ) (w g1 g2 g3 : Quad) → hi < 256
      → lo < 256
      → IsQuad w
      → (x : Endpoint) × (unpacked little msg front others n
            (xor_mapped4 hi lo w (quad g1 (quad g2 (quad g3 rest))))
          ≡ ok (some x))
        × Tells (arguments inet_ntop little mode (notice x baddr bport)) hi lo w
  stun_unpack-Tells msg t0 t1 t2 id front others skipped rest n left hi lo w g1 g2 g3 p q hw =
      let (x, found, mapping, port) =
        stun_unpack-xor_mapped4 little msg t0 t1 t2 id front others skipped rest n left hi lo p q w
          g1 g2 g3 hw refl in
      (x, found, arguments_tell x hi lo w p q hw mapping port)
