-- ===== src/Stun/Message.antt =====
-- src/hev-stun.c: the wire structures, the host's view of bytes in memory, and `stun_pack`.
-- The host's byte order is a parameter: the structures are read by plain loads of the host, and
-- `htons` and `htonl` turn them to network order.
pub mod Loads
pub mod Masks
use natmap.Prelude.{
  ℕ, ◌+◌, ◌*◌, ◌/◌, ◌%◌, ◌^◌, ◌<◌, ◌≡◌, refl, List, [], ◌∷◌, Option, none, some, arith, get_elem?,
  get_or,
}

pub data ByteOrder : Type 0 where
  little big : ByteOrder

-- A load of two or four bytes, lowest address first.
abbrev pub word16 : ByteOrder → ℕ → ℕ → ℕ
word16 little b0 b1 = b0 + b1 * 256
word16 big b0 b1 = b0 * 256 + b1

abbrev pub word32 : ByteOrder → ℕ → ℕ → ℕ → ℕ → ℕ
word32 little b0 b1 b2 b3 = b0 + b1 * 256 + b2 * 65536 + b3 * 16777216
word32 big b0 b1 b2 b3 = b0 * 16777216 + b1 * 65536 + b2 * 256 + b3

-- `htons` and `ntohs` are one function, and so are `htonl` and `ntohl`.
abbrev pub htons : ByteOrder → ℕ → ℕ
htons little x = x % 256 * 256 + x / 256 % 256
htons big x = x % 65536

abbrev pub htonl : ByteOrder → ℕ → ℕ
htonl little x =
    x % 256 * 16777216 + x / 256 % 256 * 65536 + x / 65536 % 256 * 256 + x / 16777216 % 256
htonl big x = x % 2 ^ 32

-- A run that may leave its buffer or its fuel.
pub data Run {ℓ} (A : Type ℓ) : Type ℓ where
  ok : A → Run A
  fault : Run A
  out_of_fuel : Run A

infixl 5 ◌>>=◌
abbrev pub ◌>>=◌ {ℓ κ} : {A : Type ℓ} {B : Type κ} → Run A → (A → Run B) → Run B
ok a >>= f = f a
fault >>= f = fault
out_of_fuel >>= f = out_of_fuel

-- A load beyond the buffer is a fault.
abbrev pub load8 : List ℕ → ℕ → Run ℕ
load8 m i = elim (get_elem? m i) [ none ↦ fault | some b ↦ ok b ]

unfoldable pub load16 : ByteOrder → List ℕ → ℕ → Run ℕ
load16 e m i = do b0 ← load8 m i; b1 ← load8 m (i + 1); ok (word16 e b0 b1)

unfoldable pub load32 : ByteOrder → List ℕ → ℕ → Run ℕ
load32 e m i = do
  b0 ← load8 m i
  b1 ← load8 m (i + 1)
  b2 ← load8 m (i + 2)
  b3 ← load8 m (i + 3)
  ok (word32 e b0 b1 b2 b3)

-- `struct _StunMessage`, each field as the host reads it.
pub record StunMessage : Type 0 where
  pub type : ℕ
  pub size : ℕ
  pub magic : ℕ
  pub tid0 : ℕ
  pub tid1 : ℕ
  pub tid2 : ℕ

abbrev pub magic_cookie : ℕ
magic_cookie = 0x2112A442

abbrev pub mapped_addr : ℕ
mapped_addr = 0x0001

abbrev pub xor_mapped_addr : ℕ
xor_mapped_addr = 0x0020

-- `stun_pack`, with the three values that `rand` returns; a store into `unsigned int` keeps 32 bits.
unfoldable pub stun_pack : ByteOrder → ℕ → ℕ → ℕ → StunMessage
stun_pack e r0 r1 r2 = record {
  type = htons e 0x0001;
  size = htons e 0x0000;
  magic = htonl e magic_cookie;
  tid0 = r0 % 2 ^ 32;
  tid1 = r1 % 2 ^ 32;
  tid2 = r2 % 2 ^ 32;
}

-- The bytes that the host stores for a word of two or four bytes.
abbrev pub bytes16 : ByteOrder → ℕ → List ℕ → List ℕ
bytes16 little x rest = x % 256 ∷ x / 256 % 256 ∷ rest
bytes16 big x rest = x / 256 % 256 ∷ x % 256 ∷ rest

abbrev pub bytes32 : ByteOrder → ℕ → List ℕ → List ℕ
bytes32 little x rest = x % 256 ∷ x / 256 % 256 ∷ x / 65536 % 256 ∷ x / 16777216 % 256 ∷ rest
bytes32 big x rest = x / 16777216 % 256 ∷ x / 65536 % 256 ∷ x / 256 % 256 ∷ x % 256 ∷ rest

-- The twenty bytes of the message, as `send` takes them.
unfoldable pub in_memory : ByteOrder → StunMessage → List ℕ
in_memory e m = bytes16 e m.type (
    bytes16 e m.size
      (bytes32 e m.magic (bytes32 e m.tid0 (bytes32 e m.tid1 (bytes32 e m.tid2 [])))))

-- The header as the host reads it where it lies in memory.
unfoldable pub of_memory : ByteOrder → List ℕ → StunMessage
of_memory e m = record {
  type = word16 e (get_or m 0 0) (get_or m 1 0);
  size = word16 e (get_or m 2 0) (get_or m 3 0);
  magic = word32 e (get_or m 4 0) (get_or m 5 0) (get_or m 6 0) (get_or m 7 0);
  tid0 = word32 e (get_or m 8 0) (get_or m 9 0) (get_or m 10 0) (get_or m 11 0);
  tid1 = word32 e (get_or m 12 0) (get_or m 13 0) (get_or m 14 0) (get_or m 15 0);
  tid2 = word32 e (get_or m 16 0) (get_or m 17 0) (get_or m 18 0) (get_or m 19 0);
}
