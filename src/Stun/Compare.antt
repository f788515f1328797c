-- ===== src/Stun/Compare.antt =====
-- src/hev-stun.c: `cmp_addr`, which says whether the mapping is another one than at its last call.
use natmap.Prelude.{ℕ, ◌≡◌, ◌↔◌, Bool, true, false, not, ◌||◌, ◌==◌, arith}
use natmap.Stun.Unpack.{Family, inet, inet6}

-- `unsigned int [4]`
pub record Words : Type 0 where
  pub w0 : ℕ
  pub w1 : ℕ
  pub w2 : ℕ
  pub w3 : ℕ

-- The static variables of `cmp_addr`.
pub record Last : Type 0 where
  pub pmaddr : Words
  pub pmport : ℕ
  pub pbaddr : Words
  pub pbport : ℕ

abbrev pub initial_last : Last
initial_last = record {
  pmaddr = record { w0 = 0; w1 = 0; w2 = 0; w3 = 0 };
  pmport = 0;
  pbaddr = record { w0 = 0; w1 = 0; w2 = 0; w3 = 0 };
  pbport = 0;
}

-- `memcmp (a, b, 4)` and `memcmp (a, b, 16)` as tests of a difference.
abbrev differs : Family → Words → Words → Bool
differs inet a b = not (a.w0 == b.w0)
differs inet6 a b =
    not (a.w0 == b.w0) || not (a.w1 == b.w1) || not (a.w2 == b.w2) || not (a.w3 == b.w3)

-- What is copied: for IPv4 one word, and the rest is cleared.
abbrev pub normal : Family → Words → Words
normal inet a = record { w0 = a.w0; w1 = 0; w2 = 0; w3 = 0 }
normal inet6 a = a

-- True for a nonzero result, with the new static variables.
pub cmp_addr : Family → Words → ℕ → Words → ℕ → Last → Bool × Last
cmp_addr family maddr mport baddr bport s = (
  not (s.pbport == bport)
      || not (s.pmport == mport)
      || differs family s.pmaddr maddr
      || differs family s.pbaddr baddr,
  record {
    pmaddr = normal family maddr;
    pmport = mport;
    pbaddr = normal family baddr;
    pbport = bport;
  },
)

-- A call reports no change exactly when it is given the mapping of the call before it: both ports,
-- and of both addresses the words that the family has.
pub cmp_addr_unchanged_iff :
    (f : Family) (m m' b b' : Words) (mp mp' bp bp' : ℕ) (s : Last)
    → ((cmp_addr f m' mp' b' bp' (cmp_addr f m mp b bp s).1).0 ≡ false)
      ↔ ((normal f m' ≡ normal f m) × (mp' ≡ mp) × (normal f b' ≡ normal f b) × (bp' ≡ bp))
unfolding cmp_addr
cmp_addr_unchanged_iff inet m m' b b' mp mp' bp bp' s = (ground arith, ground arith)
cmp_addr_unchanged_iff inet6 m m' b b' mp mp' bp bp' s = (ground arith, ground arith)

-- The words of an address that `memcmp` compares, and those that `memcpy` leaves behind `memset`.
abbrev pub SameAddress : Family → Words → Words → Type 0
SameAddress inet a b = a.w0 ≡ b.w0
SameAddress inet6 a b = (a.w0 ≡ b.w0) × (a.w1 ≡ b.w1) × (a.w2 ≡ b.w2) × (a.w3 ≡ b.w3)

abbrev pub IsCopy : Family → Words → Words → Type 0
IsCopy inet a b = (a.w0 ≡ b.w0) × (a.w1 ≡ 0) × (a.w2 ≡ 0) × (a.w3 ≡ 0)
IsCopy inet6 a b = (a.w0 ≡ b.w0) × (a.w1 ≡ b.w1) × (a.w2 ≡ b.w2) × (a.w3 ≡ b.w3)

-- The mapping is the one of these variables: both ports, and both addresses.
abbrev pub IsLast : (f : Family) (m : Words) (mp : ℕ) (b : Words) (bp : ℕ) → Last → Type 0
IsLast f m mp b bp l =
    (l.pmport ≡ mp) × (l.pbport ≡ bp) × SameAddress f l.pmaddr m × SameAddress f l.pbaddr b

-- The variables that it leaves.
abbrev pub IsRemembered : (f : Family) (m : Words) (mp : ℕ) (b : Words) (bp : ℕ) → Last → Type 0
IsRemembered f m mp b bp l =
    (l.pmport ≡ mp) × (l.pbport ≡ bp) × IsCopy f l.pmaddr m × IsCopy f l.pbaddr b

pub cmp_addr-IsRemembered :
    (f : Family) (m : Words) (mp : ℕ) (b : Words) (bp : ℕ) (l : Last)
    → IsRemembered f m mp b bp (cmp_addr f m mp b bp l).1
unfolding cmp_addr
cmp_addr-IsRemembered inet m mp b bp l = ground arith
cmp_addr-IsRemembered inet6 m mp b bp l = ground arith

pub cmp_addr_unchanged :
    (f : Family) (m : Words) (mp : ℕ) (b : Words) (bp : ℕ) (l : Last)
    → (cmp_addr f m mp b bp l).0 ≡ false
    → IsLast f m mp b bp l
unfolding cmp_addr
cmp_addr_unchanged inet m mp b bp l h = ground arith
cmp_addr_unchanged inet6 m mp b bp l h = ground arith

pub cmp_addr_changed :
    (f : Family) (m : Words) (mp : ℕ) (b : Words) (bp : ℕ) (l : Last)
    → (cmp_addr f m mp b bp l).0 ≡ true
    → IsLast f m mp b bp l
    → ⊥
unfolding cmp_addr
cmp_addr_changed inet m mp b bp l h same = ground arith
cmp_addr_changed inet6 m mp b bp l h same = ground arith
