-- ===== src/Conf/Bport/Ports.antt =====
-- src/hev-conf.c: the ports that `hev_conf_bport` hands out.
use natmap.Prelude.{
  ℕ, zero, suc, ◌+◌, ◌-◌, ◌%◌, ◌≤◌, ◌<◌, ◌≡◌, ◌⊎◌, inl, inr, refl, Bool, true, false, ◌||◌, List,
  [], ◌∷◌, Option, none, some, arith, ltb, if◌then◌else◌, Bool-cases, ap, sym, ◌∙◌, All,
}
use natmap.Prelude.Int.{pos, add_int, sub_int}
use natmap.Text.{print_unsigned, strtoul10}
use natmap.Text.Decimal.{strtoul10-print_unsigned}
use native.Mathlib.Nat.{mod-lt, mod-eq_of_lt, add-mod_right}
use natmap.Conf.{Conf, is_empty}
use natmap.Conf.Bport.{hev_conf_bport}

-- The text is unset, or it is that of a number within the range.
abbrev pub IsPortText : (lo hi : ℕ) → List ℕ → Type 0
IsPortText lo hi s = (n : ℕ) × (s ≡ print_unsigned n) × (lo ≤ n) × (n ≤ hi)

-- The range is `lo` to `hi`, and the variables stay in it.
pub record InRange (lo hi : ℕ) (k : Conf) : Type 0 where
  pub low : k.bport0 ≡ pos lo
  pub high : k.bport1 ≡ pos hi
  pub current : ℕ
  pub current_eq : k.bport2 ≡ pos current
  pub above : lo ≤ current
  pub below : current ≤ hi

module _ (lo hi : ℕ) (ordered : lo ≤ hi) (fits : hi < 65536) where
  add_int-small : (a b : ℕ) → a + b < 131072 → add_int (pos a) (pos b) ≡ pos (a + b)
  add_int-small a b h = ground arith

  width : add_int (sub_int (pos hi) (pos lo)) (pos 1) ≡ pos (hi - lo + 1)
  width = ground arith

  module _ (r : ℕ) (next : Bool) (k : Conf) (h : InRange lo hi k)
      (fresh : (is_empty k.port || next) ≡ true) where
    abbrev drawn : ℕ
    drawn = lo + r % (hi - lo + 1)

    drawn_bounds : (lo ≤ drawn) × (drawn ≤ hi)
    drawn_bounds = (omega arith, omega (arith, mod-lt r {m = hi - lo + 1} (omega arith)))

    bport_random :
        k.brand ≡ true
        → hev_conf_bport r next k
          ≡ some (record k { port = print_unsigned drawn; bport2 = pos drawn })
    unfolding hev_conf_bport
    bport_random b =
        let sum = add_int-small lo (r % (hi - lo + 1)) (omega (arith, drawn_bounds)) in
        ground (arith, width, sum, drawn_bounds)

    abbrev pub following : ℕ
    following = if ltb hi (h.current + 1) then lo else h.current + 1

    pub bport_sequential :
        k.brand ≡ false
        → hev_conf_bport r next k
          ≡ some (record k { port = print_unsigned h.current; bport2 = pos following })
    unfolding hev_conf_bport
    bport_sequential b = ground (arith)

  -- A call with a port to choose.
  choose-InRange :
      (r : ℕ) (next : Bool) (k : Conf)
      → InRange lo hi k
      → (is_empty k.port || next) ≡ true
      → (k' : Conf) × (hev_conf_bport r next k ≡ some k')
        × InRange lo hi k'
        × IsPortText lo hi k'.port
  choose-InRange r next k h fresh = elim (Bool-cases k.brand) [
    | inl random ↦
        let (low, high) = drawn_bounds r next k h fresh in
        (
          _,
          bport_random r next k h fresh random,
          record {
            low = h.low;
            high = h.high;
            current = drawn r next k h fresh;
            current_eq = refl;
            above = low;
            below = high;
          },
          (drawn r next k h fresh, refl, low, high),
        )
    | inr walked ↦ (
      _,
      bport_sequential r next k h fresh walked,
      record {
        low = h.low;
        high = h.high;
        current = following r next k h fresh;
        current_eq = refl;
        above = ground arith;
        below = ground arith;
      },
      (h.current, refl, h.above, h.below),
    )
  ]

  -- Every call hands out a port of the range.
  hev_conf_bport-InRange :
      (r : ℕ) (next : Bool) (k : Conf)
      → InRange lo hi k
      → (k.port ≡ []) ⊎ IsPortText lo hi k.port
      → (k' : Conf) × (hev_conf_bport r next k ≡ some k')
        × InRange lo hi k'
        × IsPortText lo hi k'.port
  unfolding hev_conf_bport
  hev_conf_bport-InRange r next k h text = elim (Bool-cases (is_empty k.port || next)) [
    | inl fresh ↦ choose-InRange r next k h fresh
    | inr kept ↦
        (k, ground arith, h, elim text [ inl unset ↦ cc (rw unset at kept) | inr same ↦ same ])
  ]

-- The texts that a run of calls returns, each call with the value of `rand` and `next`.
pub bport_calls : List (ℕ × Bool) → Conf → Option (List (List ℕ))
bport_calls [] k = some []
bport_calls ((r, next) ∷ calls) k = elim (hev_conf_bport r next k) [
  | none ↦ none
  | some k' ↦ elim (bport_calls calls k') [ none ↦ none | some texts ↦ some (k'.port ∷ texts) ]
]

-- The configuration after a number of calls that each ask for the next port.
pub bport_rounds : ℕ → Conf → Option Conf
bport_rounds zero k = some k
bport_rounds (suc n) k = elim (hev_conf_bport 0 true k) [
  | none ↦ none
  | some k' ↦ bport_rounds n k'
]

module _ (lo hi : ℕ) (ordered : lo ≤ hi) (fits : hi < 65536) where
  pub read_port : (s : List ℕ) → IsPortText lo hi s → (lo ≤ strtoul10 s) × (strtoul10 s ≤ hi)
  read_port s (n, e, low, high) =
      let back = ap strtoul10 e ∙ strtoul10-print_unsigned n (omega arith) in
      (omega arith, omega arith)

  pub bport_calls-range :
      (calls : List (ℕ × Bool)) (k : Conf)
      → InRange lo hi k
      → (k.port ≡ []) ⊎ IsPortText lo hi k.port
      → (texts : List (List ℕ)) × (bport_calls calls k ≡ some texts)
        × All (λ s. (lo ≤ strtoul10 s) × (strtoul10 s ≤ hi)) texts
  unfolding bport_calls
  bport_calls-range [] k h text = ([], refl, tt)
  bport_calls-range ((r, next) ∷ calls) k h text =
      let (k', called, h', text') = hev_conf_bport-InRange lo hi ordered fits r next k h text in
      let (texts, rest, all) = bport_calls-range calls k' h' (inr text') in
      (k'.port ∷ texts, rw (called, rest, bport_calls), (read_port k'.port text', all))

  -- The place in the cycle, with the range walked in order.
  next_place :
      (cur i : ℕ)
      → lo ≤ cur
      → cur ≤ hi
      → ((if ltb hi (cur + 1) then lo else cur + 1) - lo + i) % (hi - lo + 1)
        ≡ (cur - lo + suc i) % (hi - lo + 1)
  next_place cur i low high = elim (Bool-cases (ltb hi (cur + 1))) [
    | inl last ↦
        let top : cur ≡ hi = ground arith in
        let around : cur - lo + suc i ≡ i + (hi - lo + 1) = omega (arith, top) in
        let home : lo - lo + i ≡ i = omega arith in
        rw (last, home, around) (sym (add-mod_right i (hi - lo + 1)))
    | inr inside ↦
        let along : cur + 1 - lo + i ≡ cur - lo + suc i = omega arith in rw (inside, along)
  ]

  pub bport_rounds-cycle :
      (i : ℕ) (k : Conf) (h : InRange lo hi k)
      → k.brand ≡ false
      → (k' : Conf) × (bport_rounds (suc i) k ≡ some k')
        × (k'.port ≡ print_unsigned (lo + (h.current - lo + i) % (hi - lo + 1)))
  unfolding bport_rounds
  bport_rounds-cycle zero k h walked =
      let called = bport_sequential lo hi ordered fits 0 true k h (ground arith) walked in
      let place : lo + (h.current - lo + 0) % (hi - lo + 1) ≡ h.current = omega (
        arith,
        h.above,
        h.below,
        mod-eq_of_lt {n = h.current - lo + 0} {m = hi - lo + 1} (omega arith),
      ) in
      (
        record k {
          port = print_unsigned h.current;
          bport2 = pos (following lo hi ordered fits 0 true k h (ground arith));
        },
        rw (called, bport_rounds),
        ap print_unsigned (sym place),
      )
  bport_rounds-cycle (suc i) k h walked =
      let called = bport_sequential lo hi ordered fits 0 true k h (ground arith) walked in
      let cur' = following lo hi ordered fits 0 true k h (ground arith) in
      let h' : InRange lo hi (record k { port = print_unsigned h.current; bport2 = pos cur' }) =
        record {
          low = h.low;
          high = h.high;
          current = cur';
          current_eq = refl;
          above = ground arith;
          below = ground arith;
        } in
      let (k', later, text) = bport_rounds-cycle i _ h' walked in
      (
        k',
        rw (called, bport_rounds) later,
        text ∙ ap (λ m. print_unsigned (lo + m)) (next_place h.current i h.above h.below),
      )
