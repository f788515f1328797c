-- ===== src/Conf/Bport/Walk.antt =====
-- src/hev-conf.c: the ports that a keeper binds, which asks for the next one behind a failure.
use natmap.Prelude.{
  ℕ, suc, ◌+◌, ◌-◌, ◌%◌, ◌≤◌, ◌<◌, ◌≡◌, ◌⊎◌, inl, inr, refl, ap, sym, ◌∙◌, Bool, true, false, ◌||◌,
  List, [], ◌∷◌, some, arith, ltb, if◌then◌else◌, Bool-cases,
}
use native.Mathlib.Nat.{mod-lt}
use natmap.Prelude.Int.{pos}
use natmap.Prelude.Modulo.{wrap, along}
use natmap.Text.{print_unsigned}
use natmap.Text.Decimal.{print_unsigned-ne-nil}
use natmap.Conf.{Conf, is_empty}
use natmap.Conf.Bport.{hev_conf_bport}
use natmap.Conf.Bport.Ports.{InRange, bport_sequential}

module _ (lo hi : ℕ) (ordered : lo ≤ hi) (fits : hi < 65536) where
  -- The port of the range behind so many failures.
  abbrev pub nth_port : ℕ → ℕ
  nth_port fails = lo + fails % (hi - lo + 1)

  -- The range is walked in order; behind so many failures, the port is to be chosen, or it is the
  -- one of the text.
  pub record IsWalk (fails : ℕ) (next : Bool) (k : Conf) : Type 0 where
    pub range : InRange lo hi k
    pub in_order : k.brand ≡ false
    pub place :
        ((is_empty k.port || next ≡ true) × (range.current ≡ nth_port fails))
        ⊎ ((is_empty k.port || next ≡ false)
            × (k.port ≡ print_unsigned (nth_port fails))
            × (range.current ≡ nth_port (suc fails)))

  following_port :
      (g : ℕ) → (if ltb hi (nth_port g + 1) then lo else nth_port g + 1) ≡ nth_port (suc g)
  following_port g =
      let below = mod-lt g {m = hi - lo + 1} (omega arith) in
      let next : suc g ≡ g + 1 = omega arith in
      elim (Bool-cases (ltb hi (nth_port g + 1))) [
        | inl last ↦
            let around = wrap (hi - lo + 1) g (omega arith) (ground arith) in
            rw (last, next) (omega (arith, around))
        | inr inside ↦
            let on = along (hi - lo + 1) g (omega arith) (ground arith) in
            rw (inside, next) (omega (arith, on))
      ]

  -- Behind a call: the text is that of the port behind so many failures, the next one is to come.
  pub record IsCalled (fails : ℕ) (k : Conf) : Type 0 where
    pub range : InRange lo hi k
    pub in_order : k.brand ≡ false
    pub text : k.port ≡ print_unsigned (nth_port fails)
    pub current : range.current ≡ nth_port (suc fails)

  -- Whether the attempt fails decides on what the next call gives.
  pub IsCalled-IsWalk :
      (fails : ℕ) (k : Conf) (failed : Bool)
      → IsCalled fails k
      → IsWalk (if failed then suc fails else fails) failed k
  IsCalled-IsWalk fails k true c = record {
    range = c.range;
    in_order = c.in_order;
    place = inl (or_true (is_empty k.port), c.current);
  }
    where
      or_true : (b : Bool) → b || true ≡ true
      or_true b = ground arith
  IsCalled-IsWalk fails k false c =
      let given : is_empty k.port ≡ false = text_given (nth_port fails) k.port c.text in
      record {
        range = c.range;
        in_order = c.in_order;
        place = inr (rw given refl, c.text, c.current);
      }
    where
      text_given : (n : ℕ) (s : List ℕ) → s ≡ print_unsigned n → is_empty s ≡ false
      text_given n [] e = absurd (print_unsigned-ne-nil n (sym e))
      text_given n (c ∷ s) e = refl

  pub hev_conf_bport-IsCalled :
      (r fails : ℕ) (next : Bool) (k : Conf)
      → IsWalk fails next k
      → (k' : Conf) × (hev_conf_bport r next k ≡ some k') × IsCalled fails k'
  unfolding hev_conf_bport
  hev_conf_bport-IsCalled r fails next k w = elim w.place [
    | inr (kept, text, current) ↦ (
      k,
      rw kept refl,
      record { range = w.range; in_order = w.in_order; text = text; current = current },
    )
    | inl (fresh, current) ↦ (
      _,
      bport_sequential lo hi ordered fits r next k w.range fresh w.in_order,
      record {
        range = record {
          low = w.range.low;
          high = w.range.high;
          current = nth_port (suc fails);
          current_eq =
              ap (λ c. pos (if ltb hi (c + 1) then lo else c + 1)) current
              ∙ ap pos (following_port fails);
          above = omega arith;
          below = omega (arith, mod-lt (suc fails) {m = hi - lo + 1} (omega arith));
        };
        in_order = w.in_order;
        text = ap print_unsigned current;
        current = refl;
      },
    )
  ]
