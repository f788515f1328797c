-- ===== src/Conf/Binding.antt =====
-- src/hev-conf.c: from the command line to the ports that are bound.
use natmap.Prelude.{
  ℕ, suc, ◌+◌, ◌-◌, ◌%◌, ◌≤◌, ◌<◌, ◌≡◌, ◌≢◌, inl, inr, refl, ap, ◌∙◌, Bool, false, List, [], ◌∷◌,
  some, arith, All, Option-cases,
}
use natmap.Prelude.Int.{pos}
use natmap.Text.{print_unsigned, strtoul10}
use natmap.Conf.{Conf, Parse, defaults, apply_option, parse_options, check_conf, hev_conf_init}
use natmap.Conf.Valid.{IsConf, parse_options_inv, hev_conf_init-IsConf}
use native.Mathlib.Nat.{zero-mod}
use natmap.Conf.Bport.Walk.{IsWalk}
use natmap.Conf.Bport.Ports.{
  InRange, bport_calls, bport_calls-range, bport_rounds, bport_rounds-cycle,
}

pub init-ordered :
    (k : Conf) (lo hi : ℕ) → IsConf k → k.bport0 ≡ pos lo → k.bport1 ≡ pos hi → lo ≤ hi
init-ordered k lo hi v p q = ground (arith, v.range_ordered)

init-InRange :
    (k : Conf) (lo hi : ℕ) → IsConf k → k.bport0 ≡ pos lo → k.bport1 ≡ pos hi → InRange lo hi k
init-InRange k lo hi v p q = record {
  low = p;
  high = q;
  current = lo;
  current_eq = v.range_start ∙ p;
  above = omega arith;
  below = init-ordered k lo hi v p q;
}

-- A fresh configuration whose range is not random begins at its first port.
pub init-IsWalk :
    (k : Conf) (lo hi : ℕ) (v : IsConf k) (p : k.bport0 ≡ pos lo) (q : k.bport1 ≡ pos hi)
    (fits : hi < 65536)
    → k.brand ≡ false
    → IsWalk lo hi (init-ordered k lo hi v p q) fits 0 false k
unfolding init-InRange
init-IsWalk k lo hi v p q fits walked =
    let first : lo ≡ lo + 0 % (hi - lo + 1) = omega (arith, zero-mod (hi - lo + 1)) in
    record {
      range = init-InRange k lo hi v p q;
      in_order = walked;
      place = inl (rw v.port_unset refl, first);
    }

-- No `-b` leaves the range at 0 to 0.
abbrev IsUnbound : Conf → Type 0
IsUnbound k = (k.bport0 ≡ pos 0) × (k.bport1 ≡ pos 0)

apply_option-IsUnbound :
    (opt : ℕ) (arg : List ℕ) (p p' : Parse)
    → opt ≢ b'b'
    → IsUnbound p.conf
    → apply_option opt arg p ≡ some p'
    → IsUnbound p'.conf
unfolding apply_option
apply_option-IsUnbound opt arg p p' other h e = ground arith

check_conf-IsUnbound :
    (inet_pton : ℕ → List ℕ → Bool) (c : ℕ) (k k' : Conf)
    → IsUnbound k
    → check_conf inet_pton c k ≡ some k'
    → IsUnbound k'
unfolding check_conf
check_conf-IsUnbound inet_pton c k k' h e = ground arith

hev_conf_init-IsUnbound :
    (inet_pton : ℕ → List ℕ → Bool) (c0 : ℕ) (opts : List (ℕ × List ℕ)) (k : Conf)
    → All (λ o. o.0 ≢ b'b') opts
    → hev_conf_init inet_pton c0 opts ≡ some k
    → IsUnbound k
unfolding hev_conf_init
hev_conf_init-IsUnbound inet_pton c0 opts k others e =
    elim (Option-cases (parse_options opts start)) [
      | inl refused ↦ cc (rw (refused, hev_conf_init) at e)
      | inr (p, parsed) ↦
          check_conf-IsUnbound inet_pton p.c p.conf k
            (parse_options_inv IsUnbound (λ o. o ≢ b'b') apply_option-IsUnbound opts start p others
              (refl, refl) parsed)
            (rw (parsed, hev_conf_init) at e)
    ]
  where
    start : Parse
    start = record { conf = defaults; c = c0 }

module _ (inet_pton : ℕ → List ℕ → Bool) (c0 : ℕ) (opts : List (ℕ × List ℕ)) (k : Conf)
    (accepted : hev_conf_init inet_pton c0 opts ≡ some k) where
  -- For a configuration that `hev_conf_init` accepts, with a range of ports below 65536, every run of calls of `hev_conf_bport`, whatever `rand`
  -- gives and whichever calls ask for the next port, ends without a trap, and each text that it
  -- returns is read back by `strtoul` as a port of the range.
  pub hev_conf_bport-range :
      (lo hi : ℕ)
      → k.bport0 ≡ pos lo
      → k.bport1 ≡ pos hi
      → hi < 65536
      → (calls : List (ℕ × Bool))
      → (texts : List (List ℕ)) × (bport_calls calls k ≡ some texts)
        × All (λ s. (lo ≤ strtoul10 s) × (strtoul10 s ≤ hi)) texts
  hev_conf_bport-range lo hi p q fits calls =
      let v = hev_conf_init-IsConf inet_pton c0 opts k accepted in
      bport_calls-range lo hi (init-ordered k lo hi v p q) fits calls k (init-InRange k lo hi v p q)
        (inl v.port_unset)

  -- For a configuration that `hev_conf_init` accepts, with a range of ports below 65536 that is not
  -- random: the range is walked in order and around, so the text behind `i` steps is that of the
  -- first port plus `i` modulo the size of the range.
  pub hev_conf_bport-cycle :
      (lo hi i : ℕ)
      → k.bport0 ≡ pos lo
      → k.bport1 ≡ pos hi
      → hi < 65536
      → k.brand ≡ false
      → (k' : Conf) × (bport_rounds (suc i) k ≡ some k')
        × (k'.port ≡ print_unsigned (lo + i % (hi - lo + 1)))
  unfolding init-InRange
  hev_conf_bport-cycle lo hi i p q fits walked =
      let v = hev_conf_init-IsConf inet_pton c0 opts k accepted in
      let (k', rounds, text) =
        bport_rounds-cycle lo hi (init-ordered k lo hi v p q) fits i k (init-InRange k lo hi v p q)
          walked in
      let start : lo - lo + i ≡ i = omega arith in
      (k', rounds, text ∙ ap (λ m. print_unsigned (lo + m % (hi - lo + 1))) start)

  -- For a configuration that `hev_conf_init` accepts from options without `-b`, every run of calls of
  -- `hev_conf_bport` ends, and each text reads as port 0, whatever the uninitialised variable held,
  -- which may have turned on the random choice.
  pub hev_conf_bport-unbound :
      All (λ o. o.0 ≢ b'b') opts
      → (calls : List (ℕ × Bool))
      → (texts : List (List ℕ)) × (bport_calls calls k ≡ some texts)
        × All (λ s. strtoul10 s ≡ 0) texts
  hev_conf_bport-unbound others calls =
      let (lo, hi) = hev_conf_init-IsUnbound inet_pton c0 opts k others accepted in
      let (texts, ran, all) = hev_conf_bport-range 0 0 lo hi (omega arith) calls in
      (texts, ran, all_zero texts all)
    where
      all_zero :
          (texts : List (List ℕ))
          → All (λ s. (0 ≤ strtoul10 s) × (strtoul10 s ≤ 0)) texts
          → All (λ s. strtoul10 s ≡ 0) texts
      all_zero [] h = tt
      all_zero (s ∷ texts) h = (omega arith, all_zero texts h.1)
