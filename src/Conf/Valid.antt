-- ===== src/Conf/Valid.antt =====
-- src/hev-conf.c: what a configuration that `hev_conf_init` accepts satisfies.
use natmap.Prelude.{
  ℕ, ◌<◌, ◌≡◌, ◌≢◌, ◌⊎◌, inl, inr, refl, Bool, false, List, [], ◌∷◌, none, some, arith,
  Option-cases, All,
}
use mathlib.Core.Path.{subst}
use mathlib.Core.Option.{some-injective}
use natmap.Prelude.Int.{is_nonpos, ltb_ℤ}
use natmap.Host.{af_inet, af_inet6, sock_stream, sock_dgram}
use natmap.Conf.{Conf, Parse, defaults, apply_option, parse_options, check_conf, hev_conf_init}

-- What the rest of the program relies on.
pub record IsConf (k : Conf) : Type 0 where
  pub mode_known : (k.mode ≡ sock_stream) ⊎ (k.mode ≡ sock_dgram)
  pub type_known : (k.type ≡ af_inet) ⊎ (k.type ≡ af_inet6)
  pub keep_positive : is_nonpos k.keep ≡ false
  pub ucount_positive : 0 < k.ucount
  pub tmsec_positive : is_nonpos k.tmsec ≡ false
  pub stun_given : k.stun ≢ []
  pub http_given : k.mode ≡ sock_stream → k.http ≢ []
  pub target_whole : ((k.taddr ≡ none) × (k.tport ≡ none)) ⊎ ((k.taddr ≢ none) × (k.tport ≢ none))
  pub range_ordered : ltb_ℤ k.bport1 k.bport0 ≡ false
  pub range_start : k.bport2 ≡ k.bport0
  pub port_unset : k.port ≡ []
  pub address_given : k.baddr ≢ none

-- What the loop keeps.
record IsParse (k : Conf) : Type 0 where
  mode_known : (k.mode ≡ sock_stream) ⊎ (k.mode ≡ sock_dgram)
  type_known : (k.type ≡ af_inet) ⊎ (k.type ≡ af_inet6)
  port_unset : k.port ≡ []

apply_option-IsParse :
    (opt : ℕ) (arg : List ℕ) (p p' : Parse)
    → IsParse p.conf
    → apply_option opt arg p ≡ some p'
    → IsParse p'.conf
unfolding apply_option
apply_option-IsParse opt arg p p' h e = ground arith

-- What every round keeps, given its option, the loop keeps.
pub parse_options_inv :
    (P : Conf → Type 0) (Q : ℕ → Type 0)
    → ((opt : ℕ) (arg : List ℕ) (p p' : Parse)
        → Q opt
        → P p.conf
        → apply_option opt arg p ≡ some p'
        → P p'.conf)
    → (opts : List (ℕ × List ℕ)) (p p' : Parse) → All (λ o. Q o.0) opts
    → P p.conf
    → parse_options opts p ≡ some p'
    → P p'.conf
unfolding parse_options
parse_options_inv P Q keep [] p p' qs h e =
    subst (λ (r : Parse). P r.conf) (some-injective p p' e) h
parse_options_inv P Q keep ((opt, arg) ∷ opts) p p' qs h e =
    elim (Option-cases (apply_option opt arg p)) [
      | inl refused ↦ cc (rw (refused, parse_options) at e)
      | inr (q, accepted) ↦
          parse_options_inv P Q keep opts q p' qs.1 (keep opt arg p q qs.0 h accepted)
            (rw (accepted, parse_options) at e)
    ]

All-options : (opts : List (ℕ × List ℕ)) → All (λ o. Unit {0}) opts
All-options [] = tt
All-options (o ∷ opts) = (tt, All-options opts)

module _ (inet_pton : ℕ → List ℕ → Bool) where
  check_conf-IsConf :
      (c : ℕ) (k k' : Conf) → IsParse k → check_conf inet_pton c k ≡ some k' → IsConf k'
  unfolding check_conf
  check_conf-IsConf c k k' h e = ground arith

  -- For every command line, every answer of `inet_pton` and every content of the uninitialised
  -- variable: a configuration that is accepted has a known mode and family, positive intervals and
  -- count, a STUN server, an HTTP server in TCP mode, a forward target with both address and port
  -- or neither, a port range that is in order and starts at its first port, and an address to bind.
  pub hev_conf_init-IsConf :
      (c0 : ℕ) (opts : List (ℕ × List ℕ)) (k : Conf)
      → hev_conf_init inet_pton c0 opts ≡ some k
      → IsConf k
  unfolding hev_conf_init
  hev_conf_init-IsConf c0 opts k e = elim (Option-cases (parse_options opts start)) [
    | inl refused ↦ cc (rw (refused, hev_conf_init) at e)
    | inr (p, parsed) ↦
        check_conf-IsConf p.c p.conf k
          (parse_options_inv IsParse (λ _. Unit {0})
            (λ opt arg q q' _. apply_option-IsParse opt arg q q') opts start p (All-options opts)
            (record { mode_known = inl refl; type_known = inl refl; port_unset = refl }) parsed)
          (rw (parsed, hev_conf_init) at e)
  ]
    where
      start : Parse
      start = record { conf = defaults; c = c0 }
