-- ===== src/Conf/CommandLine.antt =====
-- src/hev-conf.c with src/hev-compat.c: `hev_conf_init` on the words of the command line.
use natmap.Prelude.{
  ℕ, suc, ◌≡◌, refl, ap, ◌∙◌, List, [], ◌∷◌, Bool, true, false, Option, none, some, arith, ◌==◌,
  if◌then◌else◌, All,
}
use natmap.Prelude.Int.{pos}
use natmap.Text.Server.{IsHost, scan_server_lem}
use natmap.Compat.{initial, options}
use natmap.Compat.Ends.{letters_from, IsText}
use natmap.Compat.Grammar.{Declared, Items}
use natmap.Compat.Kinds.{optstring_of, AreLetters}
use natmap.Compat.Printed.{Setting, words_of, items_of, IsSetting, options-words_of}
use natmap.Conf.{Conf, defaults, any4, apply_option, parse_options, check_conf, hev_conf_init}

-- "46udk:c:s:h:e:f:b:C:T:t:p:i:"
abbrev pub declared : Declared
declared =
    (b'4', false)
    ∷ (b'6', false)
    ∷ (b'u', false)
    ∷ (b'd', false)
    ∷ (b'k', true)
    ∷ (b'c', true)
    ∷ (b's', true)
    ∷ (b'h', true)
    ∷ (b'e', true)
    ∷ (b'f', true)
    ∷ (b'b', true)
    ∷ (b'C', true)
    ∷ (b'T', true)
    ∷ (b't', true)
    ∷ (b'p', true)
    ∷ (b'i', true)
    ∷ []

abbrev pub with_options : (List (ℕ × List ℕ) → Option Conf) → Option Items → Option Conf
with_options f none = none
with_options f (some items) = f items

-- The whole of it, over the loop that calls `getopt`, with as much fuel as the words have
-- characters, and one more.
pub hev_conf_init_argv : (ℕ → List ℕ → Bool) → ℕ → List (List ℕ) → Option Conf
hev_conf_init_argv inet_pton c0 argv =
    with_options (hev_conf_init inet_pton c0)
      (options argv (optstring_of declared) (suc (letters_from argv 1)) initial)

declared-AreLetters : AreLetters declared
declared-AreLetters = omega arith

init-words_of :
    (inet_pton : ℕ → List ℕ → Bool) (c0 : ℕ) (name : List ℕ) (l : List Setting)
    → IsText name
    → All (IsSetting declared) l
    → hev_conf_init_argv inet_pton c0 (name ∷ words_of l)
      ≡ hev_conf_init inet_pton c0 (items_of [] l)
unfolding hev_conf_init_argv
init-words_of inet_pton c0 name l text h =
    ap (with_options (hev_conf_init inet_pton c0))
      (options-words_of declared name l declared-AreLetters text h)

-- "-s", "-h", "-t" and "-p", each with its argument.
abbrev pub forward_settings : (stun http taddr tport : List ℕ) → List Setting
forward_settings stun http taddr tport =
    (b's', some stun) ∷ (b'h', some http) ∷ (b't', some taddr) ∷ (b'p', some tport) ∷ []

init_forward :
    (inet_pton : ℕ → List ℕ → Bool) (c0 : ℕ) (stun http taddr tport : List ℕ)
    → IsHost stun
    → IsHost http
    → hev_conf_init inet_pton c0 (items_of [] (forward_settings stun http taddr tport))
      ≡ some (record defaults {
        stun = stun;
        http = http;
        taddr = some taddr;
        tport = some tport;
        keep = pos 30000;
        ucount = 10;
        tmsec = pos 300000;
        baddr = some any4;
        brand = if c0 == b'~' then true else false;
      })
unfolding hev_conf_init parse_options apply_option check_conf
init_forward inet_pton c0 [] http taddr tport h h' = absurd (omega arith)
init_forward inet_pton c0 (c ∷ stun) [] taddr tport h h' = absurd (omega arith)
init_forward inet_pton c0 (c ∷ stun) (d ∷ http) taddr tport h h' =
    let (s0, s1) = scan_server_lem (c ∷ stun) (b'1' ∷ []) [] defaults.sport h (omega arith) in
    let (h0, h1) = scan_server_lem (d ∷ http) (b'1' ∷ []) [] defaults.hport h' (omega arith) in
    rw (s1, h1) refl

-- For host names of 1 to 255 characters without a colon, and a target and its port as any texts,
-- none with a zero inside: where the command line names the program and then gives "-s", "-h", "-t"
-- and "-p" with these as arguments, `getopt` and `hev_conf_init` together accept it, and the
-- configuration has these texts and the documented defaults besides; only the choice between
-- random and sequential ports is by what the uninitialised variable held.
pub hev_conf_init_argv-forward_settings :
    (inet_pton : ℕ → List ℕ → Bool) (c0 : ℕ) (name stun http taddr tport : List ℕ)
    → IsHost stun
    → IsHost http
    → All IsText (name ∷ stun ∷ http ∷ taddr ∷ tport ∷ [])
    → hev_conf_init_argv inet_pton c0 (name ∷ words_of (forward_settings stun http taddr tport))
      ≡ some (record defaults {
        stun = stun;
        http = http;
        taddr = some taddr;
        tport = some tport;
        keep = pos 30000;
        ucount = 10;
        tmsec = pos 300000;
        baddr = some any4;
        brand = if c0 == b'~' then true else false;
      })
hev_conf_init_argv-forward_settings inet_pton c0 name stun http taddr tport h h'
      (n, (s, (w, (t, (p, u))))) =
    init-words_of inet_pton c0 name (forward_settings stun http taddr tport) n (
      (refl, omega arith, omega arith, s),
      (
        (refl, omega arith, omega arith, w),
        ((refl, omega arith, omega arith, t), ((refl, omega arith, omega arith, p), tt)),
      ),
    )
    ∙ init_forward inet_pton c0 stun http taddr tport h h'
