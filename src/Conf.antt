-- ===== src/Conf.antt =====
-- src/hev-conf.c: the configuration, its checks and defaults, and the port to bind.
--
-- `getopt` gives the options one by one, so the command line is the list of what it returned, the
-- final -1 left off.
pub mod Valid
pub mod Getters
pub mod CommandLine
pub mod Bport
pub mod Binding
pub mod Tests
use natmap.Prelude.{
  ℕ, ◌+◌, ◌-◌, ◌*◌, ◌/◌, ◌%◌, ◌^◌, Bool, true, false, not, ◌&&◌, ◌||◌, List, [], ◌∷◌, Option, none,
  some, ltb, leb, ◌==◌, if◌then◌else◌,
}
use natmap.Prelude.Int.{
  ℤ, pos, negsuc, minus_one, is_neg, is_nonpos, int_of, unsigned_of, ltb_ℤ, add_int, sub_int,
}
use natmap.Host.{af_inet, af_inet6, sock_stream, sock_dgram}
use natmap.Text.{strtoul10, strtoul0, scan_unsigned, scan_server, print_unsigned}

-- The static variables; `port` is the one of `hev_conf_bport`.
pub record Conf : Type 0 where
  pub mode : ℕ
  pub type : ℕ
  pub keep : ℤ
  pub ucount : ℕ
  pub dmon : Bool
  pub tmsec : ℤ
  pub brand : Bool
  pub bport0 : ℤ
  pub bport1 : ℤ
  pub bport2 : ℤ
  pub mark : ℕ
  pub mport : List ℕ
  pub sport : List ℕ
  pub hport : List ℕ
  pub stun : List ℕ
  pub http : List ℕ
  pub path : Option (List ℕ)
  pub baddr : Option (List ℕ)
  pub taddr : Option (List ℕ)
  pub tport : Option (List ℕ)
  pub ttcca : Option (List ℕ)
  pub iface : Option (List ℕ)
  pub port : List ℕ

-- Their initial values: "3478" and "80" are the ports.
abbrev pub defaults : Conf
defaults = record {
  mode = sock_stream;
  type = af_inet;
  keep = pos 0;
  ucount = 0;
  dmon = false;
  tmsec = pos 0;
  brand = false;
  bport0 = pos 0;
  bport1 = pos 0;
  bport2 = pos 0;
  mark = 0;
  mport = [];
  sport = b'3' ∷ b'4' ∷ b'7' ∷ b'8' ∷ [];
  hport = b'8' ∷ b'0' ∷ [];
  stun = [];
  http = [];
  path = none;
  baddr = none;
  taddr = none;
  tport = none;
  ttcca = none;
  iface = none;
  port = [];
}

-- The loop's variables: the configuration and the local `c`.
pub record Parse : Type 0 where
  pub conf : Conf
  pub c : ℕ

-- `sscanf (optarg, "%u%c%u", &bport[0], &c, &bport[1])` assigns what it matches, from the left.
abbrev pub scan_range : List ℕ → Parse → Parse
scan_range arg p = elim (scan_unsigned arg) [
  | none ↦ p
  | some (lo, rest) ↦ elim rest [
    | [] ↦ record p { conf = record (p.conf) { bport0 = int_of lo } }
    | c' ∷ rest' ↦ elim (scan_unsigned rest') [
      | none ↦ record p { conf = record (p.conf) { bport0 = int_of lo }; c = c' }
      | some (hi, rest'') ↦ record p {
        conf = record (p.conf) { bport0 = int_of lo; bport1 = int_of hi };
        c = c';
      }
    ]
  ]
]

-- A number of seconds as milliseconds: the product wraps as `unsigned long`, then goes to an `int`.
abbrev pub millis : List ℕ → ℤ
millis arg = int_of (strtoul10 arg * 1000 % 2 ^ 64)

-- One round of the loop; null is the returned -1.
pub apply_option : ℕ → List ℕ → Parse → Option Parse
apply_option opt arg p =
    let conf = p.conf in
    let keeping = λ (k : Conf). some (record p { conf = k }) in
    if opt == b'4'
    then keeping (record conf { type = af_inet })
    else if opt == b'6'
    then keeping (record conf { type = af_inet6 })
    else if opt == b'u'
    then keeping (record conf { mode = sock_dgram })
    else if opt == b'd'
    then keeping (record conf { dmon = true })
    else if opt == b'k'
    then keeping (record conf { keep = millis arg })
    else if opt == b'c'
    then keeping (record conf { ucount = strtoul10 arg % 2 ^ 32 })
    else if opt == b's'
    then (let (stun', sport') = scan_server arg conf.stun conf.sport in
        keeping (record conf { stun = stun'; sport = sport' }))
    else if opt == b'h'
    then (let (http', hport') = scan_server arg conf.http conf.hport in
        keeping (record conf { http = http'; hport = hport' }))
    else if opt == b'e'
    then keeping (record conf { path = some arg })
    else if opt == b'f'
    then keeping (record conf { mark = strtoul0 arg % 2 ^ 32 })
    else if opt == b'b'
    then some (scan_range arg p)
    else if opt == b'C'
    then keeping (record conf { ttcca = some arg })
    else if opt == b'T'
    then keeping (record conf { tmsec = millis arg })
    else if opt == b't'
    then keeping (record conf { taddr = some arg })
    else if opt == b'p'
    then keeping (record conf { tport = some arg })
    else if opt == b'i'
    then keeping (record conf { iface = some arg })
    else none

pub parse_options : List (ℕ × List ℕ) → Parse → Option Parse
parse_options [] p = some p
parse_options ((opt, arg) ∷ opts) p = elim (apply_option opt arg p) [
  | none ↦ none
  | some p' ↦ parse_options opts p'
]

abbrev pub is_empty : List ℕ → Bool
is_empty [] = true
is_empty (c ∷ s) = false

abbrev is_null : Option (List ℕ) → Bool
is_null none = true
is_null (some s) = false

-- The three checks behind the loop that fail on what is missing.
abbrev pub is_incomplete : Conf → Bool
is_incomplete k =
    is_empty k.stun
    || (k.mode == sock_stream && is_empty k.http)
    || ((not (is_null k.taddr) && is_null k.tport) || (is_null k.taddr && not (is_null k.tport)))

abbrev default_intervals : Conf → Conf
default_intervals k = record k {
  keep =
      if is_nonpos k.keep then (if k.mode == sock_stream then pos 30000 else pos 10000) else k.keep;
  ucount = if k.ucount == 0 then 10 else k.ucount;
}

abbrev is_zero : ℤ → Bool
is_zero (pos n) = n == 0
is_zero (negsuc n) = false

abbrev default_ports : ℕ → Conf → Conf
default_ports c k = record k {
  brand = if c == b'~' then true else k.brand;
  bport1 = if is_zero k.bport1 then k.bport0 else k.bport1;
  bport2 = k.bport0;
}

-- "::" and "0.0.0.0"
abbrev pub any6 : List ℕ
any6 = b':' ∷ b':' ∷ []

abbrev pub any4 : List ℕ
any4 = b'0' ∷ b'.' ∷ b'0' ∷ b'.' ∷ b'0' ∷ b'.' ∷ b'0' ∷ []

-- `inet_pton` says whether a text is an address of the family.
module _ (inet_pton : ℕ → List ℕ → Bool) where
  abbrev is_address : ℕ → Option (List ℕ) → Bool
  is_address type none = false
  is_address type (some s) = inet_pton type s

  abbrev choose_address : Conf → Conf
  choose_address k =
      if is_address k.type k.iface
      then record k { baddr = k.iface; iface = none }
      else record k { baddr = some (if k.type == af_inet6 then any6 else any4) }

  -- All that follows the loop.
  pub check_conf : ℕ → Conf → Option Conf
  check_conf c k =
      if is_incomplete k
      then none
      else (let k' = default_ports c (default_intervals k) in
          if ltb_ℤ k'.bport1 k'.bport0
          then none
          else (let k'' = choose_address k' in
              some (record k'' { tmsec = if is_nonpos k''.tmsec then pos 300000 else k''.tmsec })))

  -- `c0` is what the uninitialised `c` holds; null is the returned -1.
  pub hev_conf_init : ℕ → List (ℕ × List ℕ) → Option Conf
  unfolding parse_options apply_option check_conf
  hev_conf_init c0 opts = elim (parse_options opts (record { conf = defaults; c = c0 })) [
    | none ↦ none
    | some p ↦ check_conf p.c p.conf
  ]
