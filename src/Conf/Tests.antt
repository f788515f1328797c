-- ===== src/Conf/Tests.antt =====
-- Runs of src/hev-conf.c: `natmap -s stun -h http -b 80-82`, and without `-b`.
use natmap.Prelude.{ℕ, ◌≤◌, ◌≡◌, refl, Bool, true, false, List, [], ◌∷◌, some, arith, All}
use natmap.Prelude.Int.{pos}
use natmap.Text.{strtoul10, scan_unsigned, scan_server}
use natmap.Conf.{Conf, defaults, any4, hev_conf_init}
use natmap.Conf.Valid.{IsConf, hev_conf_init-IsConf}
use natmap.Conf.Bport.Ports.{bport_calls}
use natmap.Compat.Printed.{words_of}
use natmap.Conf.CommandLine.{
  forward_settings, hev_conf_init_argv, hev_conf_init_argv-forward_settings,
}
use natmap.Conf.Binding.{hev_conf_bport-range, hev_conf_bport-unbound}

abbrev pub no_address : ℕ → List ℕ → Bool
no_address type s = false

abbrev servers : List (ℕ × List ℕ)
servers = (b's', b'a' ∷ []) ∷ (b'h', b'b' ∷ []) ∷ []

abbrev pub ranged : List (ℕ × List ℕ)
ranged = (b'b', b'8' ∷ b'0' ∷ b'-' ∷ b'8' ∷ b'2' ∷ []) ∷ servers

abbrev base : Conf
base = record defaults {
  stun = b'a' ∷ [];
  http = b'b' ∷ [];
  keep = pos 30000;
  ucount = 10;
  tmsec = pos 300000;
  baddr = some any4;
}

abbrev pub ranged_conf : Conf
ranged_conf = record base { bport0 = pos 80; bport1 = pos 82; bport2 = pos 80 }

-- The uninitialised variable holds '~'.
abbrev unbound_conf : Conf
unbound_conf = record base { brand = true }

pub init_ranged : hev_conf_init no_address 0 ranged ≡ some ranged_conf
unfolding hev_conf_init scan_unsigned scan_server
init_ranged = refl

init_unbound : hev_conf_init no_address b'~' servers ≡ some unbound_conf
unfolding hev_conf_init scan_server
init_unbound = refl

hev_conf_init-IsConf_example : IsConf ranged_conf
hev_conf_init-IsConf_example = hev_conf_init-IsConf no_address 0 ranged ranged_conf init_ranged

hev_conf_bport-range_example :
    (texts : List (List ℕ)) × (bport_calls ((9, true) ∷ (9, false) ∷ []) ranged_conf ≡ some texts)
    × All (λ s. (80 ≤ strtoul10 s) × (strtoul10 s ≤ 82)) texts
hev_conf_bport-range_example =
    hev_conf_bport-range no_address 0 ranged ranged_conf init_ranged 80 82 refl refl (omega arith)
      ((9, true) ∷ (9, false) ∷ [])

hev_conf_bport-unbound_example :
    (texts : List (List ℕ)) × (bport_calls ((9, true) ∷ (8, true) ∷ []) unbound_conf ≡ some texts)
    × All (λ s. strtoul10 s ≡ 0) texts
hev_conf_bport-unbound_example =
    hev_conf_bport-unbound no_address b'~' servers unbound_conf init_unbound (omega arith)
      ((9, true) ∷ (8, true) ∷ [])

-- `natmap -s a -h b -t c -p 80`
hev_conf_init_argv-forward_settings_example :
    hev_conf_init_argv no_address 0 (
      (b'n' ∷ [])
      ∷ words_of (forward_settings (b'a' ∷ []) (b'b' ∷ []) (b'c' ∷ []) (b'8' ∷ b'0' ∷ [])))
    ≡ some (record base { taddr = some (b'c' ∷ []); tport = some (b'8' ∷ b'0' ∷ []) })
hev_conf_init_argv-forward_settings_example =
    hev_conf_init_argv-forward_settings no_address 0 (b'n' ∷ []) (b'a' ∷ []) (b'b' ∷ []) (b'c' ∷ [])
      (b'8' ∷ b'0' ∷ []) (omega arith) (omega arith) (omega arith)
