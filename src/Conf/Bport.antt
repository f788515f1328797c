-- ===== src/Conf/Bport.antt =====
-- src/hev-conf.c: the port to bind, `hev_conf_bport`, and the mapped port, `hev_conf_mport`.
pub mod Ports
pub mod Walk
use natmap.Prelude.{ℕ, ◌+◌, ◌%◌, Bool, Option, none, some, ◌==◌, ◌||◌, if◌then◌else◌}
use natmap.Prelude.Int.{ℤ, pos, negsuc, is_nonpos, unsigned_of, ltb_ℤ, add_int, sub_int}
use natmap.Text.{print_unsigned}
use natmap.Conf.{Conf, is_empty}

-- `rand () % n` for a value of `rand`; null is the trap of a division by zero.
abbrev pub remainder : ℕ → ℤ → Option ℤ
remainder r (pos n) = if n == 0 then none else some (pos (r % n))
remainder r (negsuc n) = some (pos (r % (n + 1)))

-- The port to bind next.
abbrev choose_port : ℕ → Conf → Option ℤ
choose_port r k =
    if k.brand
    then (elim (remainder r (add_int (sub_int k.bport1 k.bport0) (pos 1))) [
      | none ↦ none
      | some d ↦ some (add_int k.bport0 d)
    ])
    else some k.bport2

-- Where the range is walked in order, the one behind it, back to the first behind the last.
abbrev advance : Conf → ℤ → ℤ
advance k p =
    if k.brand then p else (let q = add_int p (pos 1) in if ltb_ℤ k.bport1 q then k.bport0 else q)

-- `hev_conf_bport`, with the value that `rand` would return; the new text is in `port`.
unfoldable pub hev_conf_bport : ℕ → Bool → Conf → Option Conf
hev_conf_bport r next k =
    if is_empty k.port || next
    then (elim (choose_port r k) [
      | none ↦ none
      | some p ↦ some (record k { port = print_unsigned (unsigned_of p); bport2 = advance k p })
    ])
    else some k

-- `hev_conf_mport`; the text is in `mport`.
pub hev_conf_mport : ℤ → Conf → Conf
hev_conf_mport port k =
    if is_nonpos port then k else record k { mport = print_unsigned (unsigned_of port) }
