-- ===== src/Conf/Getters.antt =====
-- src/hev-conf.c: the functions by which the rest of the program reads the configuration.
use natmap.Prelude.{ℕ, List, Option, Bool}
use natmap.Prelude.Int.{ℤ}
use natmap.Conf.{Conf}

abbrev pub hev_conf_mode : Conf → ℕ
hev_conf_mode k = k.mode

abbrev pub hev_conf_type : Conf → ℕ
hev_conf_type k = k.type

abbrev pub hev_conf_keep : Conf → ℤ
hev_conf_keep k = k.keep

abbrev pub hev_conf_ucount : Conf → ℕ
hev_conf_ucount k = k.ucount

abbrev pub hev_conf_stun : Conf → List ℕ
hev_conf_stun k = k.stun

abbrev pub hev_conf_http : Conf → List ℕ
hev_conf_http k = k.http

abbrev pub hev_conf_mark : Conf → ℕ
hev_conf_mark k = k.mark

abbrev pub hev_conf_baddr : Conf → Option (List ℕ)
hev_conf_baddr k = k.baddr

abbrev pub hev_conf_taddr : Conf → Option (List ℕ)
hev_conf_taddr k = k.taddr

abbrev pub hev_conf_tport : Conf → Option (List ℕ)
hev_conf_tport k = k.tport

abbrev pub hev_conf_tmsec : Conf → ℤ
hev_conf_tmsec k = k.tmsec

abbrev pub hev_conf_ttcca : Conf → Option (List ℕ)
hev_conf_ttcca k = k.ttcca

abbrev pub hev_conf_iface : Conf → Option (List ℕ)
hev_conf_iface k = k.iface

abbrev pub hev_conf_daemon : Conf → Bool
hev_conf_daemon k = k.dmon

abbrev pub hev_conf_sport : Conf → List ℕ
hev_conf_sport k = k.sport

abbrev pub hev_conf_hport : Conf → List ℕ
hev_conf_hport k = k.hport
