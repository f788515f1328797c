-- ===== src/Main/Tests.antt =====
-- src/hev-main.c: `natmap -s stun -h http -b 80-82`.

use natmap.Prelude.Int.{pos}
use natmap.Conf.Tests.{no_address, ranged}
use natmap.Conf.{hev_conf_init}
use natmap.Main.{Answers, main}
use natmap.Main.Starts.{Starts, main-Starts}

abbrev ready : Answers
ready = record { fork = pos 0; setsid = pos 0; task_system = pos 0 }

main-Starts_example :
    Starts (hev_conf_init no_address 0 ranged) ready (main no_address 0 ranged ready)
main-Starts_example = main-Starts no_address 0 ranged ready
