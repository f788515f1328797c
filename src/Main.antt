-- ===== src/Main.antt =====
-- src/hev-main.c and src/hev-xnsk.c: the start of the program, `hev_run_daemon` of src/hev-misc.c
-- and the starts of the two keepers included.
pub mod Starts
mod Tests
use natmap.Prelude.{ℕ, List, [], ◌∷◌, Bool, Option, none, some, ◌==◌, if◌then◌else◌}
use natmap.Prelude.Int.{ℤ, pos, negsuc, minus_one, is_neg, eq_ℤ}
use natmap.Host.{sock_stream, sock_dgram}
use natmap.Conf.Getters.{hev_conf_mode, hev_conf_daemon}
use natmap.Conf.{Conf, hev_conf_init}

-- A keeper: its task, and its function that `killer` points to.
pub data Kind : Type 0 where
  tcp udp : Kind

-- The static `killer`, and the tasks that were made.
pub record Program : Type 0 where
  pub killer : Option Kind
  pub tasks : List Kind

abbrev pub initial : Program
initial = record { killer = none; tasks = [] }

pub hev_xnsk_init : Kind → Program → Program
hev_xnsk_init kill p = record p { killer = some kill }

-- The keeper that a kill reaches; null is a call of a null pointer.
abbrev pub hev_xnsk_kill : Program → Option Kind
hev_xnsk_kill p = p.killer

abbrev new_task : Kind → Program → Program
new_task kind p = record p { tasks = kind ∷ p.tasks }

pub hev_tnsk_run : Program → Program
unfolding hev_xnsk_init
hev_tnsk_run p = new_task tcp (hev_xnsk_init tcp p)

pub hev_unsk_run : Program → Program
unfolding hev_xnsk_init
hev_unsk_run p = new_task udp (hev_xnsk_init udp p)

-- Another mode is logged.
pub hev_xnsk_run : ℕ → Program → Program
unfolding hev_tnsk_run hev_unsk_run
hev_xnsk_run mode p =
    if mode == sock_stream then hev_tnsk_run p else if mode == sock_dgram then hev_unsk_run p else p

-- What `fork`, `setsid` and `hev_task_system_init` return.
pub record Answers : Type 0 where
  pub fork : ℤ
  pub setsid : ℤ
  pub task_system : ℤ

-- Null where the process has ended, with status 0.
pub hev_run_daemon : Answers → Option ℤ
hev_run_daemon a =
    if eq_ℤ a.fork minus_one
    then some minus_one
    else if eq_ℤ a.fork (pos 0)
    then (if is_neg a.setsid then some minus_one else some (pos 0))
    else none

-- The process ends with a status, or it runs the tasks.
pub data Outcome : Type 0 where
  ends : ℤ → Outcome
  runs : Conf → Program → Outcome

pub start_tasks : Conf → ℤ → Outcome
unfolding hev_xnsk_run
start_tasks k res =
    if is_neg res then ends (negsuc 1) else runs k (hev_xnsk_run (hev_conf_mode k) initial)

-- Behind `hev_run_daemon`, whose failure is ignored.
pub go_on : Conf → ℤ → Option ℤ → Outcome
unfolding start_tasks
go_on k task_system none = ends (pos 0)
go_on k task_system (some res) = start_tasks k task_system

-- `inet_pton` and the uninitialised variable are those of `hev_conf_init`, `opts` what `getopt`
-- gives.
pub main : (ℕ → List ℕ → Bool) → ℕ → List (ℕ × List ℕ) → Answers → Outcome
unfolding hev_run_daemon go_on
main inet_pton c0 opts a = elim (hev_conf_init inet_pton c0 opts) [
  | none ↦ ends minus_one
  | some k ↦ go_on k a.task_system (if hev_conf_daemon k then hev_run_daemon a else some (pos 0))
]
