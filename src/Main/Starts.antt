-- ===== src/Main/Starts.antt =====
-- src/hev-main.c: which keeper the program starts, and that a kill reaches it.
use natmap.Prelude.{
  ℕ, ◌≡◌, ◌≢◌, ◌⊎◌, refl, sym, ap, arith, inl, inr, List, [], ◌∷◌, Bool, true, false, Bool-cases,
  Option, none, some, Option-cases, if◌then◌else◌,
}
use mathlib.Core.Path.{subst}
use natmap.Prelude.Int.{ℤ, pos, negsuc, minus_one, is_neg, eq_ℤ, eq_ℤ-refl}
use natmap.Host.{sock_stream, sock_dgram}
use natmap.Conf.{Conf, hev_conf_init}
use natmap.Conf.Valid.{IsConf, hev_conf_init-IsConf}
use natmap.Main.{
  Kind, tcp, udp, Program, initial, hev_xnsk_init, hev_xnsk_kill, hev_tnsk_run, hev_unsk_run,
  hev_xnsk_run, Answers, hev_run_daemon, Outcome, ends, runs, start_tasks, go_on, main,
}

-- The keeper of a mode.
abbrev pub Keeps : Conf → Kind → Type 0
Keeps k kind = ((k.mode ≡ sock_stream) × (kind ≡ tcp)) ⊎ ((k.mode ≡ sock_dgram) × (kind ≡ udp))

-- A daemon was asked for, and `fork` gave another process than the caller's, without failing.
abbrev pub IsParent : Conf → Answers → Type 0
IsParent k a = (k.dmon ≡ true) × (a.fork ≢ minus_one) × (a.fork ≢ pos 0)

-- What becomes of a command line, by what `hev_conf_init` makes of it.
pub data Starts (accepted : Option Conf) (a : Answers) : Outcome → Type 0 where
  refused : accepted ≡ none → Starts accepted a (ends minus_one)
  parent : (k : Conf) → accepted ≡ some k → IsParent k a → Starts accepted a (ends (pos 0))
  no_tasks :
      (k : Conf)
      → accepted ≡ some k
      → (IsParent k a → ⊥)
      → is_neg a.task_system ≡ true
      → Starts accepted a (ends (negsuc 1))
  started :
      (k : Conf) (kind : Kind) (p : Program)
      → accepted ≡ some k
      → (IsParent k a → ⊥)
      → is_neg a.task_system ≡ false
      → Keeps k kind
      → p.tasks ≡ kind ∷ []
      → hev_xnsk_kill p ≡ some kind
      → Starts accepted a (runs k p)

-- A mode that is known starts its keeper.
hev_xnsk_run-Keeps :
    (k : Conf)
    → IsConf k
    → let p = hev_xnsk_run k.mode initial in
      (kind : Kind) × Keeps k kind × (p.tasks ≡ kind ∷ []) × (hev_xnsk_kill p ≡ some kind)
unfolding hev_xnsk_run hev_tnsk_run hev_unsk_run hev_xnsk_init
hev_xnsk_run-Keeps k h = elim h.mode_known [
  | inl stream ↦
      (tcp, inl (stream, refl), rw (stream, hev_xnsk_run) refl, rw (stream, hev_xnsk_run) refl)
  | inr dgram ↦
      (udp, inr (dgram, refl), rw (dgram, hev_xnsk_run) refl, rw (dgram, hev_xnsk_run) refl)
]

eq_ℤ-eq : (x y : ℤ) → eq_ℤ x y ≡ true → x ≡ y
eq_ℤ-eq (pos m) (pos n) h = ap pos (ground arith)
eq_ℤ-eq (pos m) (negsuc n) h = cc
eq_ℤ-eq (negsuc m) (pos n) h = cc
eq_ℤ-eq (negsuc m) (negsuc n) h = ap negsuc (ground arith)

ne_of_eq_ℤ : (x y : ℤ) → eq_ℤ x y ≡ false → x ≢ y
ne_of_eq_ℤ x y h e = let same : eq_ℤ x y ≡ true = rw e (eq_ℤ-refl y) in cc

if_some :
    (b : Bool)
    → (if b then some minus_one else some (pos 0)) ≡ some (if b then minus_one else pos 0)
if_some true = refl
if_some false = refl

-- The process goes on, or it is the parent.
run_daemon_ends :
    (a : Answers)
    → ((res : ℤ) × (hev_run_daemon a ≡ some res) × ((a.fork ≡ minus_one) ⊎ (a.fork ≡ pos 0)))
      ⊎ ((hev_run_daemon a ≡ none) × (a.fork ≢ minus_one) × (a.fork ≢ pos 0))
unfolding hev_run_daemon
run_daemon_ends a = elim (Bool-cases (eq_ℤ a.fork minus_one)) [
  | inl failed ↦
      rw (failed, hev_run_daemon) (inl (minus_one, refl, inl (eq_ℤ-eq a.fork minus_one failed)))
  | inr forked ↦ elim (Bool-cases (eq_ℤ a.fork (pos 0))) [
    | inl child ↦
        rw (forked, child, hev_run_daemon)
          (inl (_, if_some (is_neg a.setsid), inr (eq_ℤ-eq a.fork (pos 0) child)))
    | inr other ↦
        rw (forked, other, hev_run_daemon)
          (inr (refl, ne_of_eq_ℤ a.fork minus_one forked, ne_of_eq_ℤ a.fork (pos 0) other))
  ]
]

start_tasks-Starts :
    (k : Conf) (a : Answers)
    → IsConf k
    → (accepted : Option Conf) → accepted ≡ some k
    → (IsParent k a → ⊥)
    → Starts accepted a (start_tasks k a.task_system)
unfolding start_tasks
start_tasks-Starts k a h accepted e goes_on = elim (Bool-cases (is_neg a.task_system)) [
  | inl failed ↦ rw (failed, start_tasks) (no_tasks k e goes_on failed)
  | inr ready ↦
      let (kind, keeps, tasks, kill) = hev_xnsk_run-Keeps k h in
      rw (ready, start_tasks)
        (started k kind (hev_xnsk_run k.mode initial) e goes_on ready keeps tasks kill)
]

-- With or without a daemon.
go_on-Starts :
    (k : Conf) (a : Answers)
    → IsConf k
    → Starts (some k) a (go_on k a.task_system (if k.dmon then hev_run_daemon a else some (pos 0)))
unfolding go_on
go_on-Starts k a h =
    let becomes = λ (d : Option ℤ). Starts (some k) a (go_on k a.task_system d) in
    let daemon = if k.dmon then hev_run_daemon a else some (pos 0) in
    elim (Bool-cases k.dmon) [
      | inr not_asked ↦
          let e : daemon ≡ some (pos 0) = rw not_asked refl in
          subst becomes (sym e)
            (start_tasks-Starts k a h (some k) refl (λ p. let asked = p.0 in cc))
      | inl asked ↦ elim (run_daemon_ends a) [
        | inl (res, goes_on, fork) ↦
            let e : daemon ≡ some res = rw asked goes_on in
            subst becomes (sym e)
              (start_tasks-Starts k a h (some k) refl (λ p. no_parent fork p.1 p.2))
        | inr (over, forked, other) ↦
            let e : daemon ≡ none = rw asked over in
            subst becomes (sym e) (parent k refl (asked, forked, other))
      ]
    ]
  where
    no_parent : (a.fork ≡ minus_one) ⊎ (a.fork ≡ pos 0) → a.fork ≢ minus_one → a.fork ≢ pos 0 → ⊥
    no_parent (inl e) x y = x e
    no_parent (inr e) x y = y e

-- For every command line and whatever the system answers: `main` ends with -1 where
-- `hev_conf_init` refuses the command line; with 0 where a daemon is asked for and `fork` returns in
-- the parent; besides, with -2 where the task system cannot be set up; and only else does it run the
-- tasks: with the accepted configuration and exactly one keeper, that of the configured mode, which
-- `hev_xnsk_kill` reaches.
pub main-Starts :
    (inet_pton : ℕ → List ℕ → Bool) (c0 : ℕ) (opts : List (ℕ × List ℕ)) (a : Answers)
    → Starts (hev_conf_init inet_pton c0 opts) a (main inet_pton c0 opts a)
unfolding main
main-Starts inet_pton c0 opts a = elim (Option-cases (hev_conf_init inet_pton c0 opts)) [
  | inl no_conf ↦ rw (no_conf, main) (refused refl)
  | inr (k, yes_conf) ↦
      let h = hev_conf_init-IsConf inet_pton c0 opts k yes_conf in
      rw (yes_conf, main) (go_on-Starts k a h)
]
