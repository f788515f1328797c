-- ===== src/Forwarder/Single.antt =====
-- The forwarders: at most one server at a time, and what becomes of a kill.
use natmap.Prelude.{
  List, [], ◌∷◌, ◌++◌, ◌≡◌, inl, inr, refl, sym, ap, ◌∙◌, Bool, true, false, ◌&&◌, ◌||◌, Bool-cases,
}
use natmap.Prelude.Int.{ℤ, is_neg}
use natmap.Forwarder.{
  Server, created, serving, State, hev_ufwd_run, hev_ufwd_kill, hev_ufwd_fd, hev_tfwd_run,
  hev_tfwd_kill, start, finish, round, Step, runs, kills, starts, rounds, Reach, begin, next,
}

-- No server and no task; or one server and its task, before its first turn or in its loop.
pub data IsSingle (s : State) : Type 0 where
  idle : s.task ≡ false → s.servers ≡ [] → is_neg (hev_ufwd_fd s) ≡ true → IsSingle s
  starting : s.task ≡ true → s.servers ≡ created ∷ [] → is_neg (hev_ufwd_fd s) ≡ true → IsSingle s
  up :
      (fd : ℤ)
      → s.task ≡ true
      → s.servers ≡ serving fd ∷ []
      → hev_ufwd_fd s ≡ fd
      → is_neg fd ≡ false
      → IsSingle s

-- One server in a list of one.
pub only :
    (x y : Server) (before behind : List Server)
    → x ∷ [] ≡ before ++ y ∷ behind
    → (x ≡ y) × (before ++ behind ≡ [])
only x y [] behind h = (cc, cc)
only x y (b ∷ []) behind h = (cc, cc)
only x y (b ∷ b' ∷ before) behind h = (cc, cc)

pub not_among : (y : Server) (before behind : List Server) → [] ≡ before ++ y ∷ behind → ⊥
not_among y [] behind h = cc
not_among y (b ∷ before) behind h = cc

finish-IsSingle : (s : State) (others : List Server) → others ≡ [] → IsSingle (finish others s)
unfolding finish
finish-IsSingle s others h = idle refl h refl

run-IsSingle : (s : State) → IsSingle s → IsSingle (hev_ufwd_run s)
unfolding hev_ufwd_run
run-IsSingle s (idle free none closed) =
    rw (free, hev_ufwd_run) (starting refl (ap (λ l. created ∷ l) none) closed)
run-IsSingle s (starting taken one closed) = rw (taken, hev_ufwd_run) (starting refl one closed)
run-IsSingle s (up fd taken one same open') = rw (taken, hev_ufwd_run) (up fd refl one same open')

kill-IsSingle : (s : State) → IsSingle s → IsSingle (hev_ufwd_kill s)
unfolding hev_ufwd_kill
kill-IsSingle s (idle free none closed) = idle free none closed
kill-IsSingle s (starting taken one closed) = starting taken one closed
kill-IsSingle s (up fd taken one same open') = up fd taken one same open'

start-IsSingle :
    (s : State) (before behind : List Server) (fd : ℤ)
    → s.servers ≡ before ++ created ∷ behind
    → IsSingle s
    → IsSingle (start fd (before ++ behind) s)
unfolding start
start-IsSingle s before behind fd h (idle free none closed) =
    absurd (not_among created before behind (sym none ∙ h))
start-IsSingle s before behind fd h (starting taken one closed) =
    let (same, alone) = only created created before behind (sym one ∙ h) in
    elim (Bool-cases (is_neg fd)) [
      | inl failed ↦ rw (failed, start) (idle refl alone failed)
      | inr got ↦ rw (got, start) (up fd taken (ap (λ l. serving fd ∷ l) alone) refl got)
    ]
start-IsSingle s before behind fd h (up fd' taken one same open') =
    let (same', alone) = only (serving fd') created before behind (sym one ∙ h) in cc

round-IsSingle :
    (s : State) (before behind : List Server) (fd : ℤ) (yields : Bool) (answer : ℤ)
    → s.servers ≡ before ++ serving fd ∷ behind
    → IsSingle s
    → IsSingle (round yields answer (before ++ behind) s)
unfolding round
round-IsSingle s before behind fd yields answer h (idle free none closed) =
    absurd (not_among (serving fd) before behind (sym none ∙ h))
round-IsSingle s before behind fd yields answer h (starting taken one closed) =
    let (same', alone) = only created (serving fd) before behind (sym one ∙ h) in cc
round-IsSingle s before behind fd yields answer h (up fd' taken one same open') =
    let (this, alone) = only (serving fd') (serving fd) before behind (sym one ∙ h) in
    elim (Bool-cases ((yields && s.quit) || is_neg answer)) [
      | inl over ↦ rw (over, round) (finish-IsSingle s (before ++ behind) alone)
      | inr on ↦ rw (on, round) (up fd' taken one same open')
    ]

pub step-IsSingle : (s s' : State) → Step s s' → IsSingle s → IsSingle s'
step-IsSingle s _ runs h = run-IsSingle s h
step-IsSingle s _ kills h = kill-IsSingle s h
step-IsSingle s _ (starts before behind fd e) h = start-IsSingle s before behind fd e h
step-IsSingle s _ (rounds before behind fd yields answer e) h =
    round-IsSingle s before behind fd yields answer e h

-- In every state that the tasks can reach, however they take turns: where the task's variable is
-- null there is no server and `hev_ufwd_fd` is negative; where it is set there is one server, and
-- `hev_ufwd_fd` is negative before the server's first turn, and its socket from then on.
pub Reach-IsSingle : (s : State) → Reach s → IsSingle s
Reach-IsSingle _ begin = idle refl refl refl
Reach-IsSingle s (next {s = s'} r step) = step-IsSingle s' s step (Reach-IsSingle s' r)

-- The two forwarders are started and killed alike.
pub hev_tfwd_run-hev_ufwd_run : (s : State) → hev_tfwd_run s ≡ hev_ufwd_run s
unfolding hev_tfwd_run hev_ufwd_run
hev_tfwd_run-hev_ufwd_run s = refl

pub hev_tfwd_kill-hev_ufwd_kill : (s : State) → hev_tfwd_kill s ≡ hev_ufwd_kill s
unfolding hev_tfwd_kill hev_ufwd_kill
hev_tfwd_kill-hev_ufwd_kill s = refl

pub kill_servers : (s : State) → (hev_ufwd_kill s).servers ≡ s.servers
unfolding hev_ufwd_kill
kill_servers s = refl

-- Where there is no server, one is made; with its socket it serves.
pub run_made : (s : State) → IsSingle s → s.servers ≡ [] → (hev_ufwd_run s).servers ≡ created ∷ []
unfolding hev_ufwd_run
run_made s (idle free none closed) e = rw (free, hev_ufwd_run) (ap (λ l. created ∷ l) none)
run_made s (starting taken one closed) e = cc
run_made s (up fd taken one same open') e = cc

pub start_up :
    (fd : ℤ) (s : State)
    → is_neg fd ≡ false
    → ((start fd [] s).quit ≡ false) × ((start fd [] s).servers ≡ serving fd ∷ [])
unfolding start
start_up fd s got = rw (got, start) (refl, refl)
