-- ===== src/Forwarder/Kills.antt =====
-- The forwarders: what becomes of a kill.
use natmap.Prelude.{
  [], ◌∷◌, ◌≡◌, ◌⊎◌, inl, inr, refl, sym, ◌∙◌, true, false, ◌&&◌, ◌||◌, Bool-cases,
}
use mathlib.Core.Path.{subst}
use natmap.Prelude.Int.{ℤ, is_neg}
use natmap.Forwarder.{
  created, serving, State, hev_ufwd_run, hev_ufwd_kill, finish, round, Step, runs, kills, starts,
  rounds, Reach, Steps, stay, then,
}
use natmap.Forwarder.Single.{IsSingle, idle, starting, up, only, Reach-IsSingle}

abbrev pub IsGone : State → Type 0
IsGone s = (s.task ≡ false) × (s.servers ≡ [])

-- The server on this socket is there, and is to stop: whatever it receives, the next round in which
-- it gives way is its last.
pub record IsStopping (fd : ℤ) (s : State) : Type 0 where
  pub task : s.task ≡ true
  pub quit : s.quit ≡ true
  pub servers : s.servers ≡ serving fd ∷ []
  pub stops : (answer : ℤ) → IsGone (round true answer [] s)

quit-stops : (s : State) (answer : ℤ) → s.quit ≡ true → IsGone (round true answer [] s)
unfolding round finish
quit-stops s answer h = rw (h, round) (refl, refl)

stopping :
    (fd : ℤ) (s : State)
    → s.task ≡ true
    → s.quit ≡ true
    → s.servers ≡ serving fd ∷ []
    → IsStopping fd s
stopping fd s taken quits one = record {
  task = taken;
  quit = quits;
  servers = one;
  stops = λ answer. quit-stops s answer quits;
}

run_same : (s : State) → s.task ≡ true → s ≡ hev_ufwd_run s
unfolding hev_ufwd_run
run_same s taken = rw (taken, hev_ufwd_run) refl

run-IsStopping : (fd : ℤ) (s : State) → IsStopping fd s → IsStopping fd (hev_ufwd_run s)
run-IsStopping fd s h = subst (IsStopping fd) (run_same s h.task) h

-- A turn leaves it so, or it was the server's last.
step-IsStopping :
    (fd : ℤ) (s s' : State) → Step s s' → IsStopping fd s → IsStopping fd s' ⊎ IsGone s'
unfolding hev_ufwd_kill finish round
step-IsStopping fd s _ runs h = inl (run-IsStopping fd s h)
step-IsStopping fd s _ kills h = inl (stopping fd (hev_ufwd_kill s) h.task refl h.servers)
step-IsStopping fd s _ (starts before behind fd' e) h =
    let (same, alone) = only (serving fd) created before behind (sym h.servers ∙ e) in cc
step-IsStopping fd s _ (rounds before behind fd' yields answer e) h =
    let (same, alone) = only (serving fd) (serving fd') before behind (sym h.servers ∙ e) in
    elim (Bool-cases ((yields && s.quit) || is_neg answer)) [
      | inl over ↦ rw (over, round) (inr (refl, alone))
      | inr on ↦ rw (on, round) (inl h)
    ]

-- What a kill of a server in its loop leads to: it is still to stop, or it has been gone.
abbrev pub Stops : ℤ → State → State → Type 0
Stops fd s s' = IsStopping fd s' ⊎ ((m : State) × Steps s m × IsGone m × Steps m s')

Steps-Stops : (fd : ℤ) (s s' : State) → IsStopping fd s → Steps s s' → Stops fd s s'
Steps-Stops fd s s' h stay = inl h
Steps-Stops fd s s' h (then {s' = m} before step) = elim (Steps-Stops fd s m h before) [
  | inl stopping ↦ elim (step-IsStopping fd m s' step stopping) [
    | inl still ↦ inl still
    | inr gone ↦ inr (s', then before step, gone, stay)
  ]
  | inr (n, to, gone, from) ↦ inr (n, to, gone, then from step)
]

-- In every state that the tasks can reach with a server in its loop, a kill is not lost: however
-- the tasks take turns afterwards, the server is still there and its next round that gives way is
-- its last, whatever it receives; or there was a state without any server and without a task since.
pub hev_ufwd_kill-Stops :
    (s s' : State) (fd : ℤ)
    → Reach s
    → s.servers ≡ serving fd ∷ []
    → Steps (hev_ufwd_kill s) s'
    → Stops fd (hev_ufwd_kill s) s'
unfolding hev_ufwd_kill
hev_ufwd_kill-Stops s s' fd r one steps =
    Steps-Stops fd (hev_ufwd_kill s) s'
      (stopping fd (hev_ufwd_kill s) (taken (Reach-IsSingle s r)) refl one) steps
  where
    taken : IsSingle s → s.task ≡ true
    taken (idle free none closed) = cc
    taken (starting taken' one' closed) = taken'
    taken (up fd' taken' one' same open') = taken'
