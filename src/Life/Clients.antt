-- ===== src/Life/Clients.antt =====
-- The tasks together: the STUN client's tasks.
use natmap.Prelude.{
  List, [], ◌∷◌, ◌++◌, ◌≡◌, inl, inr, refl, sym, ap, ◌∙◌, Bool, true, false, Bool-cases,
}
use mathlib.Core.Path.{subst}
use natmap.Host.{SockAddr}
use natmap.Main.{Kind, udp}
use natmap.Life.{Client, fresh, asking, idle, holding, State, wake_all, hev_stun_run}

-- One client in a list of one.
pub only :
    (x y : Client) (before behind : List Client)
    → x ∷ [] ≡ before ++ y ∷ behind
    → (x ≡ y) × (before ++ behind ≡ [])
only x y [] behind h = (cc, cc)
only x y (b ∷ []) behind h = (cc, cc)
only x y (b ∷ b' ∷ before) behind h = (cc, cc)

not_among : (y : Client) (before behind : List Client) → [] ≡ before ++ y ∷ behind → ⊥
not_among y [] behind h = cc
not_among y (b ∷ before) behind h = cc

asking_same : (a b : SockAddr) → asking a ≡ asking b → a ≡ b
asking_same a b h = cc

module _ (mode : Kind) (IsName : SockAddr → Type 0) where
  -- No task of the STUN client and no task variable, or one of each: before its first turn, where
  -- `saddr` is a name that the keeper got; or with its socket on such a name. In UDP mode alone it
  -- waits to be woken.
  pub data Clients (s : State) : Type 0 where
    nobody : s.task ≡ false → s.clients ≡ [] → Clients s
    one_fresh : s.task ≡ true → s.clients ≡ fresh ∷ [] → IsName s.saddr → Clients s
    one_asking : (a : SockAddr) → s.task ≡ true → s.clients ≡ asking a ∷ [] → IsName a → Clients s
    one_idle :
        (a : SockAddr) → s.task ≡ true → s.clients ≡ idle a ∷ [] → IsName a → mode ≡ udp → Clients s

  pub run-Clients : (s : State) → IsName s.saddr → Clients s → Clients (hev_stun_run s)
  unfolding hev_stun_run
  run-Clients s name (nobody free none) =
      rw (free, hev_stun_run) (one_fresh refl (ap (λ l. fresh ∷ l) none) name)
  run-Clients s name (one_fresh taken one name') =
      rw (taken, hev_stun_run) (one_fresh refl (ap wake_all one) name)
  run-Clients s name (one_asking a taken one name') =
      rw (taken, hev_stun_run) (one_asking a refl (ap wake_all one) name')
  run-Clients s name (one_idle a taken one name' waits) =
      rw (taken, hev_stun_run) (one_asking a refl (ap wake_all one) name')

  pub run_task : (s : State) → (hev_stun_run s).task ≡ true
  unfolding hev_stun_run
  run_task s = elim (Bool-cases s.task) [
    | inl taken ↦ rw (taken, hev_stun_run) refl
    | inr free ↦ rw (free, hev_stun_run) refl
  ]

  -- The keeper gets a socket, whatever becomes of `killed`.
  pub renamed :
      (name : SockAddr) (k : Bool) (s : State)
      → IsName name
      → Clients s
      → Clients (record s { place = holding; saddr = name; killed = k })
  renamed name k s new (nobody free none) = nobody free none
  renamed name k s new (one_fresh taken one name') = one_fresh taken one new
  renamed name k s new (one_asking b taken one name') = one_asking b taken one name'
  renamed name k s new (one_idle b taken one name' waits) = one_idle b taken one name' waits

  -- A task that has its turn, and goes on as another.
  pub single :
      (x : Client) (before behind : List Client) (s : State)
      → Clients s
      → s.clients ≡ before ++ x ∷ behind
      → (before ++ behind ≡ []) × (s.task ≡ true) × (s.clients ≡ x ∷ [])
  single x before behind s (nobody free none) e = absurd (not_among x before behind (sym none ∙ e))
  single x before behind s (one_fresh taken one name) e =
      let (same, alone) = only fresh x before behind (sym one ∙ e) in
      (alone, taken, rw (sym same) one)
  single x before behind s (one_asking b taken one name) e =
      let (same, alone) = only (asking b) x before behind (sym one ∙ e) in
      (alone, taken, rw (sym same) one)
  single x before behind s (one_idle b taken one name waits) e =
      let (same, alone) = only (idle b) x before behind (sym one ∙ e) in
      (alone, taken, rw (sym same) one)

  pub fresh_named : (s : State) → Clients s → s.clients ≡ fresh ∷ [] → IsName s.saddr
  fresh_named s (nobody free none) e = cc
  fresh_named s (one_fresh taken one name) e = name
  fresh_named s (one_asking b taken one name) e = cc
  fresh_named s (one_idle b taken one name waits) e = cc

  pub asking_named : (s : State) (a : SockAddr) → Clients s → s.clients ≡ asking a ∷ [] → IsName a
  asking_named s a (nobody free none) e = cc
  asking_named s a (one_fresh taken one name) e = cc
  asking_named s a (one_asking b taken one name) e = let same : b ≡ a = cc in subst IsName same name
  asking_named s a (one_idle b taken one name waits) e = cc

  pub idle_named : (s : State) (a : SockAddr) → Clients s → s.clients ≡ idle a ∷ [] → IsName a
  idle_named s a (nobody free none) e = cc
  idle_named s a (one_fresh taken one name) e = cc
  idle_named s a (one_asking b taken one name) e = cc
  idle_named s a (one_idle b taken one name waits) e =
      let same : b ≡ a = cc in subst IsName same name

-- What a run of the STUN client leaves as it was.
pub run_kept :
    (s : State) → let s' = hev_stun_run s in (s'.saddr ≡ s.saddr) × (s'.forwarder ≡ s.forwarder)
unfolding hev_stun_run
run_kept s = elim (Bool-cases s.task) [
  | inl taken ↦ rw (taken, hev_stun_run) (refl, refl)
  | inr free ↦ rw (free, hev_stun_run) (refl, refl)
]
