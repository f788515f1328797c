-- ===== src/Life/Stale.antt =====
-- The tasks together: what outlives the keeper's run.
use natmap.Prelude.{[], ◌∷◌, ◌≡◌, inr, refl, ap, ◌∙◌, Bool, true, false}
use natmap.Prelude.Int.{ℤ, is_neg}
use natmap.Host.{SockAddr}
use natmap.Main.{Kind, tcp, udp}
use natmap.Forwarder
use natmap.Forwarder.{created, serving, hev_ufwd_run, start}
use natmap.Forwarder.Single.{Reach-IsSingle, run_made, start_up}
use natmap.Life.{
  asking, idle, away, holding, State, wake_all, hev_stun_run, handle, give_up, prepare, open_with,
  conclude, kill_on_failure, start_forwarder, prepares, opens, gives_up, gets_mapping, starts,
  Reach, next,
}
use natmap.Life.Clients.{single}
use natmap.Life.Runs.{gave_up, handled}
use natmap.Life.Coherent.{Reach-IsCoherent}

module _ (forwards : Bool) (IsName : SockAddr → Type 0) (old : SockAddr) where
  -- A keeper's socket is there, and the STUN client has its task.
  opened :
      (name : SockAddr) (s : State)
      → s.task ≡ true
      → let s' = open_with udp name s in
        (s'.place ≡ holding) × (s'.saddr ≡ name) × (s'.clients ≡ wake_all s.clients)
  unfolding open_with hev_stun_run
  opened name s taken = rw (taken, open_with, hev_stun_run) (refl, refl, refl)

  -- In UDP mode, in every state that the tasks can reach where the keeper is sending a packet to
  -- hold its mapping, and the STUN client waits with its socket on some address: `sendto` may fail,
  -- and for any name the tasks can go on to reach a state where the keeper holds the mapping of a
  -- socket with this name, and the STUN client, woken for it, asks from the address before.
  pub hev_stun_run-stale :
      (a name : SockAddr) (s : State)
      → Reach forwards udp IsName old s
      → s.place ≡ holding
      → s.sending ≡ true
      → s.clients ≡ idle a ∷ []
      → IsName name
      → (s' : State) × Reach forwards udp IsName old s'
        × (s'.place ≡ holding)
        × (s'.saddr ≡ name)
        × (s'.clients ≡ asking a ∷ [])
  hev_stun_run-stale a name s r there in_sendto waits new =
      let h = Reach-IsCoherent forwards udp IsName old s r in
      let (alone, taken, one) = single udp IsName (idle a) [] [] s h.clients waits in
      let s1 = give_up forwards udp s in
      let (p, t, c, kept, f) = gave_up forwards udp IsName s in
      let s2 = prepare udp s1 in
      let (place', saddr', clients') = opened name s2 (t ∙ taken) in
      (
        open_with udp name s2,
        next (next (next r (gives_up there (inr in_sendto))) (prepares p)) (opens name new refl),
        place',
        saddr',
        clients' ∙ ap wake_all (c ∙ waits),
      )

-- With a mapping, the STUN client starts the forwarder.
concluded :
    (mode : Kind) (a : SockAddr) (s : State)
    → let s' = conclude mode a [] (handle true mode s) in
      (s'.place ≡ s.place) × (s'.forwarder ≡ hev_ufwd_run s.forwarder)
concluded tcp a s = rw (handled true tcp s) (refl, refl)
concluded udp a s = rw (handled true udp s) (refl, refl)

started :
    (mode : Kind) (fd : ℤ) (s : State)
    → is_neg fd ≡ false
    → let s' = start_forwarder mode fd [] s in
      (s'.place ≡ s.place) × (s'.forwarder ≡ start fd [] s.forwarder)
unfolding kill_on_failure
started mode fd s got = rw (got, kill_on_failure) (refl, refl)

module _ (IsName : SockAddr → Type 0) (old : SockAddr) where
  -- In TCP mode, in every state that the tasks can reach with a target, where the keeper holds a
  -- mapping, the STUN client asks from some address and there is no server of the forwarder: for any
  -- descriptor the tasks can go on to reach a state where the keeper holds no mapping, and a server of the
  -- forwarder serves on this descriptor and is not to stop.
  pub stun_handler-orphan :
      (a : SockAddr) (fd : ℤ) (s : State)
      → Reach true tcp IsName old s
      → s.place ≡ holding
      → s.clients ≡ asking a ∷ []
      → s.forwarder.servers ≡ []
      → is_neg fd ≡ false
      → (s' : State) × Reach true tcp IsName old s'
        × (s'.place ≡ away)
        × (s'.forwarder.servers ≡ serving fd ∷ [])
        × (s'.forwarder.quit ≡ false)
  stun_handler-orphan a fd s r there asks none got =
      let s1 = give_up true tcp s in
      let (p, t, c, kept, f) = gave_up true tcp IsName s in
      let r1 = next r (gives_up there tt) in
      let s2 = conclude tcp a [] (handle true tcp s1) in
      let r2 = next r1 (gets_mapping a [] [] (c ∙ asks)) in
      let h1 = Reach-IsCoherent true tcp IsName old s1 r1 in
      let ran = run_made s1.forwarder (Reach-IsSingle s1.forwarder h1.forwarder) (f ∙ none) in
      let (p2, f2) = concluded tcp a s1 in
      let (p3, f3) = started tcp fd s2 got in
      let (lives, serves) = start_up fd s2.forwarder got in
      (
        start_forwarder tcp fd [] s2,
        next r2 (starts [] [] fd (ap (λ (x : Forwarder.State). x.servers) f2 ∙ ran)),
        p3 ∙ (p2 ∙ p),
        ap (λ (x : Forwarder.State). x.servers) f3 ∙ serves,
        ap (λ (x : Forwarder.State). x.quit) f3 ∙ lives,
      )
