-- ===== src/Life/Runs.antt =====
-- The tasks together: the keeper's part.
use natmap.Prelude.{[], ◌≡◌, ◌≢◌, inl, inr, refl, ◌∙◌, Bool, true, false, Bool-cases, if◌then◌else◌}
use natmap.Host.{SockAddr}
use natmap.Main.{Kind, tcp, udp}
use natmap.Forwarder
use natmap.Forwarder.{created, serving, hev_ufwd_run, hev_ufwd_kill, start, round, runs, kills}
use natmap.Forwarder.Single.{hev_tfwd_run-hev_ufwd_run, hev_tfwd_kill-hev_ufwd_kill, kill_servers}
use natmap.Life.{
  Place, away, opening, holding, State, hev_stun_run, tnsk_kill, unsk_kill, kill_keeper,
  tnsk_handler, unsk_handler, handle, kill_forwarder, give_up, prepare, open_with,
}
use natmap.Life.Clients.{
  Clients, nobody, one_fresh, one_asking, one_idle, run-Clients, run_task, run_kept, renamed,
}

killed-Reach :
    (mode : Kind) (f : Forwarder.State)
    → Forwarder.Reach f
    → Forwarder.Reach (kill_forwarder mode f)
killed-Reach tcp f r = rw (hev_tfwd_kill-hev_ufwd_kill f) (Forwarder.next r kills)
killed-Reach udp f r = Forwarder.next r kills

killed_servers : (mode : Kind) (f : Forwarder.State) → (kill_forwarder mode f).servers ≡ f.servers
killed_servers tcp f = rw (hev_tfwd_kill-hev_ufwd_kill f) (kill_servers f)
killed_servers udp f = kill_servers f

pub killed_keeper : (mode : Kind) (s : State) → kill_keeper mode s ≡ record s { killed = true }
unfolding kill_keeper tnsk_kill unsk_kill
killed_keeper tcp s = refl
killed_keeper udp s = refl

pub handled :
    (forwards : Bool) (mode : Kind) (s : State)
    → handle forwards mode s
      ≡ (if forwards then record s { forwarder = hev_ufwd_run s.forwarder } else s)
unfolding handle tnsk_handler unsk_handler
handled forwards tcp s = rw (hev_tfwd_run-hev_ufwd_run s.forwarder) refl
handled forwards udp s = refl

pub ran_kept :
    (b : Bool) (s : State)
    → (if b then record s { forwarder = hev_ufwd_run s.forwarder } else s).task ≡ s.task
ran_kept true s = refl
ran_kept false s = refl

module _ (forwards : Bool) (mode : Kind) (IsName : SockAddr → Type 0) where
  -- Besides: a keeper that holds a mapping has its name; in UDP mode one that was not killed has a
  -- STUN client's task; the forwarder is in a state that its own steps lead to, and without a target
  -- there is no server.
  pub record IsCoherent (s : State) : Type 0 where
    pub clients : Clients mode IsName s
    pub named : s.place ≡ holding → IsName s.saddr
    pub watched : mode ≡ udp → s.place ≡ holding → s.killed ≡ false → s.task ≡ true
    pub forwarder : Forwarder.Reach s.forwarder
    pub targeted : forwards ≡ false → s.forwarder.servers ≡ []

  pub run-IsCoherent :
      (s : State)
      → IsName s.saddr
      → Clients mode IsName s
      → Forwarder.Reach s.forwarder
      → (forwards ≡ false → s.forwarder.servers ≡ [])
      → IsCoherent (hev_stun_run s)
  run-IsCoherent s name c f t =
      let (saddr_kept, forwarder_kept) = run_kept s in
      record {
        clients = run-Clients mode IsName s name c;
        named = λ h. rw saddr_kept name;
        watched = λ u h k. run_task mode IsName s;
        forwarder = rw forwarder_kept f;
        targeted = rw forwarder_kept t;
      }

  -- The same tasks and variables, with the keeper elsewhere.
  pub elsewhere :
      (s s' : State)
      → IsCoherent s
      → s'.task ≡ s.task
      → s'.clients ≡ s.clients
      → s'.saddr ≡ s.saddr
      → Clients mode IsName s'
  elsewhere s s' h t c a = in_place h.clients
    where
      in_place : Clients mode IsName s → Clients mode IsName s'
      in_place (nobody free none) = nobody (t ∙ free) (c ∙ none)
      in_place (one_fresh taken one name) = one_fresh (t ∙ taken) (c ∙ one) (rw a name)
      in_place (one_asking b taken one name) = one_asking b (t ∙ taken) (c ∙ one) name
      in_place (one_idle b taken one name waits) = one_idle b (t ∙ taken) (c ∙ one) name waits

  -- The keeper is somewhere, without a socket.
  pub placed :
      (p : Place) (s : State) → IsCoherent s → p ≢ holding → IsCoherent (record s { place = p })
  placed p s h apart = record {
    clients = elsewhere s (record s { place = p }) h refl refl refl;
    named = λ e. absurd (apart e);
    watched = λ u e l. absurd (apart e);
    forwarder = h.forwarder;
    targeted = h.targeted;
  }

  pub prepare-IsCoherent : (m : Kind) (s : State) → IsCoherent s → IsCoherent (prepare m s)
  prepare-IsCoherent tcp s h = placed opening s h (λ p. cc)
  prepare-IsCoherent udp s h = record {
    clients =
        elsewhere s (record s { place = opening; killed = false; sending = false }) h refl refl
          refl;
    named = λ e. cc;
    watched = λ u e l. cc;
    forwarder = h.forwarder;
    targeted = h.targeted;
  }

  -- What the end of a run leaves.
  pub gave_up :
      (s : State)
      → let s' = give_up forwards mode s in
        (s'.place ≡ away)
        × (s'.task ≡ s.task)
        × (s'.clients ≡ s.clients)
        × (s'.saddr ≡ s.saddr)
        × (s'.forwarder.servers ≡ s.forwarder.servers)
  unfolding give_up
  gave_up s = elim (Bool-cases forwards) [
    | inl there ↦ rw (there, give_up) (refl, refl, refl, refl, killed_servers mode s.forwarder)
    | inr missing ↦ rw (missing, give_up) (refl, refl, refl, refl, refl)
  ]

  gave_up-Reach :
      (s : State)
      → Forwarder.Reach s.forwarder
      → Forwarder.Reach (give_up forwards mode s).forwarder
  unfolding give_up
  gave_up-Reach s r = elim (Bool-cases forwards) [
    | inl there ↦ rw (there, give_up) (killed-Reach mode s.forwarder r)
    | inr missing ↦ rw (missing, give_up) r
  ]

  pub give_up-IsCoherent : (s : State) → IsCoherent s → IsCoherent (give_up forwards mode s)
  give_up-IsCoherent s h =
      let (p, t, c, a, f) = gave_up s in
      record {
        clients = elsewhere s (give_up forwards mode s) h t c a;
        named = λ e. cc;
        watched = λ u e k. cc;
        forwarder = gave_up-Reach s h.forwarder;
        targeted = λ e. f ∙ h.targeted e;
      }

  pub open_with-IsCoherent :
      (m : Kind) (name : SockAddr) (s : State)
      → IsName name
      → IsCoherent s
      → IsCoherent (open_with m name s)
  unfolding open_with
  open_with-IsCoherent tcp name s new h =
      run-IsCoherent (record s { place = holding; saddr = name; killed = false }) new
        (renamed mode IsName name false s new h.clients) h.forwarder h.targeted
  open_with-IsCoherent udp name s new h =
      run-IsCoherent (record s { place = holding; saddr = name }) new
        (renamed mode IsName name s.killed s new h.clients) h.forwarder h.targeted
