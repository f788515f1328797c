-- ===== src/Keeper/Walk.antt =====
-- src/hev-tnsk.c, src/hev-unsk.c: the ports that the rounds of a keeper's task bind.
use natmap.Prelude.{
  ℕ, zero, suc, ◌+◌, ◌-◌, ◌%◌, ◌≤◌, ◌<◌, ◌≡◌, ◌⊎◌, inl, inr, refl, ap, ◌∙◌, List, [], ◌∷◌, Bool,
  true, false, Option, none, some, arith, All, length, get_elem?, if◌then◌else◌,
}
use native.Mathlib.Nat.{mod-eq_of_lt}
use natmap.Host.{Io, Trace, SockAddr, slept}
use natmap.Prelude.Int.{ℤ}
use natmap.Text.{print_unsigned}
use natmap.Conf.{Conf}
use natmap.Conf.Bport.{hev_conf_bport}
use natmap.Conf.Bport.Walk.{nth_port, IsWalk, IsCalled-IsWalk, hev_conf_bport-IsCalled}
use natmap.Keeper.{Keeper, with_state, sleep_and_go_on, task_loop}

-- What `hev_sock_client_base` gives a run with this configuration, its socket or none.
abbrev pub Attempt : Type 0
Attempt = Conf → Trace → Option (ℤ × SockAddr)

abbrev pub is_none : Option (ℤ × SockAddr) → Bool
is_none none = true
is_none (some sock) = false

-- A run chooses its port by `hev_conf_bport` first, and `port_next` says whether it had no socket.
abbrev pub TakesPort :
    {Round : Type 0}
    → Attempt
    → (Round → ℕ)
    → (Round → Keeper → Io (Option (Bool × Keeper)))
    → Type 0
TakesPort {Round} attempt rand run =
    (x : Round) (s : Keeper) (t : Trace) (k : Conf)
    → hev_conf_bport (rand x) s.port_next s.conf ≡ some k
    → (ended : Bool) × ((run x s t).0
        ≡ some (ended, record { conf = k; port_next = is_none (attempt k t) }))

module _ (lo hi : ℕ) (ordered : lo ≤ hi) (fits : hi < 65536) where
  module _ {Round : Type 0} (attempt : Attempt)
      (run : Round → Keeper → Io (Option (Bool × Keeper))) where
    -- The states that the rounds leave. Each round asks for a socket with the port that is as many
    -- ports behind the first one as there were rounds without a socket before it; behind a round
    -- that ended there is the next one, and a round that still waits is the last.
    abbrev pub WalksPorts : ℕ → List Round → Keeper → Trace → List Keeper → Type 0
    WalksPorts fails [] s t [] = Unit
    WalksPorts fails [] s t (s' ∷ states) = ⊥
    WalksPorts fails (x ∷ rounds) s t [] = ⊥
    WalksPorts fails (x ∷ rounds) s t (s' ∷ states) =
        (s'.conf.port ≡ print_unsigned (nth_port lo hi ordered fits fails))
        × ((((run x s t).0 ≡ some (false, s')) × (states ≡ []))
            ⊎ (((run x s t).0 ≡ some (true, s'))
                × WalksPorts (if is_none (attempt s'.conf t) then suc fails else fails) rounds s'
                    (slept 5000 ∷ (run x s t).1) states))

    module _ (rand : Round → ℕ) (takes : TakesPort attempt rand run) where
      round-WalksPorts :
          (x : Round) (rounds : List Round) (fails : ℕ) (s s' : Keeper) (t : Trace) (ended : Bool)
          → (run x s t).0 ≡ some (ended, s')
          → s'.conf.port ≡ print_unsigned (nth_port lo hi ordered fits fails)
          → (states : List Keeper) × ((task_loop run rounds s' (slept 5000 ∷ (run x s t).1)).0
              ≡ some states)
            × WalksPorts
                (if is_none (attempt s'.conf t) then suc fails else fails)
                rounds
                s'
                (slept 5000 ∷ (run x s t).1)
                states
          → (states : List Keeper) × ((task_loop run (x ∷ rounds) s t).0 ≡ some states)
            × WalksPorts fails (x ∷ rounds) s t states
      unfolding task_loop sleep_and_go_on
      round-WalksPorts x rounds fails s s' t false ran here later =
          (s' ∷ [], rw (ran, sleep_and_go_on) refl, (here, inl (ran, refl)))
      round-WalksPorts x rounds fails s s' t true ran here (states, went, walks) = (
        s' ∷ states,
        rw (ran, sleep_and_go_on) (ap (with_state s') went),
        (here, inr (ran, walks)),
      )

      pub task_loop-WalksPorts :
          (rounds : List Round) (fails : ℕ) (s : Keeper) (t : Trace)
          → IsWalk lo hi ordered fits fails s.port_next s.conf
          → (states : List Keeper) × ((task_loop run rounds s t).0 ≡ some states)
            × WalksPorts fails rounds s t states
      unfolding task_loop
      task_loop-WalksPorts [] fails s t w = ([], refl, tt)
      task_loop-WalksPorts (x ∷ rounds) fails s t w =
          let (k, called, c) =
            hev_conf_bport-IsCalled lo hi ordered fits (rand x) fails s.port_next s.conf w in
          let (ended, ran) = takes x s t k called in
          let failed = is_none (attempt k t) in
          let s' : Keeper = record { conf = k; port_next = failed } in
          round-WalksPorts x rounds fails s s' t ended ran c.text (
            task_loop-WalksPorts rounds (if failed then suc fails else fails) s'
              (slept 5000 ∷ (run x s t).1) (IsCalled-IsWalk lo hi ordered fits fails k failed c))

-- All attempts of all rounds failed, which ended them.
abbrev pub AllFailed : List Keeper → Type 0
AllFailed = All (λ s. s.port_next ≡ true)

module _ (lo hi : ℕ) (ordered : lo ≤ hi) (fits : hi < 65536) where
  -- The port of each round, by what the states say of the rounds before it.
  abbrev NthPorts : ℕ → List Keeper → Type 0
  NthPorts fails [] = Unit
  NthPorts fails (s ∷ states) =
      (s.conf.port ≡ print_unsigned (nth_port lo hi ordered fits fails))
      × NthPorts (if s.port_next then suc fails else fails) states

  -- Behind as many failures, the round tries the port of that number.
  NthPorts-get_elem? :
      (i fails : ℕ) (states : List Keeper)
      → NthPorts fails states
      → AllFailed states
      → i < length states
      → (s : Keeper) × (get_elem? states i ≡ some s)
        × (s.conf.port ≡ print_unsigned (nth_port lo hi ordered fits (fails + i)))
  NthPorts-get_elem? i fails [] w f h = absurd (omega arith)
  NthPorts-get_elem? zero fails (s ∷ states) (here, w) f h =
      let same : fails + 0 ≡ fails = omega arith in (s, refl, rw same here)
  NthPorts-get_elem? (suc i) fails (s ∷ states) (here, w) (failed, f) h =
      let along : fails + suc i ≡ suc fails + i = omega arith in
      rw along (NthPorts-get_elem? i (suc fails) states (rw failed at w) f (omega arith))

  -- Where every attempt fails, every port of the range is tried, each in its round.
  module _ {Round : Type 0} (rand : Round → ℕ) (run : Round → Keeper → Io (Option (Bool × Keeper)))
      (fails_always : (x : Round) (s : Keeper) (t : Trace) (k : Conf)
        → hev_conf_bport (rand x) s.port_next s.conf ≡ some k
        → (run x s t).0 ≡ some (true, record { conf = k; port_next = true })) where
    task_loop-AllFailed :
        (rounds : List Round) (fails : ℕ) (s : Keeper) (t : Trace)
        → IsWalk lo hi ordered fits fails s.port_next s.conf
        → (states : List Keeper) × ((task_loop run rounds s t).0 ≡ some states)
          × NthPorts fails states
          × AllFailed states
          × (length states ≡ length rounds)
    unfolding task_loop sleep_and_go_on
    task_loop-AllFailed [] fails s t w = ([], refl, tt, tt, refl)
    task_loop-AllFailed (x ∷ rounds) fails s t w =
        let (k, called, c) =
          hev_conf_bport-IsCalled lo hi ordered fits (rand x) fails s.port_next s.conf w in
        let s' : Keeper = record { conf = k; port_next = true } in
        let r = run x s t in
        let (states, went, walks, failed, as_many) =
          task_loop-AllFailed rounds (suc fails) s' (slept 5000 ∷ r.1)
            (IsCalled-IsWalk lo hi ordered fits fails k true c) in
        (
          s' ∷ states,
          rw (fails_always x s t k called, sleep_and_go_on) (ap (with_state s') went),
          (c.text, walks),
          (refl, failed),
          omega (arith, as_many),
        )

    pub task_loop-get_elem? :
        (rounds : List Round) (s : Keeper) (t : Trace) (p : ℕ)
        → IsWalk lo hi ordered fits 0 s.port_next s.conf
        → lo ≤ p
        → p ≤ hi
        → p < lo + length rounds
        → (states : List Keeper) × ((task_loop run rounds s t).0 ≡ some states)
          × (s' : Keeper) × (get_elem? states (p - lo) ≡ some s')
          × (s'.conf.port ≡ print_unsigned p)
    task_loop-get_elem? rounds s t p w above below enough =
        let (states, went, walks, failed, as_many) = task_loop-AllFailed rounds 0 s t w in
        let (s', there, port) =
          NthPorts-get_elem? (p - lo) 0 states walks failed (omega (arith, as_many)) in
        let number : lo + (0 + (p - lo)) % (hi - lo + 1) ≡ p =
          omega (arith, mod-eq_of_lt {n = 0 + (p - lo)} {m = hi - lo + 1} (omega arith)) in
        (states, went, s', there, port ∙ ap print_unsigned number)
