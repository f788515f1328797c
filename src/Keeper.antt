-- ===== src/Keeper.antt =====
-- What src/hev-tnsk.c and src/hev-unsk.c have in common: the variables that outlive a run, and the
-- loop of `task_entry`.
pub mod Walk
mod Tests
use natmap.Prelude.{ℕ, List, [], ◌∷◌, Bool, true, false, Option, none, some}
use natmap.Host.{Io, return, ◌>>=◌, ◌>>◌, emit, slept}
use natmap.Conf.{Conf}

-- The configuration's static variables and `port_next`.
pub record Keeper : Type 0 where
  pub conf : Conf
  pub port_next : Bool

-- A null pointer is read as the empty text.
abbrev pub text : Option (List ℕ) → List ℕ
text none = []
text (some s) = s

abbrev pub is_set : Option (List ℕ) → Bool
is_set none = false
is_set (some s) = true

abbrev pub with_state : Keeper → Option (List Keeper) → Option (List Keeper)
with_state s none = none
with_state s (some states) = some (s ∷ states)

-- Behind a run, with what the loop goes on with.
pub sleep_and_go_on :
    Option (Bool × Keeper) → (Keeper → Io (Option (List Keeper))) → Io (Option (List Keeper))
sleep_and_go_on none again = return none
sleep_and_go_on (some (false, s)) again = return (some (s ∷ []))
sleep_and_go_on (some (true, s)) again = do
  emit (slept 5000)
  states ← again s
  return (with_state s states)

module _ {Round : Type 0} (run : Round → Keeper → Io (Option (Bool × Keeper))) where
  -- `task_entry` over the rounds that it gets to make: the states that they leave; null where a
  -- round traps. A run is false where it still waits, and then it is the last.
  pub task_loop : List Round → Keeper → Io (Option (List Keeper))
  unfolding sleep_and_go_on
  task_loop [] s = return (some [])
  task_loop (x ∷ rounds) s = do r ← run x s; sleep_and_go_on r (task_loop rounds)
