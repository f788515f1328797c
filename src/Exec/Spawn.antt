-- ===== src/Exec/Spawn.antt =====
-- src/hev-exec.c: `hev_exec_spawn` for Windows, which starts the script by one line.
pub mod Divided
pub mod Words
use natmap.Prelude.{ℕ, List, [], ◌∷◌, ◌++◌, Bool, true, false, leb, if◌then◌else◌, length}
use natmap.Exec.{Arguments}

-- What `snprintf` would print of `"\"%s\" %s %s %s %s %s %s"`; an empty `ip4p` is quoted.
abbrev quoted : List ℕ → List ℕ
quoted [] = b'"' ∷ b'"' ∷ []
quoted (c ∷ s) = c ∷ s

pub command_line : (path : List ℕ) → Arguments → List ℕ
command_line path a =
    b'"'
    ∷ (path
        ++ (b'"'
            ∷ 32
            ∷ (a.oaddr
                ++ (32
                    ∷ (a.oport
                        ++ (32
                            ∷ (quoted a.ip4p
                                ++ (32 ∷ (a.iport ++ (32 ∷ (a.mode ++ (32 ∷ a.iaddr))))))))))))

-- A process that was made for a line, none since the line does not fit, or none.
pub data Started : Type 0 where
  process : List ℕ → Started
  too_long not_started : Started

-- `creates` is whether `CreateProcessA` makes one. The line goes to a buffer of 1024 characters.
pub hev_exec_spawn : (creates : Bool) (path : List ℕ) → Arguments → Started
unfolding command_line
hev_exec_spawn creates path a =
    if leb 1024 (length (command_line path a))
    then too_long
    else if creates
    then process (command_line path a)
    else not_started
