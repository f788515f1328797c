-- ===== src/Misc/Proc.antt =====
-- /proc as the kernel presents it, and a socket's first descriptor there.
use natmap.Prelude.{
  ℕ, ◌^◌, ◌≤◌, ◌<◌, ◌≡◌, ◌≢◌, ◌⊎◌, List, [], ◌∷◌, ◌++◌, map, Option, none, some, All, length,
}
use natmap.Prelude.Int.{ℤ, pos}
use natmap.Text.{print_digits, print_unsigned}
use natmap.Misc.Kernel.{Entry}
use natmap.Misc.Search.{Snapshot}

-- What a process has open: a descriptor and the text of its link, or an entry that is no link.
pub data Held : Type 0 where
  descriptor : (fd : ℕ) (link : Option (List ℕ)) → Held
  no_link : Entry → Held

-- What stands in /proc: a process, or something else.
pub data Item : Type 0 where
  process : (pid : ℕ) → List Held → Item
  other : Entry → Item

abbrev pub entry_of : Held → Entry
entry_of (descriptor fd link) = record { type = 10; name = print_unsigned fd }
entry_of (no_link e) = e

abbrev pub item_of : Item → Entry
item_of (process pid helds) = record { type = 4; name = print_unsigned pid }
item_of (other e) = e

-- "/proc", "/proc/<name>/fd" and "/proc/<pid>/fd/<fd>"
abbrev pub proc_file : List ℕ → List ℕ
proc_file rest = b'/' ∷ b'p' ∷ b'r' ∷ b'o' ∷ b'c' ∷ rest

abbrev pub fd_dir : List ℕ → List ℕ
fd_dir name = proc_file (b'/' ∷ (name ++ (b'/' ∷ b'f' ∷ b'd' ∷ [])))

abbrev pub fd_file : ℕ → ℕ → List ℕ
fd_file pid fd =
    proc_file (b'/' ∷ (print_unsigned pid ++ (b'/' ∷ b'f' ∷ b'd' ∷ b'/' ∷ print_unsigned fd)))

-- "socket:[<inode>]"
abbrev pub socket_text : ℕ → List ℕ
socket_text inode =
    b's' ∷ b'o' ∷ b'c' ∷ b'k' ∷ b'e' ∷ b't' ∷ b':' ∷ b'[' ∷ print_digits 20 inode (b']' ∷ [])

-- How the kernel presents these: numbers are below 2 ^ 31; what is no process is no directory, or
-- has no directory of descriptors.
abbrev pub IsHeld : Snapshot → ℕ → Held → Type 0
IsHeld s pid (descriptor fd link) = (fd < 2 ^ 31) × (s.link (fd_file pid fd) ≡ link)
IsHeld s pid (no_link e) = e.type ≢ 10

abbrev pub IsItem : Snapshot → Item → Type 0
IsItem s (process pid helds) =
    (pid < 2 ^ 31)
    × (s.entries (fd_dir (print_unsigned pid)) ≡ some (map entry_of helds))
    × All (IsHeld s pid) helds
IsItem s (other e) = (e.type ≢ 4) ⊎ ((length e.name ≤ 255) × (s.entries (fd_dir e.name) ≡ none))

-- What is not the socket.
abbrev pub Misses : List ℕ → Held → Type 0
Misses text (descriptor fd link) = link ≢ some text
Misses text (no_link e) = Unit

abbrev pub MissesAll : List ℕ → Item → Type 0
MissesAll text (process pid helds) = All (Misses text) helds
MissesAll text (other e) = Unit

-- The first descriptor that is this socket, or that there is none.
pub data Found (text : List ℕ) (items : List Item) : Option (ℤ × ℤ) → Type 0 where
  nowhere : All (MissesAll text) items → Found text items none
  here :
      (before after : List Item) (pid fd : ℕ) (helds helds' : List Held)
      → items ≡ before ++ process pid (helds ++ descriptor fd (some text) ∷ helds') ∷ after
      → All (MissesAll text) before
      → All (Misses text) helds
      → Found text items (some (pos pid, pos fd))
