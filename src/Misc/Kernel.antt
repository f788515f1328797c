-- ===== src/Misc/Kernel.antt =====
-- What src/hev-misc.c calls of the kernel and libc, and the calls that were made.
use natmap.Prelude.{ℕ, List, ◌∷◌, Option}
use natmap.Prelude.Int.{ℤ}

-- A call that was made.
pub data Call : Type 0 where
  file_opened file_closed line_allocated line_freed dir_opened dir_closed : Call
  fd_opened fd_closed reuse_set : ℤ → Call

-- Newest first.
abbrev pub Calls : Type 0
Calls = List Call

-- `struct dirent`
pub record Entry : Type 0 where
  pub type : ℕ
  pub name : List ℕ

-- What the kernel answers: a file's lines, a directory's entries, the text of a link; null where
-- the call fails.
pub record System : Type 0 where
  pub fopen : Calls → List ℕ → Option (List (List ℕ))
  pub opendir : Calls → List ℕ → Option (List Entry)
  pub readlink : Calls → List ℕ → Option (List ℕ)
  pub pidfd_open : Calls → ℤ → ℤ
  pub pidfd_getfd : Calls → ℤ → ℤ → ℤ

abbrev pub Io : Type 0 → Type 0
Io A = Calls → A × Calls

abbrev pub return : {A : Type 0} → A → Io A
return a t = (a, t)

infixl 5 ◌>>=◌ ◌>>◌
abbrev pub ◌>>=◌ : {A B : Type 0} → Io A → (A → Io B) → Io B
◌>>=◌ m f t = let (a, t') = m t in f a t'

abbrev pub ◌>>◌ : {A B : Type 0} → Io A → Io B → Io B
◌>>◌ m k t = let (a, t') = m t in k t'

abbrev pub emit : Call → Io (Unit {0})
emit e t = (tt, e ∷ t)
