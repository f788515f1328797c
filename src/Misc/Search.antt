-- ===== src/Misc/Search.antt =====
-- src/hev-misc.c: what the search for a socket finds, where /proc stays as it is meanwhile.
use natmap.Prelude.{
  ℕ, ◌≡◌, refl, List, [], ◌∷◌, ◌++◌, Option, none, some, inl, inr, Bool-cases, ◌&&◌, ◌==◌,
  if◌then◌else◌,
}
use natmap.Prelude.Int.{ℤ}
use natmap.Misc.Kernel.{Calls, dir_opened, Entry, System}
use natmap.Misc.{
  dt_dir, dt_lnk, proc, socket_name, reads, link_path, fd_path, owner, search_next, search_links,
  search_process, search_processes, search_proc, get_pid_fd,
}

-- Files, directories and links as they stand, and the descriptors that the kernel gives.
pub record Snapshot : Type 0 where
  pub file : List ℕ → Option (List (List ℕ))
  pub entries : List ℕ → Option (List Entry)
  pub link : List ℕ → Option (List ℕ)
  pub process_fd : ℤ → ℤ
  pub socket_fd : ℤ → ℤ → ℤ

abbrev pub of_snapshot : Snapshot → System
of_snapshot s = record {
  fopen = λ _. s.file;
  opendir = λ _. s.entries;
  readlink = λ _. s.link;
  pidfd_open = λ _. s.process_fd;
  pidfd_getfd = λ _. s.socket_fd;
}

abbrev pub listing : Option (List Entry) → List Entry
listing none = []
listing (some entries) = entries

abbrev pub first : {A : Type 0} → List A → Option A
first [] = none
first (x ∷ xs) = some x

module _ (s : Snapshot) (name : List ℕ) where
  -- The descriptors of a process that are links with this text.
  abbrev pub owned : Entry → List Entry → List (ℤ × ℤ)
  owned process [] = []
  owned process (link ∷ links) =
      if (link.type == dt_lnk) && reads name (s.link (link_path process.name link.name))
      then owner process link ∷ owned process links
      else owned process links

  -- Those of all processes in order.
  abbrev pub owned_by_all : List Entry → List (ℤ × ℤ)
  owned_by_all [] = []
  owned_by_all (process ∷ processes) =
      if process.type == dt_dir
      then owned process (listing (s.entries (fd_path process.name))) ++ owned_by_all processes
      else owned_by_all processes

  search_links-owned :
      (process : Entry) (links : List Entry) (t : Calls)
      → (search_links (of_snapshot s) name process links t).0 ≡ first (owned process links)
  unfolding search_links
  search_links-owned process [] t = refl
  search_links-owned process (link ∷ links) t =
      let ih = search_links-owned process links t in
      elim (Bool-cases (link.type == dt_lnk)) [
        | inl followed ↦
            elim (Bool-cases (reads name (s.link (link_path process.name link.name)))) [
              | inl same ↦ rw (followed, same, search_links) refl
              | inr other ↦ rw (followed, other, search_links) ih
            ]
        | inr skipped ↦ rw (skipped, search_links) ih
      ]

  search_process-owned :
      (process : Entry) (links : Option (List Entry)) (t : Calls)
      → (search_process (of_snapshot s) name process links t).0
        ≡ first (owned process (listing links))
  unfolding search_process
  search_process-owned process none t = refl
  search_process-owned process (some links) t = search_links-owned process links (dir_opened ∷ t)

  search_next-owned :
      (found : Option (ℤ × ℤ)) (next : Calls → Option (ℤ × ℤ) × Calls) (t : Calls)
      → (here others : List (ℤ × ℤ)) → found ≡ first here
      → (next t).0 ≡ first others
      → (search_next found next t).0 ≡ first (here ++ others)
  unfolding search_next
  search_next-owned none next t [] others p q = q
  search_next-owned none next t (x ∷ here) others p q = cc
  search_next-owned (some r) next t [] others p q = cc
  search_next-owned (some r) next t (x ∷ here) others p q = p

  search_processes-owned :
      (processes : List Entry) (t : Calls)
      → (search_processes (of_snapshot s) name processes t).0 ≡ first (owned_by_all processes)
  unfolding search_processes
  search_processes-owned [] t = refl
  search_processes-owned (process ∷ processes) t =
      let links = s.entries (fd_path process.name) in
      let (found, t1) = search_process (of_snapshot s) name process links t in
      elim (Bool-cases (process.type == dt_dir)) [
        | inl listed ↦
            rw (listed, search_processes)
              (search_next-owned found (search_processes (of_snapshot s) name processes) t1
                (owned process (listing links)) (owned_by_all processes)
                (search_process-owned process links t) (search_processes-owned processes t1))
        | inr skipped ↦ rw (skipped, search_processes) (search_processes-owned processes t)
      ]

  search_proc-owned :
      (processes : Option (List Entry)) (t : Calls)
      → (search_proc (of_snapshot s) name processes t).0 ≡ first (owned_by_all (listing processes))
  unfolding search_proc
  search_proc-owned none t = refl
  search_proc-owned (some processes) t = search_processes-owned processes (dir_opened ∷ t)

-- Where /proc does not change meanwhile, `get_pid_fd` gives the first of all descriptors, by process
-- and in the order of the directories, that are links to the socket of this inode; null where there
-- is none.
pub get_pid_fd-first :
    (s : Snapshot) (inode : ℕ) (t : Calls)
    → (get_pid_fd (of_snapshot s) inode t).0
      ≡ first (owned_by_all s (socket_name inode) (listing (s.entries proc)))
unfolding get_pid_fd
get_pid_fd-first s inode t = search_proc-owned s (socket_name inode) (s.entries proc) t
