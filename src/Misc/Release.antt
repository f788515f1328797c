-- ===== src/Misc/Release.antt =====
-- src/hev-misc.c: what the search for a listening socket leaves open.
use natmap.Prelude.{
  length, Option-cases, ℕ, zero, suc, ◌+◌, ◌<◌, ◌≤◌, ◌≡◌, refl, ap, ◌∙◌, List, [], ◌∷◌, Option,
  none, some, arith, inl, inr, Bool-cases, ltb, ◌==◌, not, if◌then◌else◌,
}
use natmap.Host.{af_inet, af_inet6}
use natmap.Text.{strtoul10}
use natmap.Prelude.Int.{int_of, ℤ, pos, is_neg, eq_ℤ-refl}
use natmap.Host.Held.{drop_fd}
use natmap.Misc.Kernel.{
  Call, Calls, file_opened, file_closed, line_allocated, line_freed, dir_opened, dir_closed,
  fd_opened, fd_closed, Entry, System,
}
use natmap.Misc.{
  socket_name, proc, table, inode_of, find_row, read_table, dt_dir, dt_lnk, reads, link_path,
  fd_path, search_next, get_inode, search_links, search_process, search_processes, search_proc,
  get_pid_fd, set_reuse, get_socket, set_reuse_port, reuse_found, reuse_inode, reuse_families,
  hev_reuse_port,
}

-- Streams, directories and descriptors that are open.
pub record Open : Type 0 where
  pub files : ℕ
  pub dirs : ℕ
  pub fds : List ℤ

abbrev pred : ℕ → ℕ
pred zero = zero
pred (suc n) = n

pred-le : (n : ℕ) → pred n ≤ n
pred-le zero = omega arith
pred-le (suc n) = omega arith

abbrev after : Call → Open → Open
after file_opened h = record h { files = suc h.files }
after file_closed h = record h { files = pred h.files }
after dir_opened h = record h { dirs = suc h.dirs }
after dir_closed h = record h { dirs = pred h.dirs }
after (fd_opened fd) h = if is_neg fd then h else record h { fds = fd ∷ h.fds }
after (fd_closed fd) h = record h { fds = drop_fd fd h.fds }
after _ h = h

abbrev pub opened : Calls → Open
opened [] = record { files = 0; dirs = 0; fds = [] }
opened (e ∷ t) = after e (opened t)

abbrev after_line : Call → ℕ → ℕ
after_line line_allocated n = suc n
after_line line_freed n = pred n
after_line _ n = n

-- The buffers of `getline` that are allocated.
abbrev pub lines : Calls → ℕ
lines [] = 0
lines (e ∷ t) = after_line e (lines t)

find_row_lem :
    (port : ℤ) (rows : List (List ℕ)) (t : Calls)
    → let (inode, t') = find_row port rows t in
      (opened t' ≡ record (opened t) { files = pred (opened t).files })
      × (0 < inode → lines t' ≡ lines t)
      × (lines t' ≤ lines t)
unfolding find_row
find_row_lem port [] t = (refl, omega arith, pred-le (lines t))
find_row_lem port (s ∷ rows) t = elim (Option-cases (inode_of port s)) [
  | inl other ↦ rw (other, find_row) (find_row_lem port rows t)
  | inr (inode, found) ↦ rw (found, find_row) (refl, λ _. refl, omega arith)
]

read_table_lem :
    (port : ℤ) (file : Option (List (List ℕ))) (t : Calls)
    → let (inode, t') = read_table port file t in
      (opened t' ≡ opened t) × (0 < inode → lines t' ≡ suc (lines t)) × (lines t' ≤ suc (lines t))
unfolding read_table
read_table_lem port none t = (refl, omega arith, omega arith)
read_table_lem port (some []) t = (refl, omega arith, omega arith)
read_table_lem port (some (header ∷ rows)) t =
    find_row_lem port rows (line_allocated ∷ file_opened ∷ t)

-- Without the directories that a search of links closes.
abbrev after_links : {A : Type 0} → Option A → Open → Open
after_links none h = record h { dirs = pred h.dirs }
after_links (some found) h = record h { dirs = pred (pred h.dirs) }

abbrev after_process : {A : Type 0} → Option A → Open → Open
after_process none h = h
after_process (some found) h = record h { dirs = pred h.dirs }

abbrev without_dir : Open → Open
without_dir h = record h { dirs = pred h.dirs }

close_links :
    {A : Type 0} (h : Open) (found : Option A)
    → after_links found (record h { dirs = suc h.dirs }) ≡ after_process found h
close_links h none = refl
close_links h (some r) = refl

module _ (sys : System) where
  search_links_lem :
      (name : List ℕ) (process : Entry) (links : List Entry) (t : Calls)
      → let (found, t') = search_links sys name process links t in
        (opened t' ≡ after_links found (opened t)) × (lines t' ≡ lines t)
  unfolding search_links
  search_links_lem name process [] t = (refl, refl)
  search_links_lem name process (link ∷ links) t =
      let ih = search_links_lem name process links t in
      elim (Bool-cases (not (link.type == dt_lnk))) [
        | inl skipped ↦ rw (skipped, search_links) ih
        | inr followed ↦
            elim (Bool-cases (reads name (sys.readlink t (link_path process.name link.name)))) [
              | inl same ↦ rw (followed, same, search_links) (ground arith)
              | inr other ↦ rw (followed, other, search_links) ih
            ]
      ]

  search_process_lem :
      (name : List ℕ) (process : Entry) (links : Option (List Entry)) (t : Calls)
      → let (found, t') = search_process sys name process links t in
        (opened t' ≡ after_process found (opened t)) × (lines t' ≡ lines t)
  unfolding search_process
  search_process_lem name process none t = (refl, refl)
  search_process_lem name process (some links) t =
      let (found, t') = search_links sys name process links (dir_opened ∷ t) in
      let (same, kept) = search_links_lem name process links (dir_opened ∷ t) in
      (same ∙ close_links (opened t) found, kept)

  search_next_lem :
      (found : Option (ℤ × ℤ)) (next : Calls → Option (ℤ × ℤ) × Calls) (t t1 : Calls)
      → (opened t1 ≡ after_process found (opened t)) × (lines t1 ≡ lines t)
      → (opened t1 ≡ opened t
          → lines t1 ≡ lines t
          → (opened (next t1).1 ≡ without_dir (opened t)) × (lines (next t1).1 ≡ lines t))
      → let (r, t2) = search_next found next t1 in
        (opened t2 ≡ without_dir (opened t)) × (lines t2 ≡ lines t)
  unfolding search_next
  search_next_lem none next t t1 (same, kept) go = go same kept
  search_next_lem (some r) next t t1 (same, kept) go = (same, kept)

  search_processes_lem :
      (name : List ℕ) (processes : List Entry) (t : Calls)
      → let (found, t') = search_processes sys name processes t in
        (opened t' ≡ without_dir (opened t)) × (lines t' ≡ lines t)
  unfolding search_processes
  search_processes_lem name [] t = (refl, refl)
  search_processes_lem name (process ∷ processes) t =
      let next = search_processes sys name processes in
      elim (Bool-cases (not (process.type == dt_dir))) [
        | inl skipped ↦ rw (skipped, search_processes) (search_processes_lem name processes t)
        | inr listed ↦
            let links = sys.opendir t (fd_path process.name) in
            let (found, t1) = search_process sys name process links t in
            rw (listed, search_processes)
              (search_next_lem found next t t1 (search_process_lem name process links t)
                (λ same kept.
                  let (o, l) = search_processes_lem name processes t1 in
                  (o ∙ ap without_dir same, l ∙ kept)))
      ]

  search_proc_lem :
      (name : List ℕ) (entries : Option (List Entry)) (t : Calls)
      → let (found, t') = search_proc sys name entries t in
        (opened t' ≡ opened t) × (lines t' ≡ lines t)
  unfolding search_proc
  search_proc_lem name none t = (refl, refl)
  search_proc_lem name (some processes) t = search_processes_lem name processes (dir_opened ∷ t)

  set_reuse_lem :
      (pfd sfd : ℤ) (t : Calls)
      → let (r, t') = set_reuse sys pfd sfd (fd_opened sfd ∷ t) in
        (opened t' ≡ record (opened t) { fds = drop_fd pfd (opened t).fds }) × (lines t' ≡ lines t)
  unfolding set_reuse
  set_reuse_lem pfd sfd t = elim (Bool-cases (is_neg sfd)) [
    | inl failed ↦ rw (failed, set_reuse) (ground arith)
    | inr got ↦ rw (got, set_reuse) (ground (arith, eq_ℤ-refl sfd))
  ]

  get_socket_lem :
      (pfd fd : ℤ) (t : Calls)
      → let (r, t') = get_socket sys pfd fd (fd_opened pfd ∷ t) in
        (opened t' ≡ opened t) × (lines t' ≡ lines t)
  unfolding get_socket
  get_socket_lem pfd fd t = elim (Bool-cases (is_neg pfd)) [
    | inl failed ↦ rw (failed, get_socket) (ground arith)
    | inr got ↦
        let t1 = fd_opened pfd ∷ t in
        let (o, l) = set_reuse_lem pfd (sys.pidfd_getfd t1 pfd fd) t1 in
        rw (got, get_socket) (o ∙ ground (arith, eq_ℤ-refl pfd), l)
  ]

  reuse_found_lem :
      (result : ℤ) (found : Option (ℤ × ℤ)) (t : Calls)
      → let (r, t') = reuse_found sys result found t in
        (opened t' ≡ opened t) × (lines t' ≡ lines t)
  unfolding reuse_found set_reuse_port
  reuse_found_lem result none t = (refl, refl)
  reuse_found_lem result (some (pid, fd)) t = get_socket_lem (sys.pidfd_open t pid) fd t

  reuse_inode_lem :
      (result : ℤ) (inode : ℕ) (t : Calls)
      → let (r, t') = reuse_inode sys result inode t in
        (opened t' ≡ opened t) × (lines t' ≡ lines t)
  unfolding reuse_inode get_pid_fd
  reuse_inode_lem result inode t = elim (Bool-cases (ltb 0 inode)) [
    | inl looked ↦
        let entries = sys.opendir t proc in
        let (found, t1) = search_proc sys (socket_name inode) entries t in
        let (o1, l1) = search_proc_lem (socket_name inode) entries t in
        let (o2, l2) = reuse_found_lem result found t1 in
        rw (looked, reuse_inode) (o2 ∙ o1, l2 ∙ l1)
    | inr absent ↦ rw (absent, reuse_inode) (refl, refl)
  ]

  reuse_families_lem :
      (port result : ℤ) (families : List ℕ) (t : Calls)
      → let (r, t') = reuse_families sys port result families t in
        (opened t' ≡ opened t) × (lines t' ≤ length families + lines t)
  unfolding reuse_families get_inode
  reuse_families_lem port result [] t = (refl, omega arith)
  reuse_families_lem port result (family ∷ families) t =
      let (inode, t1) = get_inode sys port family t in
      let (result', t2) = reuse_inode sys result inode t1 in
      let (o1, found, l1) = read_table_lem port (sys.fopen t (table family)) t in
      let (o2, l2) = reuse_inode_lem result inode t1 in
      let (o3, l3) = reuse_families_lem port result' families t2 in
      (o3 ∙ o2 ∙ o1, omega (arith, l1, l2, l3))

  -- For every system: whether or not a listening socket, its process and its descriptors are found,
  -- `hev_reuse_port` leaves exactly those streams, directories and descriptors open that were open
  -- before, and at most two more line buffers allocated.
  pub hev_reuse_port_kept :
      (port : List ℕ) (t : Calls)
      → let (r, t') = hev_reuse_port sys port t in (opened t' ≡ opened t) × (lines t' ≤ 2 + lines t)
  unfolding hev_reuse_port
  hev_reuse_port_kept port t =
      reuse_families_lem (int_of (strtoul10 port)) (pos 0) (af_inet ∷ af_inet6 ∷ []) t

  -- For every system: a search that gives an inode has closed its file and has not freed its line
  -- buffer, so each such search keeps one more.
  pub lines-get_inode :
      (port : ℤ) (family : ℕ) (t : Calls)
      → 0 < (get_inode sys port family t).0
      → let (inode, t') = get_inode sys port family t in
        (opened t' ≡ opened t) × (lines t' ≡ suc (lines t))
  unfolding get_inode
  lines-get_inode port family t found =
      let (same, kept, bound) = read_table_lem port (sys.fopen t (table family)) t in
      (same, kept found)
