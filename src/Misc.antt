-- ===== src/Misc.antt =====
-- src/hev-misc.c on Linux: the search for the socket that listens on a port, by the files of /proc,
-- and its SO_REUSEPORT through a descriptor of the process that owns it.
pub mod Kernel
pub mod Release
pub mod Search
pub mod Proc
pub mod Found
pub mod Table
mod Tests
use natmap.Prelude.{
  ℕ, List, [], ◌∷◌, ◌++◌, Bool, true, false, not, ◌&&◌, Option, none, some, ltb, ◌==◌,
  if◌then◌else◌, take,
}
use natmap.Prelude.Int.{ℤ, pos, minus_one, is_neg, eq_ℤ, int_of, or_ℤ}
use natmap.Host.{af_inet, af_inet6}
use natmap.Text.{print_digits, strtoul10}
use natmap.Misc.Kernel.{
  Call, file_opened, file_closed, line_allocated, line_freed, dir_opened, dir_closed, fd_opened,
  fd_closed, reuse_set, Calls, Entry, System, Io, return, ◌>>=◌, ◌>>◌, emit,
}
use natmap.Text.Scan.{Directive, decimal, hex, hex_run, blank, literal, scan}

-- `snprintf` with a buffer's size less one; one more character is the final zero.
abbrev pub printed : ℕ → List ℕ → List ℕ
printed n s = take n s

abbrev pub table : ℕ → List ℕ
table family =
    b'/' ∷ b'p' ∷ b'r' ∷ b'o' ∷ b'c' ∷ b'/' ∷ b'n' ∷ b'e' ∷ b't' ∷ b'/' ∷ b't' ∷ b'c' ∷ b'p' ∷ []
    ++ (if family == af_inet6 then b'6' ∷ [] else [])

-- The format of a row.
abbrev pub row_format : List Directive
row_format =
    decimal
    ∷ literal b':'
    ∷ blank
    ∷ hex_run
    ∷ literal b':'
    ∷ hex
    ∷ blank
    ∷ hex_run
    ∷ literal b':'
    ∷ hex
    ∷ blank
    ∷ hex
    ∷ blank
    ∷ hex
    ∷ literal b':'
    ∷ hex
    ∷ blank
    ∷ hex
    ∷ literal b':'
    ∷ hex
    ∷ blank
    ∷ hex
    ∷ blank
    ∷ decimal
    ∷ blank
    ∷ decimal
    ∷ blank
    ∷ decimal
    ∷ []

-- The numbers of a row that are looked at.
pub record Row : Type 0 where
  pub local_port : ℤ
  pub state : ℤ
  pub inode : ℕ

pub to_row : Option (List ℕ) → Option Row
to_row (some (d ∷ lp ∷ rp ∷ st ∷ txq ∷ rxq ∷ run ∷ len ∷ retr ∷ uid ∷ timeout ∷ inode ∷ [])) =
    some (record { local_port = int_of lp; state = int_of st; inode = inode })
to_row _ = none

-- `res >= 14`, and the state LISTEN on the port.
abbrev pub listens : ℤ → Option Row → Option ℕ
listens port none = none
listens port (some r) =
    if eq_ℤ r.state (pos 10) && eq_ℤ r.local_port port then some r.inode else none

abbrev pub inode_of : ℤ → List ℕ → Option ℕ
inode_of port s = listens port (to_row (scan row_format s))

-- The rows behind the header; a match goes without `free`.
pub find_row : ℤ → List (List ℕ) → Io ℕ
unfolding scan to_row
find_row port [] = do emit line_freed; emit file_closed; return 0
find_row port (s ∷ rows) =
    let next = find_row port rows in
    elim (inode_of port s) [ none ↦ next | some inode ↦ do emit file_closed; return inode ]

-- The file's lines, the header first, or its failure. The first `getline` allocates.
pub read_table : ℤ → Option (List (List ℕ)) → Io ℕ
unfolding find_row
read_table port none = return 0
read_table port (some []) = do emit file_opened; emit line_allocated; emit file_closed; return 0
read_table port (some (header ∷ rows)) = do
  emit file_opened
  emit line_allocated
  find_row port rows

abbrev pub dt_dir : ℕ
dt_dir = 4

abbrev pub dt_lnk : ℕ
dt_lnk = 10

abbrev pub proc : List ℕ
proc = b'/' ∷ b'p' ∷ b'r' ∷ b'o' ∷ b'c' ∷ []

abbrev pub fd_path : List ℕ → List ℕ
fd_path process = printed 1022 (proc ++ (b'/' ∷ process ++ (b'/' ∷ b'f' ∷ b'd' ∷ [])))

abbrev pub link_path : List ℕ → List ℕ → List ℕ
link_path process link =
    printed 1022 (proc ++ (b'/' ∷ process ++ (b'/' ∷ b'f' ∷ b'd' ∷ b'/' ∷ link)))

-- "socket:[%lu]"; twenty digits hold 64 bits.
abbrev pub socket_name : ℕ → List ℕ
socket_name inode =
    printed 254
      (b's' ∷ b'o' ∷ b'c' ∷ b'k' ∷ b'e' ∷ b't' ∷ b':' ∷ b'[' ∷ print_digits 20 inode (b']' ∷ []))

-- `strcmp`
abbrev pub same_text : List ℕ → List ℕ → Bool
same_text [] [] = true
same_text (c ∷ s) (c' ∷ s') = c == c' && same_text s s'
same_text _ _ = false

-- Whether a link has this text; `readlink` stores 255 characters at most.
abbrev pub reads : List ℕ → Option (List ℕ) → Bool
reads name none = false
reads name (some s) = same_text (take 255 s) name

-- The process and the descriptor.
abbrev pub owner : Entry → Entry → ℤ × ℤ
owner process link = (int_of (strtoul10 process.name), int_of (strtoul10 link.name))

-- Behind the links of a process.
pub search_next : Option (ℤ × ℤ) → Io (Option (ℤ × ℤ)) → Io (Option (ℤ × ℤ))
search_next none next = next
search_next (some found) next = return (some found)

module _ (sys : System) where
  pub get_inode : ℤ → ℕ → Io ℕ
  unfolding read_table
  get_inode port family t = read_table port (sys.fopen t (table family)) t

  pub search_links : List ℕ → Entry → List Entry → Io (Option (ℤ × ℤ))
  search_links name process [] t = (do emit dir_closed; return none) t
  search_links name process (link ∷ links) t =
      let next = search_links name process links t in
      if not (link.type == dt_lnk)
      then next
      else if reads name (sys.readlink t (link_path process.name link.name))
      then (do emit dir_closed; emit dir_closed; return (some (owner process link))) t
      else next

  -- The links of a process, or that they cannot be listed.
  pub search_process : List ℕ → Entry → Option (List Entry) → Io (Option (ℤ × ℤ))
  unfolding search_links
  search_process name process none = return none
  search_process name process (some links) = do emit dir_opened; search_links name process links

  pub search_processes : List ℕ → List Entry → Io (Option (ℤ × ℤ))
  unfolding search_process search_next
  search_processes name [] t = (do emit dir_closed; return none) t
  search_processes name (process ∷ processes) t =
      let next = search_processes name processes in
      if not (process.type == dt_dir)
      then next t
      else (do
        found ← search_process name process (sys.opendir t (fd_path process.name))
        search_next found next)
          t

  -- `/proc` listed, or not.
  pub search_proc : List ℕ → Option (List Entry) → Io (Option (ℤ × ℤ))
  unfolding search_processes
  search_proc name none = return none
  search_proc name (some processes) = do emit dir_opened; search_processes name processes

  pub get_pid_fd : ℕ → Io (Option (ℤ × ℤ))
  unfolding search_proc print_digits
  get_pid_fd inode t = search_proc (socket_name inode) (sys.opendir t proc) t

  -- With the descriptor of the socket.
  pub set_reuse : ℤ → ℤ → Io ℤ
  set_reuse pfd sfd =
      if is_neg sfd
      then (do emit (fd_closed pfd); return minus_one)
      else (do emit (reuse_set sfd); emit (fd_closed sfd); emit (fd_closed pfd); return (pos 0))

  -- With the descriptor of the process.
  pub get_socket : ℤ → ℤ → Io ℤ
  unfolding set_reuse
  get_socket pfd fd t =
      if is_neg pfd
      then return minus_one t
      else (let sfd = sys.pidfd_getfd t pfd fd in set_reuse pfd sfd (fd_opened sfd ∷ t))

  pub set_reuse_port : ℤ × ℤ → Io ℤ
  unfolding get_socket
  set_reuse_port (pid, fd) t =
      let pfd = sys.pidfd_open t pid in get_socket pfd fd (fd_opened pfd ∷ t)

  -- Where a process was found.
  pub reuse_found : ℤ → Option (ℤ × ℤ) → Io ℤ
  unfolding set_reuse_port
  reuse_found result none = return result
  reuse_found result (some found) = do res ← set_reuse_port found; return (or_ℤ result res)

  -- Where an inode was found.
  pub reuse_inode : ℤ → ℕ → Io ℤ
  unfolding get_pid_fd reuse_found
  reuse_inode result inode =
      if ltb 0 inode then (do found ← get_pid_fd inode; reuse_found result found) else return result

  pub reuse_families : ℤ → ℤ → List ℕ → Io ℤ
  unfolding get_inode reuse_inode
  reuse_families port result [] = return result
  reuse_families port result (family ∷ families) = do
    inode ← get_inode port family
    result' ← reuse_inode result inode
    reuse_families port result' families

  pub hev_reuse_port : List ℕ → Io ℤ
  unfolding reuse_families strtoul10
  hev_reuse_port port = reuse_families (int_of (strtoul10 port)) (pos 0) (af_inet ∷ af_inet6 ∷ [])
