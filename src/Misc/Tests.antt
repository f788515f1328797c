-- ===== src/Misc/Tests.antt =====
-- src/hev-misc.c on one process that listens on port 8080.
use natmap.Prelude.{
  ℕ, ◌≤◌, ◌+◌, ◌≡◌, refl, List, [], ◌∷◌, map, none, some, inl, All, arith, suc, if◌then◌else◌,
}
use natmap.Prelude.Int.{pos}
use natmap.Host.{af_inet}
use natmap.Text.{print_digits, print_unsigned, strtoul10}
use natmap.Misc.Kernel.{Entry}
use natmap.Misc.{
  table, proc, dt_dir, dt_lnk, same_text, socket_name, get_inode, get_pid_fd, hev_reuse_port,
}
use natmap.Misc.Release.{opened, lines, hev_reuse_port_kept, lines-get_inode}
use natmap.Misc.Search.{Snapshot, of_snapshot, get_pid_fd-first}
use natmap.Misc.Proc.{
  descriptor, no_link, Item, process, other, item_of, fd_file, socket_text, IsItem, Found,
}
use natmap.Misc.Found.{get_pid_fd-Found}
use natmap.Misc.Table.{Socket, IsSocket, row_text, get_inode-listening_inode}

abbrev zeros : List ℕ
zeros = b'0' ∷ b'0' ∷ b'0' ∷ b'0' ∷ b'0' ∷ b'0' ∷ b'0' ∷ b'0' ∷ []

abbrev listener : Socket
listener = record {
  slot = b'0' ∷ [];
  local_address = b'0' ∷ b'1' ∷ b'0' ∷ b'0' ∷ b'0' ∷ b'0' ∷ b'7' ∷ b'F' ∷ [];
  local_port = b'1' ∷ b'F' ∷ b'9' ∷ b'0' ∷ [];
  remote_address = zeros;
  remote_port = b'0' ∷ b'0' ∷ b'0' ∷ b'0' ∷ [];
  state = b'0' ∷ b'A' ∷ [];
  tx_queue = zeros;
  rx_queue = zeros;
  timer = b'0' ∷ b'0' ∷ [];
  when = zeros;
  retransmissions = zeros;
  uid = b'1' ∷ b'0' ∷ b'0' ∷ b'0' ∷ [];
  timeout = b'0' ∷ [];
  inode = b'1' ∷ b'2' ∷ b'3' ∷ b'4' ∷ b'5' ∷ [];
  slot_pad = 3;
  uid_pad = 1;
  timeout_pad = 8;
  rest = b'1' ∷ [];
}

listener-IsSocket : IsSocket listener
listener-IsSocket = record { printed = refl; port_fits = omega arith; state_fits = omega arith }

abbrev header : List ℕ
header = b's' ∷ b'l' ∷ []

abbrev entry : Entry
entry = record { type = dt_dir; name = b'4' ∷ b'2' ∷ [] }

abbrev link : Entry
link = record { type = dt_lnk; name = b'7' ∷ [] }

abbrev snapshot : Snapshot
snapshot = record {
  file = λ path.
      if same_text path (table af_inet) then some (header ∷ row_text listener ∷ []) else none;
  entries = λ path. if same_text path proc then some (entry ∷ []) else some (link ∷ []);
  link = λ path. some (socket_name 12345);
  process_fd = λ pid. pos 20;
  socket_fd = λ pfd fd. pos 21;
}

abbrev port : List ℕ
port = b'8' ∷ b'0' ∷ b'8' ∷ b'0' ∷ []

get_inode-listening_inode_example :
    (get_inode (of_snapshot snapshot) (pos 8080) af_inet []).0 ≡ 12345
get_inode-listening_inode_example =
    get_inode-listening_inode snapshot 8080 af_inet header (listener ∷ []) [] refl
      (listener-IsSocket, tt)

-- A file of /proc, and a process that has a terminal and the socket.
abbrev items : List Item
items =
    other (record { type = 8; name = b's' ∷ [] })
    ∷ process 42 (
        no_link (record { type = dt_dir; name = b'.' ∷ [] })
        ∷ descriptor 0 (some (b't' ∷ []))
        ∷ descriptor 7 (some (socket_text 12345))
        ∷ [])
    ∷ []

abbrev presented : Snapshot
presented = record {
  file = λ path. none;
  entries = λ path.
      if same_text path proc
      then some (map item_of items)
      else some (
          record { type = dt_dir; name = b'.' ∷ [] }
          ∷ record { type = dt_lnk; name = print_unsigned 0 }
          ∷ record { type = dt_lnk; name = print_unsigned 7 }
          ∷ []);
  link =
      λ path. if same_text path (fd_file 42 7) then some (socket_text 12345) else some (b't' ∷ []);
  process_fd = λ pid. pos 20;
  socket_fd = λ pfd fd. pos 21;
}

presented-IsItem : All (IsItem presented) items
unfolding print_unsigned print_digits
presented-IsItem = (
  inl (omega arith),
  ((omega arith, refl, (omega arith, ((omega arith, refl), ((omega arith, refl), tt)))), tt),
)

get_pid_fd-Found_example :
    Found (socket_text 12345) items (get_pid_fd (of_snapshot presented) 12345 []).0
get_pid_fd-Found_example = get_pid_fd-Found presented items 12345 [] refl presented-IsItem

-- The process and the descriptor.
found : (get_pid_fd (of_snapshot snapshot) 12345 []).0 ≡ some (pos 42, pos 7)
unfolding print_digits strtoul10
found = get_pid_fd-first snapshot 12345 []

hev_reuse_port_kept_example :
    let (r, t) = hev_reuse_port (of_snapshot snapshot) port [] in
    (opened t ≡ opened []) × (lines t ≤ 2 + lines [])
hev_reuse_port_kept_example = hev_reuse_port_kept (of_snapshot snapshot) port []

lines-get_inode_example :
    let (inode, t) = get_inode (of_snapshot snapshot) (pos 8080) af_inet [] in
    (opened t ≡ opened []) × (lines t ≡ suc (lines []))
lines-get_inode_example =
    lines-get_inode (of_snapshot snapshot) (pos 8080) af_inet []
      (rw get_inode-listening_inode_example (omega arith))
