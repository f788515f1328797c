-- ===== src/Misc/Table.antt =====
-- src/hev-misc.c: `get_inode` on a table as the kernel prints it.
use natmap.Prelude.{
  ℕ, suc, ◌^◌, ◌<◌, ◌≡◌, refl, ap, ◌∙◌, List, [], ◌∷◌, map, Bool, true, ◌&&◌, none, some, arith,
  inl, inr, Bool-cases, ◌==◌, if◌then◌else◌, All,
}
use natmap.Prelude.Int.{pos, int_of}
use natmap.Text.Scan.{scan}
use natmap.Text.Scan.Printed.{
  value, Token, number10, number16, run, gap, mark, print, is_printed, scan-print,
}
use natmap.Misc.Kernel.{Calls, line_allocated, file_opened}
use natmap.Misc.{row_format, to_row, listens, inode_of, table, find_row, read_table, get_inode}
use natmap.Misc.Search.{Snapshot, of_snapshot}

-- What a row of /proc/net/tcp is printed from: the digits of its numbers, and the widths of its
-- blanks.
pub record Socket : Type 0 where
  pub slot : List ℕ
  pub local_address : List ℕ
  pub local_port : List ℕ
  pub remote_address : List ℕ
  pub remote_port : List ℕ
  pub state : List ℕ
  pub tx_queue : List ℕ
  pub rx_queue : List ℕ
  pub timer : List ℕ
  pub when : List ℕ
  pub retransmissions : List ℕ
  pub uid : List ℕ
  pub timeout : List ℕ
  pub inode : List ℕ
  pub slot_pad : ℕ
  pub uid_pad : ℕ
  pub timeout_pad : ℕ
  pub rest : List ℕ

-- "%4d: %08X:%04X %08X:%04X %02X %08X:%08X %02X:%08lX %08X %5u %8d %lu " and the rest.
abbrev pub tokens : Socket → List Token
tokens s =
    number10 s.slot_pad s.slot
    ∷ mark b':'
    ∷ gap 1
    ∷ run s.local_address
    ∷ mark b':'
    ∷ number16 s.local_port
    ∷ gap 1
    ∷ run s.remote_address
    ∷ mark b':'
    ∷ number16 s.remote_port
    ∷ gap 1
    ∷ number16 s.state
    ∷ gap 1
    ∷ number16 s.tx_queue
    ∷ mark b':'
    ∷ number16 s.rx_queue
    ∷ gap 1
    ∷ number16 s.timer
    ∷ mark b':'
    ∷ number16 s.when
    ∷ gap 1
    ∷ number16 s.retransmissions
    ∷ gap (suc s.uid_pad)
    ∷ number10 0 s.uid
    ∷ gap (suc s.timeout_pad)
    ∷ number10 0 s.timeout
    ∷ gap 1
    ∷ number10 0 s.inode
    ∷ []

abbrev pub row_text : Socket → List ℕ
row_text s = print (tokens s) (32 ∷ s.rest)

-- The digits are digits, the port has 16 bits and the state 8.
pub record IsSocket (s : Socket) : Type 0 where
  pub printed : is_printed (tokens s) (32 ∷ s.rest) ≡ true
  pub port_fits : value 16 0 s.local_port < 2 ^ 16
  pub state_fits : value 16 0 s.state < 2 ^ 8

abbrev pub is_listening : ℕ → Socket → Bool
is_listening port s = value 16 0 s.state == 10 && value 16 0 s.local_port == port

-- The inode of the first socket that listens on a port.
abbrev pub listening_inode : ℕ → List Socket → ℕ
listening_inode port [] = 0
listening_inode port (s ∷ sockets) =
    if is_listening port s then value 10 0 s.inode else listening_inode port sockets

scan-row_text :
    (s : Socket)
    → IsSocket s
    → to_row (scan row_format (row_text s))
      ≡ some (record {
        local_port = int_of (value 16 0 s.local_port);
        state = int_of (value 16 0 s.state);
        inode = value 10 0 s.inode;
      })
unfolding to_row
scan-row_text s h = ap to_row (scan-print (tokens s) (32 ∷ s.rest) h.printed)

int_of_small : (n : ℕ) → n < 2 ^ 31 → int_of n ≡ pos n
int_of_small n h = ground arith

inode_of-row_text :
    (port : ℕ) (s : Socket)
    → IsSocket s
    → inode_of (pos port) (row_text s)
      ≡ (if is_listening port s then some (value 10 0 s.inode) else none)
inode_of-row_text port s h = ap (listens (pos port)) (scan-row_text s h) ∙ listened
  where
    h_state : value 16 0 s.state < 2 ^ 31
    h_state = omega (arith, h.state_fits)

    h_port : value 16 0 s.local_port < 2 ^ 31
    h_port = omega (arith, h.port_fits)

    listened :
        listens (pos port) (
          some (record {
            local_port = int_of (value 16 0 s.local_port);
            state = int_of (value 16 0 s.state);
            inode = value 10 0 s.inode;
          }))
        ≡ (if is_listening port s then some (value 10 0 s.inode) else none)
    listened =
        rw
          (int_of_small (value 16 0 s.state) h_state, int_of_small (value 16 0 s.local_port) h_port)
          refl

find_row-row_text :
    (port : ℕ) (sockets : List Socket) (t : Calls)
    → All IsSocket sockets
    → (find_row (pos port) (map row_text sockets) t).0 ≡ listening_inode port sockets
unfolding find_row
find_row-row_text port [] t h = refl
find_row-row_text port (s ∷ sockets) t (h, hs) =
    let read = inode_of-row_text port s h in
    elim (Bool-cases (is_listening port s)) [
      | inl yes' ↦ rw (read, yes', find_row) refl
      | inr other ↦ rw (read, other, find_row) (find_row-row_text port sockets t hs)
    ]

-- Where the table of a family holds a header and rows as the kernel prints them, of sockets with
-- ports of 16 bits and states of 8, `get_inode` gives the inode of the first socket that listens on
-- the port, and 0 where there is none.
pub get_inode-listening_inode :
    (s : Snapshot) (port family : ℕ) (header : List ℕ) (sockets : List Socket) (t : Calls)
    → s.file (table family) ≡ some (header ∷ map row_text sockets)
    → All IsSocket sockets
    → (get_inode (of_snapshot s) (pos port) family t).0 ≡ listening_inode port sockets
unfolding get_inode read_table
get_inode-listening_inode s port family header sockets t file h =
    rw (file, get_inode) (find_row-row_text port sockets (line_allocated ∷ file_opened ∷ t) h)
