-- ===== src/Exec.antt =====
-- src/hev-exec.c: the arguments of the script, on other systems than Windows.
pub mod Address
pub mod Spawn
mod Tests
use natmap.Prelude.{
  ℕ, ◌+◌, ◌-◌, ◌/◌, ◌%◌, List, [], ◌∷◌, ◌++◌, Option, none, some, Bool, true, false, ◌&&◌, ltb,
  ◌==◌, if◌then◌else◌, take, get_or,
}
use natmap.Prelude.Int.{ℤ, pos, is_neg}
use natmap.Host.{Notice, af_inet, sock_stream, sock_dgram}
use natmap.Text.{print_unsigned}
use natmap.Stun.Message.{ByteOrder, htons, bytes16, bytes32}

-- `%02x` of an `unsigned char`.
abbrev pub hex_digit : ℕ → ℕ
hex_digit d = if ltb d 10 then b'0' + d else b'a' + (d - 10)

abbrev pub hex2 : ℕ → List ℕ → List ℕ
hex2 b rest = hex_digit (b / 16) ∷ hex_digit (b % 16) ∷ rest

-- `snprintf` keeps what fits in front of the final zero.
abbrev snprintf : ℕ → List ℕ → List ℕ
snprintf size s = take (size - 1) s

-- "2001::%02x%02x:%02x%02x:%02x%02x" of the bytes of the port and of the address.
pub ip4p_text : (port address : List ℕ) → List ℕ
ip4p_text port q =
    b'2'
    ∷ b'0'
    ∷ b'0'
    ∷ b'1'
    ∷ b':'
    ∷ b':'
    ∷ hex2 (get_or port 0 0) (
        hex2 (get_or port 1 0) (
          b':'
          ∷ hex2 (get_or q 0 0)
              (hex2 (get_or q 1 0) (b':' ∷ hex2 (get_or q 2 0) (hex2 (get_or q 3 0) [])))))

abbrev mode_text : ℕ → List ℕ
mode_text mode =
    if mode == sock_stream
    then b't' ∷ b'c' ∷ b'p' ∷ []
    else if mode == sock_dgram
    then b'u' ∷ b'd' ∷ b'p' ∷ []
    else []

pub record Arguments : Type 0 where
  pub oaddr : List ℕ
  pub oport : List ℕ
  pub ip4p : List ℕ
  pub iport : List ℕ
  pub mode : List ℕ
  pub iaddr : List ℕ

-- What becomes of a notification: a line on the output, or a script that is run, or that could not
-- be run since there was no new process.
pub data Action : Type 0 where
  printed : List ℕ → Action
  run : (path : List ℕ) → Arguments → Action
  not_run : Action

abbrev line : Arguments → List ℕ
line a =
    a.oaddr
    ++ (32
        ∷ (a.oport
            ++ (32
                ∷ (a.ip4p
                    ++ (32 ∷ (a.iport ++ (32 ∷ (a.mode ++ (32 ∷ (a.iaddr ++ (10 ∷ [])))))))))))

-- `inet_ntop` of libc, on the words of an address of a family.
module _ (inet_ntop : ℕ → List ℕ → List ℕ) (e : ByteOrder) where
  pub arguments : (mode : ℕ) → Notice → Arguments
  unfolding ip4p_text
  arguments mode n = record {
    oaddr = inet_ntop n.family n.maddr;
    iaddr = inet_ntop n.family n.baddr;
    oport = snprintf 32 (print_unsigned (htons e n.mport));
    iport = snprintf 32 (print_unsigned (htons e n.bport));
    ip4p =
        if n.family == af_inet
        then snprintf 32 (ip4p_text (bytes16 e n.mport []) (bytes32 e (get_or n.maddr 0 0) []))
        else [];
    mode = mode_text mode;
  }

  -- `pid` is what `fork` returns to the program.
  pub hev_exec_run : (mode : ℕ) (path : Option (List ℕ)) (pid : ℤ) → Notice → Action
  unfolding arguments
  hev_exec_run mode none pid n = printed (line (arguments mode n))
  hev_exec_run mode (some path) pid n = if is_neg pid then not_run else run path (arguments mode n)
