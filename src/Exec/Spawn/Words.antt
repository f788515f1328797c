-- ===== src/Exec/Spawn/Words.antt =====
-- src/hev-exec.c: the line that starts the script on Windows fits its buffer, and holds the arguments.
use natmap.Prelude.{
  ℕ, zero, suc, ◌+◌, ◌/◌, ◌%◌, ◌≡◌, ◌≢◌, ◌⊎◌, inl, inr, ◌<◌, ◌≤◌, refl, List, [], ◌∷◌, true, false,
  Bool-cases, ltb, leb, arith, ◌==◌, length, take, get_or, All, length-append,
}
use natmap.Host.{Notice, af_inet, sock_stream, sock_dgram}
use natmap.Text.{print_digits, print_unsigned}
use natmap.Text.Decimal.{print_unsigned-ne-nil}
use natmap.Stun.Message.{ByteOrder, htons, bytes16, bytes32}
use natmap.Exec.{hex_digit, hex2, snprintf, ip4p_text, mode_text, Arguments, arguments}
use natmap.Exec.Spawn.{quoted, command_line, process, hev_exec_spawn}
use natmap.Exec.Spawn.Divided.{IsWord, divide, divide-command_line}

-- Characters from the digits on are no spaces and no quotes.
abbrev IsHigh : List ℕ → Type 0
IsHigh w = All (λ c. b'0' ≤ c) w

high-IsWord : (w : List ℕ) → IsHigh w → IsWord w
high-IsWord [] h = tt
high-IsWord (c ∷ w) (h, hs) = ((omega arith, omega arith), high-IsWord w hs)

print_digits-IsHigh : (fuel n : ℕ) (rest : List ℕ) → IsHigh rest → IsHigh (print_digits fuel n rest)
unfolding print_digits
print_digits-IsHigh zero n rest h = h
print_digits-IsHigh (suc fuel) n rest h =
    let ih = print_digits-IsHigh fuel (n / 10) ((b'0' + n % 10) ∷ rest) (omega arith, h) in
    elim (Bool-cases (ltb n 10)) [ inl short ↦ rw short (omega arith, h) | inr long ↦ rw long ih ]

take-IsHigh : (n : ℕ) (w : List ℕ) → IsHigh w → IsHigh (take n w)
take-IsHigh zero w h = tt
take-IsHigh (suc n) [] h = tt
take-IsHigh (suc n) (c ∷ w) (h, hs) = (h, take-IsHigh n w hs)

length-take : (n : ℕ) (w : List ℕ) → length (take n w) ≤ n
length-take zero w = omega arith
length-take (suc n) [] = omega arith
length-take (suc n) (c ∷ w) = omega (arith, length-take n w)

not_empty : (n : ℕ) (w : List ℕ) → w ≢ [] → 0 < length (take (suc n) w)
not_empty n [] h = absurd (h refl)
not_empty n (c ∷ w) h = omega arith

hex_digit_high : (d : ℕ) → b'0' ≤ hex_digit d
hex_digit_high d = ground arith

hex2-IsHigh : (b : ℕ) (rest : List ℕ) → IsHigh rest → IsHigh (hex2 b rest)
hex2-IsHigh b rest h = (hex_digit_high (b / 16), (hex_digit_high (b % 16), h))

ip4p_text-IsHigh : (port q : List ℕ) → IsHigh (ip4p_text port q)
unfolding ip4p_text
ip4p_text-IsHigh port q =
    let two = λ (b b' : ℕ) (rest : List ℕ) (h : IsHigh rest).
      hex2-IsHigh b (hex2 b' rest) (hex2-IsHigh b' rest h) in
    let q' = hex2 (get_or q 2 0) (hex2 (get_or q 3 0) []) in
    let q'' = hex2 (get_or q 0 0) (hex2 (get_or q 1 0) (b':' ∷ q')) in
    let last = two (get_or q 2 0) (get_or q 3 0) [] tt in
    let first = two (get_or q 0 0) (get_or q 1 0) (b':' ∷ q') (omega arith, last) in
    let groups = two (get_or port 0 0) (get_or port 1 0) (b':' ∷ q'') (omega arith, first) in
    (omega arith, (omega arith, (omega arith, (omega arith, (omega arith, (omega arith, groups))))))

-- A port in its buffer.
snprintf-IsWord :
    (n : ℕ) → let w = snprintf 32 (print_unsigned n) in IsWord w × (0 < length w) × (length w < 32)
unfolding print_unsigned
snprintf-IsWord n = (
  high-IsWord (snprintf 32 (print_unsigned n))
      (take-IsHigh 31 (print_unsigned n) (print_digits-IsHigh 10 n [] tt)),
  not_empty 30 (print_unsigned n) (print_unsigned-ne-nil n),
  omega (arith, length-take 31 (print_unsigned n)),
)

mode_text-IsWord :
    (mode : ℕ)
    → (mode ≡ sock_stream) ⊎ (mode ≡ sock_dgram)
    → let w = mode_text mode in IsWord w × (0 < length w) × (length w < 4)
mode_text-IsWord mode (inl tcp) = rw tcp (omega arith)
mode_text-IsWord mode (inr udp) = rw udp (omega arith)

-- What `inet_ntop` of libc gives: a text in its buffer.
abbrev pub IsAddress : List ℕ → Type 0
IsAddress w = IsWord w × (0 < length w) × (length w < 46)

module _ (inet_ntop : ℕ → List ℕ → List ℕ) (e : ByteOrder) (mode : ℕ) (n : Notice) where
  ip4p-IsWord : let w = (arguments inet_ntop e mode n).ip4p in IsWord w × (length w < 32)
  unfolding arguments
  ip4p-IsWord =
      let t = ip4p_text (bytes16 e n.mport []) (bytes32 e (get_or n.maddr 0 0) []) in
      elim (Bool-cases (n.family == af_inet)) [
        | inl four ↦ rw four (
          high-IsWord (snprintf 32 t) (
              take-IsHigh 31 t
                (ip4p_text-IsHigh (bytes16 e n.mport []) (bytes32 e (get_or n.maddr 0 0) []))),
          omega (arith, length-take 31 t),
        )
        | inr six ↦ rw six (tt, omega arith)
      ]

length-quoted : (w : List ℕ) → length w < 32 → length (quoted w) < 32
length-quoted [] h = omega arith
length-quoted (c ∷ w) h = h

-- The line for arguments in their buffers.
length-command_line :
    (path : List ℕ) (a : Arguments)
    → length a.oaddr < 46
    → length a.oport < 32
    → length a.ip4p < 32
    → length a.iport < 32
    → length a.mode < 4
    → length a.iaddr < 46
    → length (command_line path a) < length path + 195
unfolding command_line
length-command_line path a o p q i m r =
    omega (arith, length-append {A = ℕ}, length-quoted a.ip4p q)

-- With an `inet_ntop` that gives texts without spaces or quotes that fit their buffers, for a
-- notification in either mode and a path of up to 829 characters without quotes: where Windows
-- makes a process, the script is run, and the line that it is run by, divided at its spaces and
-- quotes, is the path and the six arguments that the script is given on other systems.
pub hev_exec_spawn-divide :
    (inet_ntop : ℕ → List ℕ → List ℕ)
    → ((family : ℕ) (words : List ℕ) → IsAddress (inet_ntop family words))
    → (e : ByteOrder) (mode : ℕ) (n : Notice) → (mode ≡ sock_stream) ⊎ (mode ≡ sock_dgram)
    → (path : List ℕ) → All (λ c. c ≢ b'"') path
    → length path < 830
    → let a = arguments inet_ntop e mode n in
      (line : List ℕ) × (hev_exec_spawn true path a ≡ process line)
      × (divide line ≡ path ∷ a.oaddr ∷ a.oport ∷ a.ip4p ∷ a.iport ∷ a.mode ∷ a.iaddr ∷ [])
unfolding hev_exec_spawn arguments
hev_exec_spawn-divide inet_ntop gives e mode n known path plain short =
    let a = arguments inet_ntop e mode n in
    let (o, o_there, o_fits) = gives n.family n.maddr in
    let (r, r_there, r_fits) = gives n.family n.baddr in
    let (p, p_there, p_fits) = snprintf-IsWord (htons e n.mport) in
    let (i, i_there, i_fits) = snprintf-IsWord (htons e n.bport) in
    let (q, q_fits) = ip4p-IsWord inet_ntop e mode n in
    let (m, m_there, m_fits) = mode_text-IsWord mode known in
    let fits = length-command_line path a o_fits p_fits q_fits i_fits m_fits r_fits in
    let room : leb 1024 (length (command_line path a)) ≡ false = ground (arith, fits) in
    (
      command_line path a,
      rw room refl,
      divide-command_line path a plain (record {
        oaddr = (o, o_there);
        oport = (p, p_there);
        ip4p = q;
        iport = (i, i_there);
        mode = (m, m_there);
        iaddr = (r, r_there);
      }),
    )
