-- ===== src/Text/Server.antt =====
-- Server names with a port, `-s` and `-h`: what is written is what is read.
use natmap.Prelude.{ℕ, zero, suc, ◌≤◌, ◌<◌, ◌≡◌, ◌≢◌, refl, List, [], ◌∷◌, ◌++◌, All, arith, length}
use natmap.Text.{span_host, span_digits, scan_server}

abbrev pub IsHost : List ℕ → Type 0
IsHost h = (0 < length h) × (length h ≤ 255) × All (λ c. c ≢ b':') h

abbrev pub IsPort : List ℕ → Type 0
IsPort p = (0 < length p) × (length p ≤ 5) × All (λ c. (b'0' ≤ c) × (c ≤ b'9')) p

span_host-All :
    (w : ℕ) (h : List ℕ) → length h ≤ w → All (λ c. c ≢ b':') h → span_host w h ≡ (h, [])
unfolding span_host
span_host-All zero [] fits plain = refl
span_host-All (suc w) [] fits plain = refl
span_host-All zero (c ∷ h) fits plain = absurd (omega arith)
span_host-All (suc w) (c ∷ h) fits plain =
    ground (arith, span_host-All w h (omega arith) plain.1, plain.0)

span_host-colon :
    (w : ℕ) (h rest : List ℕ)
    → length h ≤ w
    → All (λ c. c ≢ b':') h
    → span_host w (h ++ b':' ∷ rest) ≡ (h, b':' ∷ rest)
unfolding span_host
span_host-colon zero [] rest fits plain = refl
span_host-colon (suc w) [] rest fits plain = refl
span_host-colon zero (c ∷ h) rest fits plain = absurd (omega arith)
span_host-colon (suc w) (c ∷ h) rest fits plain =
    ground (arith, span_host-colon w h rest (omega arith) plain.1, plain.0)

span_digits-All :
    (w : ℕ) (p : List ℕ) → length p ≤ w → All (λ c. (b'0' ≤ c) × (c ≤ b'9')) p → span_digits w p ≡ p
unfolding span_digits
span_digits-All zero [] fits plain = refl
span_digits-All (suc w) [] fits plain = refl
span_digits-All zero (c ∷ p) fits plain = absurd (omega arith)
span_digits-All (suc w) (c ∷ p) fits plain =
    ground (arith, span_digits-All w p (omega arith) plain.1, plain.0)

-- A host name of 1 to 255 characters without a colon, and 1 to 5 digits behind a colon, are read
-- as the host and the port; without a colon the port stays as it was.
pub scan_server_lem :
    (host port old_host old_port : List ℕ)
    → IsHost host
    → IsPort port
    → (scan_server (host ++ b':' ∷ port) old_host old_port ≡ (host, port))
      × (scan_server host old_host old_port ≡ (host, old_port))
unfolding scan_server
scan_server_lem [] port old_host old_port h p = absurd (omega arith)
scan_server_lem (c ∷ host) [] old_host old_port h p = absurd (omega arith)
scan_server_lem (c ∷ host) (d ∷ port) old_host old_port h p =
    let with_port = span_host-colon 255 (c ∷ host) (d ∷ port) h.1 h.2 in
    let alone = span_host-All 255 (c ∷ host) h.1 h.2 in
    let digits = span_digits-All 5 (d ∷ port) p.1 p.2 in (rw (with_port, digits), rw alone)
