-- ===== src/Text/Tests.antt =====
-- Server names as they are written on the command line.
use natmap.Prelude.{◌≡◌, refl, [], ◌∷◌}
use natmap.Text.{scan_server, strtoul0}

named : scan_server (b'a' ∷ b':' ∷ b'4' ∷ []) [] [] ≡ (b'a' ∷ [], b'4' ∷ [])
unfolding scan_server
named = refl

hexadecimal : strtoul0 (b'0' ∷ b'x' ∷ b'1' ∷ b'f' ∷ []) ≡ 31
unfolding strtoul0
hexadecimal = refl

octal : strtoul0 (b'0' ∷ b'1' ∷ b'7' ∷ []) ≡ 15
unfolding strtoul0
octal = refl
