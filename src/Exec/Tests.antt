-- ===== src/Exec/Tests.antt =====
-- src/hev-exec.c for a response that carries the address 203.0.113.7 and the port 0x1234.
use natmap.Prelude.{ℕ, ◌≡◌, refl, inl, true, List, [], ◌∷◌, some, arith}
use natmap.Host.{Notice, af_inet, sock_stream}
use natmap.Stun.Message.{little, ok, StunMessage, stun_pack}
use natmap.Stun.Wire.{Quad, quad, xor_mapped4}
use natmap.Stun.Unpack.{Endpoint}
use natmap.Stun.Unpack.Mapping.{unpacked}
use natmap.Stun.Unpack.Results.{quad_of, stun_pack-wire}
use natmap.Stun.Compare.{Words}
use natmap.Stun.Client.{notice}
use natmap.Exec.{arguments}
use natmap.Exec.Spawn.{process, hev_exec_spawn}
use natmap.Exec.Spawn.Divided.{divide}
use natmap.Exec.Spawn.Words.{hev_exec_spawn-divide}
use natmap.Exec.Address.{Tells, stun_unpack-Tells}

abbrev asked : StunMessage
asked = stun_pack little 5 6 7

abbrev address : Quad
address = record { b0 = 203; b1 = 0; b2 = 113; b3 = 7 }

abbrev bound : Words
bound = record { w0 = 0; w1 = 0; w2 = 0; w3 = 0 }

-- An `inet_ntop` that prints nothing.
abbrev prints_nothing : ℕ → List ℕ → List ℕ
prints_nothing family words = []

stun_unpack-Tells_example :
    (x : Endpoint) × (unpacked little asked [] [] 12
        (xor_mapped4 0x12 0x34 address (quad address (quad address (quad address []))))
      ≡ ok (some x))
    × Tells (arguments prints_nothing little sock_stream (notice x bound 0)) 0x12 0x34 address
stun_unpack-Tells_example =
    stun_unpack-Tells prints_nothing sock_stream bound 0 asked (quad_of little 5) (quad_of little 6)
      (quad_of little 7) (stun_pack-wire little 5 6 7).1 [] [] tt [] 12 (omega arith) 0x12 0x34
      address address address address (omega arith) (omega arith) (omega arith)

-- An `inet_ntop` that prints one address.
abbrev prints_one : ℕ → List ℕ → List ℕ
prints_one family words = b':' ∷ b':' ∷ b'1' ∷ []

abbrev told : Notice
told = record { family = af_inet; maddr = 0x710007cb ∷ []; mport = 0x3412; baddr = []; bport = 80 }

hev_exec_spawn-divide_example :
    let a = arguments prints_one little sock_stream told in
    let path : List ℕ = b'r' ∷ 32 ∷ b'u' ∷ b'n' ∷ [] in
    (line : List ℕ) × (hev_exec_spawn true path a ≡ process line)
    × (divide line ≡ path ∷ a.oaddr ∷ a.oport ∷ a.ip4p ∷ a.iport ∷ a.mode ∷ a.iaddr ∷ [])
hev_exec_spawn-divide_example =
    hev_exec_spawn-divide prints_one (λ family words. omega arith) little sock_stream told
      (inl refl) (b'r' ∷ 32 ∷ b'u' ∷ b'n' ∷ []) (omega arith) (omega arith)
