-- ===== src/Stun/Tests.antt =====
-- Runs of src/hev-stun.c: a response with a SOFTWARE attribute and the masked address 203.0.113.7,
-- port 0x1234, and queries over a host that answers nothing.
use natmap.Prelude.{
  ℕ, ◌+◌, ◌≡◌, ◌≢◌, refl, false, [], ◌∷◌, ◌++◌, some, none, arith, replicate, length-replicate,
}
use natmap.Prelude.Int.{pos, minus_one}
use natmap.Host.{Host, IsPosix, answered, recv_failed, sock_dgram}
use natmap.Stun.Message.{ByteOrder, little, big, StunMessage, ok, htons, stun_pack}
use natmap.Stun.Message.Loads.{Returns}
use natmap.Stun.Wire.{Quad, quad, Attribute, encode_attributes, IsSkipped, xor_mapped4, xor_mapped6}
use natmap.Stun.Unpack.{Endpoint, stun_unpack}
use natmap.Stun.Unpack.Bounds.{stun_unpack-Returns}
use natmap.Stun.Unpack.Decode.{stun_unpack_padded}
use natmap.Stun.Unpack.Mapping.{IsMapping4, IsMapping6, unpacked}
use natmap.Stun.Unpack.Results.{
  quad_of, stun_pack-wire, stun_unpack-xor_mapped4, stun_unpack-xor_mapped6,
  stun_unpack-xor_mapped4_big,
}
use natmap.Stun.Compare.{Words, initial_last}
use natmap.Stun.Exchange.{Retries, bufsize}
use natmap.Stun.Client.{Statics, stun_bind}
use natmap.Stun.Client.Bind.{Concludes, response, stun_bind-Concludes}

abbrev id0 : Quad
id0 = quad_of little 5

abbrev id1 : Quad
id1 = quad_of little 6

abbrev id2 : Quad
id2 = quad_of little 7

abbrev asked : ByteOrder → StunMessage
asked e = stun_pack e 5 6 7

abbrev software : Attribute
software = record { type = 0x8022; value = 1 ∷ 2 ∷ 3 ∷ 4 ∷ [] }

software-IsSkipped : IsSkipped software
software-IsSkipped = omega arith

abbrev address : Quad
address = record { b0 = 203; b1 = 0; b2 = 113; b3 = 7 }

stun_unpack-xor_mapped4_example :
    (x : Endpoint) × (unpacked little
        (asked little)
        (9 ∷ [])
        (software ∷ [])
        12
        (xor_mapped4 0x12 0x34 address (quad address (quad address (quad address []))))
      ≡ ok (some x))
    × IsMapping4 little address x
    × (htons little x.port ≡ 0x1234)
stun_unpack-xor_mapped4_example =
    stun_unpack-xor_mapped4 little (asked little) id0 id1 id2 (stun_pack-wire little 5 6 7).1
      (9 ∷ []) (software ∷ []) (software-IsSkipped, tt) [] 12 (omega arith) 0x12 0x34 (omega arith)
      (omega arith) address address address address (omega arith) refl

stun_unpack-xor_mapped6_example :
    (x : Endpoint) × (unpacked little
        (asked little)
        []
        (software ∷ [])
        24
        (xor_mapped6 0x12 0x34 address address address address id0 id1 id2 [])
      ≡ ok (some x))
    × IsMapping6 little address address address address x
    × (htons little x.port ≡ 0x1234)
stun_unpack-xor_mapped6_example =
    stun_unpack-xor_mapped6 little (asked little) id0 id1 id2 (stun_pack-wire little 5 6 7).1 []
      (software ∷ []) (software-IsSkipped, tt) [] 24 (omega arith) 0x12 0x34 (omega arith)
      (omega arith) address address address address (omega arith) (omega arith) refl

stun_unpack-xor_mapped4_big_example :
    (x : Endpoint) × (unpacked big
        (asked big)
        []
        []
        12
        (xor_mapped4 0x12 0x34 address (quad address (quad address (quad address []))))
      ≡ ok (some x))
    × IsMapping4 big address x
    × (htons big x.port ≢ 0x1234)
stun_unpack-xor_mapped4_big_example =
    stun_unpack-xor_mapped4_big big (asked big) (quad_of big 5) (quad_of big 6) (quad_of big 7)
      (stun_pack-wire big 5 6 7).1 [] [] tt [] 12 (omega arith) 0x12 0x34 (omega arith)
      (omega arith) address address address address (omega arith) refl

abbrev odd : Attribute
odd = record { type = 0x8022; value = 1 ∷ 2 ∷ 3 ∷ [] }

odd-IsSkipped : IsSkipped odd
odd-IsSkipped = omega arith

stun_unpack_padded_example :
    stun_unpack little
      (asked little)
      (encode_attributes (odd ∷ []) ++ 0 ∷ xor_mapped4 0x12 0x34 address [])
      20
      0
    ≡ ok none
stun_unpack_padded_example =
    stun_unpack_padded little (asked little) [] odd 0x12 0x34 address [] 13 odd-IsSkipped
      (omega arith) (omega arith)

stun_unpack-Returns_example : Returns (stun_unpack little (asked little) (replicate 33 0xff) 10 0)
stun_unpack-Returns_example =
    stun_unpack-Returns little (asked little) (replicate 33 0xff) 10 0 (omega arith)

abbrev zeros : Words
zeros = record { w0 = 0; w1 = 0; w2 = 0; w3 = 0 }

-- Sends succeed and nothing is received.
abbrev mute : Host
mute = record {
  getaddrinfo = λ t family type node service passive. answered 0 none;
  socket = λ t family type. minus_one;
  set_close_on_exec = λ t fd. pos 0;
  setsockopt = λ t fd opt. pos 0;
  bind = λ t fd addr. pos 0;
  connect = λ t fd addr. pos 0;
  listen = λ t fd backlog. pos 0;
  getsockname = λ t fd.
      (minus_one, record { family = 0; port = 0; addr0 = 0; addr1 = 0; addr2 = 0; addr3 = 0 });
  send = λ t fd bytes. pos 20;
  recv = λ t fd size. recv_failed 1;
}

mute-IsPosix : IsPosix mute
mute-IsPosix = record { recv_fits = λ t fd size. omega arith }

abbrev three_each : Retries
three_each = record { retry1 = 3; retry2 = 2; second = false }

abbrev fresh : Statics
fresh = record { retries = three_each; last = initial_last }

stun_bind-Concludes_example :
    Concludes mute little zeros 9
      (response mute little zeros 9
        (pos 4)
        sock_dgram
        (stun_pack little 5 6 7)
        (replicate (bufsize + 32) 0)
        fresh
        [])
      20
      []
      fresh
      (stun_bind mute little zeros 9 (pos 4) sock_dgram 5 6 7 (replicate (bufsize + 32) 0) fresh [])
stun_bind-Concludes_example =
    stun_bind-Concludes mute little zeros 9 mute-IsPosix (pos 4) sock_dgram 5 6 7
      (replicate (bufsize + 32) 0) fresh [] (length-replicate {A = ℕ} (bufsize + 32) 0)
