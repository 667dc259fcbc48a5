-- ===== src/Examples/ProtocolCases.antt =====
-- Exchanges over shared memory at concrete inputs.
use shmrpc.Prelude.{
  ℕ, suc, ◌<◌, ◌≤◌, ◌≡◌, ◌⊎◌, inl, ◌++◌, ◌*◌, ◌^◌, List, [], ◌∷◌, some, Bool, false, refl, arith,
  ◌==◌, if◌then◌else◌,
}
use shmrpc.Protocol.Bytes.{Bytes}
use shmrpc.Protocol.Frames.{
  plus, pack_request, unpack_request, pack_response, unpack_response, frames-roundtrip,
}
use shmrpc.Protocol.Memory.{Region, Memory, client, chk_size}
use shmrpc.Protocol.Sizes.{chk_size_lem}
use shmrpc.Protocol.Client.{value, remote_exception}
use shmrpc.Protocol.Server.{Served, result, exception}
use shmrpc.Protocol.Exchange.{Connection, Turn, server_turn, server_timeout, client_turn, exchange}
use shmrpc.Protocol.Served.{Ready, Ends, exchange_lem}
use shmrpc.Protocol.Session.{Call, direct, service_session, service_session_lem}

abbrev is_a : Bytes → Bool
is_a [] = false
is_a (c ∷ cs) = c == 97

-- A service that counts its calls. The method "a" gives its argument back twice, others raise an
-- exception.
abbrev serve : Bytes → Bytes → ℕ → Served × ℕ
serve cmd args s =
    (if is_a cmd then result (args ++ args) else exception (69 ∷ 40 ∷ 41 ∷ []), suc s)

abbrev overflow : Bytes
overflow = 101 ∷ []

-- A map of 8 bytes, in which no request of 10 has room.
abbrev small : Region
small = record { status = client; body = 0 ∷ 0 ∷ 0 ∷ 0 ∷ 0 ∷ 0 ∷ 0 ∷ [] }

abbrev memory : Memory
memory = record { bound = some 0; regions = λ _. small; count = 1 }

abbrev connected : Connection ℕ
connected = record { memory = memory; client_map = 0; server_map = 0; service = 5 }

connected-Ready : Ready connected
connected-Ready = record {
  current = record {
    bound = refl;
    inside = omega arith;
    valid = λ e. omega (arith, e);
    room = omega arith;
  };
  seen = (omega arith, inl refl);
  free = refl;
}

abbrev some_turns : List Turn
some_turns = client_turn ∷ server_timeout ∷ server_turn ∷ server_turn ∷ client_turn ∷ []

exchange_example :
    Ends 8
      (omega arith)
      overflow
      serve
      (omega arith)
      (97 ∷ [])
      (1 ∷ 2 ∷ 3 ∷ [])
      5
      false
      some_turns
      (exchange 8 overflow serve (97 ∷ []) (1 ∷ 2 ∷ 3 ∷ []) some_turns connected)
exchange_example =
    exchange_lem 8 (omega arith) overflow serve (omega arith) (97 ∷ []) (1 ∷ 2 ∷ 3 ∷ []) 5 refl tt
      some_turns connected connected-Ready refl (omega arith) (omega arith)

abbrev calls : List Call
calls =
    record { cmd = 97 ∷ []; args = 1 ∷ 2 ∷ []; turns = some_turns }
    ∷ record { cmd = 98 ∷ []; args = []; turns = server_turn ∷ client_turn ∷ [] }
    ∷ []

service_session_example :
    service_session 8 overflow serve calls 5 memory
    ≡ some (value (1 ∷ 2 ∷ 1 ∷ 2 ∷ []) ∷ remote_exception (69 ∷ 40 ∷ 41 ∷ []) ∷ [], 7)
unfolding direct
service_session_example =
    service_session_lem 8 overflow serve (omega arith) (omega arith) calls 5 memory (
      refl,
      refl,
      omega arith,
      omega arith,
      tt,
      (refl, refl, omega arith, omega arith, omega arith, tt),
    )

chk_size_example :
    (5000 ≤ chk_size 4096 5000)
    × ((k : ℕ) × (chk_size 4096 5000 ≡ 4096 * 2 ^ k))
    × ((chk_size 4096 5000 ≡ 4096) ⊎ (chk_size 4096 5000 < 2 * 5000))
chk_size_example = chk_size_lem 4096 5000 (omega arith)

frames_example :
    ((b : Bytes) × (pack_request (97 ∷ []) (1 ∷ 2 ∷ []) ≡ some b)
      × (unpack_request (b ++ (7 ∷ [])) ≡ some (97 ∷ [], 1 ∷ 2 ∷ [])))
    × ((b : Bytes) × (pack_response plus (3 ∷ []) ≡ some b)
        × (unpack_response (b ++ (7 ∷ [])) ≡ some (plus, 3 ∷ [])))
frames_example =
    frames-roundtrip (97 ∷ []) (1 ∷ 2 ∷ []) plus (3 ∷ []) (7 ∷ []) (omega arith) (omega arith)
      (omega arith)
