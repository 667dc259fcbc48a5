-- ===== src/Protocol/Frames.antt =====
-- Requests and answers as they stand in the shared memory behind its first byte: `request_serialiser` and
-- `response_serialiser`.
use shmrpc.Prelude.{
  ℕ, ◌<◌, ltb, ◌&&◌, ◌∷◌, ◌++◌, ◌≡◌, Option, none, some, refl, arith, if◌then◌else◌,
}
use shmrpc.Protocol.Bytes.{
  Bytes, length, take, drop, be16, be32, of_be16, of_be32, of_be16-be16, of_be32-be32, take-++,
  drop-++, ++-assoc,
}

-- `b'+'` and `b'-'`
abbrev pub plus : ℕ
plus = 43

abbrev pub minus : ℕ
minus = 45

-- `struct.error` is `none`.
unfoldable pub pack_request : Bytes → Bytes → Option Bytes
pack_request cmd args =
    if ltb (length cmd) 65536 && ltb (length args) 4294967296
    then some ((be16 (length cmd) ++ be32 (length args)) ++ (cmd ++ args))
    else none

unfoldable pub unpack_request : Bytes → Option (Bytes × Bytes)
unpack_request (a ∷ b ∷ c ∷ d ∷ e ∷ f ∷ bytes) =
    let cmd_len = of_be16 a b in
    let args_len = of_be32 c d e f in some (take cmd_len bytes, take args_len (drop cmd_len bytes))
unpack_request _ = none

unfoldable pub pack_response : ℕ → Bytes → Option Bytes
pack_response status bytes =
    if ltb (length bytes) 4294967296 then some ((status ∷ be32 (length bytes)) ++ bytes) else none

unfoldable pub unpack_response : Bytes → Option (ℕ × Bytes)
unpack_response (s ∷ a ∷ b ∷ c ∷ d ∷ bytes) = some (s, take (of_be32 a b c d) bytes)
unpack_response _ = none

abbrev pub request : Bytes → Bytes → Bytes
request cmd args = (be16 (length cmd) ++ be32 (length args)) ++ (cmd ++ args)

abbrev pub response : ℕ → Bytes → Bytes
response status bytes = (status ∷ be32 (length bytes)) ++ bytes

pub pack_request_lem :
    (cmd args : Bytes)
    → length cmd < 65536
    → length args < 4294967296
    → pack_request cmd args ≡ some (request cmd args)
unfolding pack_request
pack_request_lem cmd args h k = ground (arith, h, k)

pub pack_response_lem :
    (status : ℕ) (bytes : Bytes)
    → length bytes < 4294967296
    → pack_response status bytes ≡ some (response status bytes)
unfolding pack_response
pack_response_lem status bytes h = ground (arith, h)

-- A request that is written over what was there reads as the request.
pub unpack_request-request :
    (cmd args rest : Bytes) → unpack_request (request cmd args ++ rest) ≡ some (cmd, args)
unfolding unpack_request
unpack_request-request cmd args rest =
    rw
      (
        of_be16-be16 (length cmd),
        of_be32-be32 (length args),
        ++-assoc cmd args rest,
        take-++ cmd (args ++ rest),
        drop-++ cmd (args ++ rest),
        take-++ args rest,
      )
      refl

pub unpack_response-response :
    (status : ℕ) (bytes rest : Bytes)
    → unpack_response (response status bytes ++ rest) ≡ some (status, bytes)
unfolding unpack_response
unpack_response-response status bytes rest =
    rw (of_be32-be32 (length bytes), take-++ bytes rest) refl

-- A request whose command is shorter than 2 ^ 16 and whose arguments are shorter than 2 ^ 32 is packed,
-- and a response whose data is shorter than 2 ^ 32 is. What is packed, with any bytes behind it, unpacks
-- to what it was made of.
pub frames-roundtrip :
    (cmd args : Bytes) (status : ℕ) (answer rest : Bytes)
    → length cmd < 65536
    → length args < 4294967296
    → length answer < 4294967296
    → ((b : Bytes) × (pack_request cmd args ≡ some b)
        × (unpack_request (b ++ rest) ≡ some (cmd, args)))
      × ((b : Bytes) × (pack_response status answer ≡ some b)
          × (unpack_response (b ++ rest) ≡ some (status, answer)))
frames-roundtrip cmd args status answer rest h k l = (
  (request cmd args, pack_request_lem cmd args h k, unpack_request-request cmd args rest),
  (
    response status answer,
    pack_response_lem status answer l,
    unpack_response-response status answer rest,
  ),
)
