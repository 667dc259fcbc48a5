-- ===== src/Network/Messages.antt =====
-- What goes over the connection: `len_packer` and `response_packer` of consts.py, ZLibCompression.py, and
-- the two sides of a call, `NetworkClient._send` and `NetworkServer.run`. Lengths are below 2 ^ 31.
use shmrpc.Prelude.{ℕ, ◌==◌, leb, ltb, ◌&&◌, List, [], ◌∷◌, ◌++◌, Option, none, some, if◌then◌else◌}
use shmrpc.Protocol.Bytes.{Bytes, length, drop, be32, of_be32}
use shmrpc.Protocol.Frames.{plus, minus}
use shmrpc.Protocol.Client.{Reply, value, remote_exception}
use shmrpc.Protocol.Server.{Served, result, exception}
use shmrpc.Network.Stream.{Received, got, connection_reset, out_of_fuel, recv}

-- `deflate` is `zlib.compress`, `inflate` is `zlib.decompress`; `overflow` is the `repr` of the struct.error for
-- a result that is too long.
module _ (deflate inflate : Bytes → Bytes) (overflow : Bytes) where
  -- Whether it is compressed, and the bytes.
  abbrev pub compress : Bytes → ℕ × Bytes
  compress o = if leb 860 (length o) then (1, deflate o) else (0, o)

  abbrev pub expand : ℕ → Bytes → Bytes
  expand actually_compressed o = if actually_compressed == 0 then o else inflate o

  -- `prefix + cmd`, which the data follows.
  abbrev pub request_head : Bytes → ℕ × Bytes → Bytes
  request_head cmd sent = (sent.0 ∷ (be32 (length sent.1) ++ be32 (length cmd))) ++ cmd

  abbrev pub response_head : ℕ → ℕ × Bytes → Bytes
  response_head status sent = sent.0 ∷ (be32 (length sent.1) ++ (status ∷ []))

  -- The status, and what is sent behind the head.
  abbrev pub response_of : Served → ℕ × (ℕ × Bytes)
  response_of (result r) =
      let sent = compress r in
      if ltb (length sent.1) 2147483648 then (plus, sent) else (minus, (0, overflow))
  response_of (exception repr) = (minus, (0, repr))

  -- `struct.error` is `none`.
  unfoldable pub request_message : Bytes → Bytes → Option Bytes
  request_message cmd args =
      let sent = compress args in
      if ltb (length sent.1) 2147483648 && ltb (length cmd) 2147483648
      then some (request_head cmd sent ++ sent.1)
      else none

  unfoldable pub response_message : Served → Option Bytes
  response_message o =
      let (status, sent) = response_of o in
      if ltb (length sent.1) 2147483648 then some (response_head status sent ++ sent.1) else none

  abbrev pub or_none : {A : Type 0} → Received → (Bytes → List Bytes → Option A) → Option A
  or_none (got b cs) k = k b cs
  or_none connection_reset k = none
  or_none out_of_fuel k = none

  -- The command and its arguments, or `return` where the connection is reset.
  abbrev pub read_parts : Bytes → List Bytes → Option ((Bytes × Bytes) × List Bytes)
  read_parts (f ∷ a ∷ b ∷ c ∷ d ∷ e ∷ g ∷ h ∷ i ∷ []) cs =
      or_none (recv (of_be32 e g h i) cs)
        λ cmd ds. or_none (recv (of_be32 a b c d) ds) λ args es. some ((cmd, expand f args), es)
  read_parts _ cs = none

  unfoldable pub read_command : List Bytes → Option ((Bytes × Bytes) × List Bytes)
  read_command cs = or_none (recv 9 cs) read_parts

  -- What the client makes of a response; `none` is a reset.
  abbrev pub reply_with : ℕ → Bytes → Reply
  reply_with status data_bytes =
      if status == plus then value data_bytes else remote_exception (drop 1 data_bytes)

  abbrev pub read_data : Bytes → List Bytes → Option (Reply × List Bytes)
  read_data (f ∷ a ∷ b ∷ c ∷ d ∷ status ∷ []) cs =
      or_none (recv (of_be32 a b c d) cs)
        λ data_bytes ds. some (reply_with status (expand f data_bytes), ds)
  read_data _ cs = none

  unfoldable pub read_reply : List Bytes → Option (Reply × List Bytes)
  read_reply cs = or_none (recv 6 cs) read_data
