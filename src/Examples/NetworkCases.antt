-- ===== src/Examples/NetworkCases.antt =====
-- Calls over a connection at concrete inputs.
use shmrpc.Prelude.{◌≡◌, [], ◌∷◌, ◌++◌, some, refl, arith}
use shmrpc.Protocol.Bytes.{Bytes, drop}
use shmrpc.Protocol.Client.{value}
use shmrpc.Protocol.Server.{result}
use shmrpc.Network.Stream.{connection_reset, recv, push}
use shmrpc.Network.Received.{recv-connection_reset}
use shmrpc.Network.Messages.{
  compress, request_head, response_head, response_of, request_message, read_command,
  response_message, read_reply,
}
use shmrpc.Network.Answered.{network_lem}

abbrev deflate : Bytes → Bytes
deflate o = 120 ∷ o

abbrev inflate : Bytes → Bytes
inflate o = drop 1 o

abbrev args : Bytes
args = 1 ∷ 2 ∷ 3 ∷ []

abbrev reply : Bytes
reply = 4 ∷ 5 ∷ []

-- The arguments come in three chunks, of which the first stands behind the head, and the answer in two.
network_example :
    let head = request_head deflate inflate [] (97 ∷ []) (compress deflate inflate [] args) in
    let (status, sent) = response_of deflate inflate [] (result reply) in
    let answer_head = response_head deflate inflate [] status sent in
    (request_message deflate inflate [] (97 ∷ []) args ≡ some (head ++ args))
    × (read_command deflate inflate [] (push (head ++ (1 ∷ [])) ((2 ∷ []) ∷ (3 ∷ []) ∷ []))
        ≡ some ((97 ∷ [], args), []))
    × (response_message deflate inflate [] (result reply) ≡ some (answer_head ++ reply))
    × (read_reply deflate inflate [] (push (answer_head ++ []) (reply ∷ []))
        ≡ some (value reply, []))
network_example =
    network_lem deflate inflate [] (λ o. refl) (97 ∷ []) args (1 ∷ []) ((2 ∷ []) ∷ (3 ∷ []) ∷ [])
      (result reply) [] (reply ∷ []) (omega arith) (omega arith) (omega arith)
      (omega arith, (omega arith, tt)) refl (omega arith, tt) refl

-- The head of an answer, 6 bytes, of which 2 come first.
recv_example : recv 6 ((0 ∷ 0 ∷ []) ∷ (0 ∷ 0 ∷ 1 ∷ 43 ∷ 7 ∷ []) ∷ []) ≡ connection_reset
recv_example =
    recv-connection_reset 5 (0 ∷ 0 ∷ []) (0 ∷ 0 ∷ 1 ∷ 43 ∷ 7 ∷ []) []
      (omega arith, (omega arith, tt)) (omega arith) (omega arith)
