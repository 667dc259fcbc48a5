-- ===== src/Network/Answered.antt =====
-- A request and its answer over a connection, in whatever chunks they come in behind their heads.
use shmrpc.Prelude.{
  ℕ, ◌<◌, ltb, ◌≡◌, List, [], ◌∷◌, ◌++◌, some, refl, arith, if◌then◌else◌, Bool-cases, inl, inr,
  ◌∙◌,
}
use shmrpc.Protocol.Bytes.{Bytes, length, drop, be32, of_be32-be32}
use shmrpc.Protocol.Client.{Reply, value, remote_exception}
use shmrpc.Protocol.Server.{Served, result, exception}
use shmrpc.Network.Stream.{got, recv, Solid, flat, push, push-Solid, flat-push}
use shmrpc.Network.Received.{recv-first, recv-rest}
use shmrpc.Network.Messages.{
  compress, expand, request_head, response_head, request_message, response_message, response_of,
  read_command, reply_with, read_reply,
}

module _ (deflate inflate : Bytes → Bytes) (overflow : Bytes)
    (inflate-deflate : (o : Bytes) → inflate (deflate o) ≡ o) where
  expand-compress :
      (o : Bytes)
      → expand deflate inflate overflow
          (compress deflate inflate overflow o).0
          (compress deflate inflate overflow o).1
        ≡ o
  expand-compress o = ground (arith, inflate-deflate o)

  module _ (sent : ℕ × Bytes) (first : Bytes) (cs : List Bytes) (solid : Solid cs)
      (all : first ++ flat cs ≡ sent.1) where
    last : recv (length sent.1) (push first cs) ≡ got sent.1 []
    last = recv-rest sent.1 (push first cs) (push-Solid first cs solid) (flat-push first cs ∙ all)

    read_command_sent :
        (cmd : Bytes)
        → read_command deflate inflate overflow
            (push (request_head deflate inflate overflow cmd sent ++ first) cs)
          ≡ some ((cmd, expand deflate inflate overflow sent.0 sent.1), [])
    unfolding read_command
    read_command_sent cmd =
        rw
          (
            recv-first (sent.0 ∷ (be32 (length sent.1) ++ be32 (length cmd))) (cmd ++ first) cs,
            of_be32-be32 (length cmd),
            recv-first cmd first cs,
            of_be32-be32 (length sent.1),
            last,
          )
          refl

    read_reply_sent :
        (status : ℕ)
        → read_reply deflate inflate overflow
            (push (response_head deflate inflate overflow status sent ++ first) cs)
          ≡ some (
            reply_with deflate inflate overflow status
                (expand deflate inflate overflow sent.0 sent.1),
            [],
          )
    unfolding read_reply
    read_reply_sent status =
        rw
          (
            recv-first (sent.0 ∷ (be32 (length sent.1) ++ (status ∷ []))) first cs,
            of_be32-be32 (length sent.1),
            last,
          )
          refl

  -- What the client makes of the answer.
  abbrev pub network_reply : Served → Reply
  network_reply (result r) =
      if ltb (length (compress deflate inflate overflow r).1) 2147483648
      then value r
      else remote_exception (drop 1 overflow)
  network_reply (exception repr) = remote_exception (drop 1 repr)

  reply_of_response :
      (o : Served)
      → reply_with deflate inflate overflow (response_of deflate inflate overflow o).0 (
          expand deflate inflate overflow
            (response_of deflate inflate overflow o).1.0
            (response_of deflate inflate overflow o).1.1)
        ≡ network_reply o
  reply_of_response (result r) =
      elim (Bool-cases (ltb (length (compress deflate inflate overflow r).1) 2147483648)) [
        | inl e ↦ rw e (rw (expand-compress r) refl)
        | inr e ↦ rw e refl
      ]
  reply_of_response (exception repr) = refl

  -- A call over the network, with arguments and an answer that are shorter than 2 ^ 31 as they are sent.
  -- Each message is sent, and if its first chunk has the head of the message, the other side reads it,
  -- however the rest is cut into chunks: the server has the command and the arguments, and the client
  -- has the result, or the text of the exception without its first character. A result that is too long
  -- comes as an exception.
  pub network_lem :
      (cmd args first : Bytes) (cs : List Bytes) (o : Served) (answer_first : Bytes)
      (ds : List Bytes)
      → length cmd < 2147483648
      → length (compress deflate inflate overflow args).1 < 2147483648
      → length (response_of deflate inflate overflow o).1.1 < 2147483648
      → Solid cs
      → first ++ flat cs ≡ (compress deflate inflate overflow args).1
      → Solid ds
      → answer_first ++ flat ds ≡ (response_of deflate inflate overflow o).1.1
      → let head =
          request_head deflate inflate overflow cmd (compress deflate inflate overflow args) in
        let (status, sent) = response_of deflate inflate overflow o in
        let answer_head = response_head deflate inflate overflow status sent in
        (request_message deflate inflate overflow cmd args ≡ some (head ++ (first ++ flat cs)))
        × (read_command deflate inflate overflow (push (head ++ first) cs) ≡ some ((cmd, args), []))
        × (response_message deflate inflate overflow o
            ≡ some (answer_head ++ (answer_first ++ flat ds)))
        × (read_reply deflate inflate overflow (push (answer_head ++ answer_first) ds)
            ≡ some (network_reply o, []))
  unfolding request_message response_message
  network_lem cmd args first cs o answer_first ds h k l s e t f = (
    rw e (ground (arith, h, k)),
    read_command_sent (compress deflate inflate overflow args) first cs s e cmd
        ∙ rw (expand-compress args) refl,
    rw f (ground (arith, l)),
    read_reply_sent (response_of deflate inflate overflow o).1 answer_first ds t f
          (response_of deflate inflate overflow o).0
        ∙ rw (reply_of_response o) refl,
  )
