-- ===== src/Protocol/Answers.antt =====
-- What the server does with a request that is there, and the client with an answer.
use shmrpc.Prelude.{
  ℕ, ◌+◌, ◌<◌, ltb, ◌≡◌, ◌++◌, ◌∷◌, true, false, some, refl, arith, if◌then◌else◌, Bool-cases, inl,
  inr, ap, ◌∙◌,
}
use shmrpc.Protocol.Bytes.{Bytes, length, of_be32-be32, take-++}
use shmrpc.Protocol.Frames.{
  request, response, pack_response_lem, unpack_request, unpack_response, unpack_request-request,
  plus, minus,
}
use shmrpc.Protocol.Memory.{Memory, server, client, returns, ◌>>=◌, fit, publish}
use shmrpc.Protocol.Fits.{Post, Post-bind, Current, Sees, valid_mmap_lem, Current-stays}
use shmrpc.Protocol.Sends.{Left, fit-publish}
use shmrpc.Protocol.Client.{
  Reply, value, remote_exception, replied, not_caught, read_response, collect,
}
use shmrpc.Protocol.Server.{
  Served, result, exception, is_ascii, encode_response, send_answer, serve_request, answer_request,
  handle_command,
}

-- 2 ^ 32, which a length must be below.
abbrev pub limit : ℕ
limit = 4294967296

module _ (overflow : Bytes) where
  -- The bytes of the answer.
  abbrev pub answer : Served → Bytes
  answer (result r) =
      if ltb (length r) limit then response plus r else response minus (minus ∷ overflow)
  answer (exception repr) = response minus (minus ∷ repr)

  -- What the client makes of it.
  abbrev pub reply_of : Served → Reply
  reply_of (result r) = if ltb (length r) limit then value r else remote_exception overflow
  reply_of (exception repr) = remote_exception repr

  -- The text of an exception is short enough.
  abbrev pub Short : Served → Type 0
  Short (result r) = Unit
  Short (exception repr) = length repr + 1 < limit

  read_plus :
      (r rest : Bytes) (m : Memory)
      → read_response (response plus r ++ rest) m ≡ returns (value r) m
  unfolding read_response unpack_response
  read_plus r rest m = rw (of_be32-be32 (length r), take-++ r rest) refl

  read_minus :
      (r rest : Bytes) (m : Memory)
      → read_response (response minus (minus ∷ r) ++ rest) m ≡ returns (remote_exception r) m
  unfolding read_response unpack_response
  read_minus r rest m = rw (of_be32-be32 (length (minus ∷ r)), take-++ r rest) refl

  read_response_lem :
      (o : Served) (rest : Bytes) (m : Memory)
      → read_response (answer o ++ rest) m ≡ returns (reply_of o) m
  read_response_lem (result r) rest m = elim (Bool-cases (ltb (length r) limit)) [
    | inl e ↦ rw e (read_plus r rest m)
    | inr e ↦ rw e (read_minus overflow rest m)
  ]
  read_response_lem (exception repr) rest m = read_minus repr rest m

module _ {S : Type 0} (page : ℕ) (overflow : Bytes) (serve : Bytes → Bytes → S → Served × S)
    (short : length overflow + 1 < limit) where
  encode_response_lem :
      (o : Served)
      → Short overflow o
      → encode_response page overflow serve o ≡ some (answer overflow o)
  unfolding encode_response
  encode_response_lem (result r) h = elim (Bool-cases (ltb (length r) limit)) [
    | inl e ↦ rw (e, encode_response) refl
    | inr e ↦
        rw (e, encode_response, pack_response_lem minus (minus ∷ overflow) (omega (arith, short)))
          refl
  ]
  encode_response_lem (exception repr) h = pack_response_lem minus (minus ∷ repr) (omega (arith, h))

  module _ (m : Memory) (r : ℕ) (now : Current m r) where
    -- A worker that has the lock and finds no request does nothing but look for the current map.
    pub handle_idle :
        (h : ℕ) (s : S)
        → Sees m r h
        → (m.regions r).status ≡ client
        → handle_command page overflow serve h s m ≡ returns (r, s) m
    unfolding handle_command
    handle_idle h s sees e = let (b, f, _) = valid_mmap_lem m r now h 999 sees in rw (f, e) refl

    unpacked :
        (body cmd args : Bytes) (s : S)
        → unpack_request body ≡ some (cmd, args)
        → answer_request page overflow serve r body s m
          ≡ serve_request page overflow serve r cmd args s m
    unfolding answer_request
    unpacked body cmd args s e = rw (e, answer_request) refl

    encoded :
        (cmd args bytes : Bytes) (s : S)
        → is_ascii cmd ≡ true
        → encode_response page overflow serve (serve cmd args s).0 ≡ some bytes
        → serve_request page overflow serve r cmd args s m
          ≡ send_answer page overflow serve r bytes (serve cmd args s).1 m
    unfolding serve_request
    encoded cmd args bytes s e f = rw (e, f, serve_request) refl

    send_answer_lem :
        (positive : 0 < page) (bytes : Bytes) (s : S)
        → Post
            (λ a m'. Left m r client bytes a.0 m' × (a.1 ≡ s))
            (send_answer page overflow serve r bytes s m)
    send_answer_lem positive bytes s =
        Post-bind (Left m r client bytes) _
          ((fit page r bytes >>= λ new. publish new bytes client) m) _
          (fit-publish page positive m r now bytes client (λ z. ground (arith, z)))
          λ new m' q. (q, refl)

    -- The request is served, and the answer is there instead of it.
    answer_request_lem :
        (positive : 0 < page) (cmd args rest : Bytes) (s : S)
        → is_ascii cmd ≡ true
        → Short overflow (serve cmd args s).0
        → Post
            (λ a m'.
              Left m r client (answer overflow (serve cmd args s).0) a.0 m'
              × (a.1 ≡ (serve cmd args s).1))
            (answer_request page overflow serve r (request cmd args ++ rest) s m)
    answer_request_lem positive cmd args rest s ascii ok =
        rw
          (
            unpacked (request cmd args ++ rest) cmd args s (unpack_request-request cmd args rest),
            encoded cmd args (answer overflow (serve cmd args s).0) s ascii
                (encode_response_lem (serve cmd args s).0 ok),
          )
          (send_answer_lem positive (answer overflow (serve cmd args s).0) (serve cmd args s).1)

    handled :
        (h : ℕ) (s : S)
        → Sees m r h
        → (m.regions r).status ≡ server
        → handle_command page overflow serve h s m
          ≡ answer_request page overflow serve r (m.regions r).body s m
    unfolding handle_command
    handled h s sees e = let (b, f, _) = valid_mmap_lem m r now h 999 sees in rw (f, e) refl

    pub handle_request :
        (positive : 0 < page) (h : ℕ) (cmd args rest : Bytes) (s : S)
        → Sees m r h
        → (m.regions r).status ≡ server
        → (m.regions r).body ≡ request cmd args ++ rest
        → is_ascii cmd ≡ true
        → Short overflow (serve cmd args s).0
        → Post
            (λ a m'.
              Left m r client (answer overflow (serve cmd args s).0) a.0 m'
              × (a.1 ≡ (serve cmd args s).1))
            (handle_command page overflow serve h s m)
    handle_request positive h cmd args rest s sees e f ascii ok =
        let g : handle_command page overflow serve h s m
            ≡ answer_request page overflow serve r (request cmd args ++ rest) s m =
          handled h s sees e ∙ ap (λ body. answer_request page overflow serve r body s m) f in
        rw g (answer_request_lem positive cmd args rest s ascii ok)

    -- Until then the client finds its request, and does not go on without the lock.
    pub collects_nothing :
        (h : ℕ)
        → h ≡ r
        → (m.regions r).status ≡ server
        → collect h m ≡ returns (not_caught false, r) m
    unfolding collect
    collects_nothing h same e = rw (same, Current-stays m r now 1000 false, e) refl

    -- Then it reads the reply.
    pub collects_reply :
        (h : ℕ) (o : Served) (rest : Bytes)
        → Sees m r h
        → (m.regions r).status ≡ client
        → (m.regions r).body ≡ answer overflow o ++ rest
        → collect h m ≡ returns (replied (reply_of overflow o), r) m
    unfolding collect
    collects_reply h o rest sees e f =
        let (b, g, _) = valid_mmap_lem m r now h 999 sees in
        rw (g, e, f, read_response_lem overflow o rest m) refl
