-- ===== src/Protocol/Server.antt =====
-- `SHMServer.handle_command`, between the lock and the `unlock` of its `finally`.
use shmrpc.Prelude.{
  ℕ, ltb, ◌==◌, ◌&&◌, [], ◌∷◌, Option, none, some, Bool, true, false, if◌then◌else◌,
}
use shmrpc.Protocol.Bytes.{Bytes}
use shmrpc.Protocol.Frames.{plus, minus, pack_response, unpack_request}
use shmrpc.Protocol.Memory.{
  client, server, struct_error, unicode_error, unknown_state, P, pure, raise, ◌>>=◌, ◌>>◌, get,
  publish, valid_mmap, fit,
}

-- What the method gives: the serialised result, or the `repr` of the exception that it, or the
-- serialiser, has raised.
pub data Served : Type 0 where
  result : Bytes → Served
  exception : Bytes → Served

-- `decode('ascii')` accepts it.
abbrev pub is_ascii : Bytes → Bool
is_ascii [] = true
is_ascii (b ∷ bs) = ltb b 128 && is_ascii bs

-- `serve` looks the method up and calls it, on a service with the state `S`; `overflow` is the `repr` of
-- the `struct.error` for a result that is too long.
module _ {S : Type 0} (page : ℕ) (overflow : Bytes) (serve : Bytes → Bytes → S → Served × S) where
  unfoldable pub encode_response : Served → Option Bytes
  unfolding pack_response
  encode_response (result r) = elim (pack_response plus r) [
    | some encoded ↦ some encoded
    | none ↦ pack_response minus (minus ∷ overflow)
  ]
  encode_response (exception repr) = pack_response minus (minus ∷ repr)

  abbrev some_or_struct_error : {A : Type 0} → Option A → P A
  some_or_struct_error none = raise struct_error
  some_or_struct_error (some a) = pure a

  abbrev pub send_answer : ℕ → Bytes → S → P (ℕ × S)
  send_answer mmap encoded s = do
    new ← (do fitting ← fit page mmap encoded; publish fitting encoded client)
    pure (new, s)

  -- From `cmd = ….decode('ascii')` to the end.
  unfoldable pub serve_request : ℕ → Bytes → Bytes → S → P (ℕ × S)
  unfolding encode_response fit
  serve_request mmap cmd args s = do
    if is_ascii cmd then pure tt else raise unicode_error
    let done = serve cmd args s
    encoded ← some_or_struct_error (encode_response done.0)
    send_answer mmap encoded done.1

  unfoldable pub answer_request : ℕ → Bytes → S → P (ℕ × S)
  unfolding unpack_request serve_request
  answer_request mmap body s = do
    c ← some_or_struct_error (unpack_request body)
    serve_request mmap c.0 c.1 s

  unfoldable pub handle_command : ℕ → S → P (ℕ × S)
  unfolding answer_request valid_mmap
  handle_command mmap s = do
    v ← valid_mmap 1000 false mmap
    r ← get v.0
    if r.status == client
        then pure (v.0, s)
        else if r.status == server
        then answer_request v.0 r.body s
        else raise unknown_state
