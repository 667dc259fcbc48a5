-- ===== src/Protocol/Client.antt =====
-- `SHMClient._send`, in two parts: up to the release of the lock, and what it does each time that it has
-- the lock again. The arguments and the answer are bytes; the serialiser is applied outside.
use shmrpc.Prelude.{ℕ, ltb, ◌==◌, none, some, Bool, false, if◌then◌else◌}
use shmrpc.Protocol.Bytes.{Bytes, length, drop}
use shmrpc.Protocol.Frames.{plus, minus, pack_request, unpack_response}
use shmrpc.Protocol.Memory.{
  len, client, server, assertion, struct_error, bare_exception, unknown_state, unknown_response, P,
  pure, raise, ◌>>=◌, ◌>>◌, get, publish, valid_mmap, fit,
}

-- The new `self.mmap`.
unfoldable pub send_encoded : ℕ → Bytes → ℕ → P ℕ
unfolding fit
send_encoded page encoded_request mmap = do
  r ← get mmap
  if r.status == server then raise bare_exception else pure tt
  new ← fit page mmap encoded_request
  q ← get new
  if ltb (length encoded_request) (len q) then pure tt else raise assertion
  publish new encoded_request server

unfoldable pub send_request : ℕ → Bytes → Bytes → ℕ → P ℕ
unfolding pack_request send_encoded
send_request page cmd args mmap = elim (pack_request cmd args) [
  | none ↦ raise struct_error
  | some encoded_request ↦ send_encoded page encoded_request mmap
]

-- The value, or what `_handle_exception` makes an exception of.
pub data Reply : Type 0 where
  value : Bytes → Reply
  remote_exception : Bytes → Reply

-- What a look at the shared memory gives: the reply; or that the server has not caught the request, and
-- whether the map is another one, so that the lock is not taken again.
pub data Collected : Type 0 where
  replied : Reply → Collected
  not_caught : Bool → Collected

unfoldable pub read_response : Bytes → P Reply
unfolding unpack_response
read_response body = elim (unpack_response body) [
  | none ↦ raise struct_error
  | some (response_status, response_data) ↦
      if response_status == plus
      then pure (value response_data)
      else if response_status == minus
      then pure (remote_exception (drop 1 response_data))
      else raise unknown_response
]

-- With the new `self.mmap`.
unfoldable pub collect : ℕ → P (Collected × ℕ)
unfolding read_response valid_mmap
collect mmap = do
  v ← valid_mmap 1000 false mmap
  r ← get v.0
  if r.status == client
      then (do reply ← read_response r.body; pure (replied reply, v.0))
      else if r.status == server
      then pure (not_caught v.1, v.0)
      else raise unknown_state
