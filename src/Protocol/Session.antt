-- ===== src/Protocol/Session.antt =====
-- A client and a server from the creation of the connection on, and the requests of the client one behind
-- the other.
use shmrpc.Prelude.{
  ℕ, ◌+◌, ◌-◌, ◌<◌, ◌≡◌, List, [], ◌∷◌, Option, none, some, true, false, refl, arith, inl,
}
use shmrpc.Protocol.Bytes.{Bytes, length, length-zeros}
use shmrpc.Protocol.Sizes.{chk_size_lem}
use shmrpc.Protocol.Memory.{
  Memory, Outcome, returns, raises, P, pure, ◌>>=◌, chk_size, create_pid_mmap, connect_to_pid_mmap,
}
use shmrpc.Protocol.Fits.{Post, Post-bind}
use shmrpc.Protocol.Client.{Reply}
use shmrpc.Protocol.Server.{Served, is_ascii}
use shmrpc.Protocol.Answers.{limit, reply_of, Short}
use shmrpc.Protocol.Exchange.{
  Connection, Turn, Exchanged, waiting, answered, unguarded, failed, exchange,
}
use shmrpc.Protocol.Served.{replies, Ready, Ends, exchange_lem}

-- `create_resources` of the client and `open_existing_resources` of the server, as to the memory.
unfoldable pub connect : ℕ → P (ℕ × ℕ)
connect page = do
  client_map ← create_pid_mmap page 1024
  server_map ← connect_to_pid_mmap
  pure (client_map, server_map)

abbrev pub connection : {S : Type 0} → S → ℕ × ℕ → Memory → Connection S
connection s maps m = record { memory = m; client_map = maps.0; server_map = maps.1; service = s }

-- A new map is current, and both sides have it.
created-Ready :
    {S : Type 0} (page n : ℕ) (s : S) (m : Memory)
    → 0 < page
    → 2 < n
    → Post (λ r m'. (m'.bound ≡ some r) × Ready (connection s (r, r) m')) (create_pid_mmap page n m)
unfolding create_pid_mmap
created-Ready page n s m positive big =
    let enough = (chk_size_lem page n positive).0 in
    let long = length-zeros (chk_size page n - 1) in
    (
      refl,
      record {
        current = record {
          bound = refl;
          inside = omega arith;
          valid = ground arith;
          room = ground (arith, big, enough, long);
        };
        seen = (omega arith, inl refl);
        free = ground arith;
      },
    )

connect_to-bound : (r : ℕ) (m : Memory) → m.bound ≡ some r → connect_to_pid_mmap m ≡ returns r m
unfolding connect_to_pid_mmap
connect_to-bound r m e = rw e refl

-- A new connection is ready for a request.
connect-Ready :
    {S : Type 0} (page : ℕ) (s : S) (m : Memory)
    → 0 < page
    → Post (λ maps m'. Ready (connection s maps m')) (connect page m)
unfolding connect
connect-Ready page s m positive =
    Post-bind (λ r m'. (m'.bound ≡ some r) × Ready (connection s (r, r) m'))
      (λ maps m'. Ready (connection s maps m')) (create_pid_mmap page 1024 m) _
      (created-Ready page 1024 s m positive (omega arith))
      λ r m' q. rw (connect_to-bound r m' q.0) q.1

-- A call, with the turns that there are until the next one.
pub record Call : Type 0 where
  pub cmd : Bytes
  pub args : Bytes
  pub turns : List Turn

module _ {S : Type 0} (page : ℕ) (overflow : Bytes) (serve : Bytes → Bytes → S → Served × S) where
  abbrev pub prepend : Reply → Option (List Reply × S) → Option (List Reply × S)
  prepend reply none = none
  prepend reply (some (rs, s)) = some (reply ∷ rs, s)

  abbrev pub then_calls :
      Exchanged S → (Connection S → Option (List Reply × S)) → Option (List Reply × S)
  then_calls (answered reply c) go = prepend reply (go c)
  then_calls (waiting c) go = none
  then_calls (unguarded c) go = none
  then_calls (failed e) go = none

  -- One call behind the other; the replies and the service, if all are answered.
  unfoldable pub session : List Call → Connection S → Option (List Reply × S)
  session [] c = some ([], c.service)
  session (call ∷ calls) c =
      then_calls (exchange page overflow serve call.cmd call.args call.turns c) (session calls)

  -- The same calls, made of the service itself.
  unfoldable pub direct : List Call → S → List Reply × S
  direct [] s = ([], s)
  direct (call ∷ calls) s =
      let done = serve call.cmd call.args s in
      let rest = direct calls done.1 in (reply_of overflow done.0 ∷ rest.0, rest.1)

  -- Each call can be sent, its answer too, and the client has a turn behind one of the server.
  abbrev pub Regular : List Call → S → Type 0
  Regular [] s = Unit
  Regular (call ∷ calls) s =
      let done = serve call.cmd call.args s in
      (replies false call.turns ≡ true)
      × (is_ascii call.cmd ≡ true)
      × (length call.cmd < 65536)
      × (length call.args < limit)
      × Short overflow done.0
      × Regular calls done.1

  -- From the creation of the connection on.
  abbrev pub after_connect : List Call → S → Outcome (ℕ × ℕ) → Option (List Reply × S)
  after_connect calls s (raises e m) = none
  after_connect calls s (returns maps m) = session calls (connection s maps m)

  unfoldable pub service_session : List Call → S → Memory → Option (List Reply × S)
  service_session calls s m = after_connect calls s (connect page m)

  module _ (positive : 0 < page) (short : length overflow + 1 < limit) where
    then_calls_lem :
        (call : Call) (calls : List Call) (s : S) (x : Exchanged S)
        → replies false call.turns ≡ true
        → Ends page positive overflow serve short call.cmd call.args s false call.turns x
        → ((c : Connection S)
            → Ready c
            → c.service ≡ (serve call.cmd call.args s).1
            → session calls c ≡ some (direct calls (serve call.cmd call.args s).1))
        → then_calls x (session calls) ≡ some (direct (call ∷ calls) s)
    unfolding direct
    then_calls_lem call calls s (waiting c) r e go = absurd (cc (r, e.0))
    then_calls_lem call calls s (answered reply c) r (_, f, g, ready) go = rw (go c ready g, f) refl
    then_calls_lem call calls s (unguarded c) r e go = absurd e
    then_calls_lem call calls s (failed x) r e go = absurd e

    session-direct :
        (calls : List Call) (s : S) (c : Connection S)
        → Ready c
        → c.service ≡ s
        → Regular calls s
        → session calls c ≡ some (direct calls s)
    unfolding session direct
    session-direct [] s c ready e ok = rw e refl
    session-direct (call ∷ calls) s c ready e (r, ascii, short_cmd, short_args, fits, rest) =
        let done = serve call.cmd call.args s in
        then_calls_lem call calls s (exchange page overflow serve call.cmd call.args call.turns c) r
          (exchange_lem page positive overflow serve short call.cmd call.args s ascii fits
            call.turns c ready e short_cmd short_args)
          λ d now same. session-direct calls done.1 d now same rest

    after_connect_lem :
        (calls : List Call) (s : S) (o : Outcome (ℕ × ℕ))
        → Regular calls s
        → Post (λ maps m. Ready (connection s maps m)) o
        → after_connect calls s o ≡ some (direct calls s)
    after_connect_lem calls s (returns maps m) ok ready =
        session-direct calls s (connection s maps m) ready refl ok
    after_connect_lem calls s (raises e m) ok h = absurd h

    -- A client that creates a connection, whatever shared memory there was before, and makes calls one
    -- behind the other, each of which has a turn of the client behind one of the server, has the replies
    -- that the service gives where the same calls are made of it directly, and leaves it in the same
    -- state: every call is made once, in order. The names of the methods are ASCII and shorter than
    -- 2 ^ 16, the arguments and the texts of the exceptions shorter than 2 ^ 32; a result that is longer
    -- comes to the client as an exception.
    pub service_session_lem :
        (calls : List Call) (s : S) (m : Memory)
        → Regular calls s
        → service_session calls s m ≡ some (direct calls s)
    unfolding service_session
    service_session_lem calls s m ok =
        after_connect_lem calls s (connect page m) ok (connect-Ready page s m positive)
