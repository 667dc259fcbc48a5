-- ===== src/Protocol/Served.antt =====
-- An exchange, whatever turns the two sides have.
use shmrpc.Prelude.{
  ℕ, ◌+◌, ◌<◌, ◌≡◌, inl, ◌++◌, List, [], ◌∷◌, Bool, true, false, refl, arith, if◌then◌else◌,
}
use shmrpc.Protocol.Bytes.{Bytes, length}
use shmrpc.Protocol.Frames.{request}
use shmrpc.Protocol.Memory.{Memory, server, client, Outcome, returns, raises}
use shmrpc.Protocol.Fits.{Post, Current, Sees}
use shmrpc.Protocol.Sends.{Left, send_request_lem}
use shmrpc.Protocol.Server.{Served, is_ascii}
use shmrpc.Protocol.Answers.{
  limit, answer, reply_of, Short, handle_idle, handle_request, collects_nothing, collects_reply,
}
use shmrpc.Protocol.Exchange.{
  Connection, Turn, server_turn, server_timeout, client_turn, Exchanged, waiting, answered,
  unguarded, failed, after_server, turns, after_request, exchange,
}

-- Whether the client gets its answer: it has a turn behind one of the server.
abbrev pub replies : Bool → List Turn → Bool
replies served [] = false
replies served (server_timeout ∷ ts) = replies served ts
replies served (server_turn ∷ ts) = replies true ts
replies true (client_turn ∷ ts) = true
replies false (client_turn ∷ ts) = replies false ts

-- Whether the server has had a turn.
abbrev pub is_served : Bool → List Turn → Bool
is_served served [] = served
is_served served (server_timeout ∷ ts) = is_served served ts
is_served served (server_turn ∷ ts) = is_served true ts
is_served served (client_turn ∷ ts) = is_served served ts

module _ {S : Type 0} where
  -- Map `r` is current, the client has it, and the server has it or one before it; nothing is asked.
  pub record Ready (c : Connection S) : Type 0 where
    pub current : Current c.memory c.client_map
    pub seen : Sees c.memory c.client_map c.server_map
    pub free : (c.memory.regions c.client_map).status ≡ client

  -- The request is there.
  record Asked (cmd args : Bytes) (s : S) (c : Connection S) : Type 0 where
    current : Current c.memory c.client_map
    seen : Sees c.memory c.client_map c.server_map
    asked : (c.memory.regions c.client_map).status ≡ server
    rest : Bytes
    text : (c.memory.regions c.client_map).body ≡ request cmd args ++ rest
    service : c.service ≡ s

  -- The answer is there, in a map that both see.
  record Done (answer_bytes : Bytes) (s : S) (c : Connection S) : Type 0 where
    map : ℕ
    current : Current c.memory map
    seen : Sees c.memory map c.server_map
    seen_by_client : Sees c.memory map c.client_map
    free : (c.memory.regions map).status ≡ client
    rest : Bytes
    text : (c.memory.regions map).body ≡ answer_bytes ++ rest
    service : c.service ≡ s

module _ {S : Type 0} (page : ℕ) (positive : 0 < page) (overflow : Bytes)
    (serve : Bytes → Bytes → S → Served × S) (short : length overflow + 1 < limit)
    (cmd args : Bytes) (s₀ : S) where
  -- What the method gives, and the service behind it.
  abbrev outcome : Served × S
  outcome = serve cmd args s₀

  -- After these turns, of which the server may have had one before.
  abbrev pub Ends : Bool → List Turn → Exchanged S → Type 0
  Ends served ts (waiting c) =
      (replies served ts ≡ false) × (c.service ≡ (if is_served served ts then outcome.1 else s₀))
  Ends served ts (answered reply c) =
      (replies served ts ≡ true)
      × (reply ≡ reply_of overflow outcome.0)
      × (c.service ≡ outcome.1)
      × Ready c
  Ends served ts (unguarded c) = ⊥
  Ends served ts (failed e) = ⊥

  Done-Ends :
      (ts : List Turn) (c : Connection S)
      → Done (answer overflow outcome.0) outcome.1 c
      → Ends true ts (turns page overflow serve ts c)
  unfolding turns
  Done-Ends [] c d = (refl, d.service)
  Done-Ends (server_timeout ∷ ts) c d = Done-Ends ts c d
  Done-Ends (server_turn ∷ ts) c d =
      rw
        (handle_idle page overflow serve short c.memory d.map d.current c.server_map c.service
          d.seen d.free)
        (Done-Ends ts (record c { server_map = d.map })
          (record {
            map = d.map;
            current = d.current;
            seen = (d.current.inside, inl refl);
            seen_by_client = d.seen_by_client;
            free = d.free;
            rest = d.rest;
            text = d.text;
            service = d.service;
          }))
  Done-Ends (client_turn ∷ ts) c d =
      rw
        (collects_reply page overflow serve short c.memory d.map d.current c.client_map outcome.0
          d.rest d.seen_by_client d.free d.text)
        (refl, refl, d.service, record { current = d.current; seen = d.seen; free = d.free })

  -- The answer that the server leaves.
  Left-Done :
      (c : Connection S) (r : ℕ) (a : ℕ × S) (m : Memory)
      → Sees c.memory r c.client_map
      → Left c.memory r client (answer overflow outcome.0) a.0 m
      → a.1 ≡ outcome.1
      → Done
          (answer overflow outcome.0)
          outcome.1
          (record c { memory = m; server_map = a.0; service = a.1 })
  Left-Done c r a m sees (cur, st, (rest, text), all) e = record {
    map = a.0;
    current = cur;
    seen = (cur.inside, inl refl);
    seen_by_client = all c.client_map sees;
    free = st;
    rest = rest;
    text = text;
    service = e;
  }

  served-Ends :
      (ts : List Turn) (c : Connection S) (r : ℕ) (o : Outcome (ℕ × S))
      → Sees c.memory r c.client_map
      → Post (λ a m. Left c.memory r client (answer overflow outcome.0) a.0 m × (a.1 ≡ outcome.1)) o
      → Ends true ts (after_server page overflow serve c o (turns page overflow serve ts))
  served-Ends ts c r (returns a m) sees q =
      Done-Ends ts (record c { memory = m; server_map = a.0; service = a.1 })
        (Left-Done c r a m sees q.0 q.1)
  served-Ends ts c r (raises e m) sees q = q

  module _ (ascii : is_ascii cmd ≡ true) (ok : Short overflow outcome.0) where
    Asked-Ends :
        (ts : List Turn) (c : Connection S)
        → Asked cmd args s₀ c
        → Ends false ts (turns page overflow serve ts c)
    unfolding turns
    Asked-Ends [] c a = (refl, a.service)
    Asked-Ends (server_timeout ∷ ts) c a = Asked-Ends ts c a
    Asked-Ends (server_turn ∷ ts) c a =
        served-Ends ts c c.client_map _ (a.current.inside, inl refl)
          (rw a.service (
            handle_request page overflow serve short c.memory c.client_map a.current positive
              c.server_map cmd args a.rest s₀ a.seen a.asked a.text ascii ok))
    Asked-Ends (client_turn ∷ ts) c a =
        rw
          (collects_nothing page overflow serve short c.memory c.client_map a.current c.client_map
            refl a.asked)
          (Asked-Ends ts c a)

    sent-Ends :
        (ts : List Turn) (c : Connection S) (o : Outcome ℕ)
        → c.service ≡ s₀
        → Sees c.memory c.client_map c.server_map
        → Post (Left c.memory c.client_map server (request cmd args)) o
        → Ends false ts (after_request page overflow serve c o (turns page overflow serve ts))
    sent-Ends ts c (returns new m) e sees (cur, st, (rest, text), all) =
        Asked-Ends ts (record c { memory = m; client_map = new })
          (record {
            current = cur;
            seen = all c.server_map sees;
            asked = st;
            rest = rest;
            text = text;
            service = e;
          })
    sent-Ends ts c (raises e m) f sees q = q

    -- A client that has the lock, on a map that no request stands in, sends a request whose command is
    -- ASCII and not longer than the format allows. Then, whatever turns it and the server have, no
    -- assertion fails and no other exception is raised, the client does not look on without the lock,
    -- and the method is called exactly once, in the first turn of the server. The client has its answer
    -- in its first turn after that: the result of the method, or the text of its exception, and is
    -- ready for the next request. The maps may have been exchanged for larger ones on the way.
    pub exchange_lem :
        (ts : List Turn) (c : Connection S)
        → Ready c
        → c.service ≡ s₀
        → length cmd < 65536
        → length args < limit
        → Ends false ts (exchange page overflow serve cmd args ts c)
    unfolding exchange
    exchange_lem ts c ready e short_cmd short_args = sent-Ends ts c _ e ready.seen (
        send_request_lem page positive c.memory c.client_map ready.current cmd args short_cmd
          short_args (λ f. ground (arith, ready.free, f)))
