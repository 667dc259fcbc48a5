-- ===== src/Protocol/Exchange.antt =====
-- A request and what the client and a worker of the server do, in any order, until it is answered. Each
-- turn is one hold of the lock of the connection.
use shmrpc.Prelude.{ℕ, true, false, List, [], ◌∷◌}
use shmrpc.Protocol.Bytes.{Bytes}
use shmrpc.Protocol.Memory.{Memory, Fault, Outcome, returns, raises}
use shmrpc.Protocol.Client.{Reply, Collected, replied, not_caught, send_request, collect}
use shmrpc.Protocol.Server.{Served, handle_command}

-- The memory, the maps that the two have, and the state of the service.
pub record Connection (S : Type 0) : Type 0 where
  pub memory : Memory
  pub client_map : ℕ
  pub server_map : ℕ
  pub service : S

-- The server has got the lock, or its `lock` has timed out; or the client has got it.
pub data Turn : Type 0 where
  server_turn : Turn
  server_timeout : Turn
  client_turn : Turn

-- `unguarded`: the client looks on without the lock.
pub data Exchanged (S : Type 0) : Type 0 where
  waiting : Connection S → Exchanged S
  answered : Reply → Connection S → Exchanged S
  unguarded : Connection S → Exchanged S
  failed : Fault → Exchanged S

module _ {S : Type 0} (page : ℕ) (overflow : Bytes) (serve : Bytes → Bytes → S → Served × S) where
  abbrev pub after_server :
      Connection S → Outcome (ℕ × S) → (Connection S → Exchanged S) → Exchanged S
  after_server c (raises e m) go = failed e
  after_server c (returns a m) go = go (record c { memory = m; server_map = a.0; service = a.1 })

  abbrev pub after_client :
      Connection S → Outcome (Collected × ℕ) → (Connection S → Exchanged S) → Exchanged S
  after_client c (raises e m) go = failed e
  after_client c (returns (replied reply, new) m) go =
      answered reply (record c { memory = m; client_map = new })
  after_client c (returns (not_caught false, new) m) go =
      go (record c { memory = m; client_map = new })
  after_client c (returns (not_caught true, new) m) go =
      unguarded (record c { memory = m; client_map = new })

  unfoldable pub turns : List Turn → Connection S → Exchanged S
  unfolding handle_command collect
  turns [] c = waiting c
  turns (server_timeout ∷ ts) c = turns ts c
  turns (server_turn ∷ ts) c =
      after_server c (handle_command page overflow serve c.server_map c.service c.memory) (turns ts)
  turns (client_turn ∷ ts) c = after_client c (collect c.client_map c.memory) (turns ts)

  abbrev pub after_request : Connection S → Outcome ℕ → (Connection S → Exchanged S) → Exchanged S
  after_request c (raises e m) go = failed e
  after_request c (returns new m) go = go (record c { memory = m; client_map = new })

  -- The client, which has the lock, sends a request and releases it.
  unfoldable pub exchange : Bytes → Bytes → List Turn → Connection S → Exchanged S
  unfolding turns send_request
  exchange cmd args ts c =
      after_request c (send_request page cmd args c.client_map c.memory) (turns ts)
