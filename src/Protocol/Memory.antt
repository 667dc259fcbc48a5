-- ===== src/Protocol/Memory.antt =====
-- The shared memory of one connection: the name `service_<port>_<pid>_<qid>`, what is bound to it, and
-- the memory maps. The calls of posix_ipc and mmap do what their documentation says, and do not fail
-- for want of memory.
use shmrpc.Prelude.{
  ℕ, zero, suc, ◌+◌, ◌-◌, ◌*◌, ltb, leb, ◌==◌, ◌++◌, Option, none, some, Bool, true, false,
  if◌then◌else◌,
}
use shmrpc.Machine.State.{update}
use shmrpc.Protocol.Bytes.{Bytes, length, drop, zeros}

-- INVALID, SERVER and CLIENT
abbrev pub invalid : ℕ
invalid = 0

abbrev pub server : ℕ
server = 83

abbrev pub client : ℕ
client = 67

-- The first byte, and those behind it.
pub record Region : Type 0 where
  pub status : ℕ
  pub body : Bytes

-- `len(mmap)`
abbrev pub len : Region → ℕ
len r = 1 + length r.body

-- A memory map is known by its number; one that is unlinked stays for those who have it mapped.
pub record Memory : Type 0 where
  pub bound : Option ℕ
  pub regions : ℕ → Region
  pub count : ℕ

pub data Fault : Type 0 where
  assertion : Fault
  file_not_found : Fault
  struct_error : Fault
  slice_error : Fault
  unicode_error : Fault
  bare_exception : Fault  -- `raise Exception()`, where the server has not answered yet
  unknown_state : Fault
  unknown_response : Fault

pub data Outcome (A : Type 0) : Type 0 where
  returns : A → Memory → Outcome A
  raises : Fault → Memory → Outcome A

abbrev pub P : Type 0 → Type 0
P A = Memory → Outcome A

abbrev pub pure : {A : Type 0} → A → P A
pure a m = returns a m

abbrev pub raise : {A : Type 0} → Fault → P A
raise e m = raises e m

abbrev pub and_then : {A B : Type 0} → Outcome A → (A → P B) → Outcome B
and_then (returns a m) k = k a m
and_then (raises e m) k = raises e m

infixl 5 ◌>>=◌ ◌>>◌
abbrev pub ◌>>=◌ : {A B : Type 0} → P A → (A → P B) → P B
◌>>=◌ f k m = and_then (f m) k

abbrev pub ◌>>◌ : {A B : Type 0} → P A → P B → P B
f >> k = f >>= λ _. k

abbrev pub get : ℕ → P Region
get mmap m = returns (m.regions mmap) m

abbrev pub set_region : ℕ → Region → P (Unit {0})
set_region mmap r m = returns tt (record m { regions = update m.regions mmap r })

-- `mmap[0] = status`
abbrev pub set_status : ℕ → ℕ → P (Unit {0})
set_status mmap status = do r ← get mmap; set_region mmap (record r { status = status })

-- `mmap[1 : 1+len(bytes)] = bytes`
abbrev pub write : ℕ → Bytes → P (Unit {0})
write mmap bytes = do
  r ← get mmap
  if leb (length bytes) (length r.body)
      then set_region mmap (record r { body = bytes ++ drop (length bytes) r.body })
      else raise slice_error

-- `while chk_size < new_size: chk_size *= 2`, on fuel.
unfoldable pub grow : ℕ → ℕ → ℕ → ℕ
grow zero chk_size new_size = chk_size
grow (suc fuel) chk_size new_size = elim (ltb chk_size new_size) [
  | true ↦ grow fuel (chk_size * 2) new_size
  | false ↦ chk_size
]

-- `page` is `posix_ipc.PAGE_SIZE`.
module _ (page : ℕ) where
  -- Each round doubles the size, so `new_size` rounds are enough.
  abbrev pub chk_size : ℕ → ℕ
  chk_size new_size = grow new_size page new_size

  -- `get_mmap(…, create=True, new_size=…)`: the name is unlinked and bound to new memory.
  abbrev pub create_mmap : ℕ → P ℕ
  create_mmap new_size m = returns m.count (record {
    bound = some m.count;
    regions =
        update m.regions m.count (record { status = 0; body = zeros (chk_size new_size - 1) });
    count = m.count + 1;
  })

  unfoldable pub create_pid_mmap : ℕ → P ℕ
  unfolding grow
  create_pid_mmap min_size = do mmap ← create_mmap min_size; set_status mmap client; pure mmap

  -- `__resize_mmap`, which is the same in SHMClient and SHMServer.
  unfoldable pub resize_mmap : ℕ → Bytes → P ℕ
  unfolding create_pid_mmap
  resize_mmap mmap encoded = do
    old ← get mmap
    set_status mmap invalid
    new ← create_pid_mmap (length encoded * 2)
    r ← get new
    if ltb (len old) (len r) then pure tt else raise assertion
    set_status new old.status
    s ← get new
    if s.status == invalid then raise assertion else pure tt
    pure new

-- `get_mmap(…, create=False)`
unfoldable pub connect_to_pid_mmap : P ℕ
connect_to_pid_mmap m = elim m.bound [ none ↦ raises file_not_found m | some r ↦ returns r m ]

-- `__reconnect_to_mmap`, which is the same in SHMClient and SHMServer.
unfoldable pub reconnect_to_mmap : ℕ → P ℕ
unfolding connect_to_pid_mmap
reconnect_to_mmap mmap = do
  old ← get mmap
  new ← connect_to_pid_mmap
  r ← get new
  if ltb (len old) (len r) then pure new else raise assertion

-- `if mmap[0] == INVALID: …; num_times += 1` in the loops of SHMClient._send and
-- SHMServer.handle_command, where `left` is 1000 - num_times; whether it has reconnected.
unfoldable pub valid_mmap : ℕ → Bool → ℕ → P (ℕ × Bool)
unfolding reconnect_to_mmap
valid_mmap zero reconnected mmap = do
  r ← get mmap
  if r.status == invalid
      then (do new ← reconnect_to_mmap mmap; raise assertion)
      else pure (mmap, reconnected)
valid_mmap (suc left) reconnected mmap = do
  r ← get mmap
  if r.status == invalid
      then (do new ← reconnect_to_mmap mmap; valid_mmap left true new)
      else pure (mmap, reconnected)

-- `if len(encoded) >= len(mmap)-1: …`
unfoldable pub fit : ℕ → ℕ → Bytes → P ℕ
unfolding resize_mmap
fit page mmap encoded = do
  r ← get mmap
  if leb (len r - 1) (length encoded) then resize_mmap page mmap encoded else pure mmap

-- `mmap[1:1+len(encoded)] = encoded` and `mmap[0] = …`
abbrev pub publish : ℕ → Bytes → ℕ → P ℕ
publish new encoded status = do write new encoded; set_status new status; pure new
