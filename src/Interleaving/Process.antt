-- ===== src/Interleaving/Process.antt =====
-- One process: where it stands in `lock` and `unlock`, and its next access to what is shared.
use shmrpc.Prelude.{ℕ, suc, ◌+◌, ℤ, ◌≡◌, ◌≢◌}
use shmrpc.HybridLock.Object.{locked, unlocked, destroyed}

-- The semaphore and the page of the lock.
pub record Lock : Type 0 where
  pub value : ℕ
  pub char : ℤ
  pub pid : ℤ

pub data Pc : Type 0 where
  idle : Pc  -- outside `lock` and `unlock`, without the lock
  spin : Pc  -- in `lock`, behind the first test of the char
  wait : Pc  -- before `sem_wait` or `sem_timedwait`
  taken : Pc  -- the wait has returned 0
  marked : Pc  -- the char is set to LOCKED
  critical : Pc  -- `lock` has returned 0
  releasing : Pc  -- in `unlock`, behind the test of the char
  checking : Pc  -- the char is set to UNLOCKED; before `get_value`
  posting : Pc  -- `get_value` has returned 0
  stuck : Pc  -- `unlock` has raised, and the semaphore is not given back

-- One step of the process with the pid `me`. Time and the count of rounds are left open, so the spin
-- loop may be left in any round; `spin=0` leaves it at once. Any call may fail.
pub data Move (me : ℤ) (m : Lock) : Pc → Lock → Pc → Type 0 where
  refuse : m.char ≡ destroyed → Move me m idle m idle
  enter : m.char ≢ destroyed → Move me m idle m spin
  look : m.char ≢ destroyed → Move me m spin m spin
  see_mark : m.char ≡ destroyed → Move me m spin m idle
  leave : Move me m spin m wait
  acquire : {v : ℕ} → m.value ≡ suc v → Move me m wait (record m { value = v }) taken
  give_up : Move me m wait m idle
  mark : Move me m taken (record m { char = locked }) marked
  sign : Move me m marked (record m { pid = me }) critical
  refuse_unlock : m.char ≡ destroyed → Move me m critical m stuck
  unlock : m.char ≢ destroyed → Move me m critical m releasing
  clear : Move me m releasing (record m { char = unlocked }) checking
  fail_value : Move me m checking m stuck
  see_taken : m.char ≢ destroyed → m.value ≡ 0 → Move me m checking m posting
  see_free : m.char ≢ destroyed → m.value ≢ 0 → Move me m checking m idle
  post : Move me m posting (record m { value = m.value + 1 }) idle
  fail_post : Move me m posting m stuck
  retry : Move me m stuck m critical
  destroy : Move me m idle (record m { char = destroyed }) idle

-- Between the wait and the post the process holds the lock.
abbrev pub holds : Pc → ℕ
holds idle = 0
holds spin = 0
holds wait = 0
holds _ = 1

-- From the write of the pid to the post.
abbrev pub signed : Pc → ℕ
signed idle = 0
signed spin = 0
signed wait = 0
signed taken = 0
signed marked = 0
signed _ = 1
