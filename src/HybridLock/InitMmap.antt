-- ===== src/HybridLock/InitMmap.antt =====
-- `init_mmap`: open or create the shared page of a lock and map it.
use shmrpc.Prelude.{ℕ, String, ◌==◌, ℤ, pos, minus_one, eq_ℤ, some, if◌then◌else◌, not, to_char}
use Prim.Native.String.{◌++◌ as str_append}
use shmrpc.Machine.State.{enoent, Env}
use shmrpc.Machine.Flow.{
  M, exception, system_error, semaphore_destroyed, pure, raise, ◌>>=◌, ◌>>◌, get_self, get_errno,
}
use shmrpc.Machine.Calls.{
  shm_open_existing, shm_open_create, fchmod, ftruncate, mmap, load_char, store_char,
}
use shmrpc.HybridLock.Object.{is_destroyed, modify, some_or_raise}

module _ (env : Env) where
  -- `__exception_occurred`
  unfoldable pub exception_occurred : {A : Type 0} → String → M A
  exception_occurred kind = do
    e ← get_errno
    let call = str_append "Error occurred calling " kind
    raise (exception (str_append (str_append call ": ") (env.strerror e)))

  unfoldable pub create_shm : String → M (Unit {0})
  unfolding shm_open_create fchmod exception_occurred
  create_shm name = do
    fd ← shm_open_create env name
    modify λ h. record h { shm_fd = fd }
    r ← fchmod env fd
    if eq_ℤ r minus_one then exception_occurred "fchmod" else pure tt

  -- errno is read whether or not `shm_open` has failed.
  unfoldable pub open_shm : String → M (Unit {0})
  unfolding shm_open_existing create_shm
  open_shm name = do
    fd ← shm_open_existing env name
    modify λ h. record h { shm_fd = fd }
    e ← get_errno
    if e == enoent then create_shm name else pure tt
    self ← get_self
    if eq_ℤ self.shm_fd minus_one then raise (system_error "shm_open") else pure tt

  unfoldable pub map_page : M ℕ
  unfolding ftruncate mmap
  map_page = do
    self ← get_self
    r ← ftruncate env self.shm_fd
    if eq_ℤ r minus_one then raise (system_error "ftruncate") else pure tt
    addr ← mmap env self.shm_fd
    some_or_raise addr (system_error "mmap")

  -- From `_spin_lock_char = addr` to the end.
  unfoldable pub set_page : ℤ → ℕ → M ℤ
  unfolding load_char store_char to_char
  set_page set_value addr = do
    modify λ h. record h { spin_lock_char = some addr }
    if not (eq_ℤ set_value minus_one) then store_char (some addr) (to_char set_value) else pure tt
    c ← load_char (some addr)
    if is_destroyed c then raise semaphore_destroyed else pure tt
    modify λ h. record h { spin_lock_pid = some addr }
    pure (pos 0)

  unfoldable pub init_mmap : String → ℤ → M ℤ
  init_mmap name set_value = do open_shm name; addr ← map_page; set_page set_value addr
