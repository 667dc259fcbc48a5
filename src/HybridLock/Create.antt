-- ===== src/HybridLock/Create.antt =====
-- The constructor, `__cinit__`, a function to each mode.
use shmrpc.Prelude.{
  ℕ, String, ℤ, pos, minus_one, eq_ℤ, Option, none, some, true, false, if◌then◌else◌, not, to_uint,
}
use shmrpc.Machine.State.{null, live, Env}
use shmrpc.Machine.Flow.{
  M, Exc, exception, no_such_semaphore, semaphore_exists, semaphore_destroyed, catch, pure, raise,
  ◌>>=◌, ◌>>◌,
}
use shmrpc.Machine.Calls.{malloc, sem_open_existing, sem_open_new}
use shmrpc.HybridLock.Object.{
  connect_or_create_mode, connect_to_existing_mode, create_new_overwrite_mode,
  create_new_exclusive_mode, modify, on_new_object, some_or_raise,
}
use shmrpc.HybridLock.InitMmap.{init_mmap}
use shmrpc.HybridLock.Destroy.{destroy}

-- The exceptions that the overwriting mode swallows; any other is raised again.
unfoldable pub ignore_missing : Exc → M (Unit {0})
ignore_missing (no_such_semaphore _) = pure tt
ignore_missing semaphore_destroyed = pure tt
ignore_missing e = raise e

module _ (env : Env) where
  -- `strcpy` returns its first argument, so the exception behind it is never raised.
  unfoldable pub copy_name : String → M (Unit {0})
  unfolding malloc
  copy_name name = do
    modify λ h. record h { cleaned_up = true }
    allocated ← malloc env
    modify λ h. record h { sem_loc = if allocated then live name else null }
    if not allocated then raise (exception "Error allocating memory") else pure tt

  -- `_semaphore = sem_open(…)`
  abbrev pub assign : M (Option ℕ) → M (Option ℕ)
  assign call = do sem ← call; modify λ h. record h { semaphore = sem }; pure sem

  -- The result of the second `sem_open` is not looked at.
  abbrev pub create_if_none : String → ℤ → Option ℕ → M ℤ
  create_if_none name initial_value none = do
    assign (sem_open_new env name (to_uint initial_value))
    init_mmap env name initial_value
  create_if_none name initial_value (some _) = init_mmap env name minus_one

  unfoldable pub connect_or_create : String → ℤ → M ℤ
  unfolding sem_open_existing sem_open_new
  connect_or_create name initial_value = do
    sem ← assign (sem_open_existing env name)
    create_if_none name initial_value sem

  unfoldable pub connect_to_existing : String → M ℤ
  unfolding sem_open_existing
  connect_to_existing name = do
    sem ← assign (sem_open_existing env name)
    some_or_raise sem (no_such_semaphore name)
    init_mmap env name minus_one

  unfoldable pub create_exclusive : String → ℤ → M ℤ
  unfolding sem_open_new
  create_exclusive name initial_value = do
    sem ← assign (sem_open_new env name (to_uint initial_value))
    some_or_raise sem (semaphore_exists name)
    init_mmap env name initial_value

  -- `__cinit__`, over what the overwriting mode does. The modes are Python integers.
  unfoldable pub cinit_with : (String → ℤ → M ℤ) → String → ℤ → ℤ → M ℤ
  cinit_with overwrite name mode initial_value = do
    copy_name name
    if eq_ℤ mode connect_or_create_mode
        then connect_or_create name initial_value
        else if eq_ℤ mode connect_to_existing_mode
        then connect_to_existing name
        else if eq_ℤ mode create_new_exclusive_mode
        then create_exclusive name initial_value
        else if eq_ℤ mode create_new_overwrite_mode
        then overwrite name initial_value
        else raise (exception "Unknown mode")
    modify λ h. record h { cleaned_up = false }
    pure (pos 0)

  -- `existing_semaphore = HybridLock(sem_loc, CONNECT_TO_EXISTING, …); existing_semaphore.destroy()`
  -- The mode is not the overwriting one, so what is given for it is not run.
  unfoldable pub destroy_existing : String → ℤ → M ℤ
  destroy_existing name initial_value =
      on_new_object
        do cinit_with (λ _ _. pure (pos 0)) name connect_to_existing_mode initial_value; destroy env

  -- `try: … except NoSuchSemaphoreException: … except SemaphoreDestroyedException: …`
  unfoldable pub try_destroy : String → ℤ → M (Unit {0})
  unfolding ignore_missing
  try_destroy name initial_value s =
      catch ((destroy_existing name initial_value >> pure tt) s) ignore_missing

  -- Behind the `try`, the code of the exclusive mode once more.
  unfoldable pub create_again : String → ℤ → M ℤ
  unfolding sem_open_new
  create_again name initial_value = do
    sem ← assign (sem_open_new env name (to_uint initial_value))
    some_or_raise sem (semaphore_exists name)
    init_mmap env name initial_value

  unfoldable pub create_overwrite : String → ℤ → M ℤ
  create_overwrite name initial_value = do
    try_destroy name initial_value
    create_again name initial_value

  unfoldable pub cinit : String → ℤ → ℤ → M ℤ
  cinit = cinit_with create_overwrite
