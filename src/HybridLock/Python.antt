-- ===== src/HybridLock/Python.antt =====
-- The functions that Python calls: each turns the C result of a method into a Python value.
use shmrpc.Prelude.{String, ℤ, negsuc, minus_one, eq_ℤ, some, if◌then◌else◌}
use shmrpc.Machine.State.{HybridLock, Env}
use shmrpc.Machine.Flow.{M, system_error, type_error, pure, raise, ◌>>=◌, ◌>>◌, get_self}
use shmrpc.HybridLock.Object.{on_new_object}
use shmrpc.HybridLock.Create.{cinit}
use shmrpc.HybridLock.Destroy.{destroy}
use shmrpc.HybridLock.Value.{get_destroyed, get_value, get_pid_holding_lock}
use shmrpc.HybridLock.Lock.{lock}
use shmrpc.HybridLock.Unlock.{unlock}

-- A result equal to the error value is passed on as NULL. With no exception pending the interpreter
-- then raises SystemError.
unfoldable pub checked : ℤ → M ℤ → M ℤ
checked error_value m = do
  v ← m
  if eq_ℤ v error_value
      then raise (system_error "returned NULL without setting an exception")
      else pure v

-- `get_value` is declared `except -10`.
abbrev pub minus_ten : ℤ
minus_ten = negsuc 9

unfoldable pub py_get_destroyed : M ℤ
unfolding get_destroyed checked
py_get_destroyed = checked minus_one get_destroyed

-- `__reduce_cython__` and `__setstate_cython__`: a lock cannot be pickled.
unfoldable pub reduce_cython : M ℤ
reduce_cython = raise (type_error "no default __reduce__ due to non-trivial __cinit__")

unfoldable pub setstate_cython : M ℤ
setstate_cython = raise (type_error "no default __reduce__ due to non-trivial __cinit__")

module _ (env : Env) where
  unfoldable pub py_destroy : M ℤ
  unfolding destroy checked
  py_destroy = checked minus_one (destroy env)

  unfoldable pub py_get_value : M ℤ
  unfolding get_value checked
  py_get_value = checked minus_ten (get_value env)

  unfoldable pub py_lock : ℤ → ℤ → M ℤ
  unfolding lock checked
  py_lock timeout spin =
      checked minus_one (lock env (some (record { n = 2; timeout = timeout; spin = spin })))

  unfoldable pub py_unlock : M ℤ
  unfolding unlock checked
  py_unlock = checked minus_one (unlock env)

  unfoldable pub py_get_pid_holding_lock : M ℤ
  unfolding get_pid_holding_lock checked
  py_get_pid_holding_lock = checked minus_one (get_pid_holding_lock env)

  -- `tp_new`: the new object, if the constructor does not raise.
  unfoldable pub tp_new : String → ℤ → ℤ → M HybridLock
  unfolding cinit
  tp_new name mode initial_value = on_new_object do cinit env name mode initial_value; get_self
