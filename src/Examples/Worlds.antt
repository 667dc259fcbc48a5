-- ===== src/Examples/Worlds.antt =====
-- Environments and states for the runs.
use shmrpc.Prelude.{ℕ, ℤ, pos, none, some, false, if◌then◌else◌, str_eq, ◌≢◌, refl, arith}
use shmrpc.Machine.State.{Shared, State, live, zeroed, Env}
use shmrpc.HybridLock.Object.{unlocked, destroyed}
use shmrpc.HybridLock.Progress.{IsQuiet, IsReady}
use shmrpc.HybridLock.Cleanup.{IsOpen}

-- No call fails, time stands still and the other processes do nothing.
abbrev pub calm : Env
calm = record {
  fault = λ _ _. none;
  clock = λ _. record { tv_sec = 7; tv_nsec = 1500000 };
  others = λ _ sh. sh;
  waiting = λ _ _ sh. sh;
  getpid = pos 42;
  strerror = λ _. "?";
}

pub calm-IsQuiet : IsQuiet calm
calm-IsQuiet = record { faultless = λ _ _. refl; still = λ _ _. refl; asleep = λ _ _ _. refl }

abbrev pub no_locks : Shared
no_locks = record {
  sem_name = λ _. none;
  sem_value = λ _. 0;
  sem_count = 0;
  shm_name = λ _. none;
  shm_count = 0;
  page_char = λ _. pos 0;
  page_pid = λ _. pos 0;
}

abbrev pub start : State
start = record {
  self = zeroed;
  shared = no_locks;
  sem_refs = λ _. 0;
  fds = λ _. none;
  next_fd = 3;
  errno = 0;
  tick = 0;
}

-- An object on semaphore 0 and page 0, under the name "svc", with this value and this char.
abbrev pub attached : ℕ → ℤ → State
attached value char = record {
  self = record {
    semaphore = some 0;
    cleaned_up = false;
    spin_lock_char = some 0;
    spin_lock_pid = some 0;
    shm_fd = pos 3;
    sem_loc = live "svc";
  };
  shared = record {
    sem_name = λ n. if str_eq n "svc" then some 0 else none;
    sem_value = λ _. value;
    sem_count = 1;
    shm_name = λ n. if str_eq n "svc" then some 0 else none;
    shm_count = 1;
    page_char = λ _. char;
    page_pid = λ _. pos 9;
  };
  sem_refs = λ _. 1;
  fds = λ _. some 0;
  next_fd = 4;
  errno = 0;
  tick = 0;
}

pub attached-IsReady : (value : ℕ) (char : ℤ) → IsReady (attached value char) 0 0
attached-IsReady value char = record { sem = refl; char = refl; pid = refl; held = omega arith }

pub attached-IsOpen : (value : ℕ) (char : ℤ) → IsOpen (attached value char) "svc" 0 0 3
attached-IsOpen value char = record {
  ready = attached-IsReady value char;
  uncleaned = refl;
  name = refl;
  descriptor = refl;
  mapped = refl;
}

pub unlocked-ne-destroyed : unlocked ≢ destroyed
unlocked-ne-destroyed e = ground arith
