-- ===== src/HybridLock/CleanedOnce.antt =====
-- `destroy` and `__del__` clean an object up once.
use shmrpc.Prelude.{ℕ, String, ℤ, Option, ◌≡◌, true, false, refl, Bool-cases, inl, inr, arith}
use shmrpc.Machine.State.{State, CString, Env}
use shmrpc.Machine.Flow.{err, ok, semaphore_destroyed, final, and_then}
use shmrpc.Machine.Calls.{use_string, shm_unlink, sem_unlink, free, store_char, close, sem_close}
use shmrpc.Machine.Post.{Always, Always-bind}
use shmrpc.HybridLock.Object.{destroyed}
use shmrpc.HybridLock.Destroy.{destroy, del, unlink_names, finish, close_handles, forgive}

-- The object is marked as cleaned up.
abbrev pub IsCleaned : State → Type 0
IsCleaned s = s.self.cleaned_up ≡ true

-- The object when `destroy` and `__del__` begin their work.
abbrev pub dead : State → State
dead s = record s { self = record s.self { cleaned_up = true } }

forgive-IsCleaned :
    (page : Option ℕ) (message : String) (r : ℤ) (s : State)
    → IsCleaned s
    → Always IsCleaned (forgive page message r s)
unfolding forgive
forgive-IsCleaned page message r s h = ground arith

free-IsCleaned : (s : State) → IsCleaned s → Always IsCleaned (free s)
unfolding free
free-IsCleaned s h = ground arith

store_char-IsCleaned :
    (p : Option ℕ) (v : ℤ) (s : State) → IsCleaned s → Always IsCleaned (store_char p v s)
unfolding store_char
store_char-IsCleaned p v s h = ground arith

module _ (env : Env) where
  unlink-IsCleaned :
      (n : CString) (s : State)
      → IsCleaned s
      → Always IsCleaned (use_string n (shm_unlink env) s)
        × Always IsCleaned (use_string n (sem_unlink env) s)
  unfolding shm_unlink sem_unlink
  unlink-IsCleaned n s h = ground arith

  close-IsCleaned : (fd : ℤ) (s : State) → IsCleaned s → Always IsCleaned (close env fd s)
  unfolding close
  close-IsCleaned fd s h = ground arith

  sem_close-IsCleaned :
      (sem : Option ℕ) (s : State) → IsCleaned s → Always IsCleaned (sem_close env sem s)
  unfolding sem_close
  sem_close-IsCleaned sem s h = ground arith

  unlink_names-IsCleaned : (s : State) → IsCleaned s → Always IsCleaned (unlink_names env s)
  unfolding unlink_names
  unlink_names-IsCleaned s h =
      Always-bind IsCleaned (use_string s.self.sem_loc (shm_unlink env) s) _
        (unlink-IsCleaned s.self.sem_loc s h).0
        λ r t k.
          Always-bind IsCleaned (forgive s.self.spin_lock_char "shm_unlink" r t) _
            (forgive-IsCleaned s.self.spin_lock_char "shm_unlink" r t k)
            λ _ u l.
              Always-bind IsCleaned (use_string s.self.sem_loc (sem_unlink env) u) _
                (unlink-IsCleaned s.self.sem_loc u l).1
                λ q v m. forgive-IsCleaned s.self.spin_lock_char "sem_unlink" q v m

  close_handles-IsCleaned : (s : State) → IsCleaned s → Always IsCleaned (close_handles env s)
  unfolding close_handles
  close_handles-IsCleaned s h =
      Always-bind IsCleaned (close env s.self.shm_fd s) _ (close-IsCleaned s.self.shm_fd s h)
        λ r t k. ground (arith, sem_close-IsCleaned s.self.semaphore t k)

  finish-IsCleaned : (s : State) → IsCleaned s → Always IsCleaned (finish env s)
  unfolding finish
  finish-IsCleaned s h = Always-bind IsCleaned (free s) _ (free-IsCleaned s h) λ _ t k.
      Always-bind IsCleaned (store_char t.self.spin_lock_char destroyed t) _
        (store_char-IsCleaned t.self.spin_lock_char destroyed t k)
        λ _ u l. ground (arith, close_handles-IsCleaned u l)

  pub refused :
      (s : State)
      → IsCleaned s
      → (destroy env s ≡ err semaphore_destroyed s) × (del env s ≡ ok tt s)
  unfolding destroy del
  refused s h = ground arith

  pub destroy-steps :
      (s : State)
      → s.self.cleaned_up ≡ false
      → destroy env s ≡ and_then (unlink_names env (dead s)) (λ _. finish env)
  unfolding destroy
  destroy-steps s h = ground arith

  pub del-steps :
      (s : State)
      → s.self.cleaned_up ≡ false
      → del env s ≡ and_then (free (dead s)) (λ _. close_handles env)
  unfolding del
  del-steps s h = ground arith

  destroy-IsCleaned : (s : State) → Always IsCleaned (destroy env s)
  destroy-IsCleaned s = elim (Bool-cases s.self.cleaned_up) [
    | inl done ↦ rw (refused s done).0 done
    | inr new ↦ rw (destroy-steps s new) (
        Always-bind IsCleaned (unlink_names env (dead s)) _ (unlink_names-IsCleaned (dead s) refl)
          λ _ t k. finish-IsCleaned t k)
  ]

  del-IsCleaned : (s : State) → Always IsCleaned (del env s)
  del-IsCleaned s = elim (Bool-cases s.self.cleaned_up) [
    | inl done ↦ rw (refused s done).1 done
    | inr new ↦ rw (del-steps s new) (
        Always-bind IsCleaned (free (dead s)) _ (free-IsCleaned (dead s) refl)
          λ _ t k. close_handles-IsCleaned t k)
  ]

  -- An object is cleaned up once: whatever calls fail, after a `destroy` or a `__del__`, also one that
  -- raised, `destroy` raises SemaphoreDestroyedException and `__del__` does nothing, and neither
  -- changes the state.
  pub cleaned_once :
      (s : State)
      → let t = final (destroy env s) in
        let u = final (del env s) in
        (destroy env t ≡ err semaphore_destroyed t)
        × (del env t ≡ ok tt t)
        × (destroy env u ≡ err semaphore_destroyed u)
        × (del env u ≡ ok tt u)
  cleaned_once s =
      let (a, b) = refused (final (destroy env s)) (destroy-IsCleaned s) in
      let (c, d) = refused (final (del env s)) (del-IsCleaned s) in (a, b, c, d)
