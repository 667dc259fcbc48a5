-- ===== src/HybridLock/Cleanup.antt =====
-- What `destroy` does to an open object.
use shmrpc.Prelude.{
  ℕ, String, ◌-◌, ◌+◌, str_eq, str_eq_iff, if◌then◌else◌, ℤ, pos, ◌≡◌, ◌⊎◌, inl, inr, some, none,
  false, true, refl, arith,
}
use shmrpc.Machine.State.{Shared, State, live, freed, update, Call, Env}
use shmrpc.Machine.Flow.{Flow, and_then}
use shmrpc.Machine.Calls.{use_string, free, store_char, shm_unlink, sem_unlink, close, sem_close}
use shmrpc.Machine.Post.{Post, Post-bind, Post-weaken}
use shmrpc.HybridLock.Object.{destroyed}
use shmrpc.HybridLock.Destroy.{destroy, del, unlink_names, finish, close_handles, forgive}
use shmrpc.HybridLock.Progress.{IsQuiet, IsReady}
use shmrpc.HybridLock.CleanedOnce.{dead, destroy-steps, del-steps}

-- An object that the constructor has returned and nobody has cleaned up: its name, semaphore,
-- page and descriptor.
pub record IsOpen (s : State) (n : String) (i p fd : ℕ) : Type 0 where
  pub ready : IsReady s i p
  pub uncleaned : s.self.cleaned_up ≡ false
  pub name : s.self.sem_loc ≡ live n
  pub descriptor : s.self.shm_fd ≡ pos fd
  pub mapped : s.fds fd ≡ some p

-- The name `n` is bound to nothing, and the name `m` as before if it is another.
abbrev pub Unbound : String → String → Shared → Shared → Type 0
Unbound n m sh sh' =
    (sh'.sem_name m ≡ (if str_eq n m then none else sh.sem_name m))
    × (sh'.shm_name m ≡ (if str_eq n m then none else sh.shm_name m))

-- What a `destroy` that returns has done, as seen at the name `m`.
abbrev pub Destroyed : State → String → (i p fd : ℕ) → String → ℤ → State → Type 0
Destroyed s n i p fd m v t =
    (v ≡ pos 0)
    × Unbound n m s.shared t.shared
    × (t.shared.sem_value ≡ s.shared.sem_value)
    × (t.shared.page_char ≡ update s.shared.page_char p destroyed)
    × (t.shared.page_pid ≡ s.shared.page_pid)
    × (t.fds ≡ update s.fds fd none)
    × (t.sem_refs ≡ update s.sem_refs i (s.sem_refs i - 1))
    × (t.self ≡ record s.self { cleaned_up = true; sem_loc = freed })

-- A statement returns a value or raises an exception.
abbrev pub Ends : {A : Type 0} → Flow A → Type 0
Ends r = Post (λ _ _. Unit) (λ _ _. Unit) r

module _ (env : Env) where
  module _ (s : State) (n : String) (i p fd : ℕ) (o : IsOpen s n i p fd) where
    abbrev Unlinked : String → Unit {0} → State → Type 0
    Unlinked m _ t =
        Unbound n m s.shared t.shared
        × (t.shared.sem_value ≡ s.shared.sem_value)
        × (t.shared.page_char ≡ s.shared.page_char)
        × (t.shared.page_pid ≡ s.shared.page_pid)
        × (t.tick ≡ s.tick + 1 + 1)
        × (t.fds ≡ s.fds)
        × (t.sem_refs ≡ s.sem_refs)
        × (t.self ≡ record s.self { cleaned_up = true })

    unlink_names_lem :
        IsQuiet env → (m : String) → Post (Unlinked m) (λ _ _. ⊥) (unlink_names env (dead s))
    unfolding unlink_names forgive
    unlink_names_lem quiet m = ground (
      arith,
      str_eq_iff n m,
      quiet.faultless s.tick Call.shm_unlink,
      quiet.faultless (s.tick + 1) Call.sem_unlink,
    )

    finish_lem :
        IsQuiet env
        → (m : String) (t : State) → Unlinked m tt t
        → Post (Destroyed s n i p fd m) (λ _ _. ⊥) (finish env t)
    unfolding finish close_handles close sem_close
    finish_lem quiet m t u = ground (
      arith,
      quiet.faultless (s.tick + 1 + 1) Call.close,
      quiet.faultless (s.tick + 1 + 1 + 1) Call.sem_close,
    )

    -- The semaphore and the page are as before, or the page carries the mark.
    abbrev pub Unmarked : State → Type 0
    Unmarked t =
        (t.shared.sem_value ≡ s.shared.sem_value)
        × (t.shared.page_char ≡ s.shared.page_char)
        × (t.shared.page_pid ≡ s.shared.page_pid)

    abbrev pub Marked : State → Type 0
    Marked t =
        (t.shared.sem_value ≡ s.shared.sem_value)
        × (t.shared.page_char ≡ update s.shared.page_char p destroyed)
        × (t.shared.page_pid ≡ s.shared.page_pid)

    -- The object is whole, but for the mark of cleaning up.
    abbrev IsWhole : State → Type 0
    IsWhole t =
        (t.self ≡ record s.self { cleaned_up = true }) × (t.sem_refs ≡ s.sem_refs) × Unmarked t

    forgive-IsWhole :
        (t : State) (message : String) (r : ℤ) (u : State)
        → IsWhole t
        → IsWhole u
        → Post (λ _ v. IsWhole v) (λ _ v. Unmarked v) (forgive t.self.spin_lock_char message r u)
    unfolding forgive
    forgive-IsWhole t message r u w x = ground (arith, o.ready)

    unlink-IsWhole :
        (t u : State)
        → IsWhole t
        → IsWhole u
        → Post (λ _ v. IsWhole v) (λ _ v. Unmarked v) (use_string t.self.sem_loc (shm_unlink env) u)
          × Post
              (λ _ v. IsWhole v)
              (λ _ v. Unmarked v)
              (use_string t.self.sem_loc (sem_unlink env) u)
    unfolding shm_unlink sem_unlink
    unlink-IsWhole t u w x = ground (arith, o.name)

    unlink_names-IsWhole :
        (t : State) → IsWhole t → Post (λ _ u. IsWhole u) (λ _ u. Unmarked u) (unlink_names env t)
    unfolding unlink_names
    unlink_names-IsWhole t w =
        Post-bind (λ _ v. IsWhole v) _ _ (use_string t.self.sem_loc (shm_unlink env) t) _
          (unlink-IsWhole t t w w).0
          λ r u x.
            Post-bind (λ _ v. IsWhole v) _ _ (forgive t.self.spin_lock_char "shm_unlink" r u) _
              (forgive-IsWhole t "shm_unlink" r u w x)
              λ _ v y.
                Post-bind (λ _ v. IsWhole v) _ _ (use_string t.self.sem_loc (sem_unlink env) v) _
                  (unlink-IsWhole t v w y).1 λ q a z. forgive-IsWhole t "sem_unlink" q a w z

    finish-Marked :
        (t : State) → IsWhole t → Post (λ _ u. Marked u) (λ _ u. Marked u) (finish env t)
    unfolding finish close_handles free store_char close sem_close
    finish-Marked t w = ground arith

    -- Whatever calls fail, the mark is the only thing that `destroy` changes in the page and the
    -- semaphore.
    pub destroy-Marked : Post (λ _ t. Marked t) (λ _ t. Unmarked t ⊎ Marked t) (destroy env s)
    destroy-Marked = rw (destroy-steps env s o.uncleaned) (
        Post-bind (λ _ t. IsWhole t) _ _ (unlink_names env (dead s)) _
          (Post-weaken (λ _ t. IsWhole t) _ (λ _ t. Unmarked t) _ (unlink_names env (dead s))
            (λ _ _ w. w) (λ _ _ u. inl u)
            (unlink_names-IsWhole (dead s) (refl, refl, (refl, refl, refl))))
          λ _ t w.
            Post-weaken (λ _ u. Marked u) _ (λ _ u. Marked u) _ (finish env t) (λ _ _ m. m)
              (λ _ _ m. inr m) (finish-Marked t w))

    freed-Ends : Ends (and_then (free (dead s)) (λ _. close_handles env))
    unfolding close_handles free close sem_close
    freed-Ends = ground arith

    -- Whatever calls fail, `destroy` and `__del__` of an open object end with a value or an exception:
    -- they do not sleep, free the name twice, or use a pointer that is NULL or closed.
    pub destroy-Ends : Ends (destroy env s) × Ends (del env s)
    destroy-Ends = (
      Post-weaken (λ _ t. Marked t) _ (λ _ t. Unmarked t ⊎ Marked t) _ (destroy env s) (λ _ _ _. tt)
          (λ _ _ _. tt) destroy-Marked,
      rw (del-steps env s o.uncleaned) freed-Ends,
    )

    -- If no call fails, `destroy` returns 0. Then neither a semaphore nor shared memory has the name,
    -- the page carries the mark, the descriptor is closed, one reference to the semaphore is given
    -- back, and the name is freed. Other names, other pages and all semaphores are as before.
    pub destroy_lem :
        IsQuiet env → (m : String) → Post (Destroyed s n i p fd m) (λ _ _. ⊥) (destroy env s)
    destroy_lem quiet m = rw (destroy-steps env s o.uncleaned) (
        Post-bind (Unlinked m) _ _ (unlink_names env (dead s)) _ (unlink_names_lem quiet m)
          λ _ t u. finish_lem quiet m t u)
