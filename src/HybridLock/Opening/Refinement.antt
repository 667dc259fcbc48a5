-- ===== src/HybridLock/Opening/Refinement.antt =====
-- The constructor refines its specification.
use shmrpc.Prelude.{
  ℕ, String, ◌≤◌, ◌≡◌, ℤ, pos, eq_ℤ, none, Bool-cases, inl, inr, false, if◌then◌else◌, str_eq_iff,
  arith, refl,
}
use shmrpc.Machine.State.{State, Env, sem_value_max}
use shmrpc.Machine.Flow.{M, and_then, raise, exception, ok}
use shmrpc.Machine.Post.{Post, Post-bind, Post-weaken}
use shmrpc.HybridLock.Object.{
  is_destroyed, connect_or_create_mode, connect_to_existing_mode, create_new_exclusive_mode,
  create_new_overwrite_mode,
}
use shmrpc.HybridLock.Create.{
  cinit, cinit_with, connect_or_create, connect_to_existing, create_exclusive, create_overwrite,
}
use shmrpc.HybridLock.Progress.{IsQuiet}
use shmrpc.HybridLock.Opening.Spec
use shmrpc.HybridLock.Opening.Spec.{Outcome, cleared, page_named, opening}
use shmrpc.HybridLock.Opening.Modes.{
  Got, Raises, sem_named, connect_to_existing_lem, create_exclusive_lem, connect_or_create_lem,
}
use shmrpc.HybridLock.Opening.Overwrite.{
  named, Bound, Connected, copy_name_lem, create_overwrite_lem,
}

-- The object is open, and the name is bound to what it uses; the page does not carry the mark.
abbrev pub Constructed : String → Outcome → ℤ → State → Type 0
Constructed name o r t =
    (r ≡ pos 0)
    × (o ≡ (none, t.shared))
    × ((i : ℕ) × (p : ℕ) × Connected name i p t × (is_destroyed (t.shared.page_char p) ≡ false))

module _ (env : Env) (quiet : IsQuiet env) (name : String) (n : ℕ) (small : n ≤ sem_value_max) where
  -- Ready but for the mark that the constructor takes off at its end.
  abbrev Settled : Outcome → State → ℤ → State → Type 0
  Settled o s r t =
      (r ≡ pos 0)
      × (o ≡ (none, t.shared))
      × ((i : ℕ) × (p : ℕ) × Got i p s t
          × Bound name t i p
          × (is_destroyed (t.shared.page_char p) ≡ false))

  connect_to_existing-Settled :
      (s : State)
      → let o = Spec.connect_to_existing name s.shared in
        Post (Settled o s) (Raises o) (connect_to_existing env name s)
  connect_to_existing-Settled s =
      Post-weaken _ _ _ _ (connect_to_existing env name s)
        (λ r t h. (
          h.0,
          h.1,
          (
            sem_named name s.shared,
            page_named name s.shared,
            h.2,
            ground (arith, str_eq_iff name name, h.1),
            ground (arith, str_eq_iff name name, h.1),
          ),
        ))
        (λ _ _ h. h) (connect_to_existing_lem env quiet name s)

  create_exclusive-Settled :
      (s : State)
      → let o = Spec.create_exclusive name n s.shared in
        Post (Settled o s) (Raises o) (create_exclusive env name (pos n) s)
  create_exclusive-Settled s =
      Post-weaken _ _ _ _ (create_exclusive env name (pos n) s)
        (λ r t h. (
          h.0,
          h.1,
          (
            sem_named name s.shared,
            page_named name s.shared,
            h.2,
            ground (arith, str_eq_iff name name, h.1),
            ground (arith, str_eq_iff name name, h.1),
          ),
        ))
        (λ _ _ h. h) (create_exclusive_lem env quiet name s n small)

  connect_or_create-Settled :
      (s : State)
      → let o = Spec.connect_or_create name n s.shared in
        Post (Settled o s) (Raises o) (connect_or_create env name (pos n) s)
  connect_or_create-Settled s =
      Post-weaken _ _ _ _ (connect_or_create env name (pos n) s)
        (λ r t h. (
          h.0,
          h.1,
          (
            sem_named name s.shared,
            page_named name s.shared,
            h.2,
            ground (arith, str_eq_iff name name, h.1),
            ground (arith, str_eq_iff name name, h.1),
          ),
        ))
        (λ _ _ h. h) (connect_or_create_lem env quiet name s n small)

  create_overwrite-Settled :
      (s : State)
      → let o = Spec.create_overwrite name n s.shared in
        Post (Settled o s) (Raises o) (create_overwrite env name (pos n) s)
  create_overwrite-Settled s =
      Post-weaken _ _ _ _ (create_overwrite env name (pos n) s)
        (λ r t h. (
          h.0,
          h.1,
          (
            sem_named name (cleared name s.shared),
            page_named name (cleared name s.shared),
            h.2,
            ground (arith, str_eq_iff name name, h.1),
            ground (arith, str_eq_iff name name, h.1),
          ),
        ))
        (λ _ _ h. h) (create_overwrite_lem env quiet name n s small)

  abbrev chosen : ℤ → M ℤ
  chosen mode =
      if eq_ℤ mode connect_or_create_mode
      then connect_or_create env name (pos n)
      else if eq_ℤ mode connect_to_existing_mode
      then connect_to_existing env name
      else if eq_ℤ mode create_new_exclusive_mode
      then create_exclusive env name (pos n)
      else if eq_ℤ mode create_new_overwrite_mode
      then create_overwrite env name (pos n)
      else raise (exception "Unknown mode")

  chosen-Settled :
      (mode : ℤ) (s : State)
      → let o = opening mode name n s.shared in Post (Settled o s) (Raises o) (chosen mode s)
  chosen-Settled mode s = elim (Bool-cases (eq_ℤ mode connect_or_create_mode)) [
    | inl a ↦ rw a (connect_or_create-Settled s)
    | inr a ↦ elim (Bool-cases (eq_ℤ mode connect_to_existing_mode)) [
      | inl b ↦ rw (a, b) (connect_to_existing-Settled s)
      | inr b ↦ elim (Bool-cases (eq_ℤ mode create_new_exclusive_mode)) [
        | inl c ↦ rw (a, b, c) (create_exclusive-Settled s)
        | inr c ↦ elim (Bool-cases (eq_ℤ mode create_new_overwrite_mode)) [
          | inl d ↦ rw (a, b, c, d) (create_overwrite-Settled s)
          | inr d ↦ rw (a, b, c, d) refl
        ]
      ]
    ]
  ]

  cinit-steps :
      (mode : ℤ) (s : State)
      → cinit env name mode (pos n) s
        ≡ and_then
            (chosen mode (named name s))
            (λ _ t. ok (pos 0) (record t { self = record t.self { cleaned_up = false } }))
  unfolding cinit cinit_with
  cinit-steps mode s = rw (copy_name_lem env quiet name s) refl

  Settled-Constructed :
      (s : State) (o : Outcome) (r : ℤ) (t : State)
      → Settled o (named name s) r t
      → Constructed name o (pos 0) (record t { self = record t.self { cleaned_up = false } })
  Settled-Constructed s o r t (a, b, (i, p, g, d, e)) = (refl, b, (i, p, ground (arith, g, d), e))

  -- If no call fails, the constructor refines its specification, in every mode and for every initial
  -- value that a semaphore can have: it raises what `opening` says and leaves the shared state that
  -- `opening` says. If nothing is raised, the object is open, its name is bound to the semaphore and the
  -- page that it uses, and the page does not carry the mark.
  pub cinit-refines :
      (mode : ℤ) (s : State)
      → let o = opening mode name n s.shared in
        Post (Constructed name o) (Raises o) (cinit env name mode (pos n) s)
  cinit-refines mode s =
      let o = opening mode name n s.shared in
      rw (cinit-steps mode s) (
        Post-bind (Settled o (named name s)) (Constructed name o) (Raises o)
          (chosen mode (named name s)) _ (chosen-Settled mode (named name s))
          λ r t h. Settled-Constructed s o r t h)
