-- ===== src/Machine/Post.antt =====
-- Total correctness of a statement: it returns, with a postcondition for values and one for
-- exceptions. A statement that blocks or crashes has no postcondition.
use shmrpc.Prelude.{◌≡◌}
use shmrpc.Machine.State.{State}
use shmrpc.Machine.Flow.{final, Exc, Flow, ok, err, blocks, crash, M, and_then}

abbrev pub Post : {A : Type 0} → (A → State → Type 0) → (Exc → State → Type 0) → Flow A → Type 0
Post Q E (ok a s) = Q a s
Post Q E (err e s) = E e s
Post Q E (blocks s) = ⊥
Post Q E (crash c s) = ⊥

-- The rule for a sequence of two statements.
pub Post-bind :
    {A B : Type 0} (Q : A → State → Type 0) (R : B → State → Type 0) (E : Exc → State → Type 0)
    (r : Flow A) (k : A → M B)
    → Post Q E r
    → ((a : A) (t : State) → Q a t → Post R E (k a t))
    → Post R E (and_then r k)
Post-bind Q R E (ok a s) k h f = f a s h
Post-bind Q R E (err e s) k h f = h
Post-bind Q R E (blocks s) k h f = h
Post-bind Q R E (crash c s) k h f = h

-- The same where the first statement raises nothing.
pub Post-bind_quiet :
    {A B : Type 0} (Q : A → State → Type 0) (R : B → State → Type 0) (E : Exc → State → Type 0)
    (r : Flow A) (k : A → M B)
    → Post Q (λ _ _. ⊥) r
    → ((a : A) (t : State) → Q a t → Post R E (k a t))
    → Post R E (and_then r k)
Post-bind_quiet Q R E (ok a s) k h f = f a s h
Post-bind_quiet Q R E (err e s) k h f = absurd h
Post-bind_quiet Q R E (blocks s) k h f = h
Post-bind_quiet Q R E (crash c s) k h f = h

-- What a statement leaves alone that touches only shared memory and errno.
pub record SameProcess (s t : State) : Type 0 where
  pub self : t.self ≡ s.self
  pub sem_refs : t.sem_refs ≡ s.sem_refs
  pub fds : t.fds ≡ s.fds
  pub next_fd : t.next_fd ≡ s.next_fd

-- Partial correctness: a postcondition for the values that are returned.
abbrev pub Returned : {A : Type 0} → (A → State → Type 0) → Flow A → Type 0
Returned Q (ok a s) = Q a s
Returned Q (err e s) = Unit
Returned Q (blocks s) = Unit
Returned Q (crash c s) = Unit

pub Returned-bind :
    {A B : Type 0} (Q : A → State → Type 0) (R : B → State → Type 0) (r : Flow A) (k : A → M B)
    → Returned Q r
    → ((a : A) (t : State) → Q a t → Returned R (k a t))
    → Returned R (and_then r k)
Returned-bind Q R (ok a s) k h f = f a s h
Returned-bind Q R (err e s) k h f = tt
Returned-bind Q R (blocks s) k h f = tt
Returned-bind Q R (crash c s) k h f = tt

pub Post→Returned :
    {A : Type 0} (Q : A → State → Type 0) (E : Exc → State → Type 0) (r : Flow A)
    → Post Q E r
    → Returned Q r
Post→Returned Q E (ok a s) h = h
Post→Returned Q E (err e s) h = tt
Post→Returned Q E (blocks s) h = tt
Post→Returned Q E (crash c s) h = tt

pub Returned-weaken :
    {A : Type 0} (Q R : A → State → Type 0) (r : Flow A)
    → ((a : A) (t : State) → Q a t → R a t)
    → Returned Q r
    → Returned R r
Returned-weaken Q R (ok a s) f h = f a s h
Returned-weaken Q R (err e s) f h = tt
Returned-weaken Q R (blocks s) f h = tt
Returned-weaken Q R (crash c s) f h = tt

pub Post-weaken :
    {A : Type 0} (Q R : A → State → Type 0) (E F : Exc → State → Type 0) (r : Flow A)
    → ((a : A) (t : State) → Q a t → R a t)
    → ((e : Exc) (t : State) → E e t → F e t)
    → Post Q E r
    → Post R F r
Post-weaken Q R E F (ok a s) f g h = f a s h
Post-weaken Q R E F (err e s) f g h = g e s h
Post-weaken Q R E F (blocks s) f g h = h
Post-weaken Q R E F (crash c s) f g h = h

-- A condition on the state in which a statement ends, however it ends.
abbrev pub Always : {A : Type 0} → (State → Type 0) → Flow A → Type 0
Always P r = P (final r)

pub Always-bind :
    {A B : Type 0} (P : State → Type 0) (r : Flow A) (k : A → M B)
    → Always P r
    → ((a : A) (t : State) → P t → Always P (k a t))
    → Always P (and_then r k)
Always-bind P (ok a s) k h f = f a s h
Always-bind P (err e s) k h f = h
Always-bind P (blocks s) k h f = h
Always-bind P (crash c s) k h f = h
