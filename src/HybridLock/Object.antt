-- ===== src/HybridLock/Object.antt =====
-- The constants of the module, and the small statements that the methods share.
use shmrpc.Prelude.{ℤ, pos, Bool, Option, none, some, eq_ℤ}
use shmrpc.Machine.State.{HybridLock, zeroed}
use shmrpc.Machine.Flow.{M, Exc, Flow, ok, err, blocks, crash}

-- `cdef char LOCKED, UNLOCKED, DESTROYED`
abbrev pub locked : ℤ
locked = pos 0

abbrev pub unlocked : ℤ
unlocked = pos 1

abbrev pub destroyed : ℤ
destroyed = pos 127

-- The modes of the constructor.
abbrev pub connect_or_create_mode : ℤ
connect_or_create_mode = pos 0

abbrev pub connect_to_existing_mode : ℤ
connect_to_existing_mode = pos 1

abbrev pub create_new_overwrite_mode : ℤ
create_new_overwrite_mode = pos 2

abbrev pub create_new_exclusive_mode : ℤ
create_new_exclusive_mode = pos 3

abbrev pub is_destroyed : ℤ → Bool
is_destroyed c = eq_ℤ c destroyed

-- An assignment to fields of `self`.
abbrev pub modify : (HybridLock → HybridLock) → M (Unit {0})
modify f s = ok tt (record s { self = f s.self })

-- A statement run on a new object, which is dropped afterwards. Dropping it only frees the object
-- (`tp_dealloc`): what it holds open stays open.
abbrev pub back_to : {A : Type 0} → HybridLock → Flow A → Flow A
back_to h (ok a s) = ok a (record s { self = h })
back_to h (err e s) = err e (record s { self = h })
back_to h (blocks s) = blocks (record s { self = h })
back_to h (crash c s) = crash c (record s { self = h })

abbrev pub on_new_object : {A : Type 0} → M A → M A
on_new_object m s = back_to s.self (m (record s { self = zeroed }))

-- The value of a call, or the exception for its failure.
abbrev pub some_or_raise : {A : Type 0} → Option A → Exc → M A
some_or_raise none e s = err e s
some_or_raise (some a) e s = ok a s
