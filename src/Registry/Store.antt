-- ===== src/Registry/Store.antt =====
-- The page of shared memory in which the lists of pids stand: JSONMMapBase of speedysvc/ipc, and `lock_fn` of
-- SHMResourceManager.py, by which every method takes the lock of the manager.
use shmrpc.Prelude.{ℕ, leb, ltb, ◌∷◌, ◌++◌, Option, none, some, Bool, true, false, if◌then◌else◌}
use shmrpc.Protocol.Bytes.{Bytes, length, take, drop, be32, of_be32}

-- `body` is what stands behind the first byte of the map; `locked` is whether the lock of the manager is
-- held.
pub record Store : Type 0 where
  pub body : Bytes
  pub lock_acquired : Bool
  pub locked : Bool

pub data StoreFault : Type 0 where
  not_acquired : StoreFault  -- the AssertionError
  too_long_for_length : StoreFault  -- struct.error
  wrong_size : StoreFault  -- IndexError of the slice assignment
  no_length : StoreFault  -- struct.error
  lock_raised : StoreFault  -- what `HybridLock.lock` raises
  no_json : StoreFault  -- JSONDecodeError, UnicodeDecodeError

pub data Stored (A : Type 0) : Type 0 where
  gives : A → Store → Stored A
  faults : StoreFault → Store → Stored A

abbrev pub and_then : {A B : Type 0} → Stored A → (A → Store → Stored B) → Stored B
and_then (gives a s) k = k a s
and_then (faults e s) k = faults e s

-- `mmap[1+at : 1+at+len(bytes)] = bytes`, which wants a slice of that size.
abbrev pub assign_slice : ℕ → Bytes → Store → Stored (Unit {0})
assign_slice at bytes s =
    if leb (length bytes) (length (drop at s.body))
    then gives tt
        (record s { body = take at s.body ++ (bytes ++ drop (length bytes) (drop at s.body)) })
    else faults wrong_size s

-- The length, and the bytes behind it.
abbrev pub text_of : Bytes → Option Bytes
text_of (a ∷ b ∷ c ∷ d ∷ rest) = some (take (of_be32 a b c d) rest)
text_of _ = none

-- `dumps` gives the JSON text of a value as UTF-8; `loads` reads it.
module _ {V : Type 0} (dumps : V → Bytes) (loads : Bytes → Option V) where
  abbrev pub load : Store → Option V → Stored V
  load s none = faults no_json s
  load s (some v) = gives v s

  abbrev pub read : Store → Option Bytes → Stored V
  read s none = faults no_length s
  read s (some data_bytes) = load s (loads data_bytes)

  -- `_decode`
  unfoldable pub decode : Store → Stored V
  decode s = if s.lock_acquired then read s (text_of s.body) else faults not_acquired s

  -- `_encode`, from the packing of the length on.
  abbrev pub store_text : Bytes → Store → Stored (Unit {0})
  store_text encoded s =
      if ltb (length encoded) 4294967296
      then and_then (assign_slice 0 (be32 (length encoded)) s) (λ _. assign_slice 4 encoded)
      else faults too_long_for_length s

  -- `_encode`
  unfoldable pub encode : V → Store → Stored (Unit {0})
  encode v s = if s.lock_acquired then store_text (dumps v) s else faults not_acquired s

  -- `lock_ok` and `unlock_ok` say whether `HybridLock.lock` and `HybridLock.unlock` return; one that
  -- raises leaves the lock as it is.
  module _ (lock_ok unlock_ok : Bool) where
    -- `try: self.lock.unlock()`, with `except: pass`, and `self.lock_acquired = False`.
    abbrev pub give_back : Store → Store
    give_back s = record s { locked = if unlock_ok then false else s.locked; lock_acquired = false }

    -- `finally`
    abbrev pub released : {A : Type 0} → Stored A → Stored A
    released (gives a s) = gives a (give_back s)
    released (faults e s) = faults e (give_back s)

    -- `lock_fn`: the lock, which is free then, is taken, or `lock` raises.
    abbrev pub lock_fn : {A : Type 0} → (Store → Stored A) → Store → Stored A
    lock_fn old_fn s =
        if lock_ok
        then released (old_fn (record s { locked = true; lock_acquired = true }))
        else faults lock_raised s

    -- A method that decodes the lists, changes them, and encodes them.
    unfoldable pub change_lists : (V → V) → Store → Stored (Unit {0})
    unfolding decode encode
    change_lists f = lock_fn λ s. and_then (decode s) λ v. encode (f v)
