-- ===== src/ModuleInit/Strings.antt =====
-- `__pyx_string_tab` and `__Pyx_InitStrings`, for Python 3. No entry has an encoding.
use shmrpc.Prelude.{String, some, Bool, true, false, ◌||◌, if◌then◌else◌, List, [], ◌∷◌}
use shmrpc.Machine.State.{bind_name}
use shmrpc.ModuleInit.Globals.{
  StringKind, interned, unicode, bytes, Call, make_string, hash_string, Step, done, call, unchanged,
  ◌>>◌,
}

pub record StringTabEntry : Type 0 where
  pub s : String
  pub is_unicode : Bool
  pub is_str : Bool
  pub intern : Bool

-- The four kinds of entries: a name, a text, a text that is interned, and a text of the source's own
-- string type.
abbrev name : String → StringTabEntry
name s = record { s = s; is_unicode = false; is_str = true; intern = true }

abbrev text : String → StringTabEntry
text s = record { s = s; is_unicode = true; is_str = false; intern = false }

abbrev text_name : String → StringTabEntry
text_name s = record { s = s; is_unicode = true; is_str = false; intern = true }

abbrev native : String → StringTabEntry
native s = record { s = s; is_unicode = false; is_str = true; intern = false }

abbrev pub string_tab : List StringTabEntry
string_tab =
    name "CONNECT_OR_CREATE"
    ∷ name "CONNECT_TO_EXISTING"
    ∷ name "CREATE_NEW_EXCLUSIVE"
    ∷ name "CREATE_NEW_OVERWRITE"
    ∷ text "Error allocating memory"
    ∷ text "Error copying memory"
    ∷ text "Error occurred calling "
    ∷ name "HybridLock"
    ∷ text "HybridLock has already been destroyed"
    ∷ name "NoSuchSemaphoreException"
    ∷ name "STUFF"
    ∷ name "SemaphoreDestroyedException"
    ∷ name "SemaphoreExistsException"
    ∷ text "Semaphore at %s already destroyed: shouldn't get here!"
    ∷ name "SystemError"
    ∷ name "TimeoutError"
    ∷ name "TypeError"
    ∷ text "Unknown mode: %s"
    ∷ text ": "
    ∷ name "cline_in_traceback"
    ∷ text_name "clock_gettime"
    ∷ text_name "close"
    ∷ name "__doc__"
    ∷ name "__exception_occurred"
    ∷ text_name "fchmod"
    ∷ text_name "ftruncate"
    ∷ name "__getstate__"
    ∷ text_name "hi"
    ∷ name "init_mmap"
    ∷ name "initial_value"
    ∷ text "lock called on destroyed HybridLock!"
    ∷ name "__main__"
    ∷ name "__metaclass__"
    ∷ text_name "mmap"
    ∷ name "mode"
    ∷ name "__module__"
    ∷ name "__name__"
    ∷ native "no default __reduce__ due to non-trivial __cinit__"
    ∷ name "permissions"
    ∷ name "__prepare__"
    ∷ name "__pyx_vtable__"
    ∷ name "__qualname__"
    ∷ name "__reduce__"
    ∷ name "__reduce_cython__"
    ∷ name "__reduce_ex__"
    ∷ text_name "sem_close"
    ∷ text_name "sem_getvalue"
    ∷ name "sem_loc"
    ∷ text_name "sem_post"
    ∷ text "sem_timedwait: %d"
    ∷ text_name "sem_unlink"
    ∷ text_name "sem_wait"
    ∷ name "set_value"
    ∷ name "__setstate__"
    ∷ name "__setstate_cython__"
    ∷ text_name "shm_open"
    ∷ text_name "shm_unlink"
    ∷ name "spin"
    ∷ name "__test__"
    ∷ name "timeout"
    ∷ []

abbrev pub kind_of : StringTabEntry → StringKind
kind_of t = if t.is_unicode || t.is_str then (if t.intern then interned else unicode) else bytes

module _ (fails : Call → Bool) where
  unfoldable pub init_strings : List StringTabEntry → Step
  init_strings [] = done
  init_strings (t ∷ ts) =
      call fails (make_string t.s)
        (λ g. record g { strings = bind_name g.strings t.s (some (kind_of t)) })
      >> call fails (hash_string t.s) unchanged
      >> init_strings ts
