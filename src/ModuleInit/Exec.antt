-- ===== src/ModuleInit/Exec.antt =====
-- `__pyx_pymod_exec_HybridLock`, with multi-phase initialisation. The traceback that it adds on an error
-- is left out, and `__pyx_module_is_main_HybridLock` is 0.
use shmrpc.Prelude.{
  ℕ, ◌==◌, pos, String, Option, none, some, Bool, true, if◌then◌else◌, List, [], ◌∷◌,
}
use shmrpc.Machine.State.{bind_name}
use shmrpc.Runtime.IntFromPy.{value}
use shmrpc.Runtime.Metaclass.{calculate_metaclass}
use shmrpc.ModuleInit.Globals.{
  DictItem, int, text, exception_class, lock_type, builtins, empty_dict, Globals, Call,
  check_binary_version, new_empty_tuple, new_empty_bytes, new_empty_unicode, get_dict, add_builtins,
  add_cython_runtime, set_builtins, make_int, get_modules, set_module, get_builtin, pack_message,
  type_ready, set_vtable, set_type, setup_reduce, new_bases, prepare, create_class, set_item,
  new_dict, Outcome, done, failed, Step, set, call, unchanged, ◌>>◌,
}
use shmrpc.ModuleInit.Strings.{string_tab, init_strings}

-- The exception that is set when -1 is returned.
pub data Pending : Type 0 where
  from_call : Pending
  already_imported : Pending

pub record Module : Type 0 where
  pub pyx_m : Option ℕ
  pub globals : Globals

-- 0, or -1.
pub data Result : Type 0 where
  loaded : Module → Result
  refused : Pending → Module → Result

-- `PyType_IsSubtype`, `Py_TYPE`, `PyType_Type` and `PyExc_Exception` of the interpreter.
pub record Interpreter : Type 0 where
  pub fails : Call → Bool
  pub py_is_subtype : ℕ → ℕ → Bool
  pub py_type : ℕ → ℕ
  pub type_type : ℕ
  pub exc_exception : ℕ

module _ (py : Interpreter) where
  abbrev store : String → DictItem → Step
  store n item =
      call py.fails (set_item n) (λ g. record g { dict = bind_name g.dict n (some item) })

  abbrev store_int : ℕ → Step
  store_int n =
      call py.fails (make_int n) (λ g. record g { ints = λ k. if k == n then true else g.ints k })

  unfoldable pub make_ints : Step
  make_ints = do store_int 0; store_int 1; store_int 2; store_int 3

  -- `__Pyx_InitGlobals`
  unfoldable pub init_globals : Step
  unfolding init_strings make_ints
  init_globals = init_strings py.fails string_tab >> make_ints

  abbrev cache_builtin : String → Step
  cache_builtin n =
      call py.fails (get_builtin n)
        (λ g. record g { cached_builtins = bind_name g.cached_builtins n true })

  -- `__Pyx_InitCachedBuiltins`
  unfoldable pub init_cached_builtins : Step
  init_cached_builtins = do cache_builtin "SystemError"; cache_builtin "TypeError"

  abbrev pack_all : List String → Step
  pack_all [] = done
  pack_all (n ∷ ns) =
      call py.fails (pack_message n) (λ g. record g { messages = bind_name g.messages n true })
      >> pack_all ns

  abbrev message_texts : List String
  message_texts =
      "Error allocating memory" ∷ "Error copying memory" ∷ "shm_open" ∷ "ftruncate" ∷ "mmap"
      ∷ "close" ∷ "sem_close" ∷ "shm_unlink" ∷ "sem_unlink" ∷ "sem_getvalue" ∷ "sem_wait"
      ∷ "clock_gettime" ∷ "sem_post" ∷ "no default __reduce__ due to non-trivial __cinit__"
      ∷ "no default __reduce__ due to non-trivial __cinit__" ∷ []

  -- `__Pyx_InitCachedConstants`
  unfoldable pub init_cached_constants : Step
  init_cached_constants = pack_all message_texts

  -- `__Pyx_modinit_type_init_code`
  unfoldable pub modinit_type_init_code : Step
  modinit_type_init_code = do
    call py.fails type_ready (λ g. record g { type_ready = true })
    call py.fails set_vtable (λ g. record g { vtable_set = true })
    call py.fails set_type (λ g. record g { dict = bind_name g.dict "HybridLock" (some lock_type) })
    call py.fails setup_reduce (λ g. record g { reduce_set = true })
    set (λ g. record g { ptype_set = true })

  -- `class X(Exception): pass`
  unfoldable pub declare_exception : String → Step
  unfolding calculate_metaclass
  declare_exception n = do
    call py.fails (new_bases n) unchanged
    λ g.
        elim (calculate_metaclass py.py_is_subtype py.py_type py.type_type none
          (py.exc_exception ∷ [])) [ value metaclass ↦ done g | _ ↦ failed g ]
    call py.fails (prepare n) unchanged
    call py.fails (create_class n) unchanged
    store n (exception_class n)

  -- `if (!PyDict_GetItemString(modules, "HybridLock"))`
  unfoldable pub register : ℕ → Step
  register new = do
    call py.fails get_modules unchanged
    λ g. elim g.sys_module [
      | none ↦ call py.fails set_module (λ h. record h { sys_module = some new }) g
      | some _ ↦ done g
    ]

  -- Up to the assignment of `__pyx_m`.
  unfoldable pub before_module : Step
  before_module = do
    call py.fails check_binary_version unchanged
    call py.fails new_empty_tuple unchanged
    call py.fails new_empty_bytes unchanged
    call py.fails new_empty_unicode unchanged

  -- From `__pyx_m` on: first up to the C constants, then the rest.
  unfoldable pub declare_all : ℕ → Step
  unfolding init_cached_builtins init_cached_constants modinit_type_init_code declare_exception
      register
  declare_all new = do
    register new
    init_cached_builtins
    init_cached_constants
    modinit_type_init_code
    store "STUFF" (text "hi")
    declare_exception "SemaphoreExistsException"
    declare_exception "NoSuchSemaphoreException"
    declare_exception "SemaphoreDestroyedException"
    store "CONNECT_OR_CREATE" (int 0)
    store "CONNECT_TO_EXISTING" (int 1)
    store "CREATE_NEW_OVERWRITE" (int 2)
    store "CREATE_NEW_EXCLUSIVE" (int 3)

  unfoldable pub set_constants : Step
  set_constants = do
    set (λ g. record g { locked = pos 0 })
    set (λ g. record g { unlocked = pos 1 })
    set (λ g. record g { destroyed = pos 127 })
    set (λ g. record g { default_initial_value = g.unlocked })
    call py.fails new_dict unchanged
    store "__test__" empty_dict

  unfoldable pub behind_globals : ℕ → Step
  unfolding declare_all set_constants
  behind_globals new = declare_all new >> set_constants

  unfoldable pub open_dict : Step
  open_dict = do
    call py.fails get_dict unchanged
    call py.fails add_builtins unchanged
    call py.fails add_cython_runtime unchanged
    call py.fails set_builtins
        (λ g. record g { dict = bind_name g.dict "__builtins__" (some builtins) })

  unfoldable pub behind_module : ℕ → Step
  unfolding open_dict init_globals behind_globals
  behind_module new = open_dict >> init_globals >> behind_globals new

  -- On an error `__pyx_m` is cleared, if it is set.
  abbrev pub after_body : ℕ → Outcome → Result
  after_body new (done g) = loaded (record { pyx_m = some new; globals = g })
  after_body new (failed g) = refused from_call (record { pyx_m = none; globals = g })

  abbrev pub with_module : ℕ → Outcome → Result
  unfolding behind_module
  with_module new (done g) = after_body new (behind_module new g)
  with_module new (failed g) = refused from_call (record { pyx_m = none; globals = g })

  unfoldable pub exec_module : ℕ → Module → Result
  unfolding before_module with_module
  exec_module new s = elim s.pyx_m [
    | some m ↦ if m == new then loaded s else refused already_imported s
    | none ↦ with_module new (before_module s.globals)
  ]
