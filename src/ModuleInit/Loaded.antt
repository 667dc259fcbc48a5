-- ===== src/ModuleInit/Loaded.antt =====
-- What is there when the module is loaded, and how often it can be loaded.
use shmrpc.Prelude.{
  ℕ, ◌==◌, pos, String, str_eq, str_eq_iff, Option, none, some, Bool, true, false, ◌&&◌,
  if◌then◌else◌, List, [], ◌∷◌, ◌≡◌, refl, sym, arith,
}
use mathlib.Core.Path.{subst}
use shmrpc.Machine.State.{bind_name}
use shmrpc.Runtime.Metaclass.{calculate_metaclass, metaclass_loop}
use shmrpc.ModuleInit.Globals.{
  DictItem, int, text, exception_class, lock_type, builtins, empty_dict, StringKind, Globals, Call,
  Outcome, done, Step, and_then,
}
use shmrpc.ModuleInit.Strings.{StringTabEntry, kind_of, string_tab, init_strings}
use shmrpc.ModuleInit.Exec.{
  Interpreter, Result, loaded, refused, init_globals, make_ints, open_dict, behind_globals,
  declare_all, set_constants, init_cached_builtins, init_cached_constants, modinit_type_init_code,
  declare_exception, register, before_module, behind_module, exec_module, after_body,
}

-- The names that the module binds.
abbrev pub bindings : List (String × DictItem)
bindings =
    ("__test__", empty_dict)
    ∷ ("CREATE_NEW_EXCLUSIVE", int 3)
    ∷ ("CREATE_NEW_OVERWRITE", int 2)
    ∷ ("CONNECT_TO_EXISTING", int 1)
    ∷ ("CONNECT_OR_CREATE", int 0)
    ∷ ("SemaphoreDestroyedException", exception_class "SemaphoreDestroyedException")
    ∷ ("NoSuchSemaphoreException", exception_class "NoSuchSemaphoreException")
    ∷ ("SemaphoreExistsException", exception_class "SemaphoreExistsException")
    ∷ ("STUFF", text "hi")
    ∷ ("HybridLock", lock_type)
    ∷ ("__builtins__", builtins)
    ∷ []

abbrev pub looked_up :
    List (String × DictItem) → (String → Option DictItem) → String → Option DictItem
looked_up [] old n = old n
looked_up ((k, item) ∷ bs) old n = if str_eq k n then some item else looked_up bs old n

abbrev pub has_string : Option StringKind → Bool
has_string none = false
has_string (some _) = true

abbrev pub all_made : List StringTabEntry → (String → Option StringKind) → Bool
all_made [] f = true
all_made (t ∷ ts) f = has_string (f t.s) && all_made ts f

abbrev pub or_new : Option ℕ → ℕ → ℕ
or_new none new = new
or_new (some m) new = m

-- From the static variables `old`, the module `new` has been loaded.
abbrev pub IsLoaded : ℕ → Globals → Result → Type 0
IsLoaded new old (loaded m) =
    (m.pyx_m ≡ some new)
    × ((n : String) → m.globals.dict n ≡ looked_up bindings old.dict n)
    × (m.globals.locked ≡ pos 0)
    × (m.globals.unlocked ≡ pos 1)
    × (m.globals.destroyed ≡ pos 127)
    × (m.globals.default_initial_value ≡ pos 1)
    × (m.globals.sys_module ≡ some (or_new old.sys_module new))
    × (all_made string_tab m.globals.strings ≡ true)
    × (m.globals.type_ready && (m.globals.vtable_set && m.globals.reduce_set) ≡ true)
IsLoaded new old (refused p m) = ⊥

-- The interpreter, no call failing.
abbrev calm : Interpreter → Interpreter
calm py = record py { fails = λ _. false }

-- The strings that `__Pyx_InitStrings` has added.
strings_of : List StringTabEntry → (String → Option StringKind) → String → Option StringKind
strings_of [] f = f
strings_of (t ∷ ts) f = strings_of ts (bind_name f t.s (some (kind_of t)))

strings_of-keep :
    (ts : List StringTabEntry) (f : String → Option StringKind) (n : String)
    → has_string (f n) ≡ true
    → has_string (strings_of ts f n) ≡ true
unfolding strings_of
strings_of-keep [] f n h = h
strings_of-keep (t ∷ ts) f n h =
    strings_of-keep ts (bind_name f t.s (some (kind_of t))) n (ground (arith, h))

strings_of-made :
    (ts : List StringTabEntry) (f : String → Option StringKind) (f' : String → Option StringKind)
    → ((n : String) → has_string (strings_of ts f n) ≡ true → has_string (f' n) ≡ true)
    → all_made ts f' ≡ true
unfolding strings_of
strings_of-made [] f f' h = refl
strings_of-made (t ∷ ts) f f' h =
    let made : has_string (f' t.s) ≡ true = h t.s (
      strings_of-keep ts (bind_name f t.s (some (kind_of t))) t.s
        (rw ((str_eq_iff t.s t.s).1 refl) refl)) in
    rw (made, strings_of-made ts (bind_name f t.s (some (kind_of t))) f' h) refl

init_strings_lem :
    (ts : List StringTabEntry) (g : Globals)
    → init_strings (λ _. false) ts g ≡ done (record g { strings = strings_of ts g.strings })
unfolding init_strings strings_of
init_strings_lem [] g = refl
init_strings_lem (t ∷ ts) g =
    init_strings_lem ts (record g { strings = bind_name g.strings t.s (some (kind_of t)) })

and_then-done :
    (P : Outcome → Type 0) (x : Outcome) (k : Step) (g : Globals)
    → x ≡ done g
    → P (k g)
    → P (and_then x k)
and_then-done P x k g e p = rw e p

module _ (py : Interpreter) (new : ℕ) where
  abbrev ints_made : Globals → ℕ → Bool
  ints_made g k =
      if k == 3
      then true
      else if k == 2
      then true
      else if k == 1
      then true
      else if k == 0
      then true
      else g.ints k

  init_globals_lem :
      (g : Globals)
      → init_globals (calm py) g
        ≡ done (record g { strings = strings_of string_tab g.strings; ints = ints_made g })
  unfolding init_globals make_ints
  init_globals_lem g =
      and_then-done
        (λ x. x ≡ done (record g { strings = strings_of string_tab g.strings; ints = ints_made g }))
        (init_strings (λ _. false) string_tab g) (make_ints (calm py))
        (record g { strings = strings_of string_tab g.strings }) (init_strings_lem string_tab g)
        refl

  abbrev with_builtins : Globals → Globals
  with_builtins g = record g { dict = bind_name g.dict "__builtins__" (some builtins) }

  abbrev started : Globals → Globals
  started g = record (with_builtins g) {
    strings = strings_of string_tab g.strings;
    ints = ints_made (with_builtins g);
  }

  finish :
      (g : Globals) (o : Option ℕ)
      → let old : Globals = record g { sys_module = o } in
        IsLoaded new old (after_body (calm py) new (behind_globals (calm py) new (started old)))
  unfolding behind_globals declare_all set_constants init_cached_builtins init_cached_constants
      modinit_type_init_code declare_exception register calculate_metaclass metaclass_loop
  finish g none = (
    refl,
    λ n. refl,
    refl,
    refl,
    refl,
    refl,
    refl,
    strings_of-made string_tab g.strings (strings_of string_tab g.strings) (λ n h. h),
    refl,
  )
  finish g (some m) = (
    refl,
    λ n. refl,
    refl,
    refl,
    refl,
    refl,
    refl,
    strings_of-made string_tab g.strings (strings_of string_tab g.strings) (λ n h. h),
    refl,
  )

  calm_load :
      (old : Globals)
      → IsLoaded new old (exec_module (calm py) new (record { pyx_m = none; globals = old }))
  unfolding exec_module before_module behind_module open_dict
  calm_load old =
      and_then-done (λ x. IsLoaded new old (after_body (calm py) new x))
        (init_globals (calm py) (with_builtins old)) (behind_globals (calm py) new) (started old)
        (init_globals_lem (with_builtins old)) (finish old old.sys_module)

-- If no call fails and no module is loaded, the module is loaded: the four modes, the three exceptions,
-- the type and the other names are bound in its dictionary, beside what was there; the chars are 0, 1
-- and 127, and the default initial value is 1; the module is in sys.modules, or the one that was there
-- before; all strings exist, and the type is ready.
pub load_lem :
    (py : Interpreter)
    → ((c : Call) → py.fails c ≡ false)
    → (new : ℕ) (old : Globals)
    → IsLoaded new old (exec_module py new (record { pyx_m = none; globals = old }))
load_lem py no_fail new old =
    let p : calm py ≡ py = λ i. record py { fails = λ c. sym (no_fail c) i } in
    subst (λ q. IsLoaded new old (exec_module q new (record { pyx_m = none; globals = old }))) p
      (calm_load py new old)
