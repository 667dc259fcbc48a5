-- ===== src/Examples/ModuleCases.antt =====
-- The theorems on the initialisation of the module.
use shmrpc.Prelude.{leb, pos, none, Bool, false, [], ◌∷◌, ◌≡◌, refl, minus_one}
use shmrpc.ModuleInit.Globals.{Globals}
use shmrpc.ModuleInit.Exec.{Interpreter, exec_module}
use shmrpc.ModuleInit.Loaded.{IsLoaded, load_lem}
use shmrpc.ModuleInit.Interpreters.{
  passed, import_error, checks, check_single_interpreter, found, attribute_error, Spec, Dict,
}

-- Before the first import.
abbrev zero_globals : Globals
zero_globals = record {
  dict = λ n. none;
  strings = λ n. none;
  ints = λ n. false;
  cached_builtins = λ n. false;
  messages = λ n. false;
  type_ready = false;
  vtable_set = false;
  reduce_set = false;
  ptype_set = false;
  locked = pos 0;
  unlocked = pos 0;
  destroyed = pos 0;
  default_initial_value = pos 0;
  sys_module = none;
}

abbrev interpreter : Bool → Interpreter
interpreter broken = record {
  fails = λ c. broken;
  py_is_subtype = leb;
  py_type = λ a. 0;
  type_type = 0;
  exc_exception = 2;
}

load_lem_example :
    IsLoaded 7 zero_globals
      (exec_module (interpreter false) 7 (record { pyx_m = none; globals = zero_globals }))
load_lem_example = load_lem (interpreter false) (λ c. refl) 7 zero_globals

-- The second interpreter is refused.
three_checks :
    checks (pos 0 ∷ pos 3 ∷ pos 0 ∷ []) minus_one
    ≡ (pos 0, passed) ∷ (pos 3, import_error) ∷ (pos 0, passed) ∷ []
unfolding checks check_single_interpreter
three_checks = refl

-- A specification that is no package's: `submodule_search_locations` is None (99).
abbrev spec : Spec
spec = record {
  name = found 1;
  loader = found 2;
  origin = found 3;
  parent = attribute_error;
  submodule_search_locations = found 99;
}

abbrev no_names : Dict
no_names n = none
