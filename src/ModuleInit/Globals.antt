-- ===== src/ModuleInit/Globals.antt =====
-- The static variables of the module, its dictionary, and steps that may fail.
use shmrpc.Prelude.{ℕ, ℤ, String, Option, Bool, if◌then◌else◌}

pub data DictItem : Type 0 where
  int : ℕ → DictItem
  text : String → DictItem
  exception_class : String → DictItem
  lock_type : DictItem
  builtins : DictItem
  empty_dict : DictItem

-- A Python string, interned or not, or a bytes object.
pub data StringKind : Type 0 where
  interned : StringKind
  unicode : StringKind
  bytes : StringKind

-- Without `__pyx_m`. `strings`, `ints`, `cached_builtins` and `messages` say which objects are there;
-- `messages` are the tuples with the argument of an exception.
pub record Globals : Type 0 where
  pub dict : String → Option DictItem
  pub strings : String → Option StringKind
  pub ints : ℕ → Bool
  pub cached_builtins : String → Bool
  pub messages : String → Bool
  pub type_ready : Bool
  pub vtable_set : Bool
  pub reduce_set : Bool
  pub ptype_set : Bool
  pub locked : ℤ
  pub unlocked : ℤ
  pub destroyed : ℤ
  pub default_initial_value : ℤ
  pub sys_module : Option ℕ

-- The calls of the interpreter; some functions of the file, whose failure is one of theirs.
pub data Call : Type 0 where
  check_binary_version : Call
  new_empty_tuple : Call
  new_empty_bytes : Call
  new_empty_unicode : Call
  get_dict : Call
  add_builtins : Call
  add_cython_runtime : Call
  set_builtins : Call
  make_string : String → Call
  hash_string : String → Call
  make_int : ℕ → Call
  get_modules : Call
  set_module : Call
  get_builtin : String → Call
  pack_message : String → Call
  type_ready : Call
  set_vtable : Call
  set_type : Call
  setup_reduce : Call
  new_bases : String → Call
  prepare : String → Call
  create_class : String → Call
  set_item : String → Call
  new_dict : Call

-- The code goes on, or jumps to the error label.
pub data Outcome : Type 0 where
  done : Globals → Outcome
  failed : Globals → Outcome

abbrev pub Step : Type 0
Step = Globals → Outcome

abbrev pub and_then : Outcome → Step → Outcome
and_then (done g) k = k g
and_then (failed g) k = failed g

infixl 5 ◌>>◌
abbrev pub ◌>>◌ : Step → Step → Step
(s >> k) g = and_then (s g) k

abbrev pub set : (Globals → Globals) → Step
set f g = done (f g)

-- A call that fails changes nothing.
abbrev pub call : (Call → Bool) → Call → (Globals → Globals) → Step
call fails c f g = if fails c then failed g else done (f g)

abbrev pub unchanged : Globals → Globals
unchanged g = g
