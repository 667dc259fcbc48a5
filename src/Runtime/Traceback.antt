-- ===== src/Runtime/Traceback.antt =====
-- `__Pyx_AddTraceback`: an entry of the traceback for a line, with a code object that the cache keeps
-- for the next time.
use shmrpc.Prelude.{
  ℕ, zero, suc, ℤ, pos, negsuc, Option, none, some, Bool, if◌then◌else◌, List, ◌∷◌,
}
use shmrpc.Runtime.CodeCache.{Entry, Cache, find_code_object, insert_code_object}

-- What `cython_runtime.cline_in_traceback` is; for an object that is neither True nor False, whether
-- `PyObject_Not` is not 0.
pub data UseCline : Type 0 where
  no_runtime : UseCline
  not_there : UseCline
  is_false : UseCline
  is_true : UseCline
  object : Bool → UseCline

-- `__Pyx_CLineForTraceback`: the line, or 0; where the attribute is not there, it is set to False, if
-- `PyObject_SetAttr` does not fail.
unfoldable pub cline_for_traceback : Bool → UseCline → ℕ → ℕ × UseCline
cline_for_traceback set_fails no_runtime c_line = (c_line, no_runtime)
cline_for_traceback set_fails not_there c_line = (0, if set_fails then not_there else is_false)
cline_for_traceback set_fails is_false c_line = (0, is_false)
cline_for_traceback set_fails is_true c_line = (c_line, is_true)
cline_for_traceback set_fails (object py_not) c_line = (if py_not then 0 else c_line, object py_not)

-- An entry is a code object and a line of the Python source.
pub record Trace : Type 0 where
  pub cache : Cache
  pub use_cline : UseCline
  pub entries : List (ℕ × ℕ)

-- `c_line ? -c_line : py_line`
abbrev pub code_line : ℕ → ℕ → ℤ
code_line zero py_line = pos py_line
code_line (suc c) py_line = negsuc c

-- `PyFrame_New` and `PyTraceBack_Here`
abbrev pub add_entry : Bool → ℕ → ℕ → Trace → Trace
add_entry frame_fails py_code py_line t =
    if frame_fails then t else record t { entries = (py_code, py_line) ∷ t.entries }

unfoldable pub with_cline : Bool → UseCline → ℕ → ℕ × UseCline
unfolding cline_for_traceback
with_cline set_fails use_cline zero = (0, use_cline)
with_cline set_fails use_cline (suc c) = cline_for_traceback set_fails use_cline (suc c)

-- What the calls of the interpreter give: memory for the cache, a new code object, whether there is no
-- frame, and whether the attribute cannot be set.
pub record Supply : Type 0 where
  pub memory : Option (ℕ → Entry)
  pub new_code : Option ℕ
  pub frame_fails : Bool
  pub set_fails : Bool

abbrev pub find_or_create : Supply → ℕ → ℤ → Option ℕ → Trace → Trace
find_or_create supply py_line line (some py_code) t = add_entry supply.frame_fails py_code py_line t
find_or_create supply py_line line none t = elim supply.new_code [
  | none ↦ t
  | some py_code ↦
      add_entry supply.frame_fails py_code py_line
        (record t { cache = insert_code_object supply.memory line py_code t.cache })
]

unfoldable pub add_traceback : Supply → ℕ → ℕ → Trace → Trace
unfolding with_cline
add_traceback supply c_line py_line t =
    let (c, use_cline) = with_cline supply.set_fails t.use_cline c_line in
    let line = code_line c py_line in
    find_or_create supply py_line line (find_code_object line t.cache)
      (record t { use_cline = use_cline })
