-- ===== src/Runtime/Wrappers.antt =====
-- The unpacking of the arguments of `__cinit__`, `init_mmap` and `lock`: from what Python hands over
-- to the C values that the methods are called with. In the functions on a dictionary, a case of the C
-- `switch` on the number of positional arguments falls through to the next.
use shmrpc.Prelude.{ℕ, ℤ, pos, minus_one, String, Option, none, some, List, [], ◌∷◌}
use shmrpc.Machine.State.{update}
use shmrpc.HybridLock.Object.{unlocked}
use shmrpc.Runtime.IntFromPy.{PyLong, Object, Conversion, value, type_error, bind}
use shmrpc.Runtime.Arguments.{
  Item, dict_size, Values, no_values, take_keyword, require_keyword, parse_rest, string_argument,
  required_int, int_argument,
}

-- `values[0] = PyTuple_GET_ITEM(__pyx_args, 0)` and so on, from the last argument to the first.
abbrev pub one : Object → Values
one a = update no_values 0 (some a)

abbrev pub two : Object → Object → Values
two a b = update (update no_values 1 (some b)) 0 (some a)

abbrev pub three : Object → Object → Object → Values
three a b c = update (update (update no_values 2 (some c)) 1 (some b)) 0 (some a)

abbrev pub four : Object → Object → Object → Object → Values
four a b c d =
    update (update (update (update no_values 3 (some d)) 2 (some c)) 1 (some b)) 0 (some a)

-- Behind the `switch`.
abbrev pub and_rest : List String → ℕ → List Item → Conversion (Values × ℕ) → Conversion Values
and_rest names pos_args kwds c = bind c (parse_rest names pos_args kwds)

abbrev pub lock_names : List String
lock_names = "timeout" ∷ "spin" ∷ []

abbrev pub lock_case_1 : List Item → Values × ℕ → Conversion (Values × ℕ)
lock_case_1 kwds w = value (take_keyword "spin" 1 kwds w)

abbrev pub lock_case_0 : List Item → Values × ℕ → Conversion (Values × ℕ)
lock_case_0 kwds w = lock_case_1 kwds (take_keyword "timeout" 0 kwds w)

-- The two parts of the wrapper with a dictionary and without.
unfoldable pub lock_values : List Object → Option (List Item) → Conversion Values
lock_values [] none = value no_values
lock_values (a ∷ []) none = value (one a)
lock_values (a ∷ b ∷ []) none = value (two a b)
lock_values [] (some kwds) =
    and_rest lock_names 0 kwds (lock_case_0 kwds (no_values, dict_size kwds))
lock_values (a ∷ []) (some kwds) =
    and_rest lock_names 1 kwds (lock_case_1 kwds (one a, dict_size kwds))
lock_values (a ∷ b ∷ []) (some kwds) = and_rest lock_names 2 kwds (value (two a b, dict_size kwds))
lock_values (a ∷ b ∷ c ∷ args) kwds = type_error

abbrev pub cinit_names : List String
cinit_names = "sem_loc" ∷ "mode" ∷ "initial_value" ∷ "permissions" ∷ []

abbrev pub cinit_case_3 : List Item → Values × ℕ → Conversion (Values × ℕ)
cinit_case_3 kwds w = value (take_keyword "permissions" 3 kwds w)

abbrev pub cinit_case_2 : List Item → Values × ℕ → Conversion (Values × ℕ)
cinit_case_2 kwds w = cinit_case_3 kwds (take_keyword "initial_value" 2 kwds w)

abbrev pub cinit_case_1 : List Item → Values × ℕ → Conversion (Values × ℕ)
cinit_case_1 kwds w = bind (require_keyword "mode" 1 kwds w) (cinit_case_2 kwds)

abbrev pub cinit_case_0 : List Item → Values × ℕ → Conversion (Values × ℕ)
cinit_case_0 kwds w = bind (require_keyword "sem_loc" 0 kwds w) (cinit_case_1 kwds)

unfoldable pub cinit_values : List Object → Option (List Item) → Conversion Values
cinit_values [] none = type_error
cinit_values (a ∷ []) none = type_error
cinit_values (a ∷ b ∷ []) none = value (two a b)
cinit_values (a ∷ b ∷ c ∷ []) none = value (three a b c)
cinit_values (a ∷ b ∷ c ∷ d ∷ []) none = value (four a b c d)
cinit_values [] (some kwds) =
    and_rest cinit_names 0 kwds (cinit_case_0 kwds (no_values, dict_size kwds))
cinit_values (a ∷ []) (some kwds) =
    and_rest cinit_names 1 kwds (cinit_case_1 kwds (one a, dict_size kwds))
cinit_values (a ∷ b ∷ []) (some kwds) =
    and_rest cinit_names 2 kwds (cinit_case_2 kwds (two a b, dict_size kwds))
cinit_values (a ∷ b ∷ c ∷ []) (some kwds) =
    and_rest cinit_names 3 kwds (cinit_case_3 kwds (three a b c, dict_size kwds))
cinit_values (a ∷ b ∷ c ∷ d ∷ []) (some kwds) =
    and_rest cinit_names 4 kwds (value (four a b c d, dict_size kwds))
cinit_values (a ∷ b ∷ c ∷ d ∷ e ∷ args) kwds = type_error

abbrev pub init_mmap_names : List String
init_mmap_names = "sem_loc" ∷ "permissions" ∷ "set_value" ∷ []

abbrev pub init_mmap_case_2 : List Item → Values × ℕ → Conversion (Values × ℕ)
init_mmap_case_2 kwds w = value (take_keyword "set_value" 2 kwds w)

abbrev pub init_mmap_case_1 : List Item → Values × ℕ → Conversion (Values × ℕ)
init_mmap_case_1 kwds w = bind (require_keyword "permissions" 1 kwds w) (init_mmap_case_2 kwds)

abbrev pub init_mmap_case_0 : List Item → Values × ℕ → Conversion (Values × ℕ)
init_mmap_case_0 kwds w = bind (require_keyword "sem_loc" 0 kwds w) (init_mmap_case_1 kwds)

unfoldable pub init_mmap_values : List Object → Option (List Item) → Conversion Values
init_mmap_values [] none = type_error
init_mmap_values (a ∷ []) none = type_error
init_mmap_values (a ∷ b ∷ []) none = value (two a b)
init_mmap_values (a ∷ b ∷ c ∷ []) none = value (three a b c)
init_mmap_values [] (some kwds) =
    and_rest init_mmap_names 0 kwds (init_mmap_case_0 kwds (no_values, dict_size kwds))
init_mmap_values (a ∷ []) (some kwds) =
    and_rest init_mmap_names 1 kwds (init_mmap_case_1 kwds (one a, dict_size kwds))
init_mmap_values (a ∷ b ∷ []) (some kwds) =
    and_rest init_mmap_names 2 kwds (init_mmap_case_2 kwds (two a b, dict_size kwds))
init_mmap_values (a ∷ b ∷ c ∷ []) (some kwds) =
    and_rest init_mmap_names 3 kwds (value (three a b c, dict_size kwds))
init_mmap_values (a ∷ b ∷ c ∷ d ∷ args) kwds = type_error

-- `0666`
abbrev pub default_permissions : ℤ
default_permissions = pos 438

module _ (as_long : PyLong → Option ℤ) where
  -- The timeout and the spin that the wrapper of `lock` hands on.
  unfoldable pub lock_arguments : List Object → Option (List Item) → Conversion (ℤ × ℤ)
  unfolding lock_values
  lock_arguments args kwds = bind (lock_values args kwds) (λ v.
      bind (int_argument as_long (v 0) minus_one)
        (λ timeout. bind (int_argument as_long (v 1) (pos 1)) (λ spin. value (timeout, spin))))

  -- The name, the mode, the initial value and the permissions, for `__cinit__`.
  unfoldable pub cinit_arguments :
      List Object → Option (List Item) → Conversion (String × ℤ × ℤ × ℤ)
  unfolding cinit_values
  cinit_arguments args kwds = bind (cinit_values args kwds) (λ v.
      bind (string_argument (v 0)) (λ sem_loc. bind (required_int as_long (v 1)) (λ mode.
        bind (int_argument as_long (v 2) unlocked) (λ initial_value.
          bind (int_argument as_long (v 3) default_permissions)
            (λ permissions. value (sem_loc, mode, initial_value, permissions))))))

  -- The name, the permissions and the value to set, for `init_mmap`.
  unfoldable pub init_mmap_arguments :
      List Object → Option (List Item) → Conversion (String × ℤ × ℤ)
  unfolding init_mmap_values
  init_mmap_arguments args kwds = bind (init_mmap_values args kwds) (λ v.
      bind (string_argument (v 0)) (λ sem_loc. bind (required_int as_long (v 1)) (λ permissions.
        bind (int_argument as_long (v 2) minus_one)
          (λ set_value. value (sem_loc, permissions, set_value)))))
