-- ===== src/Examples/CallCases.antt =====
-- The arguments in calls of `HybridLock`, `init_mmap` and `lock`, with a keyword and without one.
use shmrpc.Prelude.{pos, negsuc, some, none, false, List, ◌∷◌, [], ◌≡◌, refl}
use shmrpc.Runtime.IntFromPy.{
  Object, python_int, bytes, value, type_error, bind, int_from_py, from_pylong, few_digits,
  verify_return, to_signed, pyint_as_int,
}
use shmrpc.Runtime.Arguments.{Item, str}
use shmrpc.Runtime.Wrappers.{
  lock_names, lock_arguments, cinit_names, cinit_arguments, init_mmap_names, init_mmap_arguments,
}
use shmrpc.Runtime.Binding.{bound}
use shmrpc.Runtime.Binding.Calls.{lock_call, cinit_call, init_mmap_call, arguments-bound}
use shmrpc.Examples.RuntimeCases.{exact_long}

abbrev five : Object
five = python_int (record { negative = false; digits = 5 ∷ [] })

abbrev no_spin : List Item
no_spin =
    (record { key = str "spin"; item = python_int (record { negative = false; digits = [] }) }) ∷ []

-- The values that come out.
five_zero :
    (bind (bound lock_names 0 (five ∷ []) no_spin) (lock_call exact_long) ≡ value (pos 5, pos 0))
    × (bind (bound lock_names 0 [] no_spin) (lock_call exact_long) ≡ value (negsuc 0, pos 0))
    × (bind (bound lock_names 0 (five ∷ five ∷ []) no_spin) (lock_call exact_long) ≡ type_error)
unfolding pyint_as_int int_from_py from_pylong few_digits verify_return to_signed
five_zero = (refl, refl, refl)

abbrev in_mode : List Item
in_mode = (record { key = str "mode"; item = five }) ∷ []

arguments-bound_example :
    ((cinit_arguments exact_long (bytes "svc" ∷ []) (some in_mode)
        ≡ bind (bound cinit_names 2 (bytes "svc" ∷ []) in_mode) (cinit_call exact_long))
      × (cinit_arguments exact_long (bytes "svc" ∷ []) none
          ≡ bind (bound cinit_names 2 (bytes "svc" ∷ []) []) (cinit_call exact_long)))
    × ((init_mmap_arguments exact_long (bytes "svc" ∷ []) (some in_mode)
          ≡ bind (bound init_mmap_names 2 (bytes "svc" ∷ []) in_mode) (init_mmap_call exact_long))
        × (init_mmap_arguments exact_long (bytes "svc" ∷ []) none
            ≡ bind (bound init_mmap_names 2 (bytes "svc" ∷ []) []) (init_mmap_call exact_long)))
    × ((lock_arguments exact_long (bytes "svc" ∷ []) (some in_mode)
          ≡ bind (bound lock_names 0 (bytes "svc" ∷ []) in_mode) (lock_call exact_long))
        × (lock_arguments exact_long (bytes "svc" ∷ []) none
            ≡ bind (bound lock_names 0 (bytes "svc" ∷ []) []) (lock_call exact_long)))
arguments-bound_example = arguments-bound exact_long (bytes "svc" ∷ []) in_mode ((λ _ _. refl), tt)

abbrev with_permissions : List Item
with_permissions = (record { key = str "permissions"; item = five }) ∷ []

-- A missing mode, an argument by position and by name, and the defaults.
bound_values :
    (bind (bound cinit_names 2 (bytes "svc" ∷ []) []) (cinit_call exact_long) ≡ type_error)
    × (bind (bound cinit_names 2 (bytes "svc" ∷ five ∷ []) in_mode) (cinit_call exact_long)
        ≡ type_error)
    × (bind (bound cinit_names 2 (bytes "svc" ∷ []) in_mode) (cinit_call exact_long)
        ≡ value ("svc", pos 5, pos 1, pos 438))
    × (bind
          (bound init_mmap_names 2 (bytes "svc" ∷ []) with_permissions)
          (init_mmap_call exact_long)
        ≡ value ("svc", pos 5, negsuc 0))
unfolding pyint_as_int int_from_py from_pylong few_digits verify_return to_signed
bound_values = (refl, refl, refl, refl)
