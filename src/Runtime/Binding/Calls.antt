-- ===== src/Runtime/Binding/Calls.antt =====
-- The wrappers bind arguments as Python does.
use shmrpc.Prelude.{
  ℕ, ℤ, pos, minus_one, String, str_eq_iff, Option, none, some, Bool, false, true, not, ◌&&◌, List,
  [], ◌∷◌, ◌≡◌, arith, refl, sym, ap, ◌∙◌,
}
use shmrpc.Runtime.IntFromPy.{
  PyLong, Object, Conversion, value, overflow_error, type_error, other_error, null_pointer, bind,
}
use shmrpc.Runtime.Arguments.{
  Key, str, not_str, Item, key_is, Values, no_values, string_argument, required_int, int_argument,
}
use shmrpc.Runtime.Wrappers.{
  one, two, three, four, lock_names, lock_values, lock_arguments, cinit_names, cinit_values,
  cinit_arguments, init_mmap_names, init_mmap_values, init_mmap_arguments,
}
use shmrpc.Runtime.Binding.{is_name, bound, IsDict, Distinct}
use shmrpc.Runtime.Binding.Keywords.{seen, observe, keywords-bound}

only_key :
    (n : String) (ns : List String) (k : Key)
    → is_name ns (str n) ≡ false
    → key_is n k ≡ true
    → is_name ns k ≡ false
only_key n ns (str s) e h = rw (sym ((str_eq_iff n s).0 h)) e
only_key n ns not_str e h = absurd (ground (arith, h))

abbrev all_different : List String → Bool
all_different [] = true
all_different (n ∷ ns) = not (is_name ns (str n)) && all_different ns

all_different-Distinct : (ns : List String) → all_different ns ≡ true → Distinct ns
all_different-Distinct [] e = tt
all_different-Distinct (n ∷ ns) e =
    (λ k. only_key n ns k (ground (arith, e)), all_different-Distinct ns (ground (arith, e)))

lock_names-Distinct : Distinct lock_names
lock_names-Distinct = all_different-Distinct lock_names refl

cinit_names-Distinct : Distinct cinit_names
cinit_names-Distinct = all_different-Distinct cinit_names refl

init_mmap_names-Distinct : Distinct init_mmap_names
init_mmap_names-Distinct = all_different-Distinct init_mmap_names refl

lock_values-bound :
    (args : List Object) (d : List Item)
    → IsDict d
    → (observe 2 (lock_values args (some d)) ≡ bound lock_names 0 args d)
      × (observe 2 (lock_values args none) ≡ bound lock_names 0 args [])
unfolding lock_values
lock_values-bound [] d u =
    (keywords-bound lock_names 0 0 2 d no_values u lock_names-Distinct (λ j l. refl) refl, refl)
lock_values-bound (a ∷ []) d u = (
  keywords-bound lock_names 0 1 2 d (one a) u lock_names-Distinct.1 (λ j l. ground arith) refl,
  refl,
)
lock_values-bound (a ∷ b ∷ []) d u =
    (keywords-bound lock_names 0 2 2 d (two a b) u tt (λ j l. ground arith) refl, refl)
lock_values-bound (a ∷ b ∷ c ∷ args) d u = (ground arith, ground arith)

cinit_values-bound :
    (args : List Object) (d : List Item)
    → IsDict d
    → (observe 4 (cinit_values args (some d)) ≡ bound cinit_names 2 args d)
      × (observe 4 (cinit_values args none) ≡ bound cinit_names 2 args [])
unfolding cinit_values
cinit_values-bound [] d u =
    (keywords-bound cinit_names 2 0 4 d no_values u cinit_names-Distinct (λ j l. refl) refl, refl)
cinit_values-bound (a ∷ []) d u = (
  keywords-bound cinit_names 1 1 4 d (one a) u cinit_names-Distinct.1 (λ j l. ground arith) refl,
  refl,
)
cinit_values-bound (a ∷ b ∷ []) d u = (
  keywords-bound cinit_names 0 2 4 d (two a b) u cinit_names-Distinct.1.1 (λ j l. ground arith)
      refl,
  refl,
)
cinit_values-bound (a ∷ b ∷ c ∷ []) d u = (
  keywords-bound cinit_names 0 3 4 d (three a b c) u cinit_names-Distinct.1.1.1
      (λ j l. ground arith) refl,
  refl,
)
cinit_values-bound (a ∷ b ∷ c ∷ e ∷ []) d u =
    (keywords-bound cinit_names 0 4 4 d (four a b c e) u tt (λ j l. ground arith) refl, refl)
cinit_values-bound (a ∷ b ∷ c ∷ e ∷ f ∷ args) d u = (ground arith, ground arith)

init_mmap_values-bound :
    (args : List Object) (d : List Item)
    → IsDict d
    → (observe 3 (init_mmap_values args (some d)) ≡ bound init_mmap_names 2 args d)
      × (observe 3 (init_mmap_values args none) ≡ bound init_mmap_names 2 args [])
unfolding init_mmap_values
init_mmap_values-bound [] d u = (
  keywords-bound init_mmap_names 2 0 3 d no_values u init_mmap_names-Distinct (λ j l. refl) refl,
  refl,
)
init_mmap_values-bound (a ∷ []) d u = (
  keywords-bound init_mmap_names 1 1 3 d (one a) u init_mmap_names-Distinct.1 (λ j l. ground arith)
      refl,
  refl,
)
init_mmap_values-bound (a ∷ b ∷ []) d u = (
  keywords-bound init_mmap_names 0 2 3 d (two a b) u init_mmap_names-Distinct.1.1
      (λ j l. ground arith) refl,
  refl,
)
init_mmap_values-bound (a ∷ b ∷ c ∷ []) d u =
    (keywords-bound init_mmap_names 0 3 3 d (three a b c) u tt (λ j l. ground arith) refl, refl)
init_mmap_values-bound (a ∷ b ∷ c ∷ e ∷ args) d u = (ground arith, ground arith)

bind-observe :
    {A : Type 0} (n : ℕ) (c : Conversion Values) (k : Values → Conversion A)
    (k' : List (Option Object) → Conversion A)
    → ((v : Values) → k v ≡ k' (seen 0 n v))
    → bind c k ≡ bind (observe n c) k'
bind-observe n (value v) k k' h = h v
bind-observe n overflow_error k k' h = refl
bind-observe n type_error k k' h = refl
bind-observe n other_error k k' h = refl
bind-observe n null_pointer k k' h = refl

module _ (as_long : PyLong → Option ℤ) where
  -- The C values that the methods are called with, where an argument that is not given has a default.
  abbrev pub lock_call : List (Option Object) → Conversion (ℤ × ℤ)
  lock_call (timeout ∷ spin ∷ []) =
      bind (int_argument as_long timeout minus_one)
        (λ t. bind (int_argument as_long spin (pos 1)) (λ s. value (t, s)))
  lock_call _ = null_pointer

  abbrev pub cinit_call : List (Option Object) → Conversion (String × ℤ × ℤ × ℤ)
  cinit_call (sem_loc ∷ mode ∷ initial_value ∷ permissions ∷ []) =
      bind (string_argument sem_loc) (λ n. bind (required_int as_long mode) (λ m.
        bind (int_argument as_long initial_value (pos 1))
          (λ i. bind (int_argument as_long permissions (pos 438)) (λ p. value (n, m, i, p)))))
  cinit_call _ = null_pointer

  abbrev pub init_mmap_call : List (Option Object) → Conversion (String × ℤ × ℤ)
  init_mmap_call (sem_loc ∷ permissions ∷ set_value ∷ []) = bind (string_argument sem_loc) (λ n.
      bind (required_int as_long permissions)
        (λ p. bind (int_argument as_long set_value minus_one) (λ v. value (n, p, v))))
  init_mmap_call _ = null_pointer

  -- The call of `lock`.
  lock_arguments-bound :
      (args : List Object) (d : List Item)
      → IsDict d
      → (lock_arguments as_long args (some d) ≡ bind (bound lock_names 0 args d) lock_call)
        × (lock_arguments as_long args none ≡ bind (bound lock_names 0 args []) lock_call)
  unfolding lock_arguments
  lock_arguments-bound args d u =
      let (a, b) = lock_values-bound args d u in
      (
        bind-observe 2 (lock_values args (some d)) _ lock_call (λ v. refl)
            ∙ ap (λ c. bind c lock_call) a,
        bind-observe 2 (lock_values args none) _ lock_call (λ v. refl)
            ∙ ap (λ c. bind c lock_call) b,
      )

  -- The call of `__cinit__`.
  pub cinit_arguments-bound :
      (args : List Object) (d : List Item)
      → IsDict d
      → (cinit_arguments as_long args (some d) ≡ bind (bound cinit_names 2 args d) cinit_call)
        × (cinit_arguments as_long args none ≡ bind (bound cinit_names 2 args []) cinit_call)
  unfolding cinit_arguments
  cinit_arguments-bound args d u =
      let (a, b) = cinit_values-bound args d u in
      (
        bind-observe 4 (cinit_values args (some d)) _ cinit_call (λ v. refl)
            ∙ ap (λ c. bind c cinit_call) a,
        bind-observe 4 (cinit_values args none) _ cinit_call (λ v. refl)
            ∙ ap (λ c. bind c cinit_call) b,
      )

  -- The call of `init_mmap`.
  init_mmap_arguments-bound :
      (args : List Object) (d : List Item)
      → IsDict d
      → (init_mmap_arguments as_long args (some d)
          ≡ bind (bound init_mmap_names 2 args d) init_mmap_call)
        × (init_mmap_arguments as_long args none
            ≡ bind (bound init_mmap_names 2 args []) init_mmap_call)
  unfolding init_mmap_arguments
  init_mmap_arguments-bound args d u =
      let (a, b) = init_mmap_values-bound args d u in
      (
        bind-observe 3 (init_mmap_values args (some d)) _ init_mmap_call (λ v. refl)
            ∙ ap (λ c. bind c init_mmap_call) a,
        bind-observe 3 (init_mmap_values args none) _ init_mmap_call (λ v. refl)
            ∙ ap (λ c. bind c init_mmap_call) b,
      )

  -- In the calls of `__cinit__`, `init_mmap` and `lock`, the arguments given by position come first, and
  -- the others are found by name, also where there are no keywords. The name and the mode of
  -- `__cinit__`, and the name and the permissions of `init_mmap`, have no default; the initial value
  -- and the permissions of `__cinit__` have 1 and 0o666, the value to set of `init_mmap` has -1, and the
  -- timeout and the spinning of `lock` have -1 and 1. A missing argument, too many, a keyword that is
  -- no name of one that is left, and a keyword that is no string raise TypeError.
  pub arguments-bound :
      (args : List Object) (d : List Item)
      → IsDict d
      → ((cinit_arguments as_long args (some d) ≡ bind (bound cinit_names 2 args d) cinit_call)
          × (cinit_arguments as_long args none ≡ bind (bound cinit_names 2 args []) cinit_call))
        × ((init_mmap_arguments as_long args (some d)
              ≡ bind (bound init_mmap_names 2 args d) init_mmap_call)
            × (init_mmap_arguments as_long args none
                ≡ bind (bound init_mmap_names 2 args []) init_mmap_call))
        × ((lock_arguments as_long args (some d) ≡ bind (bound lock_names 0 args d) lock_call)
            × (lock_arguments as_long args none ≡ bind (bound lock_names 0 args []) lock_call))
  arguments-bound args d u = (
    cinit_arguments-bound args d u,
    init_mmap_arguments-bound args d u,
    lock_arguments-bound args d u,
  )
