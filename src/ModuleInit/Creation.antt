-- ===== src/ModuleInit/Creation.antt =====
-- What `__pyx_pymod_create` returns, and what the dictionary of a new module holds.
use shmrpc.Prelude.{
  ℕ, ◌==◌, ℤ, String, str_eq, Option, none, some, Bool, true, false, not, ◌&&◌, if◌then◌else◌, ◌≡◌,
  refl, arith, Bool-cases, inl, inr,
}
use shmrpc.Machine.State.{bind_name}
use shmrpc.ModuleInit.Interpreters.{
  Check, passed, no_id, import_error, check_single_interpreter, Attr, found, attribute_error,
  raises, Spec, Dict, Created, new_module, same_module, null, copy_spec_to_module, and_copy,
  copy_all, make_module, behind_check, pymod_create,
}

-- What the attribute binds to a name that is bound to `old`.
abbrev pub bound_to : Attr → Bool → Option ℕ → ℕ → Option ℕ
bound_to (found v) allow_none old py_none = if (v == py_none) && not allow_none then old else some v
bound_to attribute_error allow_none old py_none = old
bound_to raises allow_none old py_none = old

abbrev pub IsQuietAttr : Attr → Type 0
IsQuietAttr raises = ⊥
IsQuietAttr _ = Unit {0}

module _ (py_none : ℕ) where
  abbrev copy : Attr → String → Bool → Dict → Option Dict
  copy = copy_spec_to_module py_none (λ _. false) false

  abbrev Copied : Attr → String → Bool → Dict → Type 0
  Copied a to_name allow_none d =
      (e : Dict) × (copy a to_name allow_none d ≡ some e)
      × ((n : String)
          → e n ≡ (if str_eq to_name n then bound_to a allow_none (d n) py_none else d n))

  copy-Copied :
      (a : Attr) (to_name : String) (allow_none : Bool) (d : Dict)
      → IsQuietAttr a
      → Copied a to_name allow_none d
  unfolding copy_spec_to_module
  copy-Copied (found v) to_name true d q = (bind_name d to_name (some v), refl, λ n. ground arith)
  copy-Copied (found v) to_name false d q = elim (Bool-cases (v == py_none)) [
    | inl h ↦ (d, rw h refl, λ n. ground (arith, h))
    | inr h ↦ (bind_name d to_name (some v), rw h refl, λ n. ground (arith, h))
  ]
  copy-Copied attribute_error to_name allow_none d q = (d, refl, λ n. ground arith)
  copy-Copied raises to_name allow_none d q = absurd q

  -- A name is bound to the attribute, over what was bound before.
  abbrev pub layer : String → Attr → Bool → Dict → Dict
  layer to_name a allow_none d n =
      if str_eq to_name n then bound_to a allow_none (d n) py_none else d n

  -- The dictionary of a new module.
  abbrev pub filled : Spec → Dict → Dict
  filled spec fresh = layer "__path__" spec.submodule_search_locations false (
      layer "__package__" spec.parent true
        (layer "__file__" spec.origin true (layer "__loader__" spec.loader true fresh)))

  copy_all-filled :
      (spec : Spec) (fresh : Dict)
      → IsQuietAttr spec.loader
      → IsQuietAttr spec.origin
      → IsQuietAttr spec.parent
      → IsQuietAttr spec.submodule_search_locations
      → (d : Dict) × (copy_all py_none (λ _. false) false spec fresh ≡ some d)
        × ((n : String) → d n ≡ filled spec fresh n)
  unfolding copy_all and_copy
  copy_all-filled spec fresh q r t u =
      let (d1, e1, f1) = copy-Copied spec.loader "__loader__" true fresh q in
      let (d2, e2, f2) = copy-Copied spec.origin "__file__" true d1 r in
      let (d3, e3, f3) = copy-Copied spec.parent "__package__" true d2 t in
      let (d4, e4, f4) = copy-Copied spec.submodule_search_locations "__path__" false d3 u in
      (d4, rw (e1, e2, e3) e4, λ n. rw (f4 n, f3 n, f2 n, f1 n) refl)

  abbrev pub IsFilled : Spec → Dict → Created → Type 0
  IsFilled spec fresh (new_module d) = (n : String) → d n ≡ filled spec fresh n
  IsFilled spec fresh (same_module m) = ⊥
  IsFilled spec fresh null = ⊥

  abbrev pub CreatedAs : Check → Option ℕ → Spec → Dict → Created → Type 0
  CreatedAs passed none spec fresh c = IsFilled spec fresh c
  CreatedAs passed (some m) spec fresh c = c ≡ same_module m
  CreatedAs no_id pyx_m spec fresh c = c ≡ null
  CreatedAs import_error pyx_m spec fresh c = c ≡ null

  make_module-IsFilled :
      (spec : Spec) (fresh : Dict) (v : ℕ)
      → spec.name ≡ found v
      → IsQuietAttr spec.loader
      → IsQuietAttr spec.origin
      → IsQuietAttr spec.parent
      → IsQuietAttr spec.submodule_search_locations
      → IsFilled spec fresh (make_module py_none (λ _. false) false spec fresh)
  unfolding make_module
  make_module-IsFilled spec fresh v named q r t u =
      let (d, e, f) = copy_all-filled spec fresh q r t u in rw (named, e) f

  by_check :
      (c : Check) (pyx_m : Option ℕ) (spec : Spec) (fresh : Dict)
      → IsFilled spec fresh (make_module py_none (λ _. false) false spec fresh)
      → CreatedAs c pyx_m spec fresh (behind_check py_none (λ _. false) false c pyx_m spec fresh)
  unfolding behind_check
  by_check passed none spec fresh h = h
  by_check passed (some m) spec fresh h = refl
  by_check no_id pyx_m spec fresh h = refl
  by_check import_error pyx_m spec fresh h = refl

  -- No call fails, the specification has a name, and looking up its other attributes finds an object or
  -- raises AttributeError. If the check of the interpreter is passed, the result is the module that is
  -- loaded, or else a new one, in whose dictionary __loader__, __file__ and __package__ are bound to the
  -- attributes that are there, also to None, and __path__ only if it is not None. If it is not passed,
  -- the result is NULL.
  pub pymod_create_lem :
      (current main : ℤ) (pyx_m : Option ℕ) (spec : Spec) (fresh : Dict) (v : ℕ)
      → spec.name ≡ found v
      → IsQuietAttr spec.loader
      → IsQuietAttr spec.origin
      → IsQuietAttr spec.parent
      → IsQuietAttr spec.submodule_search_locations
      → CreatedAs
          (check_single_interpreter current main).0
          pyx_m
          spec
          fresh
          (pymod_create py_none (λ _. false) false current main pyx_m spec fresh).0
  unfolding pymod_create
  pymod_create_lem current main pyx_m spec fresh v named q r t u =
      by_check (check_single_interpreter current main).0 pyx_m spec fresh
        (make_module-IsFilled spec fresh v named q r t u)
