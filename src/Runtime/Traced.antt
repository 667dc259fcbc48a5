-- ===== src/Runtime/Traced.antt =====
-- A line that is traced twice has one code object.
use shmrpc.Prelude.{
  ℕ, zero, suc, ◌<◌, ℤ, pos, eq_ℤ, none, some, false, ◌∷◌, ◌≡◌, ◌≢◌, inl, inr, refl, ap, ◌∙◌,
  if◌then◌else◌, arith, Option-cases,
}
use shmrpc.Runtime.CodeCache.{Entry, Cache, find_code_object, insert_code_object}
use shmrpc.Runtime.Lookup.{IsCache}
use shmrpc.Runtime.Insert.{Inserted, insert-Inserted}
use shmrpc.Runtime.Traceback.{
  UseCline, no_runtime, not_there, is_false, is_true, object, cline_for_traceback, with_cline,
  Trace, code_line, Supply, add_traceback,
}

-- No call of the interpreter fails.
abbrev pub plenty : (ℕ → Entry) → ℕ → Supply
plenty m py_code = record {
  memory = some m;
  new_code = some py_code;
  frame_fails = false;
  set_fails = false;
}

with_cline_again :
    (u : UseCline) (c : ℕ) → with_cline false (with_cline false u c).1 c ≡ with_cline false u c
unfolding with_cline cline_for_traceback
with_cline_again u zero = refl
with_cline_again no_runtime (suc c) = refl
with_cline_again not_there (suc c) = refl
with_cline_again is_false (suc c) = refl
with_cline_again is_true (suc c) = refl
with_cline_again (object b) (suc c) = refl

module _ (c_line py_line : ℕ) where
  abbrev line : Trace → ℤ
  line t = code_line (with_cline false t.use_cline c_line).0 py_line

  abbrev traced : ℕ → Cache → Trace → Trace
  traced py_code cache t = record {
    cache = cache;
    use_cline = (with_cline false t.use_cline c_line).1;
    entries = (py_code, py_line) ∷ t.entries;
  }

  when_found :
      (t : Trace) (m : ℕ → Entry) (new x : ℕ)
      → find_code_object (line t) t.cache ≡ some x
      → add_traceback (plenty m new) c_line py_line t ≡ traced x t.cache t
  unfolding add_traceback
  when_found t m new x e = rw e refl

  when_new :
      (t : Trace) (m : ℕ → Entry) (new : ℕ)
      → find_code_object (line t) t.cache ≡ none
      → add_traceback (plenty m new) c_line py_line t
        ≡ traced new (insert_code_object (some m) (line t) new t.cache) t
  unfolding add_traceback
  when_new t m new e = rw e refl

  -- The code object that is used.
  abbrev pub used : ℕ → Trace → ℕ
  used new t = elim (find_code_object (line t) t.cache) [ none ↦ new | some x ↦ x ]

  used-new : (t : Trace) (new : ℕ) → find_code_object (line t) t.cache ≡ none → used new t ≡ new
  used-new t new e = rw (e, used) refl

  used-found : (t : Trace) (new x : ℕ) → find_code_object (line t) t.cache ≡ some x → used new t ≡ x
  used-found t new x e = rw (e, used) refl

  line-not-zero : (t : Trace) → 0 < py_line → line t ≢ pos 0
  line-not-zero t l e = ground (arith, l, e)

  -- After the first time, the object is found.
  abbrev FoundNext : ℕ → Trace → Trace → Type 0
  FoundNext x t after =
      (after ≡ traced x after.cache t)
      × IsCache after.cache
      × (find_code_object (line t) after.cache ≡ some x)

  inserted :
      (t : Trace) (m : ℕ → Entry) (new : ℕ) (cache : Cache)
      → 0 < py_line
      → Inserted (some m) (line t) new t.cache cache
      → FoundNext new t (traced new cache t)
  inserted t m new cache l (k, inl f) = (
    refl,
    k,
    let e : find_code_object (line t) cache
            ≡ (if eq_ℤ (line t) (line t) then some new else find_code_object (line t) t.cache) =
          f (line t) (line-not-zero t l) in
        ground (arith, e),
  )
  inserted t m new cache l (k, inr (e, f)) = absurd (ground (arith, e))

  first_time :
      (t : Trace) (m : ℕ → Entry) (new : ℕ)
      → 0 < py_line
      → IsCache t.cache
      → FoundNext (used new t) t (add_traceback (plenty m new) c_line py_line t)
  first_time t m new l k = elim (Option-cases (find_code_object (line t) t.cache)) [
    | inl e ↦
        rw (used-new t new e, when_new t m new e)
          (inserted t m new _ l
            (insert-Inserted (some m) (line t) new t.cache (line-not-zero t l) k))
    | inr (x, e) ↦ rw (used-found t new x e, when_found t m new x e) (refl, k, e)
  ]

  -- On a sorted cache of code objects, where no call of the interpreter fails: two entries for one line have one code object, the one that the cache has for the line, or
  -- else the first new one; and the second call leaves the cache alone, which is sorted again.
  pub add_traceback-twice :
      (t : Trace) (m m' : ℕ → Entry) (new new' : ℕ)
      → 0 < py_line
      → IsCache t.cache
      → let first = add_traceback (plenty m new) c_line py_line t in
        let second = add_traceback (plenty m' new') c_line py_line first in
        (second.entries ≡ (used new t, py_line) ∷ (used new t, py_line) ∷ t.entries)
        × (second.cache ≡ first.cache)
        × IsCache second.cache
  add_traceback-twice t m m' new new' l k =
      let first = add_traceback (plenty m new) c_line py_line t in
      let (e, sorted, f) = first_time t m new l k in
      let x = used new t in
      let h : line first ≡ line t =
        ap line e ∙ ap (λ p. code_line p.0 py_line) (with_cline_again t.use_cline c_line) in
      let g : add_traceback (plenty m' new') c_line py_line first ≡ traced x first.cache first =
        when_found first m' new' x (rw h f) in
      (
        ap (λ a. a.entries) g ∙ ap (λ a. (x, py_line) ∷ a.entries) e,
        ap (λ a. a.cache) g,
        rw (ap (λ a. a.cache) g) sorted,
      )
