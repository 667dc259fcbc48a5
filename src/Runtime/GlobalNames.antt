-- ===== src/Runtime/GlobalNames.antt =====
-- The lookup of a global name of the module, `__Pyx_GetModuleGlobalName`, which keeps the object that it
-- has found at the place of the call as long as the version of the dictionary is the same.
use shmrpc.Prelude.{
  ℕ, ◌+◌, ◌<◌, ◌==◌, String, Option, none, some, true, false, if◌then◌else◌, List, [], ◌∷◌, ◌≡◌,
  ◌⊎◌, inl, inr, refl, arith,
}
use shmrpc.Machine.State.{bind_name}

-- `__PYX_GET_DICT_VERSION` and the items. The interpreter takes the version from one counter for all
-- dictionaries, which starts at 1 and grows with every change of one of them.
pub record VersionedDict : Type 0 where
  pub version : ℕ
  pub items : String → Option ℕ

-- `__pyx_dict_version` and `__pyx_dict_cached_value`
pub record SiteCache : Type 0 where
  pub dict_version : ℕ
  pub cached_value : Option ℕ

abbrev pub empty_site : SiteCache
empty_site = record { dict_version = 0; cached_value = none }

-- NULL is `none`, with a NameError where the builtins do not have the name.
abbrev pub or_builtin : Option ℕ → Option ℕ → Option ℕ
or_builtin none builtin = builtin
or_builtin (some v) builtin = some v

abbrev pub update_dict_cache : VersionedDict → Option ℕ → SiteCache
update_dict_cache d value = record { dict_version = d.version; cached_value = value }

-- `__Pyx__GetModuleGlobalName`; the second argument is what `__Pyx_GetBuiltinName` gives.
unfoldable pub get_uncached : String → Option ℕ → VersionedDict → Option ℕ × SiteCache
get_uncached name builtin d =
    let result = d.items name in (or_builtin result builtin, update_dict_cache d result)

unfoldable pub get_module_global_name :
    String → Option ℕ → VersionedDict → SiteCache → Option ℕ × SiteCache
unfolding get_uncached
get_module_global_name name builtin d site =
    if site.dict_version == d.version
    then (or_builtin site.cached_value builtin, site)
    else get_uncached name builtin d

-- `__PYX_PY_DICT_LOOKUP_IF_MODIFIED`
unfoldable pub dict_lookup_if_modified : String → VersionedDict → SiteCache → Option ℕ × SiteCache
dict_lookup_if_modified name d site =
    if d.version == site.dict_version
    then (site.cached_value, site)
    else (d.items name, update_dict_cache d (d.items name))

-- The lookup at one place, with what the builtins have then; or a change of the dictionary, which
-- raises the version by 1 and by what other dictionaries have changed meanwhile.
pub data Event : Type 0 where
  look_up : Option ℕ → Event
  change : String → Option ℕ → ℕ → Event

abbrev pub changed : String → Option ℕ → ℕ → VersionedDict → VersionedDict
changed n v others d = record { version = d.version + others + 1; items = bind_name d.items n v }

-- What the lookups give.
unfoldable pub run : String → List Event → VersionedDict → SiteCache → List (Option ℕ)
unfolding get_module_global_name
run name [] d site = []
run name (look_up builtin ∷ es) d site =
    let (result, next) = get_module_global_name name builtin d site in result ∷ run name es d next
run name (change n v others ∷ es) d site = run name es (changed n v others d) site

-- What lookups without a cache give.
abbrev pub run_uncached : String → List Event → VersionedDict → List (Option ℕ)
run_uncached name [] d = []
run_uncached name (look_up builtin ∷ es) d =
    or_builtin (d.items name) builtin ∷ run_uncached name es d
run_uncached name (change n v others ∷ es) d = run_uncached name es (changed n v others d)

-- The place has not seen a later version, and of this one it has the object.
abbrev IsCurrent : String → VersionedDict → SiteCache → Type 0
IsCurrent name d site =
    (site.dict_version < d.version)
    ⊎ ((site.dict_version ≡ d.version) × (site.cached_value ≡ d.items name))

run_lem :
    (name : String) (es : List Event) (d : VersionedDict) (site : SiteCache)
    → IsCurrent name d site
    → run name es d site ≡ run_uncached name es d
unfolding run get_module_global_name get_uncached
run_lem name [] d site h = refl
run_lem name (look_up builtin ∷ es) d site (inl l) =
    let e : (site.dict_version == d.version) ≡ false = ground (arith, l) in
    rw (e, run_lem name es d (update_dict_cache d (d.items name)) (inr (refl, refl))) refl
run_lem name (look_up builtin ∷ es) d site (inr (e, f)) =
    let g : (site.dict_version == d.version) ≡ true = ground (arith, e) in
    rw (g, run_lem name es d site (inr (e, f)), f) refl
run_lem name (change n v others ∷ es) d site h =
    run_lem name es (changed n v others d) site (inl (ground (arith, h)))

-- From a place that has looked nothing up yet, whatever changes of the dictionary come between the
-- lookups, they all give what lookups without a cache give.
pub run-run_uncached :
    (name : String) (es : List Event) (d : VersionedDict)
    → 0 < d.version
    → run name es d empty_site ≡ run_uncached name es d
run-run_uncached name es d h = run_lem name es d empty_site (inl h)
