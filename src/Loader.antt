-- ===== src/Loader.antt =====
-- src/plugins.c: the loader of the plugins. scandir(), with the entries in the order of alphasort(),
-- dlopen() and dlsym() are arguments; `W` is the state that a plugin's callbacks work on. malloc() is
-- taken to succeed. `none` is a failed assertion or an access to memory that is not allocated.
pub mod Balance
use meego_cellular_matd.Prelude.{
  ℕ, zero, suc, ◌+◌, ◌-◌, ◌/◌, ◌^◌, Bool, true, false, ◌&&◌, Option, none, some, List, [], ◌∷◌,
  ◌++◌, Bytes, ltb, ◌==◌, if◌then◌else◌, length, take,
}

abbrev uint_max : ℕ
uint_max = 2 ^ 32 - 1

-- `struct dirent`
pub record Dirent : Type 0 where
  pub is_regular : Bool
  pub name : Bytes

-- What is behind a handle: the two symbols that are looked up.
pub record Library (W : Type 0) : Type 0 where
  pub handle : ℕ
  pub register : Option (W → W × ℕ)
  pub unregister : Option (ℕ → W → W)

-- `struct at_module`
pub record Module (W : Type 0) : Type 0 where
  pub handle : ℕ
  pub register_cb : W → W × ℕ
  pub unregister_cb : Option (ℕ → W → W)

-- The pointer to the array of the modules.
pub data Array (W : Type 0) : Type 0 where
  null : Array W
  live : List (Module W) → Array W
  freed : Array W

-- `modules`, and the handles that are open.
pub record Loader (W : Type 0) : Type 0 where
  pub modules : Array W
  pub count : ℕ
  pub refs : ℕ
  pub handles : List ℕ

-- The last three characters.
unfoldable pub ends_in_so : Bytes → Bool
ends_in_so (a ∷ b ∷ c ∷ []) = a == b'.' && (b == b's' && c == b'o')
ends_in_so [] = false
ends_in_so (x ∷ name) = ends_in_so name

unfoldable pub filter_so : Dirent → Bool
unfolding ends_in_so
filter_so d = d.is_regular && ends_in_so d.name

-- dlclose() of one handle.
unfoldable pub close : ℕ → List ℕ → List ℕ
close h [] = []
close h (x ∷ handles) = let rest = close h handles in if x == h then handles else x ∷ rest

module _ {W : Type 0} where
  -- A library without the first symbol is closed again.
  abbrev module_of : Option (Library W) → Option (Module W)
  module_of none = none
  module_of (some lib) = elim lib.register [
    | none ↦ none
    | some register ↦
        some
          (record { handle = lib.handle; register_cb = register; unregister_cb = lib.unregister })
  ]

  abbrev with_module : Option (Module W) → List (Module W) → List (Module W)
  with_module none modules = modules
  with_module (some m) modules = m ∷ modules

  -- The loop of `load_plugins`.
  unfoldable pub load_all : (Bytes → Option (Library W)) → Bytes → List Dirent → List (Module W)
  unfolding filter_so
  load_all dlopen dir [] = []
  load_all dlopen dir (d ∷ entries) =
      let rest = load_all dlopen dir entries in
      if filter_so d then with_module (module_of (dlopen (dir ++ (b'/' ∷ d.name)))) rest else rest

  abbrev pub handles_of : List (Module W) → List ℕ
  handles_of [] = []
  handles_of (m ∷ modules) = m.handle ∷ handles_of modules

  -- A directory that cannot be read leaves the pointer as it is.
  unfoldable pub load_plugins :
      (Bytes → Option (Library W)) → Bytes → Option (List Dirent) → Loader W → Loader W
  unfolding load_all
  load_plugins dlopen dir none s = record s { count = 0 }
  load_plugins dlopen dir (some entries) s =
      let loaded = load_all dlopen dir entries in
      record s {
        modules = live loaded;
        count = length loaded;
        handles = handles_of loaded ++ s.handles;
      }

  -- The state, and the result: 0 or -1.
  unfoldable pub at_load_plugins :
      (Bytes → Option (Library W)) → Bytes → Option (List Dirent) → Loader W → Loader W × Bool
  unfolding load_plugins
  at_load_plugins dlopen dir entries s =
      let first = load_plugins dlopen dir entries s in
      if ltb s.refs uint_max
      then (if s.refs == 0
          then (record first { refs = 1 }, true)
          else (record s { refs = s.refs + 1 }, true))
      else (s, false)

  -- The loop of `unload_plugins` over so many modules.
  unfoldable pub close_all : ℕ → List (Module W) → List ℕ → Option (List ℕ)
  unfolding close
  close_all zero modules handles = some handles
  close_all (suc n) [] handles = none
  close_all (suc n) (m ∷ modules) handles = close_all n modules (close m.handle handles)

  abbrev closed : Loader W → Option (List ℕ) → Option (Loader W)
  closed s none = none
  closed s (some handles) = some (record s { modules = freed; handles = handles })

  -- The array is freed: twice is undefined, a null pointer is not.
  unfoldable pub unload_plugins : Array W → Loader W → Option (Loader W)
  unfolding close_all
  unload_plugins (live modules) s = closed s (close_all s.count modules s.handles)
  unload_plugins null s = if s.count == 0 then some s else none
  unload_plugins freed s = none

  unfoldable pub at_unload_plugins : Loader W → Option (Loader W)
  unfolding unload_plugins
  at_unload_plugins s =
      let last = unload_plugins s.modules (record s { refs = 0 }) in
      if s.refs == 0
      then none
      else if s.refs == 1
      then last
      else some (record s { refs = s.refs - 1 })

  -- The loop of `at_instantiate_plugins`, and that of `at_deinstantiate_plugins` on its table.
  unfoldable pub register_all : List (Module W) → W → W × List ℕ
  register_all [] w = (w, [])
  register_all (m ∷ modules) w =
      let (w1, opaque) = m.register_cb w in
      let (w2, tab) = register_all modules w1 in (w2, opaque ∷ tab)

  abbrev pub unregister_one : Option (ℕ → W → W) → ℕ → W → W
  unregister_one none opaque w = w
  unregister_one (some unregister) opaque w = unregister opaque w

  unfoldable pub unregister_all : List (Module W) → List ℕ → W → Option W
  unregister_all [] tab w = some w
  unregister_all (m ∷ modules) [] w = none
  unregister_all (m ∷ modules) (opaque ∷ tab) w =
      unregister_all modules tab (unregister_one m.unregister_cb opaque w)

  -- The modules up to `count`.
  abbrev pub loaded : Loader W → List (Module W)
  loaded s = elim s.modules [ null ↦ [] | live modules ↦ take s.count modules | freed ↦ [] ]

  unfoldable pub at_instantiate_plugins : Loader W → W → W × List ℕ
  unfolding register_all
  at_instantiate_plugins s w = register_all (loaded s) w

  unfoldable pub at_deinstantiate_plugins : Loader W → List ℕ → W → Option W
  unfolding unregister_all
  at_deinstantiate_plugins s tab w = unregister_all (loaded s) tab w
