-- ===== src/Loader/Balance.antt =====
-- src/plugins.c: the count of the references.
use meego_cellular_matd.Prelude.{
  ℕ, ◌+◌, ◌-◌, ◌^◌, ◌<◌, ◌≡◌, refl, ap, ◌∙◌, subst, inl, inr, true, false, Option, none, some, List,
  [], ◌∷◌, ◌++◌, append-nil, arith, Bytes, ◌==◌, lt→ltb, ==_iff, if_true, Bool-cases, length,
}
use meego_cellular_matd.Loader.{
  Dirent, Library, Module, null, live, freed, Loader, load_all, load_plugins, at_load_plugins,
  at_unload_plugins, unload_plugins, handles_of, close, close_all,
}

-- A call of the loader: with the directory as it is then, or the end of a use.
pub data Call : Type 0 where
  load : Option (List Dirent) → Call
  unload : Call

module _ {W : Type 0} (dlopen : Bytes → Option (Library W)) (dir : Bytes) where
  abbrev pub call : Loader W → Call → Option (Loader W)
  call s (load entries) = some (at_load_plugins dlopen dir entries s).0
  call s unload = at_unload_plugins s

  abbrev pub then_call : Option (Loader W) → Call → Option (Loader W)
  then_call none c = none
  then_call (some s) c = call s c

  -- Calls one after the other.
  abbrev pub run : Option (Loader W) → List Call → Option (Loader W)
  run s [] = s
  run s (c ∷ calls) = run (then_call s c) calls

-- The libraries are open while there is a reference, and each once.
pub data IsBalanced {W : Type 0} (s : Loader W) : Type 0 where
  unused : s.refs ≡ 0 → s.handles ≡ [] → IsBalanced s
  used :
      (modules : List (Module W))
      → 0 < s.refs
      → s.modules ≡ live modules
      → s.count ≡ length modules
      → s.handles ≡ handles_of modules
      → IsBalanced s

-- So many references are left, the calls that end a use have a use to end, and the directory of a
-- first use can be read.
abbrev pub Allowed : ℕ → List Call → Type 0
Allowed refs [] = Unit {0}
Allowed refs (load none ∷ calls) = (0 < refs) × (refs < 2 ^ 32 - 1) × Allowed (refs + 1) calls
Allowed refs (load (some entries) ∷ calls) = (refs < 2 ^ 32 - 1) × Allowed (refs + 1) calls
Allowed refs (unload ∷ calls) = (0 < refs) × Allowed (refs - 1) calls

-- The references that the calls leave.
abbrev pub left : ℕ → List Call → ℕ
left refs [] = refs
left refs (load entries ∷ calls) = left (refs + 1) calls
left refs (unload ∷ calls) = left (refs - 1) calls

abbrev pub Ok : {W : Type 0} → (Loader W → Type 0) → Option (Loader W) → Type 0
Ok P none = ⊥
Ok P (some s) = P s

close-first : (h : ℕ) (handles : List ℕ) → close h (h ∷ handles) ≡ handles
unfolding close
close-first h handles = if_true _ _ ((==_iff h h).1 refl)

module _ {W : Type 0} where
  close_all-handles :
      (modules : List (Module W))
      → close_all (length modules) modules (handles_of modules) ≡ some []
  unfolding close_all
  close_all-handles [] = refl
  close_all-handles (m ∷ modules) =
      ap (close_all (length modules) modules) (close-first m.handle (handles_of modules))
      ∙ close_all-handles modules

  unload-last :
      (s : Loader W)
      → s.refs ≡ 1
      → IsBalanced s
      → Ok (λ t. IsBalanced t × (t.refs ≡ 0)) (at_unload_plugins s)
  unfolding at_unload_plugins unload_plugins
  unload-last s one (unused none_left h) = absurd (omega (arith, one, none_left))
  unload-last s one (used modules more array count handles) =
      rw (one, array, count, handles, close_all-handles modules) (unused refl refl, refl)

  unload-more :
      (s : Loader W)
      → 1 < s.refs
      → IsBalanced s
      → Ok (λ t. IsBalanced t × (t.refs ≡ s.refs - 1)) (at_unload_plugins s)
  unfolding at_unload_plugins
  unload-more s many (unused none_left h) = absurd (omega (arith, many, none_left))
  unload-more s many (used modules more array count handles) =
      let not_zero : (s.refs == 0) ≡ false = ground (arith, many) in
      let not_one : (s.refs == 1) ≡ false = ground (arith, many) in
      rw (not_zero, not_one) (used modules (omega (arith, many)) array count handles, refl)

module _ {W : Type 0} (dlopen : Bytes → Option (Library W)) (dir : Bytes) where
  -- The invariant after some of the calls, with so many references.
  abbrev pub After : ℕ → Loader W → Type 0
  After refs s = IsBalanced s × (s.refs ≡ refs)

  pub load-IsBalanced :
      (s : Loader W) (entries : List Dirent)
      → s.refs < 2 ^ 32 - 1
      → IsBalanced s
      → After (s.refs + 1) (at_load_plugins dlopen dir (some entries) s).0
  unfolding at_load_plugins load_plugins
  load-IsBalanced s entries room (unused none_left closed) =
      let zero_refs : (s.refs == 0) ≡ true = (==_iff s.refs 0).1 none_left in
      let fits = lt→ltb s.refs (2 ^ 32 - 1) room in
      let modules = load_all dlopen dir entries in
      rw (fits, zero_refs)
        (
          used modules (omega arith) refl refl (
              ap (λ (l : List ℕ). handles_of modules ++ l) closed
              ∙ append-nil (handles_of modules)),
          omega (arith, none_left),
        )
  load-IsBalanced s entries room (used modules more array count handles) =
      let in_use : (s.refs == 0) ≡ false = ground (arith, more) in
      let fits = lt→ltb s.refs (2 ^ 32 - 1) room in
      rw (fits, in_use) (used modules (omega (arith, more)) array count handles, refl)

  reload-IsBalanced :
      (s : Loader W) (o : Option (List Dirent))
      → s.refs < 2 ^ 32 - 1
      → 0 < s.refs
      → IsBalanced s
      → After (s.refs + 1) (at_load_plugins dlopen dir o s).0
  unfolding at_load_plugins
  reload-IsBalanced s o room more (unused none_left closed) =
      absurd (omega (arith, more, none_left))
  reload-IsBalanced s o room more (used modules _ array count handles) =
      let in_use : (s.refs == 0) ≡ false = ground (arith, more) in
      let fits = lt→ltb s.refs (2 ^ 32 - 1) room in
      rw (fits, in_use) (used modules (omega (arith, more)) array count handles, refl)

  pub unload-IsBalanced :
      (s : Loader W) → 0 < s.refs → IsBalanced s → Ok (After (s.refs - 1)) (at_unload_plugins s)
  unload-IsBalanced s more b = elim (Bool-cases (s.refs == 1)) [
    | inl last ↦
        let one : s.refs ≡ 1 = (==_iff s.refs 1).0 last in
        subst (λ (n : ℕ). Ok (After n) (at_unload_plugins s)) {x = 0} {y = s.refs - 1}
          (omega (arith, one)) (unload-last s one b)
    | inr not_last ↦ unload-more s (ground (arith, more, not_last)) b
  ]

  -- From a balanced state, calls of at_load_plugins and at_unload_plugins run without a failed
  -- assertion or an access to freed memory, if each end of a use has a use to end, there are fewer
  -- than 2 ^ 32 uses, and the directory can be read at each first one: the references are those that
  -- the calls leave, and the libraries are open, each once, exactly while there is one.
  pub run-IsBalanced :
      (s : Loader W) (calls : List Call)
      → IsBalanced s
      → Allowed s.refs calls
      → Ok (λ t. IsBalanced t × (t.refs ≡ left s.refs calls)) (run dlopen dir (some s) calls)
  run-IsBalanced s calls b allowed = go calls (some s) s.refs allowed (b, refl)
    where
      go :
          (cs : List Call) (o : Option (Loader W)) (refs : ℕ)
          → Allowed refs cs
          → Ok (After refs) o
          → Ok (After (left refs cs)) (run dlopen dir o cs)
      go [] o refs a h = h
      go (c ∷ cs) none refs a h = absurd h
      go (load none ∷ cs) (some t) refs (more, room, a) (bt, e) =
          go cs (some (at_load_plugins dlopen dir none t).0) (refs + 1) a (
            subst (λ (n : ℕ). After (n + 1) (at_load_plugins dlopen dir none t).0) e
              (reload-IsBalanced t none (omega (arith, e, room)) (omega (arith, e, more)) bt))
      go (load (some entries) ∷ cs) (some t) refs (room, a) (bt, e) =
          go cs (some (at_load_plugins dlopen dir (some entries) t).0) (refs + 1) a (
            subst (λ (n : ℕ). After (n + 1) (at_load_plugins dlopen dir (some entries) t).0) e
              (load-IsBalanced t entries (omega (arith, e, room)) bt))
      go (unload ∷ cs) (some t) refs (more, a) (bt, e) = go cs (at_unload_plugins t) (refs - 1) a (
          subst (λ (n : ℕ). Ok (After (n - 1)) (at_unload_plugins t)) e
            (unload-IsBalanced t (omega (arith, e, more)) bt))

  -- After a use has ended, a first use for which the directory cannot be read succeeds and leaves
  -- one reference, no modules, and the pointer to the array that was freed. The end of that use then
  -- frees the array again, where it would be right with a null pointer.
  pub run-freed :
      (s : Loader W) (entries : List Dirent)
      → s.refs ≡ 0
      → s.handles ≡ []
      → Ok
          (λ t.
            (t.refs ≡ 1)
            × (t.count ≡ 0)
            × (t.modules ≡ freed)
            × (at_unload_plugins t ≡ none)
            × (at_unload_plugins (record t { modules = null })
                ≡ some (record t { modules = null; refs = 0 })))
          (run dlopen dir (some s) (load (some entries) ∷ unload ∷ load none ∷ []))
  unfolding at_load_plugins load_plugins at_unload_plugins unload_plugins
  run-freed s entries none_left closed =
      rw
        (
          none_left,
          closed,
          append-nil (handles_of (load_all dlopen dir entries)),
          close_all-handles (load_all dlopen dir entries),
        )
        (refl, refl, refl, refl, refl)
