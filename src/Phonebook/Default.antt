-- ===== src/Phonebook/Default.antt =====
-- src/phonebook.c: the phonebook that is active once the plugins have registered theirs.
use meego_cellular_matd.Prelude.{
  ◌≡◌, refl, sym, ap, ◌∙◌, inl, inr, Bool, true, false, ◌||◌, Option, none, some, List, [], ◌∷◌,
  arith, Bytes, codes, ◌==◌, if◌then◌else◌, if_true, if_false, Bool-cases, length,
}
use meego_cellular_matd.Libc.Ctype.{streq}
use meego_cellular_matd.Phonebook.{Phonebook, Phonebooks, init, add}

module _ {W : Type 0} where
  -- Registrations one after the other.
  abbrev pub register_all : Phonebooks W → List (Phonebook W) → Phonebooks W
  register_all pbs [] = pbs
  register_all pbs (pb ∷ l) = register_all (add pbs pb) l

  abbrev or_else : Option (Phonebook W) → Option (Phonebook W) → Option (Phonebook W)
  or_else none other = other
  or_else (some pb) other = some pb

  -- The last phonebook with the name, if there is one.
  abbrev pub last_named : Bytes → List (Phonebook W) → Option (Phonebook W)
  last_named name [] = none
  last_named name (pb ∷ l) =
      or_else (last_named name l) (if streq pb.name name then some pb else none)

  -- The last one called ME, or else the first one of all.
  abbrev pub default_of : Phonebook W → List (Phonebook W) → Option (Phonebook W)
  default_of pb l = or_else (last_named (codes "ME") (pb ∷ l)) (some pb)

  or_else_assoc : (a b c : Option (Phonebook W)) → or_else a (or_else b c) ≡ or_else (or_else a b) c
  or_else_assoc none b c = refl
  or_else_assoc (some pb) b c = refl

  add-listed :
      (pbs : Phonebooks W) (pb : Phonebook W) → (add pbs pb).phonebooks ≡ pb ∷ pbs.phonebooks
  unfolding add
  add-listed pbs pb = elim (Bool-cases (length pbs.phonebooks == 0 || streq pb.name (codes "ME"))) [
    | inl is_me ↦ ap (λ (r : Phonebooks W). r.phonebooks) (if_true _ _ is_me)
    | inr is_other ↦ ap (λ (r : Phonebooks W). r.phonebooks) (if_false _ _ is_other)
  ]

  add-active :
      (pbs : Phonebooks W) (pb old : Phonebook W) (l : List (Phonebook W))
      → pbs.phonebooks ≡ old ∷ l
      → (add pbs pb).active
        ≡ or_else (if streq pb.name (codes "ME") then some pb else none) pbs.active
  unfolding add
  add-active pbs pb old l e =
      let listed : (length {A = Phonebook W} (old ∷ l) == 0) ≡ false = ground arith in
      elim (Bool-cases (streq pb.name (codes "ME"))) [
        | inl is_me ↦ rw (e, listed, is_me) refl
        | inr is_other ↦ rw (e, listed, is_other) refl
      ]

  register_all-active :
      (pbs : Phonebooks W) (old : Phonebook W) (before l : List (Phonebook W))
      → pbs.phonebooks ≡ old ∷ before
      → (register_all pbs l).active ≡ or_else (last_named (codes "ME") l) pbs.active
  register_all-active pbs old before [] e = refl
  register_all-active pbs old before (pb ∷ l) e =
      register_all-active (add pbs pb) pb pbs.phonebooks l (add-listed pbs pb)
      ∙ ap (or_else (last_named (codes "ME") l)) (add-active pbs pb old before e)
      ∙ or_else_assoc (last_named (codes "ME") l)
          (if streq pb.name (codes "ME") then some pb else none) pbs.active

  either_way :
      (b : Bool) (pb : Phonebook W) → or_else (if b then some pb else none) (some pb) ≡ some pb
  either_way true pb = refl
  either_way false pb = refl

  -- Once the plugins have registered at least one phonebook, the active one is the last that is
  -- called ME, or the first of all if none is.
  pub register_all-default :
      (pbs : Phonebooks W) (pb : Phonebook W) (l : List (Phonebook W))
      → (register_all (init pbs) (pb ∷ l)).active ≡ default_of pb l
  unfolding add init
  register_all-default pbs pb l =
      register_all-active (add (init pbs) pb) pb [] l refl
      ∙ ap (or_else (last_named (codes "ME") l)) (sym (either_way (streq pb.name (codes "ME")) pb))
      ∙ or_else_assoc (last_named (codes "ME") l)
          (if streq pb.name (codes "ME") then some pb else none) (some pb)
