-- ===== src/Ofono/Selected.antt =====
-- plugins/ofono/core.c and sim.c: the index of the selected modem.
use meego_cellular_matd.Prelude.{
  ℕ, suc, ◌<◌, ◌≡◌, refl, sym, subst, ◌⊎◌, inl, inr, Bool, true, false, Option, none, some, List,
  [], ◌∷◌, arith, Bytes, leb, if◌then◌else◌, leb_false→lt, if_true, if_false, Bool-cases, length,
  take,
}
use mathlib.Core.Option
use meego_cellular_matd.Libc.Ctype.{streq}
use meego_cellular_matd.Ofono.{Plugin, Host, modemc}
use meego_cellular_matd.Ofono.Signals.{find_modem, modem_read_current, manager_find, find_modems}
use meego_cellular_matd.Ofono.Sim.{csus_to, scan_slot, set_csus}

-- The index is that of a modem, if there is one.
abbrev pub IsSelected : List Bytes → ℕ → Type 0
IsSelected modemv n = (modemv ≡ []) ⊎ (n < length modemv)

-- What is found in a list is a place of it.
abbrev Inside : Option ℕ → ℕ → Type 0
Inside none n = Unit {0}
Inside (some i) n = i < n

Inside-suc : (o : Option ℕ) (n : ℕ) → Inside o n → Inside (Option.map suc o) (suc n)
Inside-suc none n h = tt
Inside-suc (some i) n h = omega (arith, h)

Inside-if :
    (b : Bool) (o : Option ℕ) (n : ℕ) → Inside o (suc n) → Inside (if b then some 0 else o) (suc n)
Inside-if true o n h = omega arith
Inside-if false o n h = h

find_modem-Inside :
    (modemv : List Bytes) (buf : Bytes) → Inside (find_modem modemv buf) (length modemv)
unfolding find_modem
find_modem-Inside [] buf = tt
find_modem-Inside (path ∷ modemv) buf =
    Inside-if (streq buf path) (Option.map suc (find_modem modemv buf)) (length modemv)
      (Inside-suc (find_modem modemv buf) (length modemv) (find_modem-Inside modemv buf))

first-IsSelected : (modemv : List Bytes) → IsSelected modemv 0
first-IsSelected [] = inl refl
first-IsSelected (path ∷ modemv) = inr (omega arith)

found-IsSelected :
    (modemv : List Bytes) (o : Option ℕ)
    → Inside o (length modemv)
    → IsSelected modemv (elim o as (λ x. ℕ) [ none ↦ 0 | some id ↦ id ])
found-IsSelected modemv none h = first-IsSelected modemv
found-IsSelected modemv (some id) h = inr h

modem_read_current-IsSelected :
    (modemv : List Bytes) (saved : Option Bytes)
    → IsSelected modemv (modem_read_current modemv saved)
unfolding modem_read_current
modem_read_current-IsSelected modemv none = first-IsSelected modemv
modem_read_current-IsSelected modemv (some []) = first-IsSelected modemv
modem_read_current-IsSelected modemv (some (c ∷ buf)) =
    found-IsSelected modemv (find_modem modemv (take 63 (c ∷ buf)))
      (find_modem-Inside modemv (take 63 (c ∷ buf)))

abbrev pub HasModem : Plugin → Type 0
HasModem p = IsSelected p.modemv p.modem

module _ {W : Type 0} (host : Host W) where
  -- Requests of AT+CSUS, one after the other.
  abbrev pub choices : W → List Bytes → W
  choices w [] = w
  choices w (req ∷ reqs) = choices (set_csus host w req).0 reqs

module _ {W : Type 0} (host : Host W)
    (kept : (p : Plugin) (w : W) → host.plugin (host.keep p w) ≡ p) where
  csus_to-HasModem :
      (w : W) (o : Option ℕ)
      → HasModem (host.plugin w)
      → HasModem (host.plugin (csus_to host w o).0)
  csus_to-HasModem w none h = h
  csus_to-HasModem w (some slot) h = elim (Bool-cases (leb (modemc (host.plugin w)) slot)) [
    | inl large ↦ subst (λ (r : W × ℕ). HasModem (host.plugin r.0)) (sym (if_true _ _ large)) h
    | inr small ↦
        subst (λ (r : W × ℕ). HasModem (host.plugin r.0)) (sym (if_false _ _ small))
          (subst HasModem (sym (kept (record (host.plugin w) { modem = slot }) w))
            (inr (leb_false→lt (modemc (host.plugin w)) slot small)))
  ]

  choices-HasModem :
      (w : W) (reqs : List Bytes)
      → HasModem (host.plugin w)
      → HasModem (host.plugin (choices host w reqs))
  unfolding set_csus
  choices-HasModem w [] h = h
  choices-HasModem w (req ∷ reqs) h =
      choices-HasModem (set_csus host w req).0 reqs (csus_to-HasModem w (scan_slot req) h)

  -- Whatever oFono answers at the registration, whatever the file of the last choice holds, and
  -- after any requests of AT+CSUS, accepted or refused, the selected modem is one of the list, or
  -- the list is empty, if the state that is put into the daemon's is the one that is read from it.
  pub find_modems-HasModem :
      (w : W) (saved : Option Bytes) (reqs : List Bytes)
      → HasModem (host.plugin (choices host (find_modems host w saved) reqs))
  unfolding find_modems
  find_modems-HasModem w saved reqs =
      let (w1, (name, modemv)) = manager_find host w in
      let found = record (host.plugin w1) {
        name = name;
        modemv = modemv;
        modem = modem_read_current modemv saved;
      } in
      choices-HasModem (find_modems host w saved) reqs
        (subst HasModem (sym (kept found w1)) (modem_read_current-IsSelected modemv saved))
