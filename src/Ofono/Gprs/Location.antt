-- ===== src/Ofono/Gprs/Location.antt =====
-- plugins/ofono/gprs.c and network.c: what AT+CGREG prints of the place.
use meego_cellular_matd.Prelude.{
  ℕ, ◌≤◌, ◌≡◌, refl, sym, ap, ◌∙◌, inl, inr, ◌&&◌, ◌||◌, Option, some, List, [], ◌∷◌, ◌++◌,
  append-nil, arith, Bytes, codes, ltb, ◌==◌, if◌then◌else◌, ==_iff, if_false, Bool-cases,
}
use meego_cellular_matd.Ofono.Network.Tables.{prop}
use meego_cellular_matd.Libc.Format.{decimal}
use meego_cellular_matd.Modem.{at_ok}
use meego_cellular_matd.Dummy.{scan_number}
use meego_cellular_matd.Ofono.{Argument, Plugin, Host, answer, intermediate, modem_props_get}
use meego_cellular_matd.Ofono.Network.Registration.{
  ofono_netreg_print, netreg, registration_of, location,
}
use meego_cellular_matd.Ofono.Gprs.{set_cgreg, get_cgreg, with_cgreg, cgreg_to}

with_cgreg-modes :
    (n : ℕ) (p : Plugin) → n ≤ 2 → ((with_cgreg n p).cgreg ≡ n) × ((with_cgreg n p).creg ≡ p.creg)
unfolding with_cgreg
with_cgreg-modes n p small = elim (Bool-cases (p.cgreg == n)) [
  | inl same ↦ rw same ((==_iff _ _).0 same, refl)
  | inr other ↦ rw other (omega (arith, small), refl)
]

-- The place is there with the mode 2 for a modem that is registered, at home or roaming.
abbrev pub place_if : ℕ → List Argument → Bytes
unfolding registration_of location
place_if mode msg =
    let status = registration_of (prop msg (codes "Status")) in
    if mode == 2 && (status == 1 || status == 5) then location msg else []

netreg-place :
    (mode : ℕ) (sender : Option Bytes) (msg : List Argument)
    → netreg mode (answer sender msg)
      ≡ decimal (registration_of (prop msg (codes "Status"))) ++ place_if mode msg
unfolding netreg registration_of location
netreg-place mode sender msg =
    let status = registration_of (prop msg (codes "Status")) in
    elim (Bool-cases (mode == 2 && (status == 1 || status == 5))) [
      | inl shown ↦ rw shown refl
      | inr hidden ↦ rw hidden (sym (append-nil (decimal status)))
    ]

-- What stands behind the mode, and behind it the place.
abbrev pub cgreg_line : ℕ → ℕ → Bytes → Bytes
cgreg_line n status place =
    codes "\r\n+CGREG: " ++ (decimal n ++ (b',' ∷ (decimal status ++ place)))

module _ {W : Type 0} (host : Host W)
    (kept : (p : Plugin) (w : W) → host.plugin (host.keep p w) ≡ p) where
  set_cgreg-done :
      (w : W) (req : Bytes) (n : ℕ)
      → scan_number req ≡ some n
      → n ≤ 2
      → set_cgreg host w req ≡ (host.keep (with_cgreg n (host.plugin w)) w, at_ok)
  unfolding set_cgreg
  set_cgreg-done w req n scanned small =
      ap (cgreg_to host w) scanned ∙ if_false {b = ltb 2 n} _ _ (ground (arith, small))

  printed :
      (w w2 : W) (sender : Option Bytes) (msg : List Argument)
      → modem_props_get host w (codes "NetworkRegistration") ≡ (w2, answer sender msg)
      → get_cgreg host w ≡ (
        intermediate host w2 (
            codes "\r\n+CGREG: "
            ++ (decimal (host.plugin w).cgreg
                ++ (b',' ∷ netreg (host.plugin w2).creg (answer sender msg)))),
        at_ok,
      )
  unfolding get_cgreg ofono_netreg_print
  printed w w2 sender msg asked = rw asked refl

  -- After AT+CGREG with a number up to 2, which gives OK, AT+CGREG? prints that number and the
  -- status of the registration, and behind it the place exactly if the mode of AT+CREG, not that of
  -- AT+CGREG, is 2 and the modem is registered. oFono answers the request for the properties, which
  -- leaves the state of the plugin as it is, and the state that is put into the daemon's is the one
  -- that is read from it.
  pub set_cgreg-place :
      (w w2 : W) (req : Bytes) (n : ℕ) (sender : Option Bytes) (msg : List Argument)
      → scan_number req ≡ some n
      → n ≤ 2
      → modem_props_get host (set_cgreg host w req).0 (codes "NetworkRegistration")
        ≡ (w2, answer sender msg)
      → host.plugin w2 ≡ host.plugin (set_cgreg host w req).0
      → ((set_cgreg host w req).1 ≡ at_ok)
        × (get_cgreg host (set_cgreg host w req).0 ≡ (
          intermediate host w2 (
              cgreg_line n
                (registration_of (prop msg (codes "Status")))
                (place_if (host.plugin w).creg msg)),
          at_ok,
        ))
  set_cgreg-place w w2 req n sender msg scanned small asked unchanged =
      let p = host.plugin w in
      let done = set_cgreg-done w req n scanned small in
      let modes = with_cgreg-modes n p small in
      let plugin : host.plugin (set_cgreg host w req).0 ≡ with_cgreg n p =
        ap (λ (r : W × ℕ). host.plugin r.0) done ∙ kept (with_cgreg n p) w in
      let mode : (host.plugin (set_cgreg host w req).0).cgreg ≡ n =
        ap (λ (q : Plugin). q.cgreg) plugin ∙ modes.0 in
      let other : (host.plugin w2).creg ≡ p.creg =
        ap (λ (q : Plugin). q.creg) (unchanged ∙ plugin) ∙ modes.1 in
      (
        ap (λ (r : W × ℕ). r.1) done,
        printed (set_cgreg host w req).0 w2 sender msg asked
            ∙ rw (mode, other, netreg-place p.creg sender msg) refl,
      )
