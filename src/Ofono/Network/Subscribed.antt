-- ===== src/Ofono/Network/Subscribed.antt =====
-- plugins/ofono/network.c: the filter of AT+CREG and the mode that it is for.
use meego_cellular_matd.Prelude.{
  ℕ, zero, suc, ◌%◌, ◌≤◌, ◌≡◌, refl, sym, ap, ◌∙◌, subst, inl, inr, Bool, true, false, not, ◌&&◌,
  ◌||◌, Option, none, some, List, [], ◌∷◌, arith, Bytes, codes, ltb, ◌==◌, if◌then◌else◌,
  ltb_false→le, if_true, if_false, Bool-cases,
}
use meego_cellular_matd.Ofono.Signals.{
  Signal, same, watched, first_string, ofono_signal_matcher, ofono_signal_watch,
}
use meego_cellular_matd.Libc.Ctype.{streq}
use meego_cellular_matd.Dummy.{scan_number}
use meego_cellular_matd.Ofono.{Plugin, Host, modemc, current_modem}
use meego_cellular_matd.Ofono.Network.{network_register}
use meego_cellular_matd.Commands.{Bank}
use meego_cellular_matd.Ofono.Network.Registration.{
  creg_watch, with_creg, creg_to, set_creg, is_creg_prop, on_creg, unsoli_creg, ofono_netreg_print,
}

-- The signal PropertyChanged that the selected modem sends on its registration to the network.
unfoldable pub is_changed : Plugin → Signal → Bool
is_changed p msg =
    same p.name msg.sender
    && (streq msg.interface (codes "org.ofono.NetworkRegistration")
        && (streq (codes "PropertyChanged") msg.member
            && (not (modemc p == 0) && streq msg.path (current_modem p))))

-- The properties that are reported in each mode.
unfoldable pub is_reported : ℕ → Option Bytes → Bool
is_reported mode none = false
is_reported zero (some prop) = false
is_reported (suc zero) (some prop) = streq (codes "Status") prop
is_reported (suc (suc mode)) (some prop) =
    streq (codes "Status") prop
    || (streq (codes "CellId") prop
        || (streq (codes "LocationAreaCode") prop || streq (codes "Technology") prop))

-- The filter is the one that has been set for the mode, which is 0, 1 or 2.
abbrev IsSubscribed : Plugin → Type 0
IsSubscribed p = (p.creg ≤ 2) × (p.creg_filter ≡ creg_watch p.creg)

with_creg-IsSubscribed :
    (creg : ℕ) (p : Plugin) → creg ≤ 2 → IsSubscribed p → IsSubscribed (with_creg creg p)
unfolding with_creg
with_creg-IsSubscribed creg p h sub = elim (Bool-cases (p.creg == creg)) [
  | inl same ↦ subst IsSubscribed (sym (if_true _ _ same)) sub
  | inr other ↦
      let kept : creg ≡ creg % 256 = omega (arith, h) in
      subst IsSubscribed (sym (if_false _ _ other)) (omega (arith, h), ap creg_watch kept)
]

and_false : (a : Bool) → (a && false) ≡ false
and_false a = ground arith

only_status :
    (a b c d e f : Bool)
    → ((a && (b && (c && (d && e)))) && (d || f)) ≡ ((a && (b && (c && e))) && d)
only_status a b c d e f = ground arith

-- What the filter of a mode and the test of the callback let pass together.
passes :
    (mode : ℕ) (p : Plugin) (msg : Signal) (prop : Option Bytes)
    → first_string msg.args ≡ prop
    → mode ≤ 2
    → (watched p (creg_watch mode) msg && is_creg_prop (first_string msg.args))
      ≡ (is_changed p msg && is_reported mode (first_string msg.args))
unfolding creg_watch is_creg_prop is_changed is_reported ofono_signal_matcher ofono_signal_watch
passes zero p msg none e h = rw e (sym (and_false _))
passes zero p msg (some prop) e h = rw e (sym (and_false _))
passes (suc zero) p msg none e h = rw e (and_false _ ∙ sym (and_false _))
passes (suc zero) p msg (some prop) e h = rw e (
    only_status (same p.name msg.sender)
      (streq msg.interface (codes "org.ofono.NetworkRegistration"))
      (streq (codes "PropertyChanged") msg.member) (streq (codes "Status") prop)
      (not (modemc p == 0) && streq msg.path (current_modem p))
      (streq (codes "CellId") prop
        || (streq (codes "LocationAreaCode") prop || streq (codes "Technology") prop)))
passes (suc (suc zero)) p msg none e h = rw e (and_false _ ∙ sym (and_false _))
passes (suc (suc zero)) p msg (some prop) e h = rw e refl
passes (suc (suc (suc n))) p msg prop e h = absurd (omega (arith, h))

both_tests :
    {A : Type 0} (a b : Bool) (x y : A)
    → (if a then (if b then x else y) else y) ≡ (if a && b then x else y)
both_tests true b x y = refl
both_tests false b x y = refl

module _ {W : Type 0} (host : Host W) where
  -- Requests of AT+CREG, one after the other.
  abbrev pub requests : W → List Bytes → W
  requests w [] = w
  requests w (req ∷ reqs) = requests (set_creg host w req).0 reqs

  -- What +CREG reports of a signal.
  abbrev pub creg_reports : W → Signal → W
  creg_reports w msg =
      let p = host.plugin w in
      if is_changed p msg && is_reported p.creg (first_string msg.args)
      then ofono_netreg_print host w (codes "+CREG") none
      else w

module _ {W : Type 0} (host : Host W)
    (kept : (p : Plugin) (w : W) → host.plugin (host.keep p w) ≡ p) where
  creg_to-IsSubscribed :
      (w : W) (o : Option ℕ)
      → IsSubscribed (host.plugin w)
      → IsSubscribed (host.plugin (creg_to host w o).0)
  creg_to-IsSubscribed w none sub = sub
  creg_to-IsSubscribed w (some creg) sub = elim (Bool-cases (ltb 2 creg)) [
    | inl large ↦
        subst (λ (r : W × ℕ). IsSubscribed (host.plugin r.0)) (sym (if_true _ _ large)) sub
    | inr small ↦
        subst (λ (r : W × ℕ). IsSubscribed (host.plugin r.0)) (sym (if_false _ _ small))
          (subst IsSubscribed (sym (kept (with_creg creg (host.plugin w)) w))
            (with_creg-IsSubscribed creg (host.plugin w) (ltb_false→le 2 creg small) sub))
  ]

  set_creg-IsSubscribed :
      (w : W) (req : Bytes)
      → IsSubscribed (host.plugin w)
      → IsSubscribed (host.plugin (set_creg host w req).0)
  unfolding set_creg
  set_creg-IsSubscribed w req sub = creg_to-IsSubscribed w (scan_number req) sub

  requests-IsSubscribed :
      (w : W) (reqs : List Bytes)
      → IsSubscribed (host.plugin w)
      → IsSubscribed (host.plugin (requests host w reqs))
  requests-IsSubscribed w [] sub = sub
  requests-IsSubscribed w (req ∷ reqs) sub =
      requests-IsSubscribed (set_creg host w req).0 reqs (set_creg-IsSubscribed w req sub)

  on_creg-reports :
      (w : W) (msg : Signal)
      → IsSubscribed (host.plugin w)
      → on_creg host w msg ≡ creg_reports host w msg
  unfolding on_creg unsoli_creg
  on_creg-reports w msg (small, filter) =
      let p = host.plugin w in
      let printed = ofono_netreg_print host w (codes "+CREG") none in
      ap (λ f. if watched p f msg then unsoli_creg host w msg.args else w) filter
      ∙ both_tests (watched p (creg_watch p.creg) msg) (is_creg_prop (first_string msg.args))
          printed w
      ∙ ap (λ (b : Bool). if b then printed else w)
          (passes p.creg p msg (first_string msg.args) refl small)

  registered-IsSubscribed :
      (bank : Bank W) (w : W) (reqs : List Bytes)
      → IsSubscribed (host.plugin (requests host (network_register host bank w).1 reqs))
  unfolding network_register creg_watch
  registered-IsSubscribed bank w reqs =
      let fresh = record (host.plugin w) { cops = 2; creg = 0; creg_filter = none } in
      requests-IsSubscribed (network_register host bank w).1 reqs
        (subst IsSubscribed (sym (kept fresh w)) (omega arith, refl))

  -- After the registration of the commands on the network and any requests of AT+CREG, accepted or
  -- refused, the mode is 0, 1 or 2, and a signal makes the status printed as +CREG exactly if it is
  -- the selected modem's PropertyChanged on its network registration, and the property is the status
  -- in mode 1, or one of the status, the cell, the location area and the technology in mode 2. The
  -- state that is put into the daemon's is the one that is read from it.
  pub network_register-reports :
      (bank : Bank W) (w : W) (reqs : List Bytes) (msg : Signal)
      → let after = requests host (network_register host bank w).1 reqs in
        ((host.plugin after).creg ≤ 2) × (on_creg host after msg ≡ creg_reports host after msg)
  network_register-reports bank w reqs msg =
      let after = requests host (network_register host bank w).1 reqs in
      let sub = registered-IsSubscribed bank w reqs in (sub.0, on_creg-reports after msg sub)
