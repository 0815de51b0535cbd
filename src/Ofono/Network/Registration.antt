-- ===== src/Ofono/Network/Registration.antt =====
-- plugins/ofono/network.c: AT+CREG and ofono_netreg_print.
use meego_cellular_matd.Prelude.{
  ℕ, ◌%◌, Bool, ◌&&◌, ◌||◌, Option, none, some, List, [], ◌∷◌, ◌++◌, Bytes, codes, ltb, ◌==◌,
  if◌then◌else◌,
}
use meego_cellular_matd.Libc.Format.{decimal, hex, hex_04}
use meego_cellular_matd.Modem.{at_ok, at_cme_einval, minus_one}
use meego_cellular_matd.Commands.{GetCb, SetCb}
use meego_cellular_matd.Dummy.{scan_number}
use meego_cellular_matd.Ofono.{
  Argument, Answer, answer, refused, ofono_modem, Watch, Plugin, Host, as_u16, as_u32,
  ofono_prop_find, modem_props_get, intermediate, unsolicited,
}
use meego_cellular_matd.Ofono.Signals.{Signal, ofono_signal_watch, watched, first_string}
use meego_cellular_matd.Ofono.Calls.{is_state, find_state}
use meego_cellular_matd.Ofono.Network.Tables.{tes, or_empty, or_zero, prop}

-- The table of `ofono_netreg_print`.
abbrev pub registrations : List Bytes
registrations =
    codes "unregistered"
    ∷ codes "registered"
    ∷ codes "searching"
    ∷ codes "denied"
    ∷ codes "unknown"
    ∷ codes "roaming"
    ∷ []

unfoldable pub registration_of : Option Bytes → ℕ
registration_of none = 4
registration_of (some st) = elim (find_state registrations st) [ none ↦ 4 | some i ↦ i ]

-- An `int` of -1 is made 0.
abbrev not_minus_one : Option ℕ → ℕ
not_minus_one none = 0
not_minus_one (some n) = if n == minus_one then 0 else n

-- The details behind the status. A technology that is not there is the empty one of the table.
unfoldable pub location : List Argument → Bytes
location msg =
    let cellid = not_minus_one (ofono_prop_find msg (codes "CellId") as_u32) in
    let lac = or_zero (ofono_prop_find msg (codes "LocationAreaCode") as_u16) in
    let tech = or_zero (find_state tes (or_empty (prop msg (codes "Technology")))) in
    codes ",\"" ++ (hex_04 lac ++ (codes "\",\"" ++ (hex cellid ++ (codes "\"," ++ decimal tech))))

-- What follows the prefix and `n`, for the properties or without them.
unfoldable pub netreg : ℕ → Answer → Bytes
unfolding registration_of location
netreg creg (refused err) = decimal 4
netreg creg (answer sender msg) =
    let status = registration_of (prop msg (codes "Status")) in
    if creg == 2 && (status == 1 || status == 5)
    then decimal status ++ location msg
    else decimal status

-- `-1` is an unsolicited line.
abbrev netreg_line : Bytes → Option ℕ → Bytes → Bytes
netreg_line prefix none text = codes "\r\n" ++ (prefix ++ (codes ": " ++ (text ++ codes "\r\n")))
netreg_line prefix (some n) text =
    codes "\r\n" ++ (prefix ++ (codes ": " ++ (decimal n ++ (b',' ∷ text))))

unfoldable pub is_creg_prop : Option Bytes → Bool
is_creg_prop prop =
    is_state (codes "Status") prop
    || (is_state (codes "CellId") prop
        || (is_state (codes "LocationAreaCode") prop || is_state (codes "Technology") prop))

-- The filter for each of the three values of AT+CREG.
unfoldable pub creg_watch : ℕ → Option Watch
unfolding ofono_signal_watch
creg_watch creg =
    let changed = some (codes "PropertyChanged") in
    let iface = codes "NetworkRegistration" in
    if creg == 1
    then some (ofono_signal_watch ofono_modem iface changed (some (codes "Status")))
    else if creg == 2
    then some (ofono_signal_watch ofono_modem iface changed none)
    else none

unfoldable pub with_creg : ℕ → Plugin → Plugin
unfolding creg_watch
with_creg creg p =
    if p.creg == creg then p else record p { creg = creg % 256; creg_filter = creg_watch creg }

module _ {W : Type 0} (host : Host W) where
  unfoldable pub ofono_netreg_print : W → Bytes → Option ℕ → W
  unfolding netreg
  ofono_netreg_print w prefix n =
      let (w1, a) = modem_props_get host w (codes "NetworkRegistration") in
      let text = netreg_line prefix n (netreg (host.plugin w1).creg a) in
      elim n [ none ↦ unsolicited host w1 text | some number ↦ intermediate host w1 text ]

  unfoldable pub unsoli_creg : W → List Argument → W
  unfolding is_creg_prop
  unsoli_creg w args =
      if is_creg_prop (first_string args) then ofono_netreg_print w (codes "+CREG") none else w

  -- A signal that the filter of AT+CREG lets pass.
  unfoldable pub on_creg : W → Signal → W
  unfolding unsoli_creg
  on_creg w msg =
      let p = host.plugin w in if watched p p.creg_filter msg then unsoli_creg w msg.args else w

  abbrev pub creg_to : W → Option ℕ → W × ℕ
  creg_to w none = (w, at_cme_einval)
  creg_to w (some creg) =
      if ltb 2 creg
      then (w, at_cme_einval)
      else (host.keep (with_creg creg (host.plugin w)) w, at_ok)

  unfoldable pub set_creg : SetCb W
  unfolding with_creg
  set_creg w req = creg_to w (scan_number req)

  unfoldable pub get_creg : GetCb W
  get_creg w = (ofono_netreg_print w (codes "+CREG") (some (host.plugin w).creg), at_ok)

  unfoldable pub list_creg : GetCb W
  list_creg w = (intermediate host w (codes "\r\n+CREG: (0-2)"), at_ok)
