-- ===== src/Ofono/Gprs.antt =====
-- plugins/ofono/gprs.c: the attachment to packet data and its registration.
pub mod Location
use meego_cellular_matd.Prelude.{
  ℕ, ◌+◌, ◌-◌, ◌%◌, Bool, true, false, Option, none, some, List, ◌++◌, Bytes, codes, ltb, ◌==◌,
  if◌then◌else◌,
}
use meego_cellular_matd.Libc.Format.{decimal}
use meego_cellular_matd.Modem.{at_ok, at_cme_einval, at_cme_unknown}
use meego_cellular_matd.Commands.{GetCb, SetCb, Bank, register_ext}
use meego_cellular_matd.Dummy.{scan_number}
use meego_cellular_matd.Ofono.{
  Argument, boolean, ofono_modem, Watch, Plugin, Host, as_bool, modem_prop_get, modem_prop_set,
  intermediate, unsolicited,
}
use meego_cellular_matd.Ofono.Signals.{
  Signal, ofono_signal_watch, ofono_prop_watch, watched, first_string, ofono_prop_matcher,
}
use meego_cellular_matd.Ofono.Calls.{bit}
use meego_cellular_matd.Ofono.Voicecall.{ext}
use meego_cellular_matd.Ofono.Network.Registration.{ofono_netreg_print, is_creg_prop}

-- The two filters of AT+CGREG.
unfoldable pub cgatt_watch : ℕ → Option Watch
unfolding ofono_prop_watch
cgatt_watch n =
    if n == 0
    then none
    else some (ofono_prop_watch ofono_modem (codes "ConnectionManager") (codes "Attached"))

unfoldable pub cgreg_watch : ℕ → Option Watch
unfolding ofono_signal_watch
cgreg_watch n =
    if n == 0
    then none
    else some (
        ofono_signal_watch ofono_modem (codes "NetworkRegistration")
          (some (codes "PropertyChanged")) (if n == 1 then some (codes "Status") else none))

unfoldable pub with_cgreg : ℕ → Plugin → Plugin
unfolding cgatt_watch cgreg_watch
with_cgreg n p =
    if p.cgreg == n
    then p
    else record p { cgreg = n % 256; cgreg_filter = cgreg_watch n; cgatt_filter = cgatt_watch n }

module _ {W : Type 0} (host : Host W) where
  abbrev allowed : W → Bytes → Bool → W × ℕ
  allowed w name on = modem_prop_set host w (codes "ConnectionManager") name (boolean on) none

  -- What the first request gives is not looked at.
  abbrev attach_to : W → Option ℕ → W × ℕ
  attach_to w none = (w, at_cme_einval)
  attach_to w (some att) =
      if ltb 1 att
      then (w, at_cme_einval)
      else if att == 0
      then allowed w (codes "Powered") false
      else allowed (allowed w (codes "RoamingAllowed") true).0 (codes "Powered") true

  unfoldable pub set_attach : SetCb W
  set_attach w req = attach_to w (scan_number req)

  abbrev attached : W → W × Option Bool
  attached w = modem_prop_get host w (codes "ConnectionManager") (codes "Attached") as_bool

  abbrev show_attach : W × Option Bool → W × ℕ
  show_attach (w, none) = (w, at_cme_unknown)
  show_attach (w, some att) =
      (intermediate host w (codes "\r\n+CGATT: " ++ decimal (bit att)), at_ok)

  unfoldable pub get_attach : GetCb W
  get_attach w = show_attach (attached w)

  unfoldable pub list_attach : GetCb W
  list_attach w = (intermediate host w (codes "\r\n+CGATT: (0-1)"), at_ok)

  -- The line for a modem that is attached, or not.
  abbrev report : W → Bool → W
  report w att =
      if att
      then ofono_netreg_print host w (codes "+CGREG") none
      else unsolicited host w (codes "\r\n+CGREG: 0\r\n")

  unfoldable pub gprs_att_cb : W → Option Bool → W
  gprs_att_cb w none = w
  gprs_att_cb w (some attach) = report w attach

  abbrev report_if : W × Option Bool → W
  report_if (w, none) = report w false
  report_if (w, some att) = report w att

  unfoldable pub gprs_reg_cb : W → List Argument → W
  unfolding is_creg_prop
  gprs_reg_cb w args = if is_creg_prop (first_string args) then report_if (attached w) else w

  -- A signal goes through the two filters in the order in which they were added.
  unfoldable pub on_gprs : W → Signal → W
  unfolding gprs_att_cb gprs_reg_cb ofono_prop_matcher
  on_gprs w msg =
      let p = host.plugin w in
      let w1 =
        if watched p p.cgatt_filter msg
        then gprs_att_cb w (ofono_prop_matcher as_bool msg.args)
        else w in
      if watched p p.cgreg_filter msg then gprs_reg_cb w1 msg.args else w1

  abbrev pub cgreg_to : W → Option ℕ → W × ℕ
  cgreg_to w none = (w, at_cme_einval)
  cgreg_to w (some n) =
      if ltb 2 n then (w, at_cme_einval) else (host.keep (with_cgreg n (host.plugin w)) w, at_ok)

  unfoldable pub set_cgreg : SetCb W
  unfolding with_cgreg
  set_cgreg w req = cgreg_to w (scan_number req)

  unfoldable pub get_cgreg : GetCb W
  get_cgreg w = (ofono_netreg_print host w (codes "+CGREG") (some (host.plugin w).cgreg), at_ok)

  unfoldable pub list_cgreg : GetCb W
  list_cgreg w = (intermediate host w (codes "\r\n+CGREG: (0-2)"), at_ok)

  unfoldable pub gprs_register : Bank W → W → Bank W × W
  gprs_register bank w =
      let bank =
        (register_ext bank (codes "+CGATT")
          (ext set_attach (some get_attach) (some list_attach))).0 in
      let fresh = record (host.plugin w) { cgreg = 0; cgreg_filter = none; cgatt_filter = none } in
      (
        (register_ext bank (codes "+CGREG") (ext set_cgreg (some get_cgreg) (some list_cgreg))).0,
        host.keep fresh w,
      )

  unfoldable pub gprs_unregister : W → W
  gprs_unregister w =
      host.keep (record (host.plugin w) { cgreg_filter = none; cgatt_filter = none }) w
