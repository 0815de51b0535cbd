-- ===== src/Ofono/Power.antt =====
-- plugins/ofono/modem.c: AT+CFUN, AT+CGSN, AT+GSN and AT*OFGMR.
use meego_cellular_matd.Prelude.{
  ℕ, Bool, true, false, not, ◌||◌, Option, none, some, List, [], ◌∷◌, ◌++◌, Bytes, codes, ltb, ◌==◌,
  if◌then◌else◌,
}
use meego_cellular_matd.Libc.Scanf.{space, literal, uint, sscanf, count_of, num_at}
use meego_cellular_matd.Libc.Format.{decimal, crlf}
use meego_cellular_matd.Modem.{at_ok, at_error, at_cme_enotsup, at_cme_einval, at_cme_unknown}
use meego_cellular_matd.Commands.{GetCb, SetCb, Bank, register_ext}
use meego_cellular_matd.Ofono.{
  and_then, boolean, Argument, Answer, answer, refused, Host, as_string, as_bool, ofono_prop_find,
  modem_props_get, modem_prop_get, modem_prop_set, intermediate,
}
use meego_cellular_matd.Ofono.Voicecall.{ext}

-- The two numbers of AT+CFUN.
unfoldable pub scan_cfun : Bytes → Option (ℕ × ℕ)
unfolding sscanf
scan_cfun req =
    let r = sscanf (space ∷ uint ∷ space ∷ literal b',' ∷ space ∷ uint ∷ []) req in
    elim (count_of r) [
      | none ↦ none
      | some n ↦
          if n == 1
          then some (num_at r.args 0, 0)
          else if n == 2
          then some (num_at r.args 0, num_at r.args 1)
          else none
    ]

-- `fun` of `get_cfun`, where none is -1.
abbrev online_fun : Option Bool → Option ℕ
online_fun none = none
online_fun (some false) = some 4
online_fun (some true) = some 1

abbrev powered_fun : Option Bool → Option Bool → Option ℕ
powered_fun none online = none
powered_fun (some false) online = some 0
powered_fun (some true) online = online_fun online

unfoldable pub fun_of : List Argument → Option ℕ
fun_of msg =
    powered_fun (ofono_prop_find msg (codes "Powered") as_bool)
      (ofono_prop_find msg (codes "Online") as_bool)

-- Each new line of a revision becomes a space.
unfoldable pub one_line : Bytes → Bytes
one_line [] = []
one_line (c ∷ s) = (if c == b'\n' then b' ' else c) ∷ one_line s

module _ {W : Type 0} (host : Host W) where
  abbrev set_modem : W → Bytes → Bool → W × ℕ
  set_modem w name on = modem_prop_set host w (codes "Modem") name (boolean on) none

  -- Power on, and the radio on or off.
  unfoldable pub power_on : W → ℕ → W × ℕ
  power_on w fun =
      and_then (set_modem w (codes "Powered") true) (λ w1. set_modem w1 (codes "Online") (fun == 1))

  abbrev cfun_to : W → Option (ℕ × ℕ) → W × ℕ
  cfun_to w none = (w, at_cme_einval)
  cfun_to w (some (fun, rst)) =
      if ltb 127 fun || ltb 1 rst
      then (w, at_cme_einval)
      else if ltb 4 fun || (fun == 2 || fun == 3)
      then (w, at_cme_enotsup)
      else if fun == 0
      then set_modem w (codes "Powered") false
      else if not (rst == 0)
      then and_then (set_modem w (codes "Powered") false) (λ w1. power_on w1 fun)
      else power_on w fun

  unfoldable pub set_cfun : SetCb W
  unfolding scan_cfun power_on
  set_cfun w req = cfun_to w (scan_cfun req)

  abbrev show_fun : W → Option ℕ → W × ℕ
  show_fun w none = (w, at_cme_unknown)
  show_fun w (some fun) = (intermediate host w (codes "\r\n+CFUN: " ++ decimal fun), at_ok)

  abbrev fun_answer : W × Answer → W × ℕ
  fun_answer (w, refused err) = (w, at_cme_unknown)
  fun_answer (w, answer sender msg) = show_fun w (fun_of msg)

  unfoldable pub get_cfun : GetCb W
  unfolding fun_of
  get_cfun w = fun_answer (modem_props_get host w (codes "Modem"))

  unfoldable pub list_cfun : GetCb W
  list_cfun w = (intermediate host w (codes "\r\n+CFUN: (0,1,4),(0,1)"), at_ok)

  abbrev print_or : W × Option Bytes → ℕ → (Bytes → Bytes) → W × ℕ
  print_or (w, none) missing line = (w, missing)
  print_or (w, some text) missing line = (intermediate host w (line text), at_ok)

  unfoldable pub show_gsn : SetCb W
  show_gsn w (c ∷ req) = (w, at_cme_einval)
  show_gsn w [] =
      print_or (modem_prop_get host w (codes "Modem") (codes "Serial") as_string) at_cme_unknown
        (λ imei. crlf ++ (imei ++ crlf))

  unfoldable pub handle_gmr : SetCb W
  unfolding one_line
  handle_gmr w (c ∷ req) = (w, at_cme_einval)
  handle_gmr w [] =
      print_or (modem_prop_get host w (codes "Modem") (codes "Revision") as_string) at_error
        (λ revision. codes "\r\nModem " ++ one_line revision)

  unfoldable pub modem_register : Bank W → Bank W
  modem_register bank =
      let bank =
        (register_ext bank (codes "+CFUN") (ext set_cfun (some get_cfun) (some list_cfun))).0 in
      let bank = (register_ext bank (codes "+CGSN") (ext show_gsn none none)).0 in
      let bank = (register_ext bank (codes "+GSN") (ext show_gsn none none)).0 in
      (register_ext bank (codes "*OFGMR") (ext handle_gmr none none)).0
