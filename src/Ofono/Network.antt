-- ===== src/Ofono/Network.antt =====
-- plugins/ofono/network.c: AT+GCAP, AT+WS46, AT+CSQ and the registration of the commands.
pub mod Tables
pub mod Operators
pub mod Registration
pub mod Codes
pub mod Subscribed
use meego_cellular_matd.Prelude.{
  ℕ, ◌+◌, ◌-◌, ◌*◌, ◌/◌, Bool, ◌&&◌, ◌||◌, Option, none, some, [], ◌∷◌, ◌++◌, Bytes, codes, leb,
  ◌==◌, if◌then◌else◌,
}
use mathlib.Core.Option
use meego_cellular_matd.Libc.Ctype.{streq}
use meego_cellular_matd.Libc.Format.{decimal}
use meego_cellular_matd.Modem.{at_ok, at_error, at_cme_enotsup, at_cme_einval}
use meego_cellular_matd.Commands.{GetCb, SetCb, Bank, register_ext}
use meego_cellular_matd.Dummy.{scan_number}
use meego_cellular_matd.Ofono.{
  Host, as_string, as_byte, starts_with, modem_prop_get, intermediate, intermediate_result,
}
use meego_cellular_matd.Ofono.Voicecall.{ext}
use meego_cellular_matd.Ofono.Network.Operators.{set_cops, get_cops, list_cops}
use meego_cellular_matd.Ofono.Network.Registration.{set_creg, get_creg, list_creg}

-- The `switch` of `set_ws46`.
unfoldable pub is_ws46 : ℕ → Bool
is_ws46 n = n == 12 || (n == 22 || (n == 25 || (leb 28 n && leb n 31)))

-- The number for a technology in `get_ws46`, where 0 is an error.
unfoldable pub ws46_of : Option Bytes → ℕ
unfolding starts_with streq
ws46_of none = 25
ws46_of (some tech) =
    if streq tech (codes "gsm") || streq tech (codes "edge")
    then 12
    else if streq tech (codes "umts") || starts_with (codes "hs") tech
    then 22
    else if streq tech (codes "lte")
    then 28
    else 0

module _ {W : Type 0} (host : Host W) where
  unfoldable pub handle_gcap : SetCb W
  handle_gcap w (c ∷ req) = (w, at_error)
  handle_gcap w [] = intermediate_result host w (codes "\r\n+GCAP: +CGSM,+W")

  unfoldable pub set_ws46 : SetCb W
  unfolding is_ws46
  set_ws46 w req = elim (scan_number req) [
    | none ↦ (w, at_cme_einval)
    | some n ↦ if is_ws46 n then (w, at_ok) else (w, at_error)
  ]

  unfoldable pub get_ws46 : GetCb W
  unfolding ws46_of
  get_ws46 w =
      let (w1, tech) =
        modem_prop_get host w (codes "NetworkRegistration") (codes "Technology") as_string in
      let n = ws46_of tech in
      if n == 0
      then (w1, at_error)
      else (intermediate host w1 (codes "\r\n+WS46: " ++ decimal n), at_ok)

  unfoldable pub list_ws46 : GetCb W
  list_ws46 w = (intermediate host w (codes "\r\n+WS46: (12)"), at_ok)

  abbrev quality : Option ℕ → ℕ
  quality none = 99
  quality (some q) = q * 31 / 100

  unfoldable pub do_csq : SetCb W
  do_csq w (c ∷ req) = (w, at_cme_enotsup)
  do_csq w [] =
      let (w1, q) =
        modem_prop_get host w (codes "NetworkRegistration") (codes "Strength") as_byte in
      (intermediate host w1 (codes "\r\n+CSQ: " ++ (decimal (quality q) ++ codes ",99")), at_ok)

  unfoldable pub list_csq : GetCb W
  list_csq w = (intermediate host w (codes "\r\n+CSQ: (0-31,99),(99)"), at_ok)

  unfoldable pub network_register : Bank W → W → Bank W × W
  network_register bank w =
      let bank = (register_ext bank (codes "+GCAP") (ext handle_gcap none none)).0 in
      let bank =
        (register_ext bank (codes "+WS46") (ext set_ws46 (some get_ws46) (some list_ws46))).0 in
      let bank =
        (register_ext bank (codes "+COPS")
          (ext (set_cops host) (some (get_cops host)) (some (list_cops host)))).0 in
      let bank =
        (register_ext bank (codes "+CREG")
          (ext (set_creg host) (some (get_creg host)) (some (list_creg host)))).0 in
      let bank = (register_ext bank (codes "+CSQ") (ext do_csq none (some list_csq))).0 in
      (bank, host.keep (record (host.plugin w) { cops = 2; creg = 0; creg_filter = none }) w)

  unfoldable pub network_unregister : W → W
  network_unregister w = host.keep (record (host.plugin w) { creg_filter = none }) w
