-- ===== src/Ofono/Network/Operators.antt =====
-- plugins/ofono/network.c: AT+COPS, strconcatcmp and the search for operators.
mod Replies
unfoldable pub use Replies.*
use meego_cellular_matd.Prelude.{
  ℕ, ◌+◌, ◌-◌, ◌%◌, ◌⊎◌, inl, inr, not, ◌&&◌, Option, none, some, [], ◌∷◌, ◌++◌, Bytes, codes, ltb,
  ◌==◌, if◌then◌else◌,
}
use meego_cellular_matd.Libc.Scanf.{count_of, num_at, str_at}
use meego_cellular_matd.Modem.{
  at_ok, at_cme_error_0, at_cme_enotsup, at_cme_enomem, at_cme_enoent, at_cme_einval,
}
use meego_cellular_matd.Commands.{GetCb, SetCb}
use meego_cellular_matd.Ofono.{
  structs, Answer, answer, refused, Host, modem_request, ofono_request, modem_query,
  modem_props_get, intermediate,
}
use meego_cellular_matd.Ofono.Network.Tables.{or_zero}

module _ {W : Type 0} (host : Host W) where
  abbrev net_query : W → Bytes → W × Answer
  net_query w method = modem_query host w (codes "NetworkRegistration") method [] at_cme_enomem

  abbrev register_on : W → Bytes → W × ℕ
  register_on w path = ofono_request host w path (codes "NetworkOperator") (codes "Register") []

  -- Behind the scan for operators.
  abbrev scanned_oper : ℕ → Bytes → W × Answer → W × ℕ
  scanned_oper format wanted (w, refused err) = (w, err)
  scanned_oper format wanted (w, answer sender msg) = elim (find_oper format wanted msg) [
    | none ↦ (w, at_cme_enoent)
    | some path ↦ register_on w path
  ]

  abbrev known_oper : ℕ → Bytes → W × Answer → W × ℕ
  known_oper format wanted (w, refused err) = (w, err)
  known_oper format wanted (w, answer sender msg) = elim (find_oper format wanted msg) [
    | none ↦ scanned_oper format wanted (net_query w (codes "Scan"))
    | some path ↦ register_on w path
  ]

  unfoldable pub change_oper : W → ℕ → Bytes → W × ℕ
  unfolding find_oper
  change_oper w format wanted = known_oper format wanted (net_query w (codes "GetOperators"))

  -- `c`, and the numbers and the name that sscanf() stored.
  abbrev cops_to : W → ℕ → ℕ → ℕ → Bytes → W × ℕ
  cops_to w c mode format buf =
      if c == 0
      then (w, at_cme_einval)
      else if mode == 0
      then modem_request host w (codes "NetworkRegistration") (codes "Register") []
      else if mode == 1
      then (if ltb c 3 then (w, at_cme_einval) else change_oper w format buf)
      else if mode == 2
      then modem_request host w (codes "NetworkRegistration") (codes "Deregister") []
      else if mode == 3
      then (if ltb c 2
          then (w, at_cme_einval)
          else if not (format == 0) && not (format == 2)
          then (w, at_cme_enotsup)
          else (host.keep (record (host.plugin w) { cops = format % 256 }) w, at_ok))
      else (w, at_cme_enotsup)

  unfoldable pub set_cops : SetCb W
  unfolding scan_cops change_oper
  set_cops w req =
      let r = scan_cops req in
      cops_to w (or_zero (count_of r)) (num_at r.args 0) (num_at r.args 1) (str_at r.args 2)

  abbrev print_cops : W → Option Bytes ⊎ ℕ → W × ℕ
  print_cops w (inr err) = (w, err)
  print_cops w (inl none) = (w, at_ok)
  print_cops w (inl (some text)) = (intermediate host w text, at_ok)

  abbrev got_cops : W × Answer → W × ℕ
  got_cops (w, refused err) = (w, at_cme_enomem)
  got_cops (w, answer sender msg) = print_cops w (cops_of (host.plugin w).cops msg)

  unfoldable pub get_cops : GetCb W
  unfolding cops_of
  get_cops w = got_cops (modem_props_get host w (codes "NetworkRegistration"))

  abbrev listed : W × Answer → W × ℕ
  listed (w, refused err) = (w, err)
  listed (w, answer sender (structs array ∷ args)) = (
    intermediate host w (codes "\r\n+COPS: " ++ (oper_list array ++ codes ",(0-3),(0,2)")),
    at_ok,
  )
  listed (w, answer sender args) = (w, at_cme_error_0)

  unfoldable pub list_cops : GetCb W
  unfolding oper_list
  list_cops w = listed (net_query w (codes "Scan"))
