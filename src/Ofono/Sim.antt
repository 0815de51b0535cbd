-- ===== src/Ofono/Sim.antt =====
-- plugins/ofono/sim.c: the identity and the own numbers of the SIM, AT+CSUS, and the registration.
pub mod Pins
use meego_cellular_matd.Prelude.{
  ℕ, ◌+◌, ◌-◌, Bool, not, ◌&&◌, Option, none, some, List, [], ◌∷◌, ◌++◌, Bytes, codes, leb, ◌==◌,
  if◌then◌else◌,
}
use meego_cellular_matd.Libc.Scanf.{uint, sscanf, count_of, num_at}
use meego_cellular_matd.Libc.Format.{decimal, crlf}
use meego_cellular_matd.Modem.{at_ok, at_cme_error_0, at_cme_enoent, at_cme_einval, at_cme_unknown}
use meego_cellular_matd.Commands.{GetCb, SetCb, Bank, register_ext}
use meego_cellular_matd.Phonebook.{Phonebook, Phonebooks}
use meego_cellular_matd.Ofono.{
  Answer, answer, refused, Host, modemc, as_string, as_array, ofono_prop_find, modem_props_get,
  modem_prop_get, intermediate, intermediate_result,
}
use meego_cellular_matd.Ofono.Voicecall.{ext}
use meego_cellular_matd.Ofono.Sim.Pins.{
  set_cpin, get_cpin, query_pinr, set_clck, list_clck, set_cpwd, list_cpwd,
}

-- The lines of `show_isdn` for the numbers from `start` to `end`.
abbrev isdn_line : ℕ → Bytes → Bytes
isdn_line idx on =
    codes "\r\n+CPBR: " ++ (decimal idx ++ (codes ",\"+" ++ (on ++ codes "\",145,\"\"")))

-- `"%u"`
unfoldable pub scan_slot : Bytes → Option ℕ
unfolding sscanf
scan_slot req =
    let r = sscanf (uint ∷ []) req in
    elim (count_of r) [ none ↦ none | some n ↦ if n == 1 then some (num_at r.args 0) else none ]

-- `msisdn_cb`, on the state of the daemon and the callback's own.
abbrev pub MsisdnCb : Type 0 → Type 0 → Type 0
MsisdnCb W S = W → S → Bytes → W × S × ℕ

module _ {W : Type 0} (host : Host W) where
  abbrev print_or_unknown : W × Option Bytes → W × ℕ
  print_or_unknown (w, none) = (w, at_cme_unknown)
  print_or_unknown (w, some text) = (intermediate host w (crlf ++ (text ++ crlf)), at_ok)

  unfoldable pub handle_cimi : SetCb W
  handle_cimi w (c ∷ req) = (w, at_cme_einval)
  handle_cimi w [] =
      print_or_unknown
        (modem_prop_get host w (codes "SimManager") (codes "SubscriberIdentity") as_string)

  unfoldable pub handle_iccid : SetCb W
  handle_iccid w (c ∷ req) = (w, at_cme_einval)
  handle_iccid w [] =
      print_or_unknown
        (modem_prop_get host w (codes "SimManager") (codes "CardIdentifier") as_string)

  -- The loop of `foreach_msisdn`, up to the first error.
  unfoldable pub each_msisdn : {S : Type 0} → MsisdnCb W S → W → S → List Bytes → W × S × ℕ
  each_msisdn cb w st [] = (w, st, at_ok)
  each_msisdn cb w st (msisdn ∷ numbers) =
      let (w1, st1, ret) = cb w st msisdn in
      let rest = each_msisdn cb w1 st1 numbers in
      if not (ret == at_ok) then (w1, st1, ret) else rest

  abbrev own_numbers : Answer → Option (List Bytes)
  own_numbers (refused err) = none
  own_numbers (answer sender msg) = ofono_prop_find msg (codes "SubscriberNumbers") as_array

  abbrev each_of : {S : Type 0} → MsisdnCb W S → W → S → Option (List Bytes) → W × S × ℕ
  each_of cb w st none = (w, st, at_cme_unknown)
  each_of cb w st (some numbers) = each_msisdn cb w st numbers

  unfoldable pub foreach_msisdn : {S : Type 0} → W → MsisdnCb W S → S → W × S × ℕ
  unfolding each_msisdn
  foreach_msisdn w cb st =
      let (w1, a) = modem_props_get host w (codes "SimManager") in each_of cb w1 st (own_numbers a)

  unfoldable pub show_cnum : MsisdnCb W ℕ
  show_cnum w st msisdn =
      let (w1, ret) =
        intermediate_result host w (codes "\r\n+CNUM: ,\"" ++ (msisdn ++ codes "\",0")) in
      (w1, st, ret)

  unfoldable pub handle_cnum : SetCb W
  unfolding foreach_msisdn
  handle_cnum w (c ∷ req) = (w, at_cme_einval)
  handle_cnum w [] = let (w1, st, ret) = foreach_msisdn w show_cnum 0 in (w1, ret)

  -- The state is the index.
  unfoldable pub show_isdn : ℕ → ℕ → MsisdnCb W ℕ
  show_isdn start end w idx on =
      if leb start idx && leb idx end
      then (intermediate host w (isdn_line idx on), idx + 1, at_ok)
      else (w, idx + 1, at_ok)

  unfoldable pub read_on : W → ℕ → ℕ → W × ℕ
  unfolding foreach_msisdn
  read_on w start end = let (w1, idx, ret) = foreach_msisdn w (show_isdn start end) 0 in (w1, ret)

  abbrev count_isdn : MsisdnCb W ℕ
  count_isdn w count on = (w, count + 1, at_ok)

  unfoldable pub count_on : W → W × (ℕ × ℕ) × ℕ
  unfolding foreach_msisdn
  count_on w =
      let (w1, count, ret) = foreach_msisdn w count_isdn 0 in
      if not (ret == at_ok)
      then (w1, (0, 0), ret)
      else if count == 0
      then (w1, (0, 0), at_cme_enoent)
      else (w1, (0, count - 1), at_ok)

  unfoldable pub own : Phonebook W
  own = record {
    name = codes "ON";
    pw_cb = none;
    read_cb = some read_on;
    write_cb = none;
    find_cb = none;
    range_cb = some count_on;
  }

  -- Without the writing of the file that keeps the choice.
  abbrev pub csus_to : W → Option ℕ → W × ℕ
  csus_to w none = (w, at_cme_einval)
  csus_to w (some slot) =
      if leb (modemc (host.plugin w)) slot
      then (w, at_cme_einval)
      else (host.keep (record (host.plugin w) { modem = slot }) w, at_ok)

  unfoldable pub set_csus : SetCb W
  unfolding scan_slot
  set_csus w req = csus_to w (scan_slot req)

  unfoldable pub get_csus : GetCb W
  get_csus w =
      let p = host.plugin w in
      if modemc p == 0
      then (w, at_cme_error_0)
      else intermediate_result host w (codes "\r\n+CSUS: " ++ decimal p.modem)

  unfoldable pub list_csus : GetCb W
  list_csus w =
      let n = modemc (host.plugin w) in
      if n == 0
      then (w, at_cme_error_0)
      else if n == 1
      then intermediate_result host w (codes "\r\n+CSUS: (0)")
      else intermediate_result host w (codes "\r\n+CSUS: (0-" ++ (decimal (n - 1) ++ codes ")"))

  -- `sim_register`, with fnmatch() and the registration of the phonebook as parameters.
  unfoldable pub sim_register :
      (Bytes → Bytes → Bool)
      → (Bank W → Phonebooks W → Phonebook W → Bank W × Phonebooks W)
      → Bank W
      → Phonebooks W
      → Bank W × Phonebooks W
  unfolding own
  sim_register fnmatch register_pb bank pbs =
      let bank = (register_ext bank (codes "+CIMI") (ext handle_cimi none none)).0 in
      let bank = (register_ext bank (codes "@ICCID") (ext handle_iccid none none)).0 in
      let bank = (register_ext bank (codes "+CNUM") (ext handle_cnum none none)).0 in
      let (bank, pbs) = register_pb bank pbs own in
      let bank =
        (register_ext bank (codes "+CLCK") (ext (set_clck host) none (some (list_clck host)))).0 in
      let bank =
        (register_ext bank (codes "+CPIN") (ext (set_cpin host) (some (get_cpin host)) none)).0 in
      let bank = (register_ext bank (codes "+CPINR") (ext (query_pinr host fnmatch) none none)).0 in
      let bank =
        (register_ext bank (codes "+CPWD") (ext (set_cpwd host) none (some (list_cpwd host)))).0 in
      let bank =
        (register_ext bank (codes "+CSUS") (ext set_csus (some get_csus) (some list_csus))).0 in
      (bank, pbs)
