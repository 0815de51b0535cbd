-- ===== src/Ofono/Voicecall.antt =====
-- plugins/ofono/voicecall.c: AT+CVHU, AT+VTD, AT+CPAS, the phonebook of emergency numbers, ATS0,
-- AT+BLDN and the registration of all the commands on calls.
use meego_cellular_matd.Prelude.{
  ℕ, ◌+◌, ◌-◌, ◌%◌, ◌⊎◌, inl, inr, Bool, true, false, not, ◌&&◌, ◌||◌, Option, none, some, List, [],
  ◌∷◌, ◌++◌, Bytes, codes, ltb, leb, ◌==◌, if◌then◌else◌, length, set,
}
use meego_cellular_matd.Libc.Format.{decimal, crlf}
use meego_cellular_matd.Modem.{
  at_ok, at_error, at_cme_error_0, at_cme_enotsup, at_cme_enoent, at_cme_einval, at_cme_unknown,
}
use meego_cellular_matd.Commands.{
  AlphaCb, GetCb, SetCb, Handler, Bank, register_alpha, register_dial, register_s, register_ext,
}
use meego_cellular_matd.Dummy.{scan_number}
use meego_cellular_matd.Phonebook.{Phonebook, Phonebooks}
use meego_cellular_matd.Ofono.{
  boolean, Answer, answer, refused, Plugin, Host, as_string, as_bool, as_array, ofono_dict_find,
  ofono_prop_find, ofono_modem, modem_props_get, modem_prop_get, modem_prop_set, modem_request,
  intermediate, intermediate_result,
}
use meego_cellular_matd.Ofono.Signals.{ofono_signal_watch}
use meego_cellular_matd.Ofono.Calls.{
  CallCb, enum_calls, is_state, handle_answer, handle_dial, set_csta, get_csta, list_csta,
  handle_clcc, handle_hangup, set_chld, list_chld, do_ctfr,
}
use meego_cellular_matd.Ofono.Ringing.{
  set_ring, get_ring, list_ring, set_ssn, get_ssn, list_ssn, without_ssn,
}
use meego_cellular_matd.Ofono.Tones.{set_vts, list_vts}

-- The loop of `read_en`: the lines of the numbers from `start` to `end`.
abbrev pub en_line : ℕ → Bytes → Bytes
en_line idx en =
    codes "\r\n+CPBR: " ++ (decimal idx ++ (codes ",\"" ++ (en ++ codes "\",129,\"\"")))

unfoldable pub en_lines : ℕ → ℕ → ℕ → List Bytes → List Bytes
en_lines start end idx [] = []
en_lines start end idx (en ∷ numbers) =
    let rest = en_lines start end (idx + 1) numbers in
    if leb start idx && leb idx end then en_line idx en ∷ rest else rest

-- `mode` is an `unsigned char`.
abbrev low_byte : Option ℕ → Option ℕ
low_byte none = none
low_byte (some n) = some (n % 256)

abbrev pub ext : {W : Type 0} → SetCb W → Option (GetCb W) → Option (GetCb W) → Handler W
ext set get test = record { set = set; get = get; test = test }

-- The fields that `voicecallmanager_register` sets, and the filter on new calls.
unfoldable pub ringing : Plugin → Plugin
unfolding without_ssn ofono_signal_watch
ringing p = record (without_ssn p) {
  cring = false;
  vhu = 0;
  ring_filter =
      some
        (ofono_signal_watch ofono_modem (codes "VoiceCallManager") (some (codes "CallAdded")) none);
}

module _ {W : Type 0} (host : Host W) where
  abbrev cvhu_to : W → Option ℕ → W × ℕ
  cvhu_to w none = (w, at_cme_einval)
  cvhu_to w (some mode) =
      if ltb 2 mode
      then (w, at_cme_enotsup)
      else (host.keep (record (host.plugin w) { vhu = mode }) w, at_ok)

  unfoldable pub set_cvhu : SetCb W
  set_cvhu w req = cvhu_to w (low_byte (scan_number req))

  unfoldable pub get_cvhu : GetCb W
  get_cvhu w = (intermediate host w (codes "\r\n+CVHU: " ++ decimal (host.plugin w).vhu), at_ok)

  unfoldable pub list_cvhu : GetCb W
  list_cvhu w = (intermediate host w (codes "\r\n+CVHU: (0-2)"), at_ok)

  unfoldable pub set_vtd : SetCb W
  set_vtd w req = elim (scan_number req) [
    | none ↦ (w, at_cme_einval)
    | some dura ↦ if not (dura == 0) then (w, at_cme_enotsup) else (w, at_ok)
  ]

  unfoldable pub get_vtd : GetCb W
  get_vtd w = (intermediate host w (codes "\r\n+VTD: 0"), at_ok)

  unfoldable pub list_vtd : GetCb W
  list_vtd w = (intermediate host w (codes "\r\n+VTD: (0)"), at_ok)

  unfoldable pub simple_call_state : CallCb W ℕ
  simple_call_state w pas id call =
      let state = ofono_dict_find call (codes "State") as_string in
      if is_state (codes "incoming") state
      then (w, 3, true)
      else if is_state (codes "active") state || is_state (codes "alerting") state
      then (w, 4, true)
      else (w, pas, false)

  -- The power of the modem decides where the calls cannot be listed.
  abbrev asleep : Option Bool → ℕ
  asleep none = 2
  asleep (some true) = 2
  asleep (some false) = 5

  abbrev print_cpas : W → ℕ → W × ℕ
  print_cpas w pas = intermediate_result host w (codes "\r\n+CPAS: " ++ decimal pas)

  unfoldable pub show_cpas : SetCb W
  unfolding simple_call_state enum_calls
  show_cpas w (c ∷ req) = (w, at_cme_enotsup)
  show_cpas w [] =
      let (w1, pas, err) = enum_calls host w simple_call_state 0 in
      let (w2, powered) = modem_prop_get host w1 (codes "Modem") (codes "Powered") as_bool in
      if err == at_ok then print_cpas w1 pas else print_cpas w2 (asleep powered)

  unfoldable pub list_cpas : GetCb W
  list_cpas w = (intermediate host w (codes "\r\n+CPAS: (0-5)"), at_ok)

  -- The emergency numbers, or the error.
  abbrev pub numbers_in : Answer → List Bytes ⊎ ℕ
  numbers_in (refused err) = inr at_cme_error_0
  numbers_in (answer sender args) =
      elim (ofono_prop_find args (codes "EmergencyNumbers") as_array) [
        | none ↦ inr at_cme_unknown
        | some numbers ↦ inl numbers
      ]

  unfoldable pub emergency_numbers : W → W × (List Bytes ⊎ ℕ)
  emergency_numbers w =
      let (w1, a) = modem_props_get host w (codes "VoiceCallManager") in (w1, numbers_in a)

  abbrev print_lines : W → List Bytes → W
  print_lines w [] = w
  print_lines w (text ∷ lines) = print_lines (intermediate host w text) lines

  unfoldable pub read_en : W → ℕ → ℕ → W × ℕ
  unfolding emergency_numbers en_lines
  read_en w start end =
      let (w1, found) = emergency_numbers w in
      elim found [
        | inl numbers ↦ (print_lines w1 (en_lines start end 0 numbers), at_ok)
        | inr err ↦ (w1, err)
      ]

  -- The first and the last index; on an error they are not read.
  unfoldable pub count_en : W → W × (ℕ × ℕ) × ℕ
  unfolding emergency_numbers
  count_en w =
      let (w1, found) = emergency_numbers w in
      elim found [
        | inl numbers ↦
            if length numbers == 0
            then (w1, (0, 0), at_cme_enoent)
            else (w1, (0, length numbers - 1), at_ok)
        | inr err ↦ (w1, (0, 0), err)
      ]

  unfoldable pub set_auto_answer : AlphaCb W
  set_auto_answer w val =
      if ltb 1 val
      then (w, at_error)
      else modem_prop_set host w (codes "VoiceCallManager") (codes "AutoAnswer")
          (boolean (not (val == 0))) none

  -- The -1 of an error is a large number here, as `s0` is unsigned.
  abbrev above_zero : Option Bool → ℕ
  above_zero none = 1
  above_zero (some true) = 1
  above_zero (some false) = 0

  unfoldable pub get_auto_answer : GetCb W
  get_auto_answer w =
      let (w1, s0) =
        modem_prop_get host w (codes "VoiceCallManager") (codes "AutoAnswer") as_bool in
      intermediate_result host w1 (crlf ++ decimal (above_zero s0))

  unfoldable pub handle_redial : SetCb W
  handle_redial w (c ∷ req) = (w, at_cme_einval)
  handle_redial w [] = modem_request host w (codes "VoiceCallManager") (codes "Redial") []

  unfoldable pub emergency : Phonebook W
  emergency = record {
    name = codes "EN";
    pw_cb = none;
    read_cb = some read_en;
    write_cb = none;
    find_cb = none;
    range_cb = some count_en;
  }

  -- The commands of `voicecallmanager_register`, up to the phonebook and behind it. AT+CHUP is
  -- `set_chup` with the fuel that the calls want.
  unfoldable pub register_calls : SetCb W → Bank W → Bank W
  register_calls chup bank =
      let bank = (register_alpha bank b'A' (handle_answer host)).0 in
      let bank = (register_dial bank true (handle_dial host)).0 in
      let bank =
        (register_ext bank (codes "+CSTA")
          (ext (set_csta host) (some (get_csta host)) (some (list_csta host)))).0 in
      let bank = (register_ext bank (codes "+CLCC") (ext (handle_clcc host) none none)).0 in
      let bank = (register_ext bank (codes "+CHUP") (ext chup none none)).0 in
      let bank = (register_alpha bank b'H' (handle_hangup host)).0 in
      let bank =
        (register_ext bank (codes "+CHLD") (ext (set_chld host) none (some (list_chld host)))).0 in
      let bank =
        (register_ext bank (codes "+CRC")
          (ext (set_ring host) (some (get_ring host)) (some (list_ring host)))).0 in
      let bank =
        (register_ext bank (codes "+CSSN")
          (ext (set_ssn host) (some (get_ssn host)) (some (list_ssn host)))).0 in
      let bank =
        (register_ext bank (codes "+CVHU") (ext set_cvhu (some get_cvhu) (some list_cvhu))).0 in
      let bank =
        (register_ext bank (codes "+VTS") (ext (set_vts host) none (some (list_vts host)))).0 in
      let bank =
        (register_ext bank (codes "+VTD") (ext set_vtd (some get_vtd) (some list_vtd))).0 in
      let bank = (register_ext bank (codes "+CTFR") (ext (do_ctfr host) none none)).0 in
      (register_ext bank (codes "+CPAS") (ext show_cpas none (some list_cpas))).0

  -- `voicecallmanager_register`, on the bank with the phonebooks and on the plugin.
  unfoldable pub voicecallmanager_register :
      (SetCb W)
      → (Bank W → Phonebooks W → Phonebook W → Bank W × Phonebooks W)
      → Bank W
      → Phonebooks W
      → W
      → Bank W × Phonebooks W × W
  unfolding register_calls emergency ringing
  voicecallmanager_register chup register_pb bank pbs w =
      let (bank, pbs) = register_pb (register_calls chup bank) pbs emergency in
      let bank = (register_s bank 0 (record { set = set_auto_answer; get = get_auto_answer })).0 in
      let bank = (register_ext bank (codes "+BLDN") (ext handle_redial none none)).0 in
      (bank, pbs, host.keep (ringing (host.plugin w)) w)

  -- `voicecallmanager_unregister`: the filters are removed; the plugin is freed behind it.
  unfoldable pub voicecallmanager_unregister : W → W
  unfolding without_ssn
  voicecallmanager_unregister w =
      let p = host.plugin w in
      let w1 = host.keep (record (without_ssn p) { ring_filter = none }) w in
      if p.vhu == 2 then (handle_hangup host w1 b'H').0 else w1
