-- ===== src/Ofono/Ringing.antt =====
-- plugins/ofono/voicecall.c: the callbacks of oFono's signals, RING, AT+CRC and AT+CSSN.
use meego_cellular_matd.Prelude.{
  ℕ, Bool, true, false, not, ◌&&◌, ◌||◌, Option, none, some, List, [], ◌∷◌, ◌++◌, Bytes, codes, ltb,
  ◌==◌, if◌then◌else◌, take,
}
use Prim.Native.String.{String}
use meego_cellular_matd.Libc.Ctype.{streq}
use meego_cellular_matd.Libc.Scanf.{space, literal, uint, sscanf, count_of, num_at}
use meego_cellular_matd.Libc.Format.{decimal}
use meego_cellular_matd.Modem.{at_ok, at_cme_enotsup, at_cme_einval}
use meego_cellular_matd.Reply.{at_ring}
use meego_cellular_matd.Commands.{GetCb, SetCb}
use meego_cellular_matd.Dummy.{scan_number}
use meego_cellular_matd.Ofono.{
  object_path, plain, Dict, Argument, ofono_any, ofono_modem, Plugin, Host, as_string, as_bool,
  ofono_dict_find, first_dict, intermediate, intermediate_result, unsolicited,
}
use meego_cellular_matd.Ofono.Signals.{
  Signal, ofono_signal_watch, ofono_prop_watch, watched, first_string, ofono_prop_matcher,
}
use meego_cellular_matd.Ofono.Calls.{type_of, is_state, bit}

-- `"%s",%u` with a number and its type, and what stands for a number that is withheld.
abbrev pub quoted_number : Bytes → Bytes
quoted_number str = b'"' ∷ (str ++ (codes "\"," ++ decimal (type_of str)))

abbrev pub number_or_withheld : Option Bytes → Bytes
number_or_withheld none = codes "\"\",128"
number_or_withheld (some str) =
    if streq str (codes "withheld") then codes "\"\",128" else quoted_number str

abbrev pub name_or_withheld : Option Bytes → Bytes
name_or_withheld none = codes "\"\",2"
name_or_withheld (some str) =
    if streq str (codes "withheld") then codes "\"\",1" else b'"' ∷ (take 80 str ++ (b'"' ∷ []))

abbrev pub is_some {ℓ} : {A : Type ℓ} → Option A → Bool
is_some none = false
is_some (some a) = true

abbrev line : String → Bytes → Bytes
line label text = codes "\r\n+" ++ (codes label ++ (codes ": " ++ (text ++ codes "\r\n")))

-- The two parameters of AT+CSSN, or none.
unfoldable pub scan_ssn : Bytes → Option (ℕ × ℕ)
unfolding sscanf
scan_ssn req =
    let r = sscanf (space ∷ uint ∷ space ∷ literal b',' ∷ space ∷ uint ∷ []) req in
    let ssi = num_at r.args 0 in
    let ssu = num_at r.args 1 in
    elim (count_of r) [
      | none ↦ none
      | some n ↦
          if n == 0
          then some (0, 0)
          else if n == 1
          then some (ssi, 0)
          else if n == 2
          then some (ssi, ssu)
          else none
    ]

-- The filters of `set_ssn`: all are removed, the forwarding one first, and those asked for are set.
unfoldable pub without_ssn : Plugin → Plugin
without_ssn p =
    let p = record p { fwd_filter = none } in
    let p = record p { barring_filter = none } in
    let p = record p { hold_filter = none } in record p { mpty_filter = none }

unfoldable pub with_ssi : Bool → Plugin → Plugin
unfolding ofono_signal_watch
with_ssi ssi p =
    if ssi
    then record p {
      barring_filter = some (
          ofono_signal_watch ofono_modem (codes "VoiceCallManager") (some (codes "BarringActive"))
            none);
    }
    else p

unfoldable pub with_ssu : Bool → Plugin → Plugin
unfolding ofono_prop_watch
with_ssu ssu p =
    if ssu
    then record p {
      hold_filter = some (ofono_prop_watch ofono_any (codes "VoiceCall") (codes "RemoteHeld"));
      mpty_filter =
          some (ofono_prop_watch ofono_any (codes "VoiceCall") (codes "RemoteMultiparty"));
    }
    else p

unfoldable pub with_fwd : Bool → Plugin → Plugin
unfolding ofono_signal_watch
with_fwd either p =
    if either
    then record p {
      fwd_filter = some (
          ofono_signal_watch ofono_modem (codes "VoiceCallManager") (some (codes "Forwarded"))
            none);
    }
    else p

unfoldable pub filters_ssn : Bool → Bool → Plugin → Plugin
unfolding without_ssn with_ssi with_ssu with_fwd
filters_ssn ssi ssu p = with_fwd (ssi || ssu) (with_ssu ssu (with_ssi ssi (without_ssn p)))

module _ {W : Type 0} (host : Host W) where
  unfoldable pub ring : W → W
  ring w = host.put (at_ring (host.modem w)).0 w

  abbrev report_cdip : W → Option Bytes → W
  report_cdip w none = w
  report_cdip w (some str) = unsolicited host w (line "CDIP" (quoted_number str))

  unfoldable pub incoming_call : W → Option Dict → W
  unfolding ring
  incoming_call w call =
      let p = host.plugin w in
      let w = if p.cring then unsolicited host w (codes "\r\n+CRING: VOICE\r\n") else ring w in
      let number = ofono_dict_find call (codes "LineIdentification") as_string in
      let w = if p.clip then unsolicited host w (line "CLIP" (number_or_withheld number)) else w in
      let name = ofono_dict_find call (codes "Name") as_string in
      let w = if p.cnap then unsolicited host w (line "CNAP" (name_or_withheld name)) else w in
      if p.cdip then report_cdip w (ofono_dict_find call (codes "IncomingLine") as_string) else w

  unfoldable pub waiting_call : W → Option Dict → W
  waiting_call w call =
      let number = ofono_dict_find call (codes "LineIdentification") as_string in
      if (host.plugin w).ccwa
      then unsolicited host w (line "CCWA" (number_or_withheld number))
      else w

  unfoldable pub ring_callback : W → List Argument → W
  unfolding incoming_call waiting_call
  ring_callback w (plain (object_path path) ∷ args) =
      let call = first_dict args in
      let state = ofono_dict_find call (codes "State") as_string in
      if is_state (codes "incoming") state
      then incoming_call w call
      else if is_state (codes "waiting") state
      then waiting_call w call
      else w
  ring_callback w _ = w

  unfoldable pub set_ring : SetCb W
  set_ring w req = elim (scan_number req) [
    | none ↦ (w, at_cme_einval)
    | some mode ↦
        if ltb 1 mode
        then (w, at_cme_enotsup)
        else (host.keep (record (host.plugin w) { cring = not (mode == 0) }) w, at_ok)
  ]

  unfoldable pub get_ring : GetCb W
  get_ring w =
      (intermediate host w (codes "\r\n+CRC: " ++ decimal (bit (host.plugin w).cring)), at_ok)

  unfoldable pub list_ring : GetCb W
  list_ring w = (intermediate host w (codes "\r\n+CRC: (0-1)"), at_ok)

  abbrev pub report_ssi : W → ℕ → W
  report_ssi w i = unsolicited host w (line "CSSI" (decimal i))

  abbrev pub report_ssu : W → ℕ → W
  report_ssu w i = unsolicited host w (line "CSSU" (decimal i))

  unfoldable pub barring_callback : W → List Argument → W
  barring_callback w args =
      let type = first_string args in
      if is_state (codes "local") type
      then report_ssi w 5
      else if is_state (codes "remote") type
      then report_ssi w 6
      else w

  abbrev pub hold_callback : W → Option Bool → W
  hold_callback w none = w
  hold_callback w (some held) = report_ssu w (if held then 2 else 3)

  abbrev pub mpty_callback : W → Option Bool → W
  mpty_callback w none = w
  mpty_callback w (some mpty) = if mpty then report_ssu w 4 else w

  unfoldable pub forwarded_callback : W → List Argument → W
  forwarded_callback w args =
      let p = host.plugin w in
      let type = first_string args in
      if is_state (codes "outgoing") type && is_some p.barring_filter
      then report_ssi w 2
      else if is_state (codes "incoming") type && is_some p.hold_filter
      then report_ssu w 0
      else w

  -- A signal goes through the filters in the order in which they were added.
  unfoldable pub on_signal : W → Signal → W
  unfolding ring_callback barring_callback forwarded_callback ofono_prop_matcher
  on_signal w msg =
      let p = host.plugin w in
      let w = if watched p p.ring_filter msg then ring_callback w msg.args else w in
      let w = if watched p p.barring_filter msg then barring_callback w msg.args else w in
      let held = ofono_prop_matcher as_bool msg.args in
      let w = if watched p p.hold_filter msg then hold_callback w held else w in
      let w = if watched p p.mpty_filter msg then mpty_callback w held else w in
      if watched p p.fwd_filter msg then forwarded_callback w msg.args else w

  abbrev pub ssn_to : W → Option (ℕ × ℕ) → W × ℕ
  ssn_to w none = (w, at_cme_einval)
  ssn_to w (some (ssi, ssu)) =
      if ltb 1 ssi || ltb 1 ssu
      then (w, at_cme_einval)
      else (host.keep (filters_ssn (not (ssi == 0)) (not (ssu == 0)) (host.plugin w)) w, at_ok)

  unfoldable pub set_ssn : SetCb W
  unfolding scan_ssn filters_ssn
  set_ssn w req = ssn_to w (scan_ssn req)

  unfoldable pub get_ssn : GetCb W
  get_ssn w =
      let p = host.plugin w in
      intermediate_result host w (
        codes "\r\n+CSSN: "
        ++ (decimal (bit (is_some p.barring_filter))
            ++ (b',' ∷ decimal (bit (is_some p.hold_filter)))))

  unfoldable pub list_ssn : GetCb W
  list_ssn w = intermediate_result host w (codes "\r\n+CSSN: (0-1),(0-1)")
