-- ===== src/Tests/Phone.antt =====
-- Runs of the commands on calls and on the network, on small buses.
use meego_cellular_matd.Prelude.{
  ℕ, zero, suc, ◌≤◌, ◌<◌, ◌≡◌, refl, true, false, none, some, [], ◌∷◌, ◌++◌, arith, Bytes, codes,
  ◌==◌, if◌then◌else◌,
}
use meego_cellular_matd.Ofono.Network.Registration.{on_creg}
use meego_cellular_matd.Ofono.Ussd.{sms16_decode, past_end}
use meego_cellular_matd.Ofono.Signals.{find_modems, Signal}
use meego_cellular_matd.Ofono.Selected.{HasModem, choices, find_modems-HasModem}
use meego_cellular_matd.Modem.{Modem, at_ok, minus_one}
use meego_cellular_matd.Libc.Format.{decimal}
use meego_cellular_matd.Commands.{cleared}
use meego_cellular_matd.Ofono.{
  plain, voicecall_request, ofono_dict_find, voicecall_request, string, structs, Entry, Message,
  Reply, returned, failed, Plugin, Host, intermediate_result, voicecall_path,
}
use meego_cellular_matd.Ofono.Calls.{find_call_by_state, get_call_id, set_chup}
use meego_cellular_matd.Ofono.Voicecall.{ringing}
use meego_cellular_matd.Ofono.Paths.{get_call_id-voicecall_path}
use meego_cellular_matd.Ofono.HangUp.{Ended, set_chup-Ended, set_chup-none, find_active, hang_up}
use meego_cellular_matd.Ofono.Tones.{parse_tones, tones}
use meego_cellular_matd.Ofono.Ringing.{set_ssn, get_ssn, on_signal, report_ssu, scan_ssn}
use meego_cellular_matd.Ofono.Notify.{forwarded, set_ssn-reports}
use meego_cellular_matd.Ofono.Network.{network_register}
use meego_cellular_matd.Ofono.Network.Subscribed.{requests, creg_reports, network_register-reports}
use meego_cellular_matd.Libc.Ctype.{streq}

abbrev pub modem : Modem
modem = record {
  echo = true;
  quiet = false;
  verbose = true;
  rate_report = false;
  in_data = false;
  cmee = 1;
  hungup = false;
  reset = false;
  charset = 0;
  sent = [];
  writes = [];
  aborted = false;
}

abbrev blank : Plugin
blank = record {
  name = some (codes ":1.7");
  modemv = codes "/m0" ∷ [];
  modem = 0;
  vhu = 0;
  cring = false;
  clip = false;
  colp = false;
  cdip = false;
  cnap = false;
  ccwa = false;
  ring_filter = none;
  barring_filter = none;
  hold_filter = none;
  mpty_filter = none;
  fwd_filter = none;
  cops = 2;
  creg = 0;
  creg_filter = none;
  cgreg = 0;
  cgreg_filter = none;
  cgatt_filter = none;
  caoc_filter = none;
  ccwe_filter = none;
  text_mode = false;
  ussd_filter = none;
}

-- A call of the list that GetCalls returns.
abbrev active_call : Bytes → Entry
active_call path = record {
  path = some path;
  props = some ((codes "State", some (string (codes "active"))) ∷ []);
}

-- A bus with as many active calls as the number; each hang-up ends one.
unfoldable answer_calls : ℕ → Message → ℕ × Reply
unfolding streq
answer_calls zero msg = (0, returned none (structs [] ∷ []))
answer_calls (suc n) msg =
    if streq msg.method (codes "GetCalls")
    then (suc n, returned none (structs (active_call (codes "/m0/voicecall01") ∷ []) ∷ []))
    else (n, returned none [])

abbrev counting : Host ℕ
counting = record {
  modem = λ w. modem;
  put = λ m w. w;
  plugin = λ w. blank;
  keep = λ p w. w;
  bus = answer_calls;
}

-- A bus with a call whose number has three digits.
abbrev stuck : Host ℕ
stuck = record {
  modem = λ w. modem;
  put = λ m w. w;
  plugin = λ w. blank;
  keep = λ p w. w;
  bus = λ w msg. (w, returned none (structs (active_call (codes "/m0/voicecall100") ∷ []) ∷ []));
}

-- A daemon with a modem and a plugin, on a bus that refuses.
pub record World : Type 0 where
  pub modem : Modem
  pub plugin : Plugin

abbrev pub world : Host World
world = record {
  modem = λ w. w.modem;
  put = λ m w. record w { modem = m };
  plugin = λ w. w.plugin;
  keep = λ p w. record w { plugin = p };
  bus = λ w msg. (w, failed none);
}

abbrev pub start : World
start = record { modem = modem; plugin = ringing blank }

get_call_id-voicecall_path_example : get_call_id (voicecall_path (codes "/m0") 7) ≡ 7
get_call_id-voicecall_path_example =
    get_call_id-voicecall_path (codes "m0") 7 (refl, (refl, tt)) (omega arith) (omega arith)

hang_up-counts :
    (w : ℕ)
    → ((find_active counting w).1 == minus_one) ≡ false
    → hang_up counting (find_active counting w) < w
unfolding ofono_dict_find find_call_by_state voicecall_request answer_calls
hang_up-counts zero h = cc
hang_up-counts (suc n) h = omega arith

set_chup-Ended_example : Ended counting (set_chup counting 4 3 [])
set_chup-Ended_example = set_chup-Ended counting (λ n. n) hang_up-counts 4 3 (omega arith)

stuck_found : ((find_active stuck 0).1 == minus_one) ≡ false
unfolding ofono_dict_find find_call_by_state
stuck_found = refl

stuck_same : hang_up stuck (find_active stuck 0) ≡ 0
unfolding ofono_dict_find find_call_by_state voicecall_request
stuck_same = refl

set_chup-none_example : set_chup stuck 9 0 [] ≡ none
set_chup-none_example = set_chup-none stuck 0 stuck_found stuck_same 9

sends_tones : parse_tones (codes "1,{5,0},A") ≡ some (tones (codes "15A"))
unfolding parse_tones
sends_tones = refl

abbrev registered : Signal
registered = record {
  sender = some (codes ":1.7");
  path = codes "/m0";
  interface = codes "org.ofono.NetworkRegistration";
  member = codes "PropertyChanged";
  args = plain (string (codes "Status")) ∷ [];
}

network_register-reports_example :
    let after =
      requests world
        (network_register world cleared start).1
        (codes "2" ∷ codes "3" ∷ codes "1" ∷ []) in
    (after.plugin.creg ≤ 2) × (on_creg world after registered ≡ creg_reports world after registered)
network_register-reports_example =
    network_register-reports world (λ p w. refl) cleared start
      (codes "2" ∷ codes "3" ∷ codes "1" ∷ []) registered

scans_ssn : scan_ssn (codes "0,1") ≡ some (0, 1)
unfolding scan_ssn
scans_ssn = refl

set_ssn-reports_example :
    let done = set_ssn world start (codes "0,1") in
    (done.1 ≡ at_ok)
    × (get_ssn world done.0
        ≡ intermediate_result world done.0
            (codes "\r\n+CSSN: " ++ (decimal 0 ++ (b',' ∷ decimal 1))))
    × (on_signal world done.0 (forwarded (codes ":1.7") (codes "/m0") (codes "outgoing")) ≡ done.0)
    × (on_signal world done.0 (forwarded (codes ":1.7") (codes "/m0") (codes "incoming"))
        ≡ report_ssu world done.0 0)
unfolding ringing
set_ssn-reports_example =
    set_ssn-reports world (λ p w. refl) start (codes "0,1") (codes ":1.7") 0 1 scans_ssn
      (omega arith) (omega arith) refl refl refl

find_modems-HasModem_example :
    HasModem
      (choices world
        (find_modems world start (some (codes "/m0")))
        (codes "3" ∷ codes "0" ∷ [])).plugin
find_modems-HasModem_example =
    find_modems-HasModem world (λ p w. refl) start (some (codes "/m0")) (codes "3" ∷ codes "0" ∷ [])

-- Two texts that differ in the fourth digit are decoded alike, and a text of three digits is read
-- behind its end.
same_code : sms16_decode (codes "00410042") ≡ sms16_decode (codes "0045004A")
unfolding sms16_decode
same_code = refl

reads_past : sms16_decode (codes "004") ≡ past_end
unfolding sms16_decode
reads_past = refl
