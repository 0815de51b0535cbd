-- ===== src/Ofono/Forwarding.antt =====
-- plugins/ofono/callforwarding.c: AT+CCFC.
use meego_cellular_matd.Prelude.{
  ℕ, ◌-◌, ◌%◌, ◌^◌, not, ◌||◌, Option, none, some, List, [], ◌∷◌, ◌++◌, Bytes, codes, ltb, leb,
  ◌==◌, if◌then◌else◌, get_elem?,
}
use meego_cellular_matd.Libc.Scanf.{
  Scanned, space, literal, uint, skip_uint, scanset, sscanf, count_of, num_at, str_at,
}
use meego_cellular_matd.Libc.Format.{decimal}
use meego_cellular_matd.Modem.{at_ok, at_error, at_cme_enotsup, at_cme_einval}
use meego_cellular_matd.Commands.{GetCb, SetCb, Bank, register_ext}
use meego_cellular_matd.Ofono.{
  and_then, string, uint16, plain, Host, as_string, as_u16, modem_prop_get, modem_prop_set,
  modem_request, intermediate,
}
use meego_cellular_matd.Ofono.Calls.{type_of}
use meego_cellular_matd.Ofono.Voicecall.{ext}

abbrev pub forwardings : List Bytes
forwardings =
    codes "VoiceUnconditional"
    ∷ codes "VoiceBusy"
    ∷ codes "VoiceNoReply"
    ∷ codes "VoiceNotReachable"
    ∷ []

unfoldable pub reason_to_prop : ℕ → Option Bytes
reason_to_prop reason = get_elem? forwardings reason

-- The parameters of `cf_register` behind the reason.
pub record Forwarding : Type 0 where
  pub number : Bytes
  pub type : ℕ
  pub class : ℕ
  pub time : ℕ

-- The tests at the beginning of `cf_register`: the error, or AT_OK.
unfoldable pub forwarding_error : Forwarding → ℕ
forwarding_error f =
    if not (f.class == 1)
    then at_cme_enotsup
    else if not (f.type == type_of f.number)
    then at_cme_enotsup
    else if ltb f.time 1 || ltb 30 f.time
    then at_cme_einval
    else at_ok

unfoldable pub scan_reason : Bytes → Option (ℕ × ℕ)
unfolding sscanf
scan_reason req =
    let r = sscanf (space ∷ uint ∷ space ∷ literal b',' ∷ space ∷ uint ∷ []) req in
    elim (count_of r) [
      | none ↦ none
      | some n ↦ if n == 2 then some (num_at r.args 0, num_at r.args 1) else none
    ]

unfoldable pub scan_forwarding : Bytes → Scanned
unfolding sscanf
scan_forwarding req =
    let comma = literal b',' in
    sscanf
      (space
        ∷ skip_uint
        ∷ space
        ∷ comma
        ∷ space
        ∷ skip_uint
        ∷ space
        ∷ comma
        ∷ space
        ∷ literal b'"'
        ∷ scanset (λ c. not (c == b'"')) 255
        ∷ literal b'"'
        ∷ space
        ∷ comma
        ∷ space
        ∷ uint
        ∷ space
        ∷ comma
        ∷ space
        ∷ uint
        ∷ space
        ∷ comma
        ∷ space
        ∷ comma
        ∷ space
        ∷ uint
        ∷ [])
      req

-- The inner `switch` of `set_ccfc`, each case falling through to the next.
unfoldable pub forwarding_of : Bytes → Option Forwarding
unfolding scan_forwarding
forwarding_of req =
    let r = scan_forwarding req in
    let number = str_at r.args 0 in
    elim (count_of r) [
      | none ↦ none
      | some n ↦
          if n == 0
          then none
          else some (record {
            number = number;
            type = if leb 2 n then num_at r.args 1 else type_of number;
            class = if leb 3 n then num_at r.args 2 else 1;
            time = if leb 4 n then num_at r.args 3 else 20;
          })
    ]

module _ {W : Type 0} (host : Host W) where
  abbrev settings : Bytes
  settings = codes "CallForwarding"

  abbrev cf_line : Bytes → Bytes
  cf_line number =
      codes "\r\n+CCFC: 1,1,\""
      ++ (number ++ (codes "\"," ++ (decimal (type_of number) ++ codes ",,")))

  -- The -1 of a property that is not there is printed as an `unsigned`.
  abbrev timeout_of : Option ℕ → ℕ
  timeout_of none = 2 ^ 32 - 1
  timeout_of (some n) = n

  -- A number that is not empty is printed; with the time for the reason 2.
  abbrev print_forwarding : ℕ → W × Option Bytes → W × ℕ
  print_forwarding reason (w, none) = (w, at_error)
  print_forwarding reason (w, some []) = (w, at_ok)
  print_forwarding reason (w, some (c ∷ number)) =
      let (w1, time) = modem_prop_get host w settings (codes "VoiceNoReplyTimeout") as_u16 in
      let line = cf_line (c ∷ number) in
      if reason == 2
      then (intermediate host w1 (line ++ (b',' ∷ decimal (timeout_of time))), at_ok)
      else (intermediate host w line, at_ok)

  unfoldable pub cf_query : W → ℕ → W × ℕ
  unfolding reason_to_prop
  cf_query w reason = elim (reason_to_prop reason) [
    | none ↦ (w, at_cme_einval)
    | some prop ↦ print_forwarding reason (modem_prop_get host w settings prop as_string)
  ]

  abbrev set_number : W → Option Bytes → Bytes → W × ℕ
  set_number w none number = (w, at_ok)
  set_number w (some prop) number = modem_prop_set host w settings prop (string number) none

  -- `cf_register` for the reasons below 4, its tests included.
  unfoldable pub cf_register_one : W → ℕ → Forwarding → W × ℕ
  unfolding forwarding_error reason_to_prop
  cf_register_one w reason f =
      let timed =
        modem_prop_set host w settings (codes "VoiceNoReplyTimeout") (uint16 (f.time % 2 ^ 16))
          none in
      if not (forwarding_error f == at_ok)
      then (w, forwarding_error f)
      else if reason == 2
      then and_then timed (λ w1. set_number w1 (reason_to_prop reason) f.number)
      else set_number w (reason_to_prop reason) f.number

  unfoldable pub cf_register_conditional : W → Forwarding → W × ℕ
  unfolding cf_register_one
  cf_register_conditional w f =
      and_then (cf_register_one w 1 f)
        (λ w1. and_then (cf_register_one w1 2 f) (λ w2. cf_register_one w2 3 f))

  unfoldable pub cf_register : W → ℕ → Forwarding → W × ℕ
  unfolding cf_register_one cf_register_conditional
  cf_register w reason f =
      if not (forwarding_error f == at_ok)
      then (w, forwarding_error f)
      else if leb reason 3
      then cf_register_one w reason f
      else if reason == 4
      then and_then (cf_register_one w 0 f) (λ w1. cf_register_conditional w1 f)
      else if reason == 5
      then cf_register_conditional w f
      else (w, at_ok)

  unfoldable pub cf_erase : W → ℕ → W × ℕ
  unfolding reason_to_prop
  cf_erase w reason = elim (reason_to_prop reason) [
    | some prop ↦ modem_prop_set host w settings prop (string []) none
    | none ↦
        modem_request host w settings (codes "DisableAll")
          (plain (string (if reason == 4 then codes "all" else codes "conditional")) ∷ [])
  ]

  abbrev register_scanned : W → ℕ → Option Forwarding → W × ℕ
  register_scanned w reason none = (w, at_cme_einval)
  register_scanned w reason (some f) = cf_register w reason f

  abbrev ccfc_to : W → Bytes → Option (ℕ × ℕ) → W × ℕ
  ccfc_to w req none = (w, at_cme_einval)
  ccfc_to w req (some (reason, mode)) =
      if ltb 5 reason
      then (w, at_cme_einval)
      else if leb mode 1
      then (w, at_cme_enotsup)
      else if mode == 2
      then cf_query w reason
      else if mode == 3
      then register_scanned w reason (forwarding_of req)
      else if mode == 4
      then cf_erase w reason
      else (w, at_cme_einval)

  unfoldable pub set_ccfc : SetCb W
  unfolding scan_reason forwarding_of cf_query cf_register cf_erase
  set_ccfc w req = ccfc_to w req (scan_reason req)

  unfoldable pub list_ccfc : GetCb W
  list_ccfc w = (intermediate host w (codes "\r\n+CCFC: (0-5)"), at_ok)

  unfoldable pub call_forwarding_register : Bank W → Bank W
  call_forwarding_register bank =
      (register_ext bank (codes "+CCFC") (ext set_ccfc none (some list_ccfc))).0
