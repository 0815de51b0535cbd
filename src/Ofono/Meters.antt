-- ===== src/Ofono/Meters.antt =====
-- plugins/ofono/callmeter.c: the meters of the calls. A `double` is its bit pattern; reading, printing
-- and testing it are parameters.
mod Forms
unfoldable pub use Forms.*
use meego_cellular_matd.Prelude.{
  ℕ, ◌+◌, ◌-◌, true, Option, none, some, List, [], ◌∷◌, ◌++◌, Bytes, codes, ltb, ◌==◌,
  if◌then◌else◌,
}
use meego_cellular_matd.Libc.Format.{decimal, hex_06}
use meego_cellular_matd.Modem.{at_ok, at_cme_error_0, at_cme_enotsup, at_cme_einval, at_cme_unknown}
use meego_cellular_matd.Commands.{GetCb, SetCb, Bank, register_ext}
use meego_cellular_matd.Dummy.{scan_number}
use meego_cellular_matd.Charset.{at_to_utf8, at_from_utf8}
use meego_cellular_matd.Ofono.{
  string, uint32, double, Argument, plain, Answer, answer, refused, Host, as_string, as_u32,
  as_double, ofono_prop_find, modem_props_get, modem_request, modem_prop_get, modem_prop_set,
  intermediate_result, unsolicited,
}
use meego_cellular_matd.Ofono.Signals.{Signal, watched, ofono_prop_matcher}
use meego_cellular_matd.Ofono.Ringing.{is_some}
use meego_cellular_matd.Ofono.Calls.{bit}
use meego_cellular_matd.Ofono.Voicecall.{ext}

module _ {W : Type 0} (host : Host W) where
  abbrev meter_line : Bytes → ℕ → Bytes
  meter_line name n = codes "\r\n+" ++ (name ++ (codes ": \"" ++ (hex_06 n ++ codes "\"")))

  unfoldable pub ccm_callback : W → Option ℕ → W
  unfolding hex_06
  ccm_callback w none = w
  ccm_callback w (some ccm) = unsolicited host w (meter_line (codes "CCCM") ccm ++ codes "\r\n")

  unfoldable pub cwv_callback : W → W
  cwv_callback w = unsolicited host w (codes "\r\n+CCWV\r\n")

  -- A signal goes through the two filters.
  unfoldable pub on_meter : W → Signal → W
  unfolding ccm_callback cwv_callback ofono_prop_matcher
  on_meter w msg =
      let p = host.plugin w in
      let w1 =
        if watched p p.caoc_filter msg
        then ccm_callback w (ofono_prop_matcher as_u32 msg.args)
        else w in
      if watched p p.ccwe_filter msg then cwv_callback w1 else w1

  -- A meter that is not there is 2 ^ 32 - 1 as a `uint32_t`.
  abbrev show_meter : W × Option ℕ → W × ℕ
  show_meter (w, none) = (w, at_cme_error_0)
  show_meter (w, some cmm) =
      if ltb 0xFFFFFF cmm
      then (w, at_cme_error_0)
      else intermediate_result host w (meter_line (codes "CAOC") cmm)

  abbrev mode_of : Option ℕ → ℕ
  mode_of none = 0
  mode_of (some mode) = mode

  unfoldable pub set_aoc : SetCb W
  unfolding caoc_watch hex_06
  set_aoc w req =
      let mode = mode_of (scan_number req) in
      let p = host.plugin w in
      if mode == 0
      then show_meter (modem_prop_get host w (codes "CallMeter") (codes "CallMeter") as_u32)
      else if mode == 1
      then (host.keep (record p { caoc_filter = none }) w, at_ok)
      else if mode == 2
      then (host.keep (record p { caoc_filter = set_once p.caoc_filter caoc_watch }) w, at_ok)
      else (w, at_cme_einval)

  unfoldable pub get_aoc : GetCb W
  get_aoc w =
      intermediate_result host w
        (codes "\r\n+CAOC: " ++ decimal (1 + bit (is_some (host.plugin w).caoc_filter)))

  unfoldable pub list_aoc : GetCb W
  list_aoc w = intermediate_result host w (codes "\r\n+CAOC: (0-2)")

  unfoldable pub reset_acm : SetCb W
  unfolding scan_pin
  reset_acm w req =
      modem_request host w (codes "CallMeter") (codes "Reset") (plain (string (scan_pin req)) ∷ [])

  abbrev show_accumulated : Bytes → W × Option ℕ → W × ℕ
  show_accumulated name (w, none) = (w, at_cme_enotsup)
  show_accumulated name (w, some n) = intermediate_result host w (meter_line name n)

  unfoldable pub get_acm : GetCb W
  unfolding hex_06
  get_acm w =
      show_accumulated (codes "CACM")
        (modem_prop_get host w (codes "CallMeter") (codes "AccumulatedCallMeter") as_u32)

  -- The password is sent even if it is empty.
  abbrev amm_to : W → Option (ℕ × Bytes) → W × ℕ
  amm_to w none = (w, at_cme_einval)
  amm_to w (some (amm, pin)) =
      modem_prop_set host w (codes "CallMeter") (codes "AccumulatedCallMeterMaximum") (uint32 amm)
        (some pin)

  unfoldable pub set_amm : SetCb W
  unfolding scan_amm
  set_amm w req = amm_to w (scan_amm req)

  unfoldable pub get_amm : GetCb W
  unfolding hex_06
  get_amm w =
      show_accumulated (codes "CAMM")
        (modem_prop_get host w (codes "CallMeter") (codes "AccumulatedCallMeterMaximum") as_u32)

  -- The price is set on an interface that is spelled otherwise.
  abbrev set_price : W × ℕ → ℕ → Bytes → W × ℕ
  set_price (w, ret) ppu pin =
      if ret == at_ok
      then modem_prop_set host w (codes "CallMetter") (codes "PricePerUnit") (double ppu)
          (pin_or_none pin)
      else (w, ret)

  abbrev set_currency : W → ℕ → Bytes → Option Bytes → W × ℕ
  set_currency w ppu pin none = (w, at_cme_einval)
  set_currency w ppu pin (some currency) =
      set_price
        (modem_prop_set host w (codes "CallMeter") (codes "Currency") (string currency)
          (pin_or_none pin))
        ppu pin

  abbrev puc_to :
      (Bytes → Bytes → ℕ → Bytes → Option Bytes) → W → Option (Bytes × ℕ × Bytes) → W × ℕ
  puc_to iconv w none = (w, at_cme_einval)
  puc_to iconv w (some (encur, ppu, pin)) =
      set_currency w ppu pin (at_to_utf8 iconv (host.modem w) encur)

  unfoldable pub set_puc : Doubles → (Bytes → Bytes → ℕ → Bytes → Option Bytes) → SetCb W
  unfolding scan_puc
  set_puc doubles iconv w req = puc_to iconv w (scan_puc doubles req)

  abbrev price_line : Doubles → W → Option Bytes → Option ℕ → W × ℕ
  price_line doubles w (some encur) (some ppu) =
      if doubles.not_below_0 ppu
      then intermediate_result host w
          (codes "\r\n+CPUC: \"" ++ (encur ++ (codes "\",\"" ++ (doubles.print ppu ++ codes "\""))))
      else (w, at_cme_unknown)
  price_line doubles w encur ppu = (w, at_cme_unknown)

  -- A currency that is not there is a null pointer, which at_from_utf8 reads.
  abbrev price_of :
      Doubles
      → (Bytes → Bytes → ℕ → Bytes → Option Bytes)
      → W
      → List Argument
      → Option Bytes
      → W × ℕ
  price_of doubles iconv w props none =
      (host.put (record (host.modem w) { aborted = true }) w, at_cme_unknown)
  price_of doubles iconv w props (some currency) =
      price_line doubles w (at_from_utf8 iconv (host.modem w) currency)
        (ofono_prop_find props (codes "PricePerUnit") as_double)

  abbrev price_to : Doubles → (Bytes → Bytes → ℕ → Bytes → Option Bytes) → W × Answer → W × ℕ
  price_to doubles iconv (w, refused err) = (w, at_cme_unknown)
  price_to doubles iconv (w, answer sender props) =
      price_of doubles iconv w props (ofono_prop_find props (codes "Currency") as_string)

  unfoldable pub get_puc : Doubles → (Bytes → Bytes → ℕ → Bytes → Option Bytes) → GetCb W
  get_puc doubles iconv w = price_to doubles iconv (modem_props_get host w (codes "CallMeter"))

  abbrev cwe_to : W → Option ℕ → W × ℕ
  cwe_to w none = (w, at_cme_einval)
  cwe_to w (some mode) =
      let p = host.plugin w in
      if mode == 0
      then (host.keep (record p { ccwe_filter = none }) w, at_ok)
      else if mode == 1
      then (host.keep (record p { ccwe_filter = set_once p.ccwe_filter ccwe_watch }) w, at_ok)
      else (w, at_cme_einval)

  unfoldable pub set_cwe : SetCb W
  unfolding ccwe_watch
  set_cwe w req = cwe_to w (scan_number req)

  unfoldable pub get_cwe : GetCb W
  get_cwe w =
      intermediate_result host w
        (codes "\r\n+CCWE: " ++ decimal (bit (is_some (host.plugin w).ccwe_filter)))

  unfoldable pub list_cwe : GetCb W
  list_cwe w = intermediate_result host w (codes "\r\n+CCWE: (0,1)")

  unfoldable pub call_meter_register :
      Doubles → (Bytes → Bytes → ℕ → Bytes → Option Bytes) → Bank W → W → Bank W × W
  call_meter_register doubles iconv bank w =
      let bank =
        (register_ext bank (codes "+CAOC") (ext set_aoc (some get_aoc) (some list_aoc))).0 in
      let bank = (register_ext bank (codes "+CACM") (ext reset_acm (some get_acm) none)).0 in
      let bank = (register_ext bank (codes "+CAMM") (ext set_amm (some get_amm) none)).0 in
      let bank =
        (register_ext bank (codes "+CPUC")
          (ext (set_puc doubles iconv) (some (get_puc doubles iconv)) none)).0 in
      (
        (register_ext bank (codes "+CCWE") (ext set_cwe (some get_cwe) (some list_cwe))).0,
        host.keep (record (host.plugin w) { caoc_filter = none; ccwe_filter = none }) w,
      )

  unfoldable pub call_meter_unregister : W → W
  call_meter_unregister w =
      host.keep (record (host.plugin w) { caoc_filter = none; ccwe_filter = none }) w
