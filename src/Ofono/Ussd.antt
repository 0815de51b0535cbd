-- ===== src/Ofono/Ussd.antt =====
-- plugins/ofono/ss.c: AT+CUSD. iconv() is a parameter.
mod Text
unfoldable pub use Text.*
use meego_cellular_matd.Prelude.{
  ℕ, ◌+◌, ◌-◌, true, not, Option, none, some, [], ◌∷◌, ◌++◌, Bytes, codes, ◌==◌, if◌then◌else◌,
  length,
}
use meego_cellular_matd.Libc.Ctype.{streq}
use meego_cellular_matd.Libc.Format.{decimal}
use meego_cellular_matd.Modem.{
  Modem, at_ok, at_cme_ebusy, at_cme_enotsup, at_cme_einval, at_cme_unknown,
}
use meego_cellular_matd.Charset.{at_to_utf8, at_from_utf8}
use meego_cellular_matd.Commands.{GetCb, SetCb, Bank, register_ext}
use meego_cellular_matd.Ofono.{
  string, plain, ofono_modem, Watch, Host, as_string, modem_request, modem_prop_get,
  intermediate_result, unsolicited,
}
use meego_cellular_matd.Ofono.Signals.{Signal, ofono_signal_watch, watched, first_string}
use meego_cellular_matd.Ofono.Calls.{bit}
use meego_cellular_matd.Ofono.Ringing.{is_some}
use meego_cellular_matd.Ofono.Voicecall.{ext}

module _ {W : Type 0} (host : Host W) (iconv : Bytes → Bytes → ℕ → Bytes → Option Bytes) where
  unfoldable pub cb_decode : Modem → ℕ → Bytes → Decoded
  unfolding cb_dcs sms16_decode
  cb_decode m dcs str = elim (cb_dcs dcs) [
    | none ↦ not_decoded
    | some n ↦
        if n == 7
        then decoded_option (at_to_utf8 iconv m str)
        else if n == 16
        then sms16_decode str
        else not_decoded
  ]

  abbrev report_ussd : W → Option ℕ → Option Bytes → W
  report_ussd w (some m) (some str) =
      unsolicited host w
        (codes "\r\n+CUSD: " ++ (decimal m ++ (codes ",\"" ++ (str ++ codes "\",0\r\n"))))
  report_ussd w m str = w

  abbrev encoded : W → Option Bytes → Option Bytes
  encoded w none = none
  encoded w (some message) = at_from_utf8 iconv (host.modem w) message

  unfoldable pub ussd_cb : W → Signal → W
  unfolding ussd_event
  ussd_cb w msg = report_ussd w (ussd_event msg.member) (encoded w (first_string msg.args))

  -- A signal that the filter of AT+CUSD lets pass.
  unfoldable pub on_ussd : W → Signal → W
  unfolding ussd_cb
  on_ussd w msg = let p = host.plugin w in if watched p p.ussd_filter msg then ussd_cb w msg else w

  abbrev pub ussd_watch : Watch
  ussd_watch = ofono_signal_watch ofono_modem (codes "SupplementaryServices") none none

  -- The state of the service decides where the text goes.
  abbrev send_ussd : Bytes → W × Option Bytes → W × ℕ
  send_ussd u8 (w, none) = (w, at_cme_unknown)
  send_ussd u8 (w, some state) =
      if streq state (codes "idle")
      then modem_request host w (codes "SupplementaryServices") (codes "Command")
          (plain (string u8) ∷ [])
      else if streq state (codes "active")
      then (w, at_cme_ebusy)
      else if streq state (codes "user-response")
      then modem_request host w (codes "SupplementaryServices") (codes "Respond")
          (plain (string u8) ∷ [])
      else (w, at_cme_unknown)

  -- A read behind the text is undefined; the modem then counts as aborted.
  abbrev send_decoded : W → Decoded → W × ℕ
  send_decoded w not_decoded = (w, at_cme_enotsup)
  send_decoded w past_end = (host.put (record (host.modem w) { aborted = true }) w, at_cme_enotsup)
  send_decoded w (decoded u8) =
      send_ussd u8 (modem_prop_get host w (codes "SupplementaryServices") (codes "State") as_string)

  unfoldable pub send_text : W → ℕ → Bytes → W × ℕ
  unfolding cb_decode streq
  send_text w dcs [] = (w, at_ok)
  send_text w dcs (c ∷ str) = send_decoded w (cb_decode (host.modem w) dcs (c ∷ str))

  -- The mode sets or removes the filter, or cancels the session.
  abbrev pub cusd_to : W → Option (ℕ × Bytes × ℕ) → W × ℕ
  cusd_to w none = (w, at_cme_einval)
  cusd_to w (some (n, str, dcs)) =
      let p = host.plugin w in
      if n == 0
      then send_text (host.keep (record p { ussd_filter = none }) w) dcs str
      else if n == 1
      then send_text (host.keep (record p { ussd_filter = some ussd_watch }) w) dcs str
      else if n == 2
      then (if not (length str == 0)
          then (w, at_cme_enotsup)
          else modem_request host w (codes "SupplementaryServices") (codes "Cancel") [])
      else (w, at_cme_enotsup)

  unfoldable pub set_ussd : SetCb W
  unfolding scan_cusd send_text ofono_signal_watch
  set_ussd w req = cusd_to w (scan_cusd req)

  unfoldable pub get_ussd : GetCb W
  get_ussd w =
      intermediate_result host w
        (codes "\r\n+CUSD: " ++ decimal (bit (is_some (host.plugin w).ussd_filter)))

  unfoldable pub list_ussd : GetCb W
  list_ussd w = intermediate_result host w (codes "\r\n+CUSD: (0-2)")

  unfoldable pub ss_register : Bank W → W → Bank W × W
  ss_register bank w = (
    (register_ext bank (codes "+CUSD") (ext set_ussd (some get_ussd) (some list_ussd))).0,
    host.keep (record (host.plugin w) { ussd_filter = none }) w,
  )

  unfoldable pub ss_unregister : W → W
  ss_unregister w = host.keep (record (host.plugin w) { ussd_filter = none }) w
