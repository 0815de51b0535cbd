-- ===== src/Ofono/Sms.antt =====
-- plugins/ofono/sms.c: the settings of the message service, and the sending of messages as text or
-- as a PDU. `char` is signed; the building of messages is taken to succeed.
mod Forms
pub mod Pdu
unfoldable pub use Forms.*
use meego_cellular_matd.Prelude.{
  ℕ, ◌+◌, ◌-◌, ◌%◌, ◌^◌, inl, inr, true, false, not, Option, none, some, [], ◌∷◌, ◌++◌, Bytes,
  codes, ltb, ◌==◌, if◌then◌else◌, length, get_elem?,
}
use meego_cellular_matd.Libc.Format.{decimal}
use meego_cellular_matd.Modem.{
  at_ok, at_error, at_cme_enotsup, at_cme_einval, at_cme_enomem, at_cms_enotsup, at_cms_pdu_einval,
  at_cms_txt_einval, at_cms_enomem, at_cms_unknown,
}
use meego_cellular_matd.Commands.{GetCb, SetCb, Bank, register_ext}
use meego_cellular_matd.Dummy.{scan_number}
use meego_cellular_matd.Charset.{at_to_utf8}
use meego_cellular_matd.Input.{Reader, Entry, out_of_fuel, cancelled, entered, read_text}
use meego_cellular_matd.Input.Text.{stream}
use meego_cellular_matd.Ofono.{
  string, byte_arrays, plain, dict, Answer, answer, refused, Host, as_string, modem_query,
  modem_prop_get, modem_prop_set, intermediate, intermediate_result,
}
use meego_cellular_matd.Ofono.Signals.{first_string}
use meego_cellular_matd.Ofono.Calls.{type_of, bit, find_state}
use meego_cellular_matd.Ofono.Voicecall.{ext}

module _ {W : Type 0} (host : Host W) where
  -- A read behind the table is undefined; the modem then counts as aborted.
  unfoldable pub set_cgsms : SetCb W
  set_cgsms w req = elim (scan_number req) [
    | none ↦ (w, at_error)
    | some service ↦ if ltb 4 service then (w, at_error) else elim (get_elem? bearers service) [
      | none ↦ (host.put (record (host.modem w) { aborted = true }) w, at_error)
      | some bearer ↦
          modem_prop_set host w (codes "MessageManager") (codes "Bearer") (string bearer) none
    ]
  ]

  abbrev show_bearer : W × Option Bytes → W × ℕ
  show_bearer (w, none) = (w, at_error)
  show_bearer (w, some bearer) = elim (find_state bearers bearer) [
    | none ↦ (w, at_error)
    | some service ↦ (intermediate host w (codes "\r\n+CGSMS: " ++ decimal service), at_ok)
  ]

  unfoldable pub get_cgsms : GetCb W
  get_cgsms w =
      show_bearer (modem_prop_get host w (codes "MessageManager") (codes "Bearer") as_string)

  unfoldable pub list_cgsms : GetCb W
  list_cgsms w = (intermediate host w (codes "\r\n+CGSMS: (0-3)"), at_ok)

  unfoldable pub set_csms : SetCb W
  set_csms w req = elim (scan_number req) [
    | none ↦ (w, at_error)
    | some service ↦
        if ltb 0 service
        then (w, at_cms_enotsup)
        else intermediate_result host w (codes "\r\n+CSMS: 1,1,1")
  ]

  unfoldable pub get_csms : GetCb W
  get_csms w = intermediate_result host w (codes "\r\n+CSMS: 0,1,1,1")

  unfoldable pub list_csms : GetCb W
  list_csms w = intermediate_result host w (codes "\r\n+CSMS: (0)")

  unfoldable pub set_csca : SetCb W
  unfolding scan_address
  set_csca w req = elim (scan_address 255 at_error req) [
    | inr err ↦ (w, err)
    | inl number ↦
        modem_prop_set host w (codes "MessageManager") (codes "ServiceCenterAddress")
          (string number) none
  ]

  abbrev show_centre : W × Option Bytes → W × ℕ
  show_centre (w, none) = (w, at_cms_unknown)
  show_centre (w, some number) = (
    intermediate host w
        (codes "\r\n+CSCA: \"" ++ (number ++ (codes "\"," ++ decimal (type_of number)))),
    at_ok,
  )

  unfoldable pub get_csca : GetCb W
  get_csca w =
      show_centre
        (modem_prop_get host w (codes "MessageManager") (codes "ServiceCenterAddress") as_string)

  abbrev mode_of : Option ℕ → ℕ
  mode_of none = 0
  mode_of (some mode) = mode

  unfoldable pub set_cmgf : SetCb W
  set_cmgf w req =
      let mode = mode_of (scan_number req) in
      if ltb 1 mode
      then (w, at_cms_enotsup)
      else (host.keep (record (host.plugin w) { text_mode = not (mode == 0) }) w, at_ok)

  unfoldable pub get_cmgf : GetCb W
  get_cmgf w =
      intermediate_result host w (codes "\r\n+CMGF: " ++ decimal (bit (host.plugin w).text_mode))

  unfoldable pub list_cmgf : GetCb W
  list_cmgf w = intermediate_result host w (codes "\r\n+CMGF: (0-1)")

  abbrev mms_to : W → Option ℕ → W × ℕ
  mms_to w none = (w, at_cme_einval)
  mms_to w (some n) = (w, if n == 2 then at_ok else at_cme_enotsup)

  unfoldable pub set_mms : SetCb W
  set_mms w req = mms_to w (scan_number req)

  unfoldable pub get_mms : GetCb W
  get_mms w = intermediate_result host w (codes "\r\n+CMMS: 2")

  unfoldable pub list_mms : GetCb W
  list_mms w = intermediate_result host w (codes "\r\n+CMMS: (2)")

-- The commands that read from the DTE.
module _ {W : Type 0} (host : Host W) (reader : W → Reader) (put_reader : Reader → W → W) where
  abbrev read_entry : W → Entry → W × Option Bytes
  read_entry w out_of_fuel = (w, none)
  read_entry w (cancelled m r) = (put_reader r (host.put m w), none)
  read_entry w (entered m r t) = (put_reader r (host.put m w), some t)

  -- `at_read_text`, with fuel for all the bytes to come.
  unfoldable pub at_read_text : W → Bytes → W × Option Bytes
  unfolding read_text
  at_read_text w prompt =
      let r = reader w in read_entry w (read_text (length (stream r) + 1) (host.modem w) r prompt)

  abbrev pub prompt : Bytes
  prompt = codes "\r\n> "

  -- The answer to the request for sending, and the last line.
  abbrev pub sent_text : W × Answer → W × ℕ
  sent_text (w, refused err) = (w, err)
  sent_text (w, answer sender args) = elim (first_string args) [
    | none ↦ (w, at_cms_unknown)
    | some path ↦ (intermediate host w (codes "\r\n+CMGS: 0"), at_ok)
  ]

  abbrev send_utf8 : W → Bytes → Option Bytes → W × ℕ
  send_utf8 w number none = (w, at_cms_txt_einval)
  send_utf8 w number (some utf8) = sent_text (
      modem_query host w (codes "MessageManager") (codes "SendMessage")
        (plain (string number) ∷ plain (string utf8) ∷ []) at_cms_enomem)

  abbrev text_to : (Bytes → Bytes → ℕ → Bytes → Option Bytes) → Bytes → W × Option Bytes → W × ℕ
  text_to iconv number (w, none) = (w, at_ok)
  text_to iconv number (w, some text) = send_utf8 w number (at_to_utf8 iconv (host.modem w) text)

  unfoldable pub send_text : (Bytes → Bytes → ℕ → Bytes → Option Bytes) → SetCb W
  unfolding scan_address at_read_text
  send_text iconv w req = elim (scan_address 20 at_cms_txt_einval req) [
    | inr err ↦ (w, err)
    | inl number ↦ text_to iconv number (at_read_text w prompt)
  ]

  abbrev pub sent_pdu : W × Answer → W × ℕ
  sent_pdu (w, refused err) = (w, err)
  sent_pdu (w, answer sender args) = elim (first_string args) [
    | none ↦ (w, at_cms_unknown)
    | some path ↦ intermediate_result host w (codes "\r\n+CMGS: 0")
  ]

  -- A PDU with the length that the parameter tells is sent in an array of one, with no options.
  abbrev pub send_bytes : W → ℕ → Option Bytes → W × ℕ
  send_bytes w len none = (w, at_cms_pdu_einval)
  send_bytes w len (some pdu) =
      if has_length pdu len
      then sent_pdu (
          modem_query host w (codes "MessageManager") (codes "SendMessagePDU")
            (plain (byte_arrays (pdu ∷ [])) ∷ dict [] ∷ []) at_cme_enomem)
      else (w, at_cms_pdu_einval)

  abbrev pub pdu_to : ℕ → W × Option Bytes → W × ℕ
  pdu_to len (w, none) = (w, at_ok)
  pdu_to len (w, some text) = send_bytes w len (pdu_bytes text)

  abbrev pub pdu_req : W → Option ℕ → W × ℕ
  pdu_req w none = (w, at_cms_pdu_einval)
  pdu_req w (some len) = pdu_to (len % 2 ^ 16) (at_read_text w prompt)

  unfoldable pub send_pdu : SetCb W
  unfolding at_read_text pdu_bytes has_length
  send_pdu w req = pdu_req w (scan_number req)

  unfoldable pub set_cmgs : (Bytes → Bytes → ℕ → Bytes → Option Bytes) → SetCb W
  unfolding send_text send_pdu
  set_cmgs iconv w req = if (host.plugin w).text_mode then send_text iconv w req else send_pdu w req

  unfoldable pub sms_register : (Bytes → Bytes → ℕ → Bytes → Option Bytes) → Bank W → W → Bank W × W
  sms_register iconv bank w =
      let bank =
        (register_ext bank (codes "+CGSMS")
          (ext (set_cgsms host) (some (get_cgsms host)) (some (list_cgsms host)))).0 in
      let bank =
        (register_ext bank (codes "+CSMS")
          (ext (set_csms host) (some (get_csms host)) (some (list_csms host)))).0 in
      let bank =
        (register_ext bank (codes "+CSCA") (ext (set_csca host) (some (get_csca host)) none)).0 in
      let bank =
        (register_ext bank (codes "+CMGF")
          (ext (set_cmgf host) (some (get_cmgf host)) (some (list_cmgf host)))).0 in
      let bank = (register_ext bank (codes "+CMGS") (ext (set_cmgs iconv) none none)).0 in
      (
        (register_ext bank (codes "+CMMS")
            (ext (set_mms host) (some (get_mms host)) (some (list_mms host)))).0,
        host.keep (record (host.plugin w) { text_mode = false }) w,
      )
