-- ===== src/Interface.antt =====
-- plugins/interface.c: the parameters of the interface to the DTE, on the attributes of the
-- terminal. `Terminal` stands for tcgetattr() and tcsetattr(); `W` is the state of the daemon, with
-- the modem and the plugin's flow control parameters in it.
mod Formats
pub mod Framing
unfoldable pub use Formats.*
use meego_cellular_matd.Prelude.{
  ℕ, ◌+◌, ◌-◌, true, false, not, ◌||◌, Option, none, some, ◌∷◌, ◌++◌, Bytes, codes, ltb, leb, ◌==◌,
  if◌then◌else◌, set,
}
use meego_cellular_matd.Libc.Format.{decimal}
use meego_cellular_matd.Modem.{Modem, at_ok, at_error, at_cme_einval, at_intermediate}
use meego_cellular_matd.Modem as Modem
use meego_cellular_matd.Commands.{
  AlphaCb, GetCb, SetCb, Handler, Bank, register_ampersand, register_ext,
}
use meego_cellular_matd.Dummy.{scan_number}
use meego_cellular_matd.Rate.{rates, find_row}

module _ {W : Type 0} (modem : W → Modem) (put : Modem → W → W) (terminal : Terminal W)
    (conf : W → ℕ × ℕ) (keep : ℕ × ℕ → W → W) (at_execute : W → Bytes → W × ℕ) where
  abbrev pub print : W → Bytes → W × ℕ
  print w text = (put (at_intermediate (modem w) text).0 w, at_ok)

  unfoldable pub at_get_attr : W → Termios
  at_get_attr w = attr_or_zero (terminal.tcgetattr w)

  -- `at_set_attr`, with ERROR where it fails.
  unfoldable pub at_set_attr : W → Termios → W × ℕ
  at_set_attr w tp =
      let (w1, taken) = terminal.tcsetattr w tp in if taken then (w1, at_ok) else (w1, at_error)

  unfoldable pub handle_dcd : AlphaCb W
  handle_dcd w value = if value == 0 || value == 1 then (w, at_ok) else (w, at_error)

  unfoldable pub handle_dtr : AlphaCb W
  unfolding at_get_attr at_set_attr
  handle_dtr w value =
      let tp = at_get_attr w in
      if value == 0
      then at_set_attr w (record tp { clocal = true })
      else if value == 2 || value == 3
      then at_set_attr w (record tp { clocal = false })
      else (w, at_error)

  abbrev flow_command : ℕ → Bytes
  flow_command value = codes "+IFC=" ++ (decimal value ++ (b',' ∷ decimal value))

  unfoldable pub redirect_flow : AlphaCb W
  redirect_flow w value =
      if value == 3
      then at_execute w (flow_command 2)
      else if value == 4
      then at_execute w (flow_command 1)
      else if not (value == 0)
      then (w, at_cme_einval)
      else at_execute w (flow_command 0)

  -- The row for the rate, or a null pointer.
  abbrev set_row : W → Option ℕ → W × ℕ
  set_row w none = (w, at_error)
  set_row w (some rate) = at_set_attr w (record (at_get_attr w) { ispeed = rate; ospeed = rate })

  abbrev rate_to : W → Option ℕ → W × ℕ
  rate_to w none = (w, at_error)
  rate_to w (some value) = if value == 0 then (w, at_ok) else set_row w (find_row rates value)

  unfoldable pub set_rate : SetCb W
  unfolding find_row at_get_attr at_set_attr
  set_rate w req = rate_to w (scan_number req)

  unfoldable pub get_rate : GetCb W
  unfolding find_row at_get_attr
  get_rate w = elim (find_row rates (at_get_attr w).ispeed) [
    | none ↦ (w, at_error)
    | some rate ↦ print w (codes "\r\n+IPR: " ++ decimal rate)
  ]

  unfoldable pub list_rate : GetCb W
  list_rate w = print w (
      codes "\r\n+IPR: (0,50,75,110,134,150,200,300,600,1200,2400,"
      ++ (codes "4800,9600,19200,38400,57600,115200,230400,460800,500000,"
          ++ (codes "576000,921600,1000000,1152000,1500000,2000000,2500000,"
              ++ codes "3000000,3500000,4000000)")))

  abbrev pub framing_to : W → Option (ℕ × ℕ) → W × ℕ
  framing_to w none = (w, at_error)
  framing_to w (some (format, parity)) =
      if ltb 6 format || ltb 3 parity
      then (w, at_error)
      else at_set_attr w (with_framing (at_get_attr w) format parity)

  unfoldable pub set_framing : SetCb W
  unfolding scan_pair with_framing at_get_attr at_set_attr
  set_framing w req = framing_to w (scan_pair 3 req)

  abbrev pub print_framing : W → Option (ℕ × ℕ) → W × ℕ
  print_framing w none = (w, at_error)
  print_framing w (some (format, parity)) =
      print w (codes "\r\n+ICF: " ++ (decimal format ++ (b',' ∷ decimal parity)))

  unfoldable pub get_framing : GetCb W
  unfolding read_framing at_get_attr
  get_framing w =
      let tp = at_get_attr w in
      print_framing w (read_framing tp.csize tp.cstopb tp.parenb tp.parodd tp.cmspar)

  unfoldable pub list_framing : GetCb W
  list_framing w = print w (codes "\r\n+ICF: (1-6),(0-3)")

  -- The parameters are stored once the terminal has taken them.
  abbrev stored : ℕ × ℕ → W × ℕ → W × ℕ
  stored flow (w, res) = if res == at_ok then (keep flow w, at_ok) else (w, res)

  abbrev pub fc_to : W → Option (ℕ × ℕ) → W × ℕ
  fc_to w none = (w, at_error)
  fc_to w (some (out, in_flow)) =
      if leb 3 out || leb 3 in_flow
      then (w, at_error)
      else stored (out, in_flow) (at_set_attr w (with_flow (at_get_attr w) out in_flow))

  unfoldable pub set_fc : SetCb W
  unfolding scan_pair with_flow at_get_attr at_set_attr
  set_fc w req = fc_to w (scan_pair 2 req)

  unfoldable pub get_fc : GetCb W
  get_fc w = print w (codes "\r\n+IFC: " ++ (decimal (conf w).0 ++ (b',' ∷ decimal (conf w).1)))

  unfoldable pub list_fc : GetCb W
  list_fc w = print w (codes "\r\n+IFC: (0-2),(0-2)")

  unfoldable pub set_rate_report : SetCb W
  set_rate_report w req = elim (scan_number req) [
    | none ↦ (w, at_error)
    | some report ↦
        if ltb 1 report
        then (w, at_error)
        else (put (Modem.set_rate_report (modem w) (not (report == 0))) w, at_ok)
  ]

  unfoldable pub get_rate_report : GetCb W
  get_rate_report w =
      print w (codes "\r\n+ILRR: " ++ (if (modem w).rate_report then codes "1" else codes "0"))

  unfoldable pub list_rate_report : GetCb W
  list_rate_report w = print w (codes "\r\n+ILRR: (0,1)")

  unfoldable pub set_dsr : SetCb W
  set_dsr w req = elim (scan_number req) [
    | none ↦ (w, at_error)
    | some mode ↦ if ltb 0 mode then (w, at_error) else (w, at_ok)
  ]

  unfoldable pub get_dsr : GetCb W
  get_dsr w = print w (codes "\r\n+IDSR: 0")

  unfoldable pub list_dsr : GetCb W
  list_dsr w = print w (codes "\r\n+IDSR: (0)")

  abbrev three : SetCb W → GetCb W → GetCb W → Handler W
  three set get test = record { set = set; get = some get; test = some test }

  -- `at_plugin_register`, with the default of the flow control.
  unfoldable pub register_interface : Bank W → W → Bank W × W
  register_interface bank w =
      let bank = (register_ampersand bank b'C' handle_dcd).0 in
      let bank = (register_ampersand bank b'D' handle_dtr).0 in
      let bank = (register_ampersand bank b'K' redirect_flow).0 in
      let bank = (register_ext bank (codes "+IPR") (three set_rate get_rate list_rate)).0 in
      let bank =
        (register_ext bank (codes "+ICF") (three set_framing get_framing list_framing)).0 in
      let bank =
        (register_ext bank (codes "+ILRR")
          (three set_rate_report get_rate_report list_rate_report)).0 in
      let bank = (register_ext bank (codes "+IDSR") (three set_dsr get_dsr list_dsr)).0 in
      let bank = (register_ext bank (codes "+IFC") (three set_fc get_fc list_fc)).0 in
      (bank, keep (2, 2) w)
