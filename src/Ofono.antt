-- ===== src/Ofono.antt =====
-- plugins/ofono/core.c, core.h and ofono.h, and at_dbus_dict_lookup_string of src/dbus.c: requests
-- to oFono over D-Bus, and the state of its plugin. The bus is a field of `Host`: a method call on
-- the daemon's state gives a reply. malloc() and the building of messages are taken to succeed.
mod Values
pub mod Signals
pub mod Calls
pub mod Ringing
pub mod Tones
pub mod Voicecall
pub mod Settings
pub mod Forwarding
pub mod Power
pub mod Sim
pub mod Ussd
pub mod Selected
pub mod Paths
pub mod Errors
pub mod HangUp
pub mod Notify
pub mod Network
pub mod Gprs
pub mod Technologies
pub mod Sms
pub mod Meters
unfoldable pub use Values.*
use meego_cellular_matd.Prelude.{
  ℕ, Option, none, some, List, [], ◌∷◌, Bytes, codes, ltb, ◌==◌, if◌then◌else◌,
}
use meego_cellular_matd.Modem.{
  at_cme_error_0, at_cme_enomem, at_cme_enoent, at_cme_unknown, at_intermediate, at_unsolicited,
}

module _ {W : Type 0} (host : Host W) where
  unfoldable pub ofono_query : W → Message → W × Answer
  ofono_query w message = let (w, reply) = host.bus w message in (w, answer_of reply)

  -- `ofono_request`
  unfoldable pub ofono_request : W → Bytes → Bytes → Bytes → List Argument → W × ℕ
  unfolding ofono_query ofono_req_new
  ofono_request w path subif method args =
      let (w, a) = ofono_query w (ofono_req_new path subif method args) in (w, error_of a)

  -- `modem_request`
  unfoldable pub modem_request : W → Bytes → Bytes → List Argument → W × ℕ
  unfolding ofono_request
  modem_request w subif method args =
      let p = host.plugin w in
      if modemc p == 0
      then (w, at_cme_error_0)
      else ofono_request w (current_modem p) subif method args

  -- `modem_req_new` and `ofono_query`; without a modem there is no message, and the caller's error.
  unfoldable pub modem_query : W → Bytes → Bytes → List Argument → ℕ → W × Answer
  unfolding ofono_query ofono_req_new
  modem_query w subif method args missing =
      let p = host.plugin w in
      if modemc p == 0
      then (w, refused missing)
      else ofono_query w (ofono_req_new (current_modem p) subif method args)

  -- `modem_props_get`; which error it is does not matter.
  unfoldable pub modem_props_get : W → Bytes → W × Answer
  unfolding modem_query
  modem_props_get w iface = modem_query w iface (codes "GetProperties") [] at_cme_unknown

  -- `modem_prop_get_string`, `_bool`, `_byte`, `_u16` and `_u32`
  unfoldable pub modem_prop_get {ℓ} :
      {A : Type ℓ} → W → Bytes → Bytes → (Value → Option A) → W × Option A
  unfolding modem_props_get ofono_prop_find
  modem_prop_get w iface name type =
      let (w, a) = modem_props_get w iface in (w, prop_of name type a)

  -- `modem_prop_set`; a password follows the value if there is one.
  abbrev pub password : Option Bytes → List Argument
  password none = []
  password (some pass) = plain (string pass) ∷ []

  unfoldable pub modem_prop_set : W → Bytes → Bytes → Value → Option Bytes → W × ℕ
  unfolding modem_query
  modem_prop_set w iface name value pass =
      let (w, a) =
        modem_query w iface (codes "SetProperty")
          (plain (string name) ∷ variant value ∷ password pass) at_cme_enomem in
      (w, error_of a)

  -- `voicecall_request`
  unfoldable pub voicecall_request : W → ℕ → Bytes → List Argument → W × ℕ
  unfolding ofono_request voicecall_path
  voicecall_request w callid method args =
      let p = host.plugin w in
      if modemc p == 0
      then (w, at_cme_error_0)
      else if ltb 99 callid
      then (w, at_cme_enoent)
      else ofono_request w (voicecall_path (current_modem p) callid) (codes "VoiceCall") method args

  -- `at_intermediate`, with its result or with AT_OK, and `at_unsolicited`.
  unfoldable pub intermediate_result : W → Bytes → W × ℕ
  intermediate_result w text =
      let (m, res) = at_intermediate (host.modem w) text in (host.put m w, res)

  abbrev pub intermediate : W → Bytes → W
  intermediate w text = (intermediate_result w text).0

  unfoldable pub unsolicited : W → Bytes → W
  unsolicited w text = host.put (at_unsolicited (host.modem w) text).0 w
