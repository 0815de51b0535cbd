-- ===== src/Ofono/Sim/Pins.antt =====
-- plugins/ofono/sim.c: the passwords of the SIM, AT+CPIN, AT+CPINR, AT+CLCK and AT+CPWD.
mod Tables
unfoldable pub use Tables.*
use meego_cellular_matd.Prelude.{
  ℕ, ◌+◌, inl, inr, Bool, true, false, not, Option, none, some, List, [], ◌∷◌, ◌++◌, map, Bytes,
  codes, ltb, ◌==◌, if◌then◌else◌,
}
use meego_cellular_matd.Libc.Ctype.{streq}
use meego_cellular_matd.Libc.Format.{decimal}
use meego_cellular_matd.Modem.{at_ok, at_cme_error_0, at_cme_enotsup, at_cme_einval, at_cme_unknown}
use meego_cellular_matd.Commands.{GetCb, SetCb}
use meego_cellular_matd.Ofono.{
  string, plain, Answer, answer, refused, Host, at_cme_error, as_string, as_bool, as_array,
  as_counts, ofono_prop_find, modem_request, modem_props_get, intermediate,
}
use meego_cellular_matd.Ofono.Calls.{bit}

module _ {W : Type 0} (host : Host W) where
  abbrev sim : W → Bytes → List Bytes → W × ℕ
  sim w method args =
      modem_request host w (codes "SimManager") method (map (λ s. plain (string s)) args)

  abbrev checked : W × ℕ → W × ℕ
  checked (w, ret) = (w, bad_password ret)

  abbrev is_absent : Option Bool → Bool
  is_absent none = false
  is_absent (some present) = not present

  -- The request of AT+CPIN, once it is known which password is wanted.
  abbrev enter : W → Bytes → Bytes × Option Bytes → W × ℕ
  enter w type (pw, none) = sim w (codes "EnterPin") (type ∷ pw ∷ [])
  enter w type (pw, some newpin) = sim w (codes "ResetPin") (type ∷ pw ∷ newpin ∷ [])

  abbrev required : W → Bytes × Option Bytes → Option Bytes → W × ℕ
  required w given none = (w, at_cme_unknown)
  required w given (some type) =
      if streq type (codes "none") then (w, at_cme_einval) else enter w type given

  abbrev enter_to : Bytes × Option Bytes → W × Answer → W × ℕ
  enter_to given (w, refused err) = (w, at_cme_unknown)
  enter_to given (w, answer sender msg) =
      if is_absent (ofono_prop_find msg (codes "Present") as_bool)
      then (w, at_cme_error 10)
      else required w given (ofono_prop_find msg (codes "PinRequired") as_string)

  unfoldable pub set_cpin : SetCb W
  unfolding scan_cpin bad_password streq
  set_cpin w req = elim (scan_cpin req) [
    | none ↦ (w, at_cme_einval)
    | some given ↦ checked (enter_to given (modem_props_get host w (codes "SimManager")))
  ]

  abbrev print_code : W → Option Bytes → W × ℕ
  print_code w none = (w, at_cme_unknown)
  print_code w (some code) = (intermediate host w (codes "\r\n+CPIN: " ++ code), at_ok)

  abbrev code_for : W → Option Bytes → W × ℕ
  code_for w none = (w, at_cme_unknown)
  code_for w (some type) = print_code w (ofono_to_code type)

  abbrev code_to : W × Answer → W × ℕ
  code_to (w, refused err) = (w, at_cme_unknown)
  code_to (w, answer sender msg) =
      if is_absent (ofono_prop_find msg (codes "Present") as_bool)
      then (w, at_cme_error 10)
      else code_for w (ofono_prop_find msg (codes "PinRequired") as_string)

  unfoldable pub get_cpin : GetCb W
  unfolding ofono_to_code
  get_cpin w = code_to (modem_props_get host w (codes "SimManager"))

  -- fnmatch() is a parameter; a value that is no byte ends the loop.
  abbrev print_retries : W → Bytes → ℕ → W
  print_retries w pw n = intermediate host w (codes "\r\n+CPINR: " ++ (pw ++ (b',' ∷ decimal n)))

  abbrev wants : (Bytes → Bytes → Bool) → Option Bytes → Bytes → Bool
  wants fnmatch none pw = true
  wants fnmatch (some pattern) pw = fnmatch pattern pw

  abbrev named_code : (Bytes → Bytes → Bool) → Option Bytes → Option Bytes → Option Bytes
  named_code fnmatch pattern none = none
  named_code fnmatch pattern (some pw) = if wants fnmatch pattern pw then some pw else none

  unfoldable pub retry_lines :
      (Bytes → Bytes → Bool) → Option Bytes → W → List (Bytes × Option ℕ) → W
  unfolding ofono_to_code
  retry_lines fnmatch pattern w [] = w
  retry_lines fnmatch pattern w ((key, value) ∷ entries) =
      elim (named_code fnmatch pattern (ofono_to_code key)) [
        | none ↦ retry_lines fnmatch pattern w entries
        | some pw ↦ elim value [
          | none ↦ w
          | some n ↦ retry_lines fnmatch pattern (print_retries w pw n) entries
        ]
      ]

  abbrev retries_of :
      (Bytes → Bytes → Bool) → Option Bytes → W → Option (List (Bytes × Option ℕ)) → W × ℕ
  retries_of fnmatch pattern w none = (w, at_cme_unknown)
  retries_of fnmatch pattern w (some entries) = (retry_lines fnmatch pattern w entries, at_ok)

  abbrev retries_to : (Bytes → Bytes → Bool) → Option Bytes → W × Answer → W × ℕ
  retries_to fnmatch pattern (w, refused err) = (w, at_cme_error_0)
  retries_to fnmatch pattern (w, answer sender msg) =
      retries_of fnmatch pattern w (ofono_prop_find msg (codes "Retries") as_counts)

  unfoldable pub query_pinr : (Bytes → Bytes → Bool) → SetCb W
  unfolding pattern_of retry_lines
  query_pinr fnmatch w req = elim (pattern_of req) [
    | inr err ↦ (w, err)
    | inl pattern ↦ retries_to fnmatch pattern (modem_props_get host w (codes "SimManager"))
  ]

  unfoldable pub lock_pin : W → Bytes → Bytes → Bool → W × ℕ
  unfolding bad_password
  lock_pin w type pass lock =
      checked (sim w (if lock then codes "LockPin" else codes "UnlockPin") (type ∷ pass ∷ []))

  abbrev print_locked : W → Bytes → Option (List Bytes) → W × ℕ
  print_locked w type none = (w, at_cme_unknown)
  print_locked w type (some keys) =
      (intermediate host w (codes "\r\n+CLCK: " ++ decimal (bit (is_in type keys))), at_ok)

  abbrev locked_to : Bytes → W × Answer → W × ℕ
  locked_to type (w, refused err) = (w, at_cme_error_0)
  locked_to type (w, answer sender msg) =
      print_locked w type (ofono_prop_find msg (codes "LockedPins") as_array)

  unfoldable pub query_pin : W → Bytes → W × ℕ
  unfolding is_in
  query_pin w type = locked_to type (modem_props_get host w (codes "SimManager"))

  abbrev clck_type : W → ℕ → Bytes → Option Bytes → W × ℕ
  clck_type w mode pwd none = (w, at_cme_enotsup)
  clck_type w mode pwd (some type) =
      if mode == 2 then query_pin w type else lock_pin w type pwd (not (mode == 0))

  unfoldable pub set_clck : SetCb W
  unfolding scan_clck fac_to_ofono query_pin lock_pin
  set_clck w req = elim (scan_clck req) [
    | none ↦ (w, at_cme_einval)
    | some (fac, mode, pwd) ↦
        if ltb 2 mode then (w, at_cme_einval) else clck_type w mode pwd (fac_to_ofono fac)
  ]

  unfoldable pub list_clck : GetCb W
  list_clck w = (
    intermediate host w
        (codes "\r\n+CLCK: (\"PS\",\"PF\",\"SC\",\"PN\",\"PU\"," ++ codes "\"PP\",\"PC\")"),
    at_ok,
  )

  -- A facility of the SIM, or the one for call barring.
  abbrev change : W → Bytes → Bytes → Bytes → Option Bytes → W × ℕ
  change w fac oldpin newpin (some type) = sim w (codes "ChangePin") (type ∷ oldpin ∷ newpin ∷ [])
  change w fac oldpin newpin none =
      if streq fac (codes "AB")
      then modem_request host w (codes "CallBarring") (codes "ChangePassword")
          (plain (string oldpin) ∷ plain (string newpin) ∷ [])
      else (w, at_cme_enotsup)

  unfoldable pub set_cpwd : SetCb W
  unfolding scan_cpwd fac_to_ofono bad_password streq
  set_cpwd w req = elim (scan_cpwd req) [
    | none ↦ (w, at_cme_einval)
    | some (fac, oldpin, newpin) ↦ checked (change w fac oldpin newpin (fac_to_ofono fac))
  ]

  unfoldable pub list_cpwd : GetCb W
  list_cpwd w = (
    intermediate host w (
        codes "\r\n+CPWD: (\"PS\",8),(\"PF\",8),(\"SC\",8),"
        ++ (codes "(\"PN\",8),(\"PU\",8),(\"PP\",8),(\"PC\",8)," ++ codes "(\"P2\",8),(\"AB\",8)")),
    at_ok,
  )
