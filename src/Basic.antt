-- ===== src/Basic.antt =====
-- src/basic.c: ATE, ATQ, ATV, ATZ, AT&F, the S parameters with a fixed value, and AT+CMEE. `W` is the
-- state of the daemon, with the modem in it.
pub mod Sane
use meego_cellular_matd.Prelude.{
  ℕ, ◌+◌, ◌-◌, Bool, not, some, ◌++◌, Bytes, codes, ltb, leb, ◌==◌, if◌then◌else◌, set,
}
use meego_cellular_matd.Libc.Scanf.{atoi}
use meego_cellular_matd.Libc.Format.{decimal, decimal_03, crlf}
use meego_cellular_matd.Modem.{
  Modem, at_ok, at_error, at_cme_einval, at_reset, set_echo, set_quiet, set_verbose,
  at_intermediate,
}
use meego_cellular_matd.Modem as Modem
use meego_cellular_matd.Commands.{
  AlphaCb, GetCb, SetCb, Handler, SHandler, Bank, register_alpha, register_s, register_ampersand,
  register_ext,
}

module _ {W : Type 0} (modem : W → Modem) (put : Modem → W → W) where
  -- An intermediate text, whatever becomes of it.
  abbrev pub print : W → Bytes → W
  print w text = put (at_intermediate (modem w) text).0 w

  -- The setter is a parameter, as in the source.
  unfoldable pub handle_bool : (Modem → Bool → Modem) → AlphaCb W
  handle_bool setter w val =
      if leb 2 val then (w, at_error) else (put (setter (modem w) (not (val == 0))) w, at_ok)

  unfoldable pub handle_set : ℕ → AlphaCb W
  handle_set good_val w val = if not (val == good_val) then (w, at_error) else (w, at_ok)

  unfoldable pub handle_get : ℕ → GetCb W
  handle_get val w = (print w (crlf ++ (decimal_03 val ++ crlf)), at_ok)

  unfoldable pub handle_reset : AlphaCb W
  handle_reset w value = (put (at_reset (modem w)) w, at_ok)

  unfoldable pub set_cmee : SetCb W
  set_cmee w req =
      if ltb 2 (atoi req)
      then (w, at_cme_einval)
      else (put (Modem.set_cmee (modem w) (atoi req)) w, at_ok)

  unfoldable pub get_cmee : GetCb W
  get_cmee w = (print w (codes "\r\n+CMEE: " ++ decimal (modem w).cmee), at_ok)

  unfoldable pub list_cmee : GetCb W
  list_cmee w = (print w (codes "\r\n+CMEE: (0-2)"), at_ok)

  abbrev pub fixed : ℕ → SHandler W
  fixed n = record { set = handle_set n; get = handle_get n }

  abbrev pub cmee : Handler W
  cmee = record { set = set_cmee; get = some get_cmee; test = some list_cmee }

  unfoldable pub register_basic : Bank W → Bank W
  register_basic bank =
      let bank = (register_alpha bank b'E' (handle_bool set_echo)).0 in
      let bank = (register_alpha bank b'Q' (handle_bool set_quiet)).0 in
      let bank = (register_alpha bank b'V' (handle_bool set_verbose)).0 in
      let bank = (register_alpha bank b'Z' handle_reset).0 in
      let bank = (register_s bank 2 (fixed 43)).0 in
      let bank = (register_s bank 3 (fixed 13)).0 in
      let bank = (register_s bank 4 (fixed 10)).0 in
      let bank = (register_s bank 5 (fixed 8)).0 in
      let bank = (register_s bank 12 (fixed 50)).0 in
      let bank = (register_ampersand bank b'F' handle_reset).0 in
      (register_ext bank (codes "+CMEE") cmee).0
