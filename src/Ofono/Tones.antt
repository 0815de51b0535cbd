-- ===== src/Ofono/Tones.antt =====
-- plugins/ofono/voicecall.c: AT+VTS. The buffer of tones is the list of those stored.
pub mod Sent
use meego_cellular_matd.Prelude.{
  ℕ, zero, suc, ◌+◌, Bool, false, not, ◌&&◌, ◌||◌, Option, none, some, [], ◌∷◌, ◌++◌, Bytes, codes,
  leb, ◌==◌, if◌then◌else◌, length, drop,
}
use meego_cellular_matd.Libc.Ctype.{is_digit}
use meego_cellular_matd.Libc.Scanf.{
  space, literal, uint, char, skip_uint, offset, sscanf, count_of, num_at, chr_at, pos_of, Scanned,
}
use meego_cellular_matd.Modem.{at_error, at_cme_enotsup, at_cme_einval}
use meego_cellular_matd.Commands.{GetCb, SetCb}
use meego_cellular_matd.Modem.{at_ok}
use meego_cellular_matd.Ofono.{string, plain, Host, modem_request, intermediate}

-- The three formats of the loop.
unfoldable pub scan_timed : Bytes → Scanned
unfolding sscanf
scan_timed req =
    sscanf
      (space
        ∷ literal b'{'
        ∷ space
        ∷ char
        ∷ space
        ∷ literal b','
        ∷ space
        ∷ uint
        ∷ space
        ∷ literal b'}'
        ∷ space
        ∷ offset
        ∷ literal b','
        ∷ space
        ∷ offset
        ∷ [])
      req

unfoldable pub scan_dual : Bytes → Scanned
unfolding sscanf
scan_dual req =
    sscanf
      (space
        ∷ literal b'['
        ∷ space
        ∷ skip_uint
        ∷ space
        ∷ literal b','
        ∷ space
        ∷ skip_uint
        ∷ space
        ∷ literal b','
        ∷ space
        ∷ uint
        ∷ space
        ∷ literal b']'
        ∷ space
        ∷ offset
        ∷ literal b','
        ∷ space
        ∷ offset
        ∷ [])
      req

unfoldable pub scan_single : Bytes → Scanned
unfolding sscanf
scan_single req = sscanf (space ∷ char ∷ space ∷ offset ∷ literal b',' ∷ space ∷ offset ∷ []) req

abbrev at_least : ℕ → Option ℕ → Bool
at_least n none = false
at_least n (some m) = leb n m

unfoldable pub is_tone : ℕ → Bool
is_tone ch = is_digit ch || (leb b'A' ch && leb ch b'D' || (ch == b'#' || ch == b'*'))

-- One turn of the loop: the tone with `len` and `len_wc`, where none is -1, or the error.
pub data Tone : Type 0 where
  tone : ℕ → Option ℕ → Option ℕ → Tone
  no_tone : ℕ → Tone

unfoldable pub scan_tone : Bytes → Tone
unfolding scan_timed scan_dual scan_single
scan_tone req =
    let timed = (scan_timed req).args in
    let single = (scan_single req).args in
    if at_least 2 (count_of (scan_timed req))
    then (if not (num_at timed 1 == 0)
        then no_tone at_cme_enotsup
        else tone (chr_at timed 0) (pos_of timed 2) (pos_of timed 3))
    else if at_least 1 (count_of (scan_dual req))
    then no_tone at_cme_enotsup
    else if at_least 1 (count_of (scan_single req))
    then tone (chr_at single 0) (pos_of single 1) (pos_of single 2)
    else no_tone at_cme_einval

pub data Tones : Type 0 where
  tones : Bytes → Tones
  no_tones : ℕ → Tones

-- What follows the scan: the rest of the line with the tones stored, or the end.
pub data Turn : Type 0 where
  again : Bytes → Bytes → Turn
  ended : Tones → Turn

abbrev pub advance : Bytes → Bytes → ℕ → Option ℕ → Turn
advance stored req len (some len_wc) =
    if length (drop len_wc req) == 0
    then ended (no_tones at_cme_einval)
    else again stored (drop len_wc req)
advance stored req len none =
    if length (drop len req) == 0 then ended (tones stored) else ended (no_tones at_cme_einval)

unfoldable pub turn_of : Bytes → Bytes → Tone → Turn
unfolding is_tone
turn_of stored req (no_tone err) = ended (no_tones err)
turn_of stored req (tone ch none len_wc) = ended (no_tones at_cme_einval)
turn_of stored req (tone ch (some len) len_wc) =
    if is_tone ch
    then (if leb 256 (length stored + 1)
        then ended (no_tones at_error)
        else advance (stored ++ (ch ∷ [])) req len len_wc)
    else ended (no_tones at_cme_einval)

-- The loop, a turn to a step of fuel; none is a loop that has not ended.
unfoldable pub tones_loop : ℕ → Bytes → Bytes → Option Tones
unfolding turn_of scan_tone
tones_loop fuel stored [] = some (tones stored)
tones_loop zero stored (c ∷ req) = none
tones_loop (suc fuel) stored (c ∷ req) = elim (turn_of stored (c ∷ req) (scan_tone (c ∷ req))) [
  | again more rest ↦ tones_loop fuel more rest
  | ended result ↦ some result
]

-- A character is taken in each turn, so the length of the line is enough.
unfoldable pub parse_tones : Bytes → Option Tones
unfolding tones_loop
parse_tones req = tones_loop (length req) [] req

module _ {W : Type 0} (host : Host W) where
  abbrev pub send_tones : W → Option Tones → W × ℕ
  send_tones w (some (tones stored)) =
      modem_request host w (codes "VoiceCallManager") (codes "SendTones")
        (plain (string stored) ∷ [])
  send_tones w (some (no_tones err)) = (w, err)
  send_tones w none = (w, at_error)

  unfoldable pub set_vts : SetCb W
  unfolding parse_tones
  set_vts w req = send_tones w (parse_tones req)

  unfoldable pub list_vts : GetCb W
  list_vts w = (intermediate host w (codes "\r\n+VTS: (0-9,#,*,A-D),(),(0)"), at_ok)
