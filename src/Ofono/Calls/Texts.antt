-- ===== src/Ofono/Calls/Texts.antt =====
-- plugins/ofono/voicecall.c: what the commands on calls scan and print, apart from the bus.
use meego_cellular_matd.Prelude.{
  ℕ, suc, ◌+◌, ◌⊎◌, inl, inr, Bool, true, false, not, ◌&&◌, ◌||◌, Option, none, some, List, [], ◌∷◌,
  ◌++◌, Bytes, codes, leb, ◌==◌, if◌then◌else◌, length, get_or, drop,
}
use mathlib.Core.Option
use meego_cellular_matd.Libc.Ctype.{is_lower, is_digit, streq}
use meego_cellular_matd.Libc.Scanf.{
  space, literal, uint, skip_scanset, scanset, sscanf, count_of, count_space, num_at, str_at,
  scan_uint, Scanned,
}
use meego_cellular_matd.Libc.Format.{decimal}
use meego_cellular_matd.Modem.{
  at_ok, at_error, at_cme_enotsup, at_cme_enoent, at_cme_einval, minus_one,
}
use meego_cellular_matd.Ofono.{Dict, Entry, as_string, as_bool, ofono_dict_find}

-- The classes `[a-z0-9]` and `[a-z]`.
abbrev pub in_modem : ℕ → Bool
in_modem c = is_lower c || is_digit c

-- The number of a call in its object path, or -1; `"/%*[a-z0-9]/%*[a-z]%u"`.
unfoldable pub get_call_id : Bytes → ℕ
unfolding sscanf
get_call_id call =
    let r =
      sscanf
        (literal b'/' ∷ skip_scanset in_modem ∷ literal b'/' ∷ skip_scanset is_lower ∷ uint ∷ [])
        call in
    elim (count_of r) [ none ↦ minus_one | some n ↦ if n == 1 then num_at r.args 0 else minus_one ]

-- The call that the loop of `enum_calls` passes on, or none that it skips.
unfoldable pub call_of : Entry → Option ℕ
unfolding get_call_id
call_of call = elim call.path [
  | none ↦ none
  | some path ↦ if get_call_id path == minus_one then none else some (get_call_id path)
]

-- Characters that are dialed.
unfoldable pub is_dialed : ℕ → Bool
is_dialed c = is_digit c || (c == b'*' || (c == b'#' || (c == b'+' || leb b'A' c && leb c b'C')))

-- The number to dial and the caller's identity, or the error.
pub data Dialing : Type 0 where
  dialed : Bytes → Bytes → Dialing
  not_dialed : ℕ → Dialing

-- The loop of `handle_dial`; `num` are the characters stored, and `sizeof (buf)` is 256.
unfoldable pub dial_loop : Bytes → Bytes → Bytes → Dialing
unfolding is_dialed
dial_loop num callerid [] = dialed num callerid
dial_loop num callerid (c ∷ str) =
    let store = dial_loop (num ++ (c ∷ [])) callerid str in
    let enable = dial_loop num (codes "enabled") str in
    let disable = dial_loop num (codes "disabled") str in
    let rest = dial_loop num callerid str in
    if is_dialed c
    then (if leb 256 (length num + 1) then not_dialed at_error else store)
    else if c == b'I'
    then enable
    else if c == b'i'
    then disable
    else if c == b'G' || c == b'g'
    then not_dialed at_cme_enotsup
    else if c == b'>'
    then not_dialed at_cme_enoent
    else rest

-- The `switch` of `set_csta`.
unfoldable pub set_csta_mode : ℕ → ℕ
set_csta_mode mode = if mode == 129 || mode == 145 then at_ok else at_cme_enotsup

abbrev pub call_states : List Bytes
call_states =
    codes "active"
    ∷ codes "held"
    ∷ codes "dialing"
    ∷ codes "alerting"
    ∷ codes "incoming"
    ∷ codes "waiting"
    ∷ []

-- The loop of `show_call`: the place of a state in the table.
unfoldable pub find_state : List Bytes → Bytes → Option ℕ
unfolding streq
find_state [] state = none
find_state (s ∷ table) state =
    let rest = Option.map suc (find_state table state) in if streq state s then some 0 else rest

abbrev pub type_of : Bytes → ℕ
type_of number = if get_or number 0 0 == b'+' then 145 else 129

abbrev pub bit : Bool → ℕ
bit true = 1
bit false = 0

-- `mpty > 0`
abbrev pub is_set : Option Bool → ℕ
is_set none = 0
is_set (some b) = bit b

-- The tail of the line of AT+CLCC.
abbrev pub clcc_number : Option Bytes → Bytes
clcc_number none = []
clcc_number (some number) =
    if streq number (codes "withheld")
    then []
    else codes ",\"" ++ (number ++ (codes "\"," ++ decimal (type_of number)))

unfoldable pub clcc_line : ℕ → Bytes → ℕ → Option Bool → Option Bytes → Bytes
clcc_line id dir stat mpty number =
    codes "\r\n+CLCC: "
    ++ (decimal id
        ++ (b','
            ∷ (decimal (bit (streq dir (codes "mt")))
                ++ (b','
                    ∷ (decimal stat
                        ++ (codes ",0," ++ (decimal (is_set mpty) ++ clcc_number number)))))))

-- The line that `show_call` prints, if any.
abbrev pub clcc_known : ℕ → Option Dict → Bytes → Option ℕ → Option Bytes
clcc_known id call dir none = none
clcc_known id call dir (some stat) = some (
    clcc_line id dir stat (ofono_dict_find call (codes "Multiparty") as_bool)
      (ofono_dict_find call (codes "LineIdentification") as_string))

abbrev pub clcc_from : ℕ → Option Dict → Option Bytes → Option Bytes → Option Bytes
clcc_from id call (some dir) (some state) = clcc_known id call dir (find_state call_states state)
clcc_from id call dir state = none

unfoldable pub call_line : ℕ → Option Dict → Option Bytes
call_line id call =
    clcc_from id call (ofono_dict_find call (codes "Direction") as_string)
      (ofono_dict_find call (codes "State") as_string)

-- `!strcmp` with a string that may be a null pointer, which is no match.
abbrev pub is_state : Bytes → Option Bytes → Bool
is_state name none = false
is_state name (some state) = streq name state

-- `strtoul (value, &end, 10)`, cut to `unsigned`; `none` if `end` is `value`.
unfoldable pub strtoul : Bytes → Option ℕ
unfolding scan_uint count_space
strtoul s = Option.map (λ (p : ℕ × ℕ). p.0) (scan_uint (drop (count_space s) s))

-- The method for an operation of AT+CHLD without a call.
unfoldable pub chld_method : ℕ → Option Bytes
chld_method op =
    if op == b'1'
    then some (codes "ReleaseAndAnswer")
    else if op == b'2'
    then some (codes "SwapCalls")
    else if op == b'3'
    then some (codes "CreateMultiparty")
    else if op == b'4'
    then some (codes "Transfer")
    else none

-- `"%s/voicecall%u"`, the path of the call in AT+CHLD=2x.
unfoldable pub private_path : Bytes → ℕ → Bytes
private_path modem id = modem ++ (codes "/voicecall" ++ decimal id)

abbrev not_quote : ℕ → Bool
not_quote c = not (c == b'"')

unfoldable pub scan_ctfr : Bytes → Scanned
unfolding sscanf
scan_ctfr req =
    sscanf
      (space
        ∷ literal b'"'
        ∷ scanset not_quote 20
        ∷ literal b'"'
        ∷ space
        ∷ literal b','
        ∷ space
        ∷ uint
        ∷ space
        ∷ literal b','
        ∷ space
        ∷ literal b'"'
        ∷ scanset not_quote 23
        ∷ literal b'"'
        ∷ space
        ∷ literal b','
        ∷ space
        ∷ uint
        ∷ [])
      req

-- The `switch` of `do_ctfr`: the number, or the error.
unfoldable pub ctfr_number : Bytes → Bytes ⊎ ℕ
unfolding scan_ctfr
ctfr_number req =
    let r = scan_ctfr req in
    let number = str_at r.args 0 in
    elim (count_of r) [
      | none ↦ inr at_cme_einval
      | some n ↦
          if n == 4 || n == 3
          then inr at_cme_enotsup
          else if n == 2
          then (if num_at r.args 1 == type_of number then inl number else inr at_cme_enotsup)
          else if n == 1
          then inl number
          else inr at_cme_einval
    ]

-- `call_cb_t`: on the state of the daemon and the callback's own, with whether it is the last.
abbrev pub CallCb : Type 0 → Type 0 → Type 0
CallCb W S = W → S → ℕ → Option Dict → W × S × Bool
