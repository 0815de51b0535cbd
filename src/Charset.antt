-- ===== src/Charset.antt =====
-- src/charset.c: the hexadecimal codec, the table of character sets, at_to_utf8, at_from_utf8 and
-- AT+CSCS. malloc() is taken to succeed. iconv() is a parameter: the name of the target and of the
-- source, the room for the result, and the input; `none` is a failure, or an input not used up.
pub mod Hex
pub mod Names
use meego_cellular_matd.Prelude.{
  ℕ, suc, ◌+◌, ◌-◌, ◌*◌, ◌/◌, ◌%◌, Bool, not, ◌&&◌, Option, none, some, List, [], ◌∷◌, ◌++◌, map,
  Bytes, codes, leb, ◌==◌, if◌then◌else◌, length, get_or, set, take,
}
use meego_cellular_matd.Commands.{Handler, Bank, register_ext}
use mathlib.Core.Option
use meego_cellular_matd.Libc.Ctype.{is_digit, strcasecmp, is_eq}
use meego_cellular_matd.Libc.Scanf.{space, literal, scanset, sscanf, count_of, str_at}
use meego_cellular_matd.Modem.{
  Modem, at_ok, at_cme_einval, at_cme_enotsup, set_charset, at_intermediate,
}

-- `none` is -1.
unfoldable pub hexdigit : ℕ → Option ℕ
hexdigit c =
    if is_digit c
    then some (c - b'0')
    else if leb b'A' c && leb c b'F'
    then some (c - b'A' + 10)
    else if leb b'a' c && leb c b'f'
    then some (c - b'a' + 10)
    else none

-- A byte from its two digits, before the decoded rest.
abbrev pub with_byte : Option ℕ → Option ℕ → Option Bytes → Option Bytes
with_byte (some hi) (some lo) (some s) = some ((hi * 16 + lo) ∷ s)
with_byte (some hi) (some lo) none = none
with_byte (some hi) none rest = none
with_byte none lo rest = none

-- `at_hex_decode`; `strlen (in) / 2` leaves an odd character over.
unfoldable pub hex_decode : Bytes → Option Bytes
unfolding hexdigit
hex_decode [] = some []
hex_decode (a ∷ []) = some []
hex_decode (a ∷ b ∷ s) = with_byte (hexdigit a) (hexdigit b) (hex_decode s)

abbrev pub tab : Bytes
tab = codes "0123456789ABCDEF"

unfoldable pub hex_encode : Bytes → Bytes
hex_encode [] = []
hex_encode (c ∷ s) = get_or tab (c / 16) 0 ∷ get_or tab (c % 16) 0 ∷ hex_encode s

-- A row of `at_cs_tab`.
pub record Charset : Type 0 where
  pub gsm_name : Bytes
  pub iconv_name : Bytes
  pub hex : ℕ

abbrev row : Bytes → Bytes → ℕ → Charset
row g i h = record { gsm_name = g; iconv_name = i; hex = h }

abbrev pub at_cs_tab : List Charset
at_cs_tab =
    row (codes "UTF-8") (codes "UTF-8") 0
    ∷ row (codes "IRA") (codes "ASCII//TRANSLIT") 0
    ∷ row (codes "UCS2") (codes "UTF-16BE") 2
    ∷ row (codes "PCCP437") (codes "IBM437//TRANSLIT") 0
    ∷ row (codes "PCCP775") (codes "IBM775//TRANSLIT") 0
    ∷ row (codes "PCCP850") (codes "IBM850//TRANSLIT") 0
    ∷ row (codes "PCCP852") (codes "IBM852//TRANSLIT") 0
    ∷ row (codes "PCCP855") (codes "IBM855//TRANSLIT") 0
    ∷ row (codes "PCCP857") (codes "IBM857//TRANSLIT") 0
    ∷ row (codes "PCCP860") (codes "IBM860//TRANSLIT") 0
    ∷ row (codes "PCCP861") (codes "IBM861//TRANSLIT") 0
    ∷ row (codes "PCCP862") (codes "IBM862//TRANSLIT") 0
    ∷ row (codes "PCCP863") (codes "IBM863//TRANSLIT") 0
    ∷ row (codes "PCCP864") (codes "IBM864//TRANSLIT") 0
    ∷ row (codes "PCCP865") (codes "IBM865//TRANSLIT") 0
    ∷ row (codes "PCCP866") (codes "IBM866//TRANSLIT") 0
    ∷ row (codes "PCCP869") (codes "IBM869//TRANSLIT") 0
    ∷ row (codes "8859-1") (codes "ISO_8859-1//TRANSLIT") 0
    ∷ row (codes "8859-2") (codes "ISO_8859-2//TRANSLIT") 0
    ∷ row (codes "8859-3") (codes "ISO_8859-3//TRANSLIT") 0
    ∷ row (codes "8859-4") (codes "ISO_8859-4//TRANSLIT") 0
    ∷ row (codes "8859-5") (codes "ISO_8859-5//TRANSLIT") 0
    ∷ row (codes "8859-6") (codes "ISO_8859-6//TRANSLIT") 0
    ∷ row (codes "8859-C") (codes "ISO_8859-5//TRANSLIT") 0
    ∷ row (codes "8859-A") (codes "ISO_8859-6//TRANSLIT") 0
    ∷ row (codes "8859-G") (codes "ISO_8859-7//TRANSLIT") 0
    ∷ row (codes "8859-H") (codes "ISO_8859-8//TRANSLIT") 0
    ∷ []

-- `at_cs_tab[cs]`; the index is read from the modem, which holds one that was set from the table.
abbrev pub current : Modem → Charset
current m = get_or at_cs_tab m.charset (row [] [] 0)

module _ (iconv : Bytes → Bytes → ℕ → Bytes → Option Bytes) where
  unfoldable pub cset_decode : Bytes → Bytes → Option Bytes
  cset_decode cp in_bytes = iconv (codes "UTF-8") cp (3 * length in_bytes) in_bytes

  -- The nul that ends the string is converted with it.
  unfoldable pub cset_encode : Bytes → Bytes → Option Bytes
  cset_encode tocode s = iconv tocode (codes "UTF-8") (2 * (length s + 1)) (s ++ (0 ∷ []))

  unfoldable pub at_to_utf8 : Modem → Bytes → Option Bytes
  unfolding cset_decode
  at_to_utf8 m s =
      if not ((current m).hex == 0)
      then elim (hex_decode s) [ none ↦ none | some raw ↦ cset_decode (current m).iconv_name raw ]
      else cset_decode (current m).iconv_name s

  -- The bytes of the result, with the converted nul unless they are in hexadecimal.
  abbrev pub from_encoded : Charset → Option Bytes → Option Bytes
  from_encoded cs none = none
  from_encoded cs (some out) =
      if not (cs.hex == 0) then some (hex_encode (take (length out - cs.hex) out)) else some out

  unfoldable pub at_from_utf8 : Modem → Bytes → Option Bytes
  unfolding cset_encode
  at_from_utf8 m s = from_encoded (current m) (cset_encode (current m).iconv_name s)

-- The loop of `set_cscs`: the place of the first row with the name, in any case of the letters.
unfoldable pub find_cs : List Charset → Bytes → Option ℕ
unfolding strcasecmp
find_cs [] name = none
find_cs (r ∷ rs) name =
    let rest = Option.map suc (find_cs rs name) in
    if is_eq (strcasecmp name r.gsm_name) then some 0 else rest

abbrev pub not_quote : ℕ → Bool
not_quote c = not (c == b'"')

-- The string that sscanf() with the format ` "%7[^"]"` stores.
unfoldable pub scanned_name : Bytes → Option Bytes
unfolding sscanf
scanned_name req =
    let r = sscanf (space ∷ literal b'"' ∷ scanset not_quote 7 ∷ literal b'"' ∷ []) req in
    elim (count_of r) [ none ↦ none | some n ↦ if n == 1 then some (str_at r.args 0) else none ]

abbrev pub set_found : Modem → Option ℕ → Modem × ℕ
set_found m none = (m, at_cme_enotsup)
set_found m (some i) = (set_charset m i, at_ok)

abbrev pub set_named : Modem → Option Bytes → Modem × ℕ
set_named m none = (m, at_cme_einval)
set_named m (some name) = set_found m (find_cs at_cs_tab name)

unfoldable pub set_cscs : Modem → Bytes → Modem × ℕ
set_cscs m req = set_named m (scanned_name req)

unfoldable pub get_cscs : Modem → Modem × ℕ
get_cscs m = at_intermediate m (codes "\r\n+CSCS: \"" ++ ((current m).gsm_name ++ codes "\""))

-- The names, each in quotes, with commas between them.
unfoldable pub name_list : List Charset → Bytes
name_list [] = []
name_list (r ∷ []) = b'"' ∷ (r.gsm_name ++ codes "\"")
name_list (r ∷ q ∷ rs) = b'"' ∷ (r.gsm_name ++ (b'"' ∷ b',' ∷ name_list (q ∷ rs)))

unfoldable pub list_cscs : Modem → Modem × ℕ
unfolding name_list
list_cscs m = at_intermediate m (codes "\r\n+CSCS: (" ++ (name_list at_cs_tab ++ codes ")"))

-- The handlers on the state of the daemon, and `at_register_charset`.
module _ {W : Type 0} (modem : W → Modem) (put : Modem → W → W) where
  abbrev pub on_modem : W → Modem × ℕ → W × ℕ
  on_modem w (m, res) = (put m w, res)

  abbrev pub cscs : Handler W
  cscs = record {
    set = λ w req. on_modem w (set_cscs (modem w) req);
    get = some (λ w. on_modem w (get_cscs (modem w)));
    test = some (λ w. on_modem w (list_cscs (modem w)));
  }

  unfoldable pub register_charset : Bank W → Bank W
  register_charset bank = (register_ext bank (codes "+CSCS") cscs).0
