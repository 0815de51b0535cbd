-- ===== src/Ofono/Sim/Pins/Tables.antt =====
-- plugins/ofono/sim.c: the table of the passwords, and what the commands on them scan.
use meego_cellular_matd.Prelude.{
  ℕ, ◌⊎◌, inl, inr, Bool, false, ◌&&◌, ◌||◌, Option, none, some, List, [], ◌∷◌, Bytes, codes, leb,
  ◌==◌, if◌then◌else◌,
}
use meego_cellular_matd.Libc.Ctype.{is_digit, is_upper, streq}
use meego_cellular_matd.Libc.Scanf.{
  Scanned, Directive, space, literal, uint, scanset, sscanf, count_of, num_at, str_at,
}
use meego_cellular_matd.Modem.{at_cme_einval}
use meego_cellular_matd.Ofono.{at_cme_error}

-- `struct pin`
pub record Pin : Type 0 where
  pub fac : Bytes
  pub code : Bytes
  pub ofono : Bytes

abbrev pin : Bytes → Bytes → Bytes → Pin
pin f c o = record { fac = f; code = c; ofono = o }

abbrev pub pins : List Pin
pins =
    pin [] (codes "READY") (codes "none")
    ∷ pin (codes "SC") (codes "SIM PIN") (codes "pin")
    ∷ pin [] (codes "SIM PUK") (codes "puk")
    ∷ pin (codes "PS") (codes "PH-SIM PIN") (codes "phone")
    ∷ pin (codes "PF") (codes "PH-FSIM PIN") (codes "firstphone")
    ∷ pin [] (codes "PH-FSIM PUK") (codes "firstphonepuk")
    ∷ pin (codes "P2") (codes "SIM PIN2") (codes "pin2")
    ∷ pin [] (codes "SIM PUK2") (codes "puk2")
    ∷ pin (codes "PN") (codes "PH-NET PIN") (codes "network")
    ∷ pin [] (codes "PH-NET PUK") (codes "networkpuk")
    ∷ pin (codes "PU") (codes "PH-NETSUB PIN") (codes "netsub")
    ∷ pin [] (codes "PH-NETSUB PUK") (codes "netsubpuk")
    ∷ pin (codes "PP") (codes "PH-SP PIN") (codes "service")
    ∷ pin [] (codes "PH-SP PUK") (codes "servicepuk")
    ∷ pin (codes "PC") (codes "PH-CORP PIN") (codes "corp")
    ∷ pin [] (codes "PH-CORP PUK") (codes "corppuk")
    ∷ []

-- lfind() by one of the columns.
unfoldable pub find_pin : (Pin → Bytes) → List Pin → Bytes → Option Pin
unfolding streq
find_pin column [] key = none
find_pin column (row ∷ table) key =
    let rest = find_pin column table key in if streq key (column row) then some row else rest

abbrev code_of : Option Pin → Option Bytes
code_of none = none
code_of (some row) = some row.code

abbrev ofono_of : Option Pin → Option Bytes
ofono_of none = none
ofono_of (some row) = some row.ofono

unfoldable pub ofono_to_code : Bytes → Option Bytes
unfolding find_pin
ofono_to_code ofono = code_of (find_pin (λ row. row.ofono) pins ofono)

unfoldable pub fac_to_ofono : Bytes → Option Bytes
unfolding find_pin
fac_to_ofono fac = ofono_of (find_pin (λ row. row.fac) pins fac)

abbrev quoted_digits : List Directive → List Directive
quoted_digits rest = literal b'"' ∷ scanset is_digit 8 ∷ literal b'"' ∷ rest

abbrev comma : List Directive → List Directive
comma rest = space ∷ literal b',' ∷ space ∷ rest

-- The passwords of AT+CPIN, the second one if it is given, in quotes or without.
abbrev pins_of : Scanned → Option (Bytes × Option Bytes)
pins_of r = elim (count_of r) [
  | none ↦ none
  | some n ↦
      if n == 2
      then some (str_at r.args 0, some (str_at r.args 1))
      else if n == 1
      then some (str_at r.args 0, none)
      else none
]

abbrev or_bare :
    Option (Bytes × Option Bytes) → Option (Bytes × Option Bytes) → Option (Bytes × Option Bytes)
or_bare (some found) bare = some found
or_bare none bare = bare

unfoldable pub scan_cpin : Bytes → Option (Bytes × Option Bytes)
unfolding sscanf
scan_cpin req =
    or_bare (pins_of (sscanf (space ∷ quoted_digits (comma (quoted_digits []))) req))
      (pins_of (sscanf (space ∷ scanset is_digit 8 ∷ comma (scanset is_digit 8 ∷ [])) req))

-- A request that fails is taken as a bad password.
unfoldable pub bad_password : ℕ → ℕ
bad_password ret = if ret == at_cme_error 0 then at_cme_error 16 else ret

-- The facility, the mode and the password of AT+CLCK.
unfoldable pub scan_clck : Bytes → Option (Bytes × ℕ × Bytes)
unfolding sscanf
scan_clck req =
    let r =
      sscanf
        (literal b'"'
          ∷ scanset is_upper 2
          ∷ literal b'"'
          ∷ comma (uint ∷ comma (quoted_digits (comma (uint ∷ [])))))
        req in
    elim (count_of r) [
      | none ↦ none
      | some n ↦
          if leb 2 n && leb n 4
          then some (str_at r.args 0, num_at r.args 1, str_at r.args 2)
          else none
    ]

-- The facility, the old and the new password of AT+CPWD.
unfoldable pub scan_cpwd : Bytes → Option (Bytes × Bytes × Bytes)
unfolding sscanf
scan_cpwd req =
    let r =
      sscanf
        (literal b'"'
          ∷ scanset (λ c. is_upper c || is_digit c) 2
          ∷ literal b'"'
          ∷ comma (quoted_digits (comma (quoted_digits []))))
        req in
    elim (count_of r) [
      | none ↦ none
      | some n ↦ if n == 3 then some (str_at r.args 0, str_at r.args 1, str_at r.args 2) else none
    ]

-- The pattern of AT+CPINR: none if it is left out, or the error.
unfoldable pub until_quote : Bytes → Bytes
until_quote [] = []
until_quote (c ∷ s) = let rest = until_quote s in if c == b'"' then [] else c ∷ rest

unfoldable pub pattern_of : Bytes → Option Bytes ⊎ ℕ
unfolding until_quote
pattern_of [] = inl none
pattern_of (c ∷ req) =
    let rest = pattern_of req in
    if c == b' '
    then rest
    else if c == b'"'
    then inl (some (until_quote req))
    else inr at_cme_einval

unfoldable pub is_in : Bytes → List Bytes → Bool
unfolding streq
is_in type [] = false
is_in type (key ∷ keys) = streq key type || is_in type keys
