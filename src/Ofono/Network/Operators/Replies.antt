-- ===== src/Ofono/Network/Operators/Replies.antt =====
-- plugins/ofono/network.c: what AT+COPS reads in the replies of oFono.
use meego_cellular_matd.Prelude.{
  ℕ, ◌⊎◌, inl, inr, Bool, true, false, not, ◌&&◌, ◌||◌, Option, none, some, List, [], ◌∷◌, ◌++◌,
  Bytes, codes, ◌==◌, if◌then◌else◌,
}
use meego_cellular_matd.Libc.Ctype.{streq}
use meego_cellular_matd.Libc.Scanf.{space, literal, uint, scanset, sscanf, Scanned}
use meego_cellular_matd.Libc.Format.{decimal}
use meego_cellular_matd.Modem.{at_cme_unknown}
use meego_cellular_matd.Ofono.{Dict, Entry, Argument, structs, as_string, as_array, ofono_dict_find}
use meego_cellular_matd.Ofono.Calls.{is_state, find_state}
use meego_cellular_matd.Ofono.Network.Tables.{tes, or_empty, or_zero, prop}

-- The second loop of `strconcatcmp` and the test behind it.
unfoldable pub match_rest : Bytes → Bytes → Bool
match_rest [] [] = true
match_rest [] (y ∷ b2) = false
match_rest (x ∷ a) [] = false
match_rest (x ∷ a) (y ∷ b2) = let rest = match_rest a b2 in if x == y then rest else false

-- The first loop, up to the end of `a` or of `b1`.
unfoldable pub match_both : Bytes → Bytes → Bytes → Bool
unfolding match_rest
match_both a [] b2 = match_rest a b2
match_both [] (y ∷ b1) b2 = false
match_both (x ∷ a) (y ∷ b1) b2 = let rest = match_both a b1 b2 in if x == y then rest else false

-- `strconcatcmp`; `none` is a null pointer.
unfoldable pub strconcatcmp : Option Bytes → Option Bytes → Option Bytes → Bool
unfolding match_both
strconcatcmp none none none = true
strconcatcmp (some a) (some b1) (some b2) = match_both a b1 b2
strconcatcmp a b1 b2 = false

-- A network of the loop of `find_oper` fits.
abbrev is_oper : ℕ → Bytes → Option Dict → Bool
is_oper format wanted network =
    if format == 0
    then is_state wanted (ofono_dict_find network (codes "Name") as_string)
    else strconcatcmp (some wanted) (ofono_dict_find network (codes "MobileCountryCode") as_string)
        (ofono_dict_find network (codes "MobileNetworkCode") as_string)

unfoldable pub find_oper_in : ℕ → Bytes → List Entry → Option Bytes
unfolding strconcatcmp
find_oper_in format wanted [] = none
find_oper_in format wanted (network ∷ array) = elim network.path [
  | none ↦ find_oper_in format wanted array
  | some path ↦
      let rest = find_oper_in format wanted array in
      if is_oper format wanted network.props then some path else rest
]

unfoldable pub find_oper : ℕ → Bytes → List Argument → Option Bytes
unfolding find_oper_in
find_oper format wanted (structs array ∷ args) = find_oper_in format wanted array
find_oper format wanted _ = none

-- `mode` of `get_cops`
unfoldable pub mode_of : Bytes → Option ℕ
unfolding streq
mode_of value =
    if streq value (codes "auto") || streq value (codes "auto-only")
    then some 0
    else if streq value (codes "manual")
    then some 1
    else if streq value (codes "off")
    then some 2
    else none

-- The technology of `get_cops`: 0 for one that is not in the table or not there.
abbrev tech_of : Option Bytes → ℕ
tech_of none = 0
tech_of (some tec) = or_zero (find_state tes tec)

-- The rest of the line for an operator, in the two formats that can be set.
unfoldable pub cops_oper : ℕ → List Argument → Option Bytes
cops_oper cops msg =
    if cops == 0
    then some (or_empty (prop msg (codes "Name")))
    else if cops == 2
    then some (
        or_empty (prop msg (codes "MobileCountryCode"))
        ++ or_empty (prop msg (codes "MobileNetworkCode")))
    else none

abbrev cops_line : ℕ → ℕ → ℕ → Option Bytes → Option Bytes
cops_line mode cops tech none = none
cops_line mode cops tech (some oper) = some (
    codes "\r\n+COPS: "
    ++ (decimal mode
        ++ (b',' ∷ (decimal cops ++ (codes ",\"" ++ (oper ++ (codes "\"," ++ decimal tech)))))))

-- The line of `get_cops`, if any, or the error.
abbrev cops_status : ℕ → List Argument → ℕ → Option Bytes → Option Bytes ⊎ ℕ
cops_status cops msg mode none = inr at_cme_unknown
cops_status cops msg mode (some status) =
    if not (streq status (codes "registered")) && not (streq status (codes "roaming"))
    then inl (some (codes "\r\n+COPS: " ++ decimal mode))
    else inl (cops_line mode cops (tech_of (prop msg (codes "Technology"))) (cops_oper cops msg))

abbrev cops_mode : ℕ → List Argument → Option ℕ → Option Bytes ⊎ ℕ
cops_mode cops msg none = inr at_cme_unknown
cops_mode cops msg (some mode) = cops_status cops msg mode (prop msg (codes "Status"))

unfoldable pub cops_of : ℕ → List Argument → Option Bytes ⊎ ℕ
unfolding mode_of cops_oper streq
cops_of cops msg = elim (prop msg (codes "Mode")) [
  | none ↦ inr at_cme_unknown
  | some value ↦ cops_mode cops msg (mode_of value)
]

abbrev pub statuses : List Bytes
statuses = codes "unknown" ∷ codes "available" ∷ codes "current" ∷ codes "forbidden" ∷ []

-- The entries of `list_cops` for the technologies of a network.
abbrev tech_entry : ℕ → Bytes → Bytes → Option ℕ → Bytes
tech_entry status name code none = []
tech_entry status name code (some i) =
    b'('
    ∷ (decimal status
        ++ (codes ",\""
            ++ (name ++ (codes "\",,\"" ++ (code ++ (codes "\"," ++ (decimal i ++ codes "),")))))))

unfoldable pub tech_entries : ℕ → Bytes → Bytes → List Bytes → Bytes
tech_entries status name code [] = []
tech_entries status name code (tech ∷ techs) =
    tech_entry status name code (find_state tes tech) ++ tech_entries status name code techs

abbrev entries_if : Bytes → Bytes → Option ℕ → Option (List Bytes) → Bytes
entries_if name code (some status) (some techs) = tech_entries status name code techs
entries_if name code status techs = []

abbrev entries_named : Option Dict → Bytes → Option Bytes → Option Bytes → Option Bytes → Bytes
entries_named network name (some mcc) (some mnc) (some st) =
    entries_if name (mcc ++ mnc) (find_state statuses st)
      (ofono_dict_find network (codes "Technologies") as_array)
entries_named network name mcc mnc st = []

unfoldable pub network_entries : Option Dict → Bytes
unfolding tech_entries
network_entries network =
    entries_named network (or_empty (ofono_dict_find network (codes "Name") as_string))
      (ofono_dict_find network (codes "MobileCountryCode") as_string)
      (ofono_dict_find network (codes "MobileNetworkCode") as_string)
      (ofono_dict_find network (codes "Status") as_string)

unfoldable pub oper_list : List Entry → Bytes
unfolding network_entries
oper_list [] = []
oper_list (network ∷ array) = elim network.path [
  | none ↦ oper_list array
  | some path ↦ network_entries network.props ++ oper_list array
]

unfoldable pub scan_cops : Bytes → Scanned
unfolding sscanf
scan_cops req =
    let comma = literal b',' in
    sscanf
      (space
        ∷ uint
        ∷ space
        ∷ comma
        ∷ space
        ∷ uint
        ∷ space
        ∷ comma
        ∷ space
        ∷ literal b'"'
        ∷ scanset (λ c. not (c == b'"')) 31
        ∷ literal b'"'
        ∷ space
        ∷ comma
        ∷ space
        ∷ uint
        ∷ [])
      req
