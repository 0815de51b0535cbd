-- ===== src/Ofono/Network/Tables.antt =====
-- plugins/ofono/network.c: the table of technologies, and properties that may not be there.
use meego_cellular_matd.Prelude.{ℕ, Option, none, some, List, [], ◌∷◌, Bytes, codes}
use meego_cellular_matd.Ofono.{Argument, as_string, ofono_prop_find}

abbrev pub tes : List Bytes
tes =
    codes "gsm"
    ∷ []
    ∷ codes "umts"
    ∷ codes "edge"
    ∷ codes "hsdpa"
    ∷ codes "hsupa"
    ∷ codes "hspa"
    ∷ codes "lte"
    ∷ []

abbrev pub or_empty : Option Bytes → Bytes
or_empty none = []
or_empty (some s) = s

abbrev pub or_zero : Option ℕ → ℕ
or_zero none = 0
or_zero (some n) = n

abbrev pub prop : List Argument → Bytes → Option Bytes
prop msg name = ofono_prop_find msg name as_string
