-- ===== src/Ofono/Technologies.antt =====
-- plugins/ofono/cnti.c: the technologies that AT*CNTI reports. The warning on an unknown one is not
-- modelled.
use meego_cellular_matd.Prelude.{
  ℕ, Option, none, some, List, [], ◌∷◌, ◌++◌, Bytes, codes, ◌==◌, if◌then◌else◌,
}
use meego_cellular_matd.Libc.Ctype.{streq}
use meego_cellular_matd.Libc.Scanf.{atoi}
use meego_cellular_matd.Modem.{at_ok, at_cme_enotsup}
use meego_cellular_matd.Commands.{GetCb, SetCb, Bank, register_ext}
use meego_cellular_matd.Ofono.{Host, as_string, modem_prop_get, intermediate}
use meego_cellular_matd.Ofono.Voicecall.{ext}

-- The chains of `strcmp`; the name is empty where none matches.
unfoldable pub name_of : List (Bytes × Bytes) → Option Bytes → Bytes
unfolding streq
name_of table none = []
name_of [] (some tech) = []
name_of ((key, name) ∷ table) (some tech) =
    let rest = name_of table (some tech) in if streq tech key then name else rest

abbrev pub actives : List (Bytes × Bytes)
actives =
    (codes "none", [])
    ∷ (codes "gsm", codes "GSM")
    ∷ (codes "edge", codes "EDGE")
    ∷ (codes "umts", codes "UMTS")
    ∷ (codes "hsdpa", codes "HSDPA")
    ∷ (codes "hsupa", codes "HSUPA")
    ∷ (codes "hspa", codes "HSUPA")
    ∷ (codes "lte", codes "LTE")
    ∷ []

abbrev pub availables : List (Bytes × Bytes)
availables =
    (codes "gsm", codes "GSM")
    ∷ (codes "edge", codes "GSM,GPRS,EDGE")
    ∷ (codes "umts", codes "UMTS")
    ∷ (codes "hsdpa", codes "UMTS,HSDPA")
    ∷ (codes "hsupa", codes "UMTS,HSUPA")
    ∷ (codes "hspa", codes "UMTS,HSDPA,HSUPA")
    ∷ (codes "lte", codes "LTE")
    ∷ []

module _ {W : Type 0} (host : Host W) where
  abbrev line_for : Bytes → List (Bytes × Bytes) → W × Option Bytes → W × ℕ
  line_for prefix table (w, tech) = (intermediate host w (prefix ++ name_of table tech), at_ok)

  unfoldable pub list_active : GetCb W
  unfolding name_of
  list_active w =
      line_for (codes "\r\n*CNTI: 0,") actives
        (modem_prop_get host w (codes "ConnectionManager") (codes "Bearer") as_string)

  unfoldable pub list_available : GetCb W
  unfolding name_of
  list_available w =
      line_for (codes "\r\n*CNTI: 1,") availables
        (modem_prop_get host w (codes "NetworkRegistration") (codes "Technology") as_string)

  unfoldable pub set_cnti : SetCb W
  unfolding list_active list_available atoi
  set_cnti w req =
      if atoi req == 0
      then list_active w
      else if atoi req == 1
      then list_available w
      else if atoi req == 2
      then (intermediate host w (codes "\r\n*CNTI: 2,GSM,GPRS,EDGE,UMTS,HSDPA,HSUPA"), at_ok)
      else (w, at_cme_enotsup)

  unfoldable pub list_cnti : GetCb W
  list_cnti w = (intermediate host w (codes "\r\n*CNTI: (0-2)"), at_ok)

  -- The registration in `at_plugin_register`.
  unfoldable pub register_cnti : Bank W → Bank W
  register_cnti bank = (register_ext bank (codes "*CNTI") (ext set_cnti none (some list_cnti))).0
