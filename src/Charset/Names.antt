-- ===== src/Charset/Names.antt =====
-- src/charset.c: set_cscs on the names of the table.
use meego_cellular_matd.Prelude.{
  ℕ, ◌%◌, ◌<◌, ◌≡◌, refl, ap, Option, none, some, [], ◌∷◌, ◌++◌, arith, Bytes, codes, length,
  get_or, all_below, all_below-elim, holds_num, holds_num-some,
}
use meego_cellular_matd.Modem.{Modem, at_ok, set_charset}
use meego_cellular_matd.Charset.{
  at_cs_tab, Charset, current, find_cs, scanned_name, set_named, set_cscs,
}

abbrev pub entry : ℕ → Charset
entry i = get_or at_cs_tab i (record { gsm_name = []; iconv_name = []; hex = 0 })

abbrev pub quoted : Bytes → Bytes
quoted name = b'"' ∷ (name ++ codes "\"")

abbrev found_by : Option Bytes → Option ℕ
found_by none = none
found_by (some name) = find_cs at_cs_tab name

set_named-found :
    (m : Modem) (o : Option Bytes) (i : ℕ)
    → found_by o ≡ some i
    → set_named m o ≡ (set_charset m i, at_ok)
set_named-found m none i h = cc
set_named-found m (some name) i h = rw h refl

-- Each of the 27 names, in quotes, selects its own row of the table, which is then the current one.
set_cscs-current :
    (m : Modem) (i : ℕ)
    → i < length at_cs_tab
    → (set_cscs m (quoted (entry i).gsm_name) ≡ (set_charset m i, at_ok))
      × (current (set_charset m i) ≡ entry i)
unfolding set_cscs set_charset
set_cscs-current m i h = (
  set_named-found m (scanned_name (quoted (entry i).gsm_name)) i (
      holds_num-some _ i (
        all_below-elim 27 (λ k. holds_num (found_by (scanned_name (quoted (entry k).gsm_name))) k) i
          (unfold all_below find_cs scanned_name in refl) h)),
  ap entry {x = i % 64} {y = i} (omega arith),
)
