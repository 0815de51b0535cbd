-- ===== src/Ofono/Meters/Forms.antt =====
-- plugins/ofono/callmeter.c: the filters, and what the commands on the meters scan.
use meego_cellular_matd.Prelude.{
  ℕ, Bool, not, Option, none, some, List, [], ◌∷◌, Bytes, codes, ◌==◌, if◌then◌else◌, drop,
}
use meego_cellular_matd.Libc.Ctype.{is_digit}
use meego_cellular_matd.Libc.Scanf.{
  Directive, space, literal, hexa, scanset, offset, sscanf, count_of, num_at, str_at, pos_of,
  Scanned,
}
use meego_cellular_matd.Ofono.{ofono_modem, Watch}
use meego_cellular_matd.Ofono.Signals.{ofono_signal_watch, ofono_prop_watch}

-- What <stdio.h> does with a `double`: `%lf` read, with the number of bytes taken, and printed; and
-- the test that it is not below 0.
pub record Doubles : Type 0 where
  pub read : Bytes → Option (ℕ × ℕ)
  pub print : ℕ → Bytes
  pub not_below_0 : ℕ → Bool

unfoldable pub caoc_watch : Watch
unfolding ofono_prop_watch
caoc_watch = ofono_prop_watch ofono_modem (codes "CallMeter") (codes "CallMeter")

unfoldable pub ccwe_watch : Watch
unfolding ofono_signal_watch
ccwe_watch =
    ofono_signal_watch ofono_modem (codes "CallMeter") (some (codes "NearMaximumWarning")) none

-- A filter that is set is left as it is.
abbrev pub set_once : Option Watch → Watch → Option Watch
set_once none watch = some watch
set_once (some old) watch = some old

abbrev quote : List Directive → List Directive
quote rest = literal b'"' ∷ rest

abbrev comma : List Directive → List Directive
comma rest = space ∷ literal b',' ∷ space ∷ rest

-- The password, empty if there is none.
unfoldable pub scan_pin : Bytes → Bytes
unfolding sscanf
scan_pin req =
    let r = sscanf (space ∷ quote (scanset is_digit 8 ∷ quote [])) req in
    elim (count_of r) [ none ↦ [] | some n ↦ if n == 1 then str_at r.args 0 else [] ]

-- The `switch` of `set_amm`, with its fall-through: the maximum and the password.
abbrev amm_of : Scanned → Option (ℕ × Bytes)
amm_of r = elim (count_of r) [
  | none ↦ none
  | some n ↦
      if n == 0
      then some (0, [])
      else if n == 1
      then some (num_at r.args 0, [])
      else some (num_at r.args 0, str_at r.args 1)
]

unfoldable pub scan_amm : Bytes → Option (ℕ × Bytes)
unfolding sscanf
scan_amm req =
    amm_of
      (sscanf (space ∷ quote (hexa ∷ quote (comma (quote (scanset is_digit 8 ∷ quote []))))) req)

-- The currency, the price and the password of AT+CPUC: the format up to the price, the price, and
-- what stands behind it.
abbrev puc_rest : Bytes → ℕ → Bytes → Bytes × ℕ × Bytes
puc_rest currency ppu rest =
    let r = sscanf (quote (comma (quote (scanset is_digit 8 ∷ [])))) rest in
    (currency, ppu, str_at r.args 0)

abbrev puc_price : Bytes → Bytes → Option (ℕ × ℕ) → Option (Bytes × ℕ × Bytes)
puc_price currency rest none = none
puc_price currency rest (some (ppu, j)) = some (puc_rest currency ppu (drop j rest))

unfoldable pub scan_puc : Doubles → Bytes → Option (Bytes × ℕ × Bytes)
unfolding sscanf
scan_puc doubles req =
    let r =
      sscanf
        (space ∷ quote (scanset (λ c. not (c == b'"')) 12 ∷ quote (comma (quote (offset ∷ [])))))
        req in
    elim (pos_of r.args 1) [
      | none ↦ none
      | some k ↦ puc_price (str_at r.args 0) (drop k req) (doubles.read (drop k req))
    ]

-- `*pin ? pin : NULL`
abbrev pub pin_or_none : Bytes → Option Bytes
pin_or_none [] = none
pin_or_none (c ∷ pin) = some (c ∷ pin)
