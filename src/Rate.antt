-- ===== src/Rate.antt =====
-- include/at_rate.h, and at_print_rate of src/error.c. A constant of <termios.h> for a speed is
-- taken as the rate in its name.
use meego_cellular_matd.Prelude.{
  ℕ, not, Option, none, some, List, [], ◌∷◌, ◌++◌, codes, ◌==◌, if◌then◌else◌,
}
use meego_cellular_matd.Libc.Format.{decimal}
use meego_cellular_matd.Modem.{Modem, at_ok, at_intermediate}

abbrev pub rates : List ℕ
rates =
    50 ∷ 75 ∷ 110 ∷ 134 ∷ 150 ∷ 200 ∷ 300 ∷ 600 ∷ 1200 ∷ 1800 ∷ 2400 ∷ 4800 ∷ 9600 ∷ 19200 ∷ 38400
    ∷ 57600 ∷ 115200 ∷ 230400 ∷ 460800 ∷ 500000 ∷ 576000 ∷ 921600 ∷ 1000000 ∷ 1152000 ∷ 1500000
    ∷ 2000000 ∷ 2500000 ∷ 3000000 ∷ 3500000 ∷ 4000000 ∷ []

-- bsearch() by the rate and lfind() by the speed find the same row.
unfoldable pub find_row : List ℕ → ℕ → Option ℕ
find_row [] value = none
find_row (rate ∷ table) value =
    let rest = find_row table value in if value == rate then some rate else rest

unfoldable pub find_rate : ℕ → ℕ
unfolding find_row
find_rate speed = elim (find_row rates speed) [ none ↦ 9600 | some rate ↦ rate ]

-- The input and the output speed are those of the terminal.
unfoldable pub at_print_rate : Modem → ℕ → ℕ → Modem × ℕ
unfolding find_rate
at_print_rate m ispeed ospeed =
    let orate = decimal (find_rate ospeed) in
    let irate = decimal (find_rate ispeed) in
    if not m.rate_report
    then (m, at_ok)
    else if not (ispeed == ospeed)
    then at_intermediate m (codes "\r\n+ILRR: " ++ (orate ++ (b',' ∷ (irate ++ codes "\r\n"))))
    else at_intermediate m (codes "\r\n+ILRR: " ++ (orate ++ codes "\r\n"))
