-- ===== src/Tests/Terminal.antt =====
-- Runs of the interface parameters and of the phonebooks.
use meego_cellular_matd.Prelude.{ℕ, ◌≡◌, refl, true, none, some, [], ◌∷◌, arith, Bytes, codes}
use meego_cellular_matd.Modem.{Modem, at_ok}
use meego_cellular_matd.Interface.{
  at_get_attr, Termios, Terminal, zeroed, set_framing, get_framing, print_framing, scan_pair,
}
use meego_cellular_matd.Interface.Framing.{
  kept_stop, set_framing-get_framing, set_framing-kept_stop,
}
use meego_cellular_matd.Phonebook.{Phonebook, Phonebooks, init}
use meego_cellular_matd.Phonebook.Default.{register_all, default_of, register_all-default}
use meego_cellular_matd.Tests.Phone.{modem}

-- The daemon's state is the terminal alone, and takes all attributes.
abbrev terminal : Terminal Termios
terminal = record { tcgetattr = λ w. some w; tcsetattr = λ w tp. (tp, true) }

abbrev modem_of : Termios → Modem
modem_of w = modem

abbrev put : Modem → Termios → Termios
put m w = w

abbrev conf : Termios → ℕ × ℕ
conf w = (2, 2)

abbrev keep : ℕ × ℕ → Termios → Termios
keep flow w = w

abbrev execute : Termios → Bytes → Termios × ℕ
execute w req = (w, at_ok)

abbrev two_stop : Termios
two_stop = record zeroed { csize = 8; cstopb = true }

scans_framing : scan_pair 3 (codes "5,1") ≡ some (5, 1)
unfolding scan_pair
scans_framing = refl

set_framing-get_framing_example :
    let done = set_framing modem_of put terminal conf keep execute zeroed (codes "5,1") in
    (done.1 ≡ at_ok)
    × (get_framing modem_of put terminal conf keep execute done.0
        ≡ print_framing modem_of put terminal conf keep execute done.0 (some (5, 1)))
unfolding at_get_attr
set_framing-get_framing_example =
    set_framing-get_framing modem_of put terminal conf keep execute (λ w tp. refl) (λ w tp. refl)
      zeroed (codes "5,1") 5 1 scans_framing (omega arith) (omega arith) (omega arith) refl

set_framing-kept_stop_example :
    let done = set_framing modem_of put terminal conf keep execute two_stop (codes "5,1") in
    (done.1 ≡ at_ok)
    × (get_framing modem_of put terminal conf keep execute done.0
        ≡ print_framing modem_of put terminal conf keep execute done.0 (kept_stop 5 1))
unfolding at_get_attr
set_framing-kept_stop_example =
    set_framing-kept_stop modem_of put terminal conf keep execute (λ w tp. refl) (λ w tp. refl)
      two_stop (codes "5,1") 5 1 scans_framing (omega arith) (omega arith) (omega arith) refl

abbrev named : Bytes → Phonebook ℕ
named name = record {
  name = name;
  pw_cb = none;
  read_cb = none;
  write_cb = none;
  find_cb = none;
  range_cb = none;
}

abbrev none_yet : Phonebooks ℕ
none_yet = record { phonebooks = []; active = none; written_index = 0 }

register_all-default_example :
    (register_all
      (init none_yet)
      (named (codes "EN") ∷ named (codes "ME") ∷ named (codes "SM") ∷ [])).active
    ≡ default_of (named (codes "EN")) (named (codes "ME") ∷ named (codes "SM") ∷ [])
register_all-default_example =
    register_all-default none_yet (named (codes "EN"))
      (named (codes "ME") ∷ named (codes "SM") ∷ [])
