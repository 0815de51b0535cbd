-- ===== src/Tests/Packet.antt =====
-- Tests and examples of plugins/ofono/gprs.c.
use meego_cellular_matd.Prelude.{◌≡◌, refl, none, some, List, [], ◌∷◌, arith, codes}
use meego_cellular_matd.Dummy.{scan_number}
use meego_cellular_matd.Modem.{at_ok}
use meego_cellular_matd.Ofono.{
  string, dict, Argument, returned, answer, Host, intermediate, modem_props_get, ofono_prop_find,
}
use meego_cellular_matd.Ofono.Calls.{find_state}
use meego_cellular_matd.Ofono.Voicecall.{ringing}
use meego_cellular_matd.Ofono.Network.Registration.{registration_of, location}
use meego_cellular_matd.Ofono.Gprs.{set_cgreg, get_cgreg, with_cgreg}
use meego_cellular_matd.Ofono.Gprs.Location.{cgreg_line, set_cgreg-place}
use meego_cellular_matd.Tests.Phone.{World, world, start}

-- A bus on which the modem is registered.
abbrev registered : List Argument
registered = dict ((codes "Status", some (string (codes "registered"))) ∷ []) ∷ []

abbrev online : Host World
online = record world { bus = λ w msg. (w, returned none registered) }

scans_two : scan_number (codes "2") ≡ some 2
unfolding scan_number
scans_two = refl

online-answers :
    modem_props_get online (set_cgreg online start (codes "2")).0 (codes "NetworkRegistration")
    ≡ ((set_cgreg online start (codes "2")).0, answer none registered)
unfolding modem_props_get set_cgreg scan_number with_cgreg ringing
online-answers = refl

-- AT+CGREG=2 without AT+CREG=2: the place is not printed.
set_cgreg-place_example :
    ((set_cgreg online start (codes "2")).1 ≡ at_ok)
    × (get_cgreg online (set_cgreg online start (codes "2")).0
        ≡ (intermediate online (set_cgreg online start (codes "2")).0 (cgreg_line 2 1 []), at_ok))
unfolding registration_of location ofono_prop_find ringing find_state
set_cgreg-place_example =
    set_cgreg-place online (λ p w. refl) start (set_cgreg online start (codes "2")).0 (codes "2") 2
      none registered scans_two (omega arith) online-answers refl
