-- ===== src/Tests/Lines.antt =====
-- Runs of whole command lines, src/at_modem.c, on a daemon whose state is its modem.
use meego_cellular_matd.Prelude.{ℕ, ◌≡◌, refl, true, false, Option, some, [], arith, codes}
use meego_cellular_matd.Reply.{at_print_reply}
use meego_cellular_matd.Libc.Ctype.{strncasecmp, to_lower}
use meego_cellular_matd.Line.Commands.{commands}
use meego_cellular_matd.Modem.{Modem}
use meego_cellular_matd.Charset.{register_charset}
use meego_cellular_matd.Basic.{register_basic}
use meego_cellular_matd.Basic.Sane.{IsSane, execute-IsSane}
use meego_cellular_matd.Commands.{Bank, cleared, execute}
use meego_cellular_matd.Session.{process_line}
use meego_cellular_matd.Session.Order.{Runs, process_line-Runs}

abbrev idle : Modem
idle = record {
  echo = true;
  quiet = false;
  verbose = true;
  rate_report = false;
  in_data = false;
  cmee = 1;
  hungup = false;
  reset = false;
  charset = 0;
  sent = [];
  writes = [];
  aborted = false;
}

abbrev self : Modem → Modem
self m = m

abbrev new : Modem → Modem → Modem
new m w = m

abbrev nothing : ℕ → ℕ
nothing i = 0

bank : Bank Modem
bank = register_charset self new (register_basic self new cleared)

abbrev banks : Modem → Option (Bank Modem)
banks m = some bank

process_line-Runs_example :
    let all = commands nothing 7 (codes "V0E0") in
    (v : Modem) × (res : ℕ) × Runs self new banks idle all.0 all.1 v res
    × process_line nothing self new banks idle (codes "ATV0E0")
      ≡ new (at_print_reply (self v) res).0 v
process_line-Runs_example =
    process_line-Runs nothing self new banks idle b'A' b'T' (codes "V0E0")
      (unfold strncasecmp to_lower in refl)

idle-IsSane : IsSane idle
idle-IsSane = record { mode = omega arith; row = omega arith }

execute-IsSane_example :
    IsSane
      (execute
        (some (register_charset self new (register_basic self new cleared)))
        idle
        (codes "+CMEE=7")).0
execute-IsSane_example = execute-IsSane self new (λ m w. refl) idle (codes "+CMEE=7") idle-IsSane
