-- ===== src/Tests/Plugins.antt =====
-- Runs of the commands of the smaller plugins, and of those on messages.
use meego_cellular_matd.Prelude.{
  ℕ, ◌+◌, ◌≡◌, refl, Bool, true, false, Option, none, some, List, [], ◌∷◌, arith, Bytes, codes,
}
use meego_cellular_matd.Modem.{at_ok}
use meego_cellular_matd.Clock.{Tm, clock_text, quarters, set_cclk}
use meego_cellular_matd.Clock.Again.{set_cclk-misread}
use meego_cellular_matd.Libc.Format.{decimal_02, decimal_signed}
use meego_cellular_matd.Input.{Reader, got}
use meego_cellular_matd.Loader.{at_unload_plugins, freed, Dirent, Library, Loader, null}
use meego_cellular_matd.Loader.Balance.{
  Call, load, unload, run, IsBalanced, unused, Ok, left, run-IsBalanced, run-freed,
}
use meego_cellular_matd.Commands.{cleared}
use meego_cellular_matd.Startup.{Parts}
use meego_cellular_matd.Events.Keymap.{Name, key_semicolon, key_comma}
use meego_cellular_matd.Events.Keypad.{Inputs}
use meego_cellular_matd.Events.Device.{Kernel, Event}
use meego_cellular_matd.Tests.Phone.{World, start}

-- A clock that keeps the number of the month.
abbrev month : Tm → Option ℕ
month d = some d.mon

abbrev keep_month : ℕ → ℕ → ℕ × Bool
keep_month w n = (n, true)

abbrev may : Tm
may = record {
  year = 111;
  mon = 4;
  mday = 9;
  hour = 13;
  min = 37;
  sec = 0;
  gmtoff = (false, 10800);
}

prints_may : clock_text may ≡ codes "11/05/09,13:37:00+12"
unfolding clock_text decimal_02 decimal_signed quarters
prints_may = refl

-- The ninth of May comes back in June.
set_cclk-misread_example : set_cclk month keep_month 0 (clock_text may) ≡ (5, at_ok)
set_cclk-misread_example =
    set_cclk-misread month keep_month 0 may
      (omega arith, omega arith, omega arith, omega arith, omega arith, omega arith)

-- A short message to be sent, typed as a PDU with no service centre.
abbrev typing : Reader
typing = record { pending = codes "00"; reads = got (codes "07\u{1a}") ∷ [] }

abbrev reads : World → Reader
reads w = typing

abbrev read_on : Reader → World → World
read_on r w = w

-- One plugin, that registers itself by a count.
abbrev opened : Bytes → Option (Library ℕ)
opened path = some (record { handle = 4; register = some (λ n. (n + 1, 0)); unregister = none })

abbrev plugins : List Dirent
plugins = record { is_regular = true; name = codes "clock.so" } ∷ []

abbrev unloaded : Loader ℕ
unloaded = record { modules = null; count = 0; refs = 0; handles = [] }

abbrev two_uses : List Call
two_uses = load (some plugins) ∷ load none ∷ unload ∷ unload ∷ load (some plugins) ∷ []

run-IsBalanced_example :
    Ok
      (λ t. IsBalanced t × (t.refs ≡ left 0 two_uses))
      (run opened (codes "/plugins") (some unloaded) two_uses)
run-IsBalanced_example =
    run-IsBalanced opened (codes "/plugins") unloaded two_uses (unused refl refl)
      (omega arith, (omega arith, omega arith, (omega arith, (omega arith, (omega arith, tt)))))

run-freed_example :
    Ok
      (λ t.
        (t.refs ≡ 1)
        × (t.count ≡ 0)
        × (t.modules ≡ freed)
        × (at_unload_plugins t ≡ none)
        × (at_unload_plugins (record t { modules = null })
            ≡ some (record t { modules = null; refs = 0 })))
      (run opened
        (codes "/plugins")
        (some unloaded)
        (load (some plugins) ∷ unload ∷ load none ∷ []))
run-freed_example = run-freed opened (codes "/plugins") unloaded plugins refl refl

-- A numbering of the keys in which only those of the semicolon and the comma are told from the others.
abbrev number : Name → ℕ
number key_semicolon = 39
number key_comma = 51
number key = 2

-- A daemon that keeps the events that are written, on a descriptor for which every request succeeds.
abbrev keypad_kernel : Kernel (List Event)
keypad_kernel = record {
  number = number;
  open_file = λ w path. (w, some 3);
  close = λ w fd. w;
  request = λ w fd req. (w, true);
  write_event = λ w fd event. (event ∷ w, true);
  gettimeofday = λ w. (0, 950000);
}

abbrev enabled : List Event → Inputs
enabled w = record {
  keypad = record { fd = none; cmec = 2 };
  screen = record { fd = none; cmec = 0 };
}

abbrev unkept : Inputs → List Event → List Event
unkept i w = w

-- A daemon of which only the values of the plugins are kept, with a plugin that returns 7.
abbrev parts : Parts (List ℕ)
parts = record {
  modem = λ w. start.modem;
  put = λ m w. w;
  bank = λ w. cleared;
  put_bank = λ b w. w;
  phonebooks = λ w. record { phonebooks = []; written_index = 0; active = none };
  put_phonebooks = λ p w. w;
  plugins = λ w. w;
  put_plugins = λ tab w. tab;
}

abbrev answers_7 : Bytes → Option (Library (List ℕ))
answers_7 path =
    some (record { handle = 4; register = some (λ w. (w, 7)); unregister = some (λ n w. n ∷ w) })

abbrev no_plugins : Loader (List ℕ)
no_plugins = record { modules = null; count = 0; refs = 0; handles = [] }
