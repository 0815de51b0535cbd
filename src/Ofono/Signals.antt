-- ===== src/Ofono/Signals.antt =====
-- plugins/ofono/core.c: ofono_signal_watch, ofono_signal_matcher and ofono_prop_matcher, manager_find
-- and the modem that at_plugin_register selects.
use meego_cellular_matd.Prelude.{
  ℕ, suc, Bool, true, false, not, ◌&&◌, Option, none, some, List, [], ◌∷◌, ◌++◌, Bytes, codes, ◌==◌,
  if◌then◌else◌, take,
}
use mathlib.Core.Option
use meego_cellular_matd.Libc.Ctype.{streq}
use meego_cellular_matd.Ofono.{
  Value, string, Entry, Argument, plain, variant, structs, Answer, answer, Object, ofono_any,
  ofono_modem, Watch, Plugin, Host, modemc, current_modem, ofono_query, ofono_req_new,
}

-- A message of the type `signal`.
pub record Signal : Type 0 where
  pub sender : Option Bytes
  pub path : Bytes
  pub interface : Bytes
  pub member : Bytes
  pub args : List Argument

-- `ofono_signal_watch`: the filter that is added to the bus.
unfoldable pub ofono_signal_watch : Object → Bytes → Option Bytes → Option Bytes → Watch
ofono_signal_watch obj subif signal arg0 = record {
  object = obj;
  interface = codes "org.ofono." ++ subif;
  signal = signal;
  arg0 = arg0;
}

-- `ofono_prop_watch`
unfoldable pub ofono_prop_watch : Object → Bytes → Bytes → Watch
unfolding ofono_signal_watch
ofono_prop_watch obj subif prop =
    ofono_signal_watch obj subif (some (codes "PropertyChanged")) (some prop)

-- The first argument, if it is a string.
abbrev pub first_string : List Argument → Option Bytes
first_string (plain (string s) ∷ args) = some s
first_string _ = none

abbrev pub same : Option Bytes → Option Bytes → Bool
same (some a) (some b) = streq a b
same a b = false

-- A test that a null pointer leaves out.
abbrev pub wanted : Option Bytes → Option Bytes → Bool
wanted none actual = true
wanted (some s) actual = same (some s) actual

abbrev pub object_fits : Object → Plugin → Bytes → Bool
object_fits ofono_any p path = true
object_fits ofono_modem p path = not (modemc p == 0) && streq path (current_modem p)

-- `ofono_signal_matcher`: whether the callback is called.
unfoldable pub ofono_signal_matcher : Plugin → Watch → Signal → Bool
unfolding streq
ofono_signal_matcher p s msg =
    same p.name msg.sender
    && (streq msg.interface s.interface
        && (wanted s.signal (some msg.member)
            && (wanted s.arg0 (first_string msg.args) && object_fits s.object p msg.path)))

-- A filter of the plugin, if it is set, matches.
abbrev pub watched : Plugin → Option Watch → Signal → Bool
watched p none msg = false
watched p (some s) msg = ofono_signal_matcher p s msg

-- `ofono_prop_matcher`: the value that the callback gets, if it has the type of the watch.
unfoldable pub ofono_prop_matcher {ℓ} : {A : Type ℓ} → (Value → Option A) → List Argument → Option A
ofono_prop_matcher type (name ∷ variant value ∷ args) = type value
ofono_prop_matcher type _ = none

-- The loop of `manager_find`, which ends at a structure that does not begin with an object path.
unfoldable pub modem_paths : List Entry → List Bytes
modem_paths [] = []
modem_paths (modem ∷ array) = elim modem.path [ none ↦ [] | some path ↦ path ∷ modem_paths array ]

abbrev found_in : Answer → Option Bytes × List Bytes
found_in (answer (some sender) (structs array ∷ args)) = (some sender, modem_paths array)
found_in _ = (none, [])

-- `modem_read_current` on what has been read of the file, at most 63 bytes: none on an error.
unfoldable pub find_modem : List Bytes → Bytes → Option ℕ
unfolding streq
find_modem [] buf = none
find_modem (path ∷ modemv) buf =
    let rest = Option.map suc (find_modem modemv buf) in if streq buf path then some 0 else rest

unfoldable pub modem_read_current : List Bytes → Option Bytes → ℕ
unfolding find_modem
modem_read_current modemv none = 0
modem_read_current modemv (some []) = 0
modem_read_current modemv (some (c ∷ buf)) = elim (find_modem modemv (take 63 (c ∷ buf))) [
  | none ↦ 0
  | some id ↦ id
]

module _ {W : Type 0} (host : Host W) where
  unfoldable pub manager_find : W → W × (Option Bytes × List Bytes)
  unfolding ofono_query ofono_req_new modem_paths
  manager_find w =
      let (w1, a) =
        ofono_query host w (ofono_req_new (codes "/") (codes "Manager") (codes "GetModems") []) in
      (w1, found_in a)

  -- The beginning of `at_plugin_register`; `saved` is the content of the file.
  unfoldable pub find_modems : W → Option Bytes → W
  unfolding manager_find modem_read_current
  find_modems w saved =
      let (w1, (name, modemv)) = manager_find w in
      host.keep
        (record (host.plugin w1) {
          name = name;
          modemv = modemv;
          modem = modem_read_current modemv saved;
        })
        w1
