-- ===== src/Startup.antt =====
-- src/commands.c: at_commands_init and at_commands_deinit, the set-up of all the commands. `W` is the
-- state of the daemon, with the modem, the bank of commands, the phonebooks and the values that the
-- plugins have returned in it; the state of the loader stands beside it. malloc() is taken to succeed.
pub mod Restart
use meego_cellular_matd.Prelude.{ℕ, Option, none, some, List, Bytes, codes}
use meego_cellular_matd.Modem.{Modem}
use meego_cellular_matd.Commands.{Bank, Handler, cleared, register_ext}
use meego_cellular_matd.Basic.{register_basic}
use meego_cellular_matd.Charset.{register_charset}
use meego_cellular_matd.Clac.{handle_clac}
use meego_cellular_matd.Phonebook.{Phonebooks}
use meego_cellular_matd.Phonebook as Phonebook
use meego_cellular_matd.Loader.{
  Dirent, Library, Loader, at_load_plugins, at_unload_plugins, at_instantiate_plugins,
  at_deinstantiate_plugins,
}

-- The parts of the daemon's state that the set-up works on.
pub record Parts (W : Type 0) : Type 0 where
  pub modem : W → Modem
  pub put : Modem → W → W
  pub bank : W → Bank W
  pub put_bank : Bank W → W → W
  pub phonebooks : W → Phonebooks W
  pub put_phonebooks : Phonebooks W → W → W
  pub plugins : W → List ℕ
  pub put_plugins : List ℕ → W → W

module _ {W : Type 0} (parts : Parts W) where
  -- AT+CLAC, on the bank as it is when it is called.
  abbrev clac : Handler W
  clac = record {
    set = λ w req.
        let (m, res) = handle_clac (parts.bank w) (parts.modem w) req in (parts.put m w, res);
    get = none;
    test = none;
  }

  -- The bank and the phonebooks before the plugins register theirs.
  unfoldable pub set_up_commands : W → W
  unfolding register_basic register_charset handle_clac
  set_up_commands w =
      let basic =
        register_charset parts.modem parts.put (register_basic parts.modem parts.put cleared) in
      let w1 = parts.put_bank basic w in
      let w2 = parts.put_phonebooks (Phonebook.init (parts.phonebooks w1)) w1 in
      parts.put_bank (register_ext (parts.bank w2) (codes "+CLAC") clac).0 w2

  unfoldable pub at_commands_init :
      (Bytes → Option (Library W)) → Bytes → Option (List Dirent) → Loader W → W → Loader W × W
  unfolding at_load_plugins at_instantiate_plugins set_up_commands
  at_commands_init dlopen dir entries s w =
      let s1 = (at_load_plugins dlopen dir entries s).0 in
      let (w1, tab) = at_instantiate_plugins s1 (set_up_commands w) in
      (s1, parts.put_plugins tab w1)

  abbrev pub beside : W → Option (Loader W) → Option (Loader W × W)
  beside w none = none
  beside w (some s) = some (s, w)

  abbrev pub then_unload : Loader W → Option W → Option (Loader W × W)
  then_unload s none = none
  then_unload s (some w) = beside w (at_unload_plugins s)

  unfoldable pub at_commands_deinit : Loader W → W → Option (Loader W × W)
  unfolding at_unload_plugins at_deinstantiate_plugins
  at_commands_deinit s w = then_unload s (at_deinstantiate_plugins s (parts.plugins w) w)
