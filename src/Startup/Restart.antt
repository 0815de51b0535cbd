-- ===== src/Startup/Restart.antt =====
-- src/commands.c: at_commands_deinit after at_commands_init.
use meego_cellular_matd.Prelude.{Option, none, some}
use meego_cellular_matd.Loader.{Loader}

module _ {W : Type 0} where
  -- What is left of the loader.
  abbrev pub OkLoader : (Loader W → Type 0) → Option (Loader W × W) → Type 0
  OkLoader P none = ⊥
  OkLoader P (some (s, w)) = P s
