-- ===== src/Daemon.antt =====
-- src/at_modem.c: dte_thread, the loop that reads the bytes of the DTE and processes its lines. `W`
-- is the state of the daemon, with the modem, its input and the bank of commands in it.
-- at_commands_deinit and at_commands_init, which load the plugins again, are the parameter
-- `reload`.
pub mod Asserts
pub mod Sessions
use meego_cellular_matd.Prelude.{ℕ, zero, suc, false, Option, none, some, Bytes, if◌then◌else◌}
use meego_cellular_matd.Modem.{Modem}
use meego_cellular_matd.Parser.{Parser, Pushed, fault, done, push, init}
use meego_cellular_matd.Input.{Reader, Got, getchar}
use meego_cellular_matd.Commands.{Bank}
use meego_cellular_matd.Session.{process_line}

-- How the loop ends: at the end of the input or a hang-up, with a read outside of the line buffer,
-- or without fuel.
pub data Served (W : Type 0) : Type 0 where
  stopped : W → Served W
  crashed : W → Served W
  out_of_fuel : W → Served W

module _ {W : Type 0} (beyond : ℕ → ℕ) (modem : W → Modem) (put : Modem → W → W)
    (bank : W → Option (Bank W)) (reader : W → Reader) (put_reader : Reader → W → W)
    (reload : W → W) where
  -- What follows a call of `at_parser_push`.
  abbrev pub on_pushed : (W → Parser → Served W) → W → Pushed → Served W
  on_pushed more w fault = crashed w
  on_pushed more w (done q none) = more w q
  on_pushed more w (done q (some line)) = more (process_line beyond modem put bank w line) q

  -- What follows a call of `at_getchar`.
  abbrev pub on_got : (W → Parser → Served W) → W → Parser → Got → Served W
  on_got more w p (m, r, none) = stopped (put_reader r (put m w))
  on_got more w p (m, r, some c) = on_pushed more (put_reader r (put m w)) (push p c)

  -- ATZ and AT&F leave a flag, and the commands are set up again.
  unfoldable pub reinit : W → W
  reinit w =
      let w' = reload w in
      if (modem w).reset then put (record (modem w') { reset = false }) w' else w

  unfoldable pub serve : ℕ → W → Parser → Served W
  serve zero w p = out_of_fuel w
  serve (suc fuel) w p =
      let w' = reinit w in
      let next = on_got (serve fuel) w' p (getchar (modem w') (reader w')) in
      if (modem w).hungup then stopped w else next

  -- The thread, with whatever the parser's arrays hold.
  unfoldable pub dte_thread : ℕ → W → Bytes → Bytes → Served W
  dte_thread fuel w buf old = serve fuel w (init buf old)
