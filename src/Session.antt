-- ===== src/Session.antt =====
-- src/at_modem.c: process_line and at_execute_string. `W` is the state of the daemon, with the modem
-- and the bank of commands in it; `beyond` is the memory behind the separator literal.
pub mod Order
use meego_cellular_matd.Prelude.{
  ℕ, zero, suc, true, Option, none, some, [], ◌∷◌, Bytes, if◌then◌else◌, length,
}
use meego_cellular_matd.Line.{Next, iterate_next, iterate_first}
use meego_cellular_matd.Modem.{Modem, at_ok, at_error}
use meego_cellular_matd.Reply.{at_print_reply}
use meego_cellular_matd.Commands.{Bank, execute}

abbrev abort : Modem → Modem
abort m = record m { aborted = true }

module _ {W : Type 0} (beyond : ℕ → ℕ) (modem : W → Modem) (put : Modem → W → W)
    (bank : W → Option (Bank W)) where
  unfoldable pub at_execute_string : W → Bytes → W × ℕ
  at_execute_string w cmd = execute (bank w) w cmd

  -- `assert (!m->data)`
  unfoldable pub assert_no_data : W → W
  assert_no_data w = if (modem w).in_data then put (abort (modem w)) w else w

  -- What follows the loop: the rest of the line must be empty.
  abbrev pub at_end_of_line : W → Bytes → W × ℕ
  at_end_of_line w [] = (w, at_ok)
  at_end_of_line w (c ∷ s) = (w, at_error)

  -- The loop, from the outcome of a call of `at_iterate_first` or `at_iterate_next`; the fuel
  -- bounds the further calls.
  abbrev pub executed : (W → W × ℕ) → W × ℕ → W × ℕ
  executed more (w, zero) = more (assert_no_data w)
  executed more (w, suc res) = (assert_no_data w, suc res)

  unfoldable pub loop : ℕ → W → Option Bytes → Bytes → W × ℕ
  loop fuel w none rest = at_end_of_line w rest
  loop zero w (some req) rest = (w, at_error)
  loop (suc fuel) w (some req) rest =
      let n = iterate_next beyond rest in
      executed (λ w'. loop fuel w' n.cmd n.rest) (at_execute_string w req)

  abbrev pub printed : W × ℕ → W
  printed (w, res) = put (at_print_reply (modem w) res).0 w

  abbrev pub from_first : ℕ → W → Option Next → W
  from_first fuel w none = put (abort (modem w)) w
  from_first fuel w (some n) = printed (loop fuel w n.cmd n.rest)

  unfoldable pub process_line : W → Bytes → W
  process_line w line = from_first (length line) w (iterate_first beyond line)
