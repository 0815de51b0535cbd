-- ===== src/Tests/Sessions.antt =====
-- A run of the reader thread of src/at_modem.c, on a daemon whose state is the modem and its input.
use meego_cellular_matd.Prelude.{
  ℕ, ◌+◌, ◌≤◌, ◌≡◌, refl, Bool, true, false, Option, some, [], ◌∷◌, arith, Bytes, codes, leb,
  if◌then◌else◌, length, replicate, length-replicate,
}
use meego_cellular_matd.Modem.{Modem, set_echo}
use meego_cellular_matd.Parser.{maxline}
use meego_cellular_matd.Parser.Editor.{empty}
use meego_cellular_matd.Input.{Reader, got, read_interrupted}
use meego_cellular_matd.Input.Text.{stream, arriving}
use meego_cellular_matd.Basic.{handle_bool, handle_reset}
use meego_cellular_matd.Commands.{Bank, cleared, execute, register_alpha}
use meego_cellular_matd.Commands.Keeps.{KeptByAlpha, execute-kept}
use meego_cellular_matd.Commands.Registration.{cleared-KeptByBank, register_alpha-KeptByBank}
use meego_cellular_matd.Daemon.{dte_thread}
use meego_cellular_matd.Daemon.Sessions.{Ends, Session, to_come, dte_thread-Session}
use meego_cellular_matd.Tests.Phone.{modem}

abbrev Daemon : Type 0
Daemon = Modem × Reader

abbrev modem_of : Daemon → Modem
modem_of w = w.0

abbrev put_modem : Modem → Daemon → Daemon
put_modem m w = (m, w.1)

abbrev reader_of : Daemon → Reader
reader_of w = w.1

abbrev put_reader : Reader → Daemon → Daemon
put_reader r w = (w.0, r)

abbrev same : Daemon → Daemon
same w = w

abbrev nothing : ℕ → ℕ
nothing i = 0

-- The commands E and Z.
abbrev two : Bank Daemon
two =
    (register_alpha (register_alpha cleared b'E' (handle_bool modem_of put_modem set_echo)).0 b'Z'
      (handle_reset modem_of put_modem)).0

abbrev banks : Daemon → Option (Bank Daemon)
banks w = some two

module _ (n : ℕ) where
  abbrev Within : Daemon → Type 0
  Within w = length (stream w.1) ≤ n

  Within-if :
      (b : Bool) (x y : Daemon × ℕ) → Within x.0 → Within y.0 → Within (if b then x else y).0
  Within-if true x y p q = p
  Within-if false x y p q = q

  echo-Within : KeptByAlpha Within (handle_bool modem_of put_modem set_echo)
  unfolding handle_bool
  echo-Within w v h = Within-if (leb 2 v) _ _ h h

  reset-Within : KeptByAlpha Within (handle_reset modem_of put_modem)
  unfolding handle_reset
  reset-Within w v h = h

takes_none :
    (w : Daemon) (req : Bytes) → length (stream (execute (banks w) w req).0.1) ≤ length (stream w.1)
takes_none w req =
    let n = length (stream w.1) in
    execute-kept (Within n) two w req
      (register_alpha-KeptByBank (Within n) _ b'Z' (handle_reset modem_of put_modem)
        (reset-Within n)
        (register_alpha-KeptByBank (Within n) cleared b'E' (handle_bool modem_of put_modem set_echo)
          (echo-Within n) (cleared-KeptByBank (Within n))))
      (omega arith)

-- Two lines in three chunks, and an interruption.
abbrev begun : Daemon
begun = (
  modem,
  record {
    pending = [];
    reads = got (codes "AT") ∷ read_interrupted ∷ got (codes "E0\rATZ") ∷ got (codes "\r") ∷ [];
  },
)

bytes_to_come : length (stream begun.1) ≡ 9
unfolding arriving
bytes_to_come = refl

dte_thread-Session_example :
    Ends (Session nothing modem_of put_modem banks reader_of put_reader same begun empty) (
      dte_thread nothing modem_of put_modem banks reader_of put_reader same
        (to_come reader_of begun + 1)
        begun
        (replicate maxline 0)
        (replicate maxline 0))
dte_thread-Session_example =
    dte_thread-Session nothing modem_of put_modem banks reader_of put_reader same (λ m w. refl)
      (λ r w. refl) (λ w. refl) takes_none begun (replicate maxline 0) (replicate maxline 0)
      (length-replicate {A = ℕ} maxline 0) (length-replicate {A = ℕ} maxline 0)
      (omega (arith, bytes_to_come))
