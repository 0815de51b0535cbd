-- ===== src/Tests/Data.antt =====
-- Runs of the data mode of src/at_modem.c.
use meego_cellular_matd.Prelude.{
  ℕ, ◌+◌, ◌≡◌, refl, true, false, Option, none, some, List, [], ◌∷◌, arith, codes,
}
use meego_cellular_matd.Input.{Reader}
use meego_cellular_matd.Connection.{
  Link, Reading, Writing, arrived, took, again, Ready, Round, is_escape, is_plus3, accept, receive,
  send, turn_side, turn, relay, polled, asks_in, asks_out, fresh, plus3, second,
}
use meego_cellular_matd.Connection.Buffers.{AreInBuffers, relay-AreInBuffers}
use meego_cellular_matd.Connection.Escape.{read_only, idle, turn-escape}

-- A side that is ready without an error or a hang-up.
abbrev at_side : Option (ℕ × Reading) → Option Writing → Ready
at_side r w = record { to_read = r; to_write = w; read_trouble = false; write_trouble = false }

-- The DTE sends five bytes, which the DCE takes in two calls, and the DCE three; what arrives while
-- they are pending is not read. Then the DTE sends the escape sequence.
abbrev rounds : List Round
rounds =
    (
      at_side (some (10, arrived (codes "hello"))) none,
      at_side (some (11, arrived (codes "abc"))) (some (took 2)),
    )
    ∷ (
      at_side (some (12, arrived (codes "more"))) (some (took 9)),
      at_side (some (13, arrived (codes "late"))) (some again),
    )
    ∷ (at_side none none, at_side none (some (took 2)))
    ∷ (at_side none none, at_side none (some (took 9)))
    ∷ (at_side (some (11 + second, arrived plus3)) none, at_side none none)
    ∷ []

abbrev reader : Reader
reader = record { pending = codes "ATH\r"; reads = [] }

-- The loop was left, and both sides have got everything.
relays_all :
    let (l, left) = relay 16 rounds fresh in
    (left ≡ true) × (l.from_dte.taken ≡ codes "hello") × (l.from_dce.taken ≡ codes "abc")
unfolding relay polled asks_in asks_out turn turn_side receive accept send is_escape is_plus3
relays_all = (refl, refl, refl)

relay-AreInBuffers_example : AreInBuffers 4 (relay 4 rounds fresh).0
relay-AreInBuffers_example = relay-AreInBuffers 4 rounds fresh (omega arith, omega arith)

turn-escape_example :
    let heard = (turn 16 (idle, read_only 5 (codes "x")) fresh).0 in
    ((turn 16 (idle, read_only 5 (codes "x")) fresh).1 ≡ false)
    × ((turn 16 (read_only 9 plus3, idle) heard).1 ≡ false)
turn-escape_example = turn-escape 16 5 9 b'x' [] fresh (omega arith) (omega arith) (omega arith)

-- Two bytes of the DTE are pending.
abbrev busy : Link
busy = record fresh {
  from_dte = record { pending = codes "ok"; offset = 0; received = codes "ok"; taken = [] };
}
