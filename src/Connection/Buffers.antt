-- ===== src/Connection/Buffers.antt =====
-- src/at_modem.c: the two buffers of at_connect_mtu.
use meego_cellular_matd.Prelude.{
  ℕ, ◌+◌, ◌≤◌, inl, inr, Bool, true, false, Option, none, some, List, [], ◌∷◌, arith, Bytes,
  Bool-cases, length, take, length-drop, length-take,
}
use meego_cellular_matd.Connection.{
  Side, dte, dce, Channel, Link, channel, put_channel, Reading, arrived, not_yet, read_error,
  Writing, took, again, write_error, Polled, Turn, Flow, going, next, leave, is_escape, filled,
  accept, receive, drained, send, then_send, turn_side, turn, turn_dce, ended, loop_on, relay,
  Round, polled_turn,
}
use meego_cellular_matd.Connection.Relay.{Holds, ended-Holds}

-- What is pending ends inside the buffer.
abbrev pub IsInBuffer : ℕ → Channel → Type 0
IsInBuffer mtu c = c.offset + length c.pending ≤ mtu

abbrev pub AreInBuffers : ℕ → Link → Type 0
AreInBuffers mtu l = IsInBuffer mtu l.from_dte × IsInBuffer mtu l.from_dce

drained-IsInBuffer : (mtu n : ℕ) (c : Channel) → IsInBuffer mtu c → IsInBuffer mtu (drained c n)
drained-IsInBuffer mtu n c h = omega (arith, h, length-drop n c.pending)

send-AreInBuffers :
    (mtu : ℕ) (side : Side) (w : Writing) (l : Link)
    → AreInBuffers mtu l
    → Holds (AreInBuffers mtu) (send side w l)
unfolding send
send-AreInBuffers mtu side write_error l h = h
send-AreInBuffers mtu side again l h = h
send-AreInBuffers mtu dte (took n) l h = (h.0, drained-IsInBuffer mtu n l.from_dce h.1)
send-AreInBuffers mtu dce (took n) l h = (drained-IsInBuffer mtu n l.from_dte h.0, h.1)

accept-AreInBuffers :
    (mtu : ℕ) (side : Side) (now : ℕ) (l : Link) (buf : Bytes)
    → length buf ≤ mtu
    → AreInBuffers mtu l
    → Holds (AreInBuffers mtu) (accept side now l buf)
unfolding accept
accept-AreInBuffers mtu side now l [] fits h = h
accept-AreInBuffers mtu side now l (c ∷ t) fits h =
    elim (Bool-cases (is_escape side now l (c ∷ t))) [
      | inl escape ↦ rw escape h
      | inr no_escape ↦ rw no_escape (go side)
    ]
  where
    go :
        (s : Side)
        → AreInBuffers mtu
            (put_channel s (filled (channel s l) (c ∷ t)) (record l { last_rx = now }))
    go dte = (omega (arith, fits), h.1)
    go dce = (h.0, omega (arith, fits))

receive-AreInBuffers :
    (mtu : ℕ) (side : Side) (now : ℕ) (r : Reading) (l : Link)
    → AreInBuffers mtu l
    → Holds (AreInBuffers mtu) (receive mtu side now r l)
unfolding receive
receive-AreInBuffers mtu side now read_error l h = h
receive-AreInBuffers mtu side now not_yet l h = h
receive-AreInBuffers mtu side now (arrived s) l h =
    accept-AreInBuffers mtu side now l (take mtu s) (omega (arith, length-take mtu s)) h

then_send-AreInBuffers :
    (mtu : ℕ) (side : Side) (w : Option Writing) (flow : Flow)
    → Holds (AreInBuffers mtu) flow
    → Holds (AreInBuffers mtu) (then_send side w flow)
then_send-AreInBuffers mtu side none flow h = h
then_send-AreInBuffers mtu side (some w) (going l) h = send-AreInBuffers mtu side w l h
then_send-AreInBuffers mtu side (some w) (next l) h = h
then_send-AreInBuffers mtu side (some w) (leave l) h = h

read_and_send :
    (mtu : ℕ) (side : Side) (o : Option (ℕ × Reading)) (w : Option Writing) (l : Link)
    → AreInBuffers mtu l
    → Holds (AreInBuffers mtu) (turn_side mtu side (record { readable = o; writable = w }) l)
unfolding turn_side
read_and_send mtu side none w l h = then_send-AreInBuffers mtu side w (going l) h
read_and_send mtu side (some (now, r)) w l h =
    then_send-AreInBuffers mtu side w (receive mtu side now r l)
      (receive-AreInBuffers mtu side now r l h)

turn_dce-AreInBuffers :
    (mtu : ℕ) (q : Polled) (r : Link × Bool)
    → AreInBuffers mtu r.0
    → AreInBuffers mtu (turn_dce mtu q r).0
turn_dce-AreInBuffers mtu q (l, true) h = h
turn_dce-AreInBuffers mtu q (l, false) h =
    ended-Holds (AreInBuffers mtu) (turn_side mtu dce q l)
      (read_and_send mtu dce q.readable q.writable l h)

turn-AreInBuffers :
    (mtu : ℕ) (t : Turn) (l : Link) → AreInBuffers mtu l → AreInBuffers mtu (turn mtu t l).0
unfolding turn
turn-AreInBuffers mtu (p, q) l h = turn_dce-AreInBuffers mtu q (ended (turn_side mtu dte p l)) (
    ended-Holds (AreInBuffers mtu) (turn_side mtu dte p l)
      (read_and_send mtu dte p.readable p.writable l h))

loop_on-AreInBuffers :
    (mtu : ℕ) (rs : List Round) (r : Link × Bool)
    → ((l : Link) → AreInBuffers mtu l → AreInBuffers mtu (relay mtu rs l).0)
    → AreInBuffers mtu r.0
    → AreInBuffers mtu (loop_on (relay mtu rs) r).0
loop_on-AreInBuffers mtu rs (l, true) more h = h
loop_on-AreInBuffers mtu rs (l, false) more h = more l h

-- Whatever poll(), read() and write() do, hang-ups and errors included, what is pending in the two
-- buffers of at_connect_mtu stays inside of them.
pub relay-AreInBuffers :
    (mtu : ℕ) (rs : List Round) (l : Link)
    → AreInBuffers mtu l
    → AreInBuffers mtu (relay mtu rs l).0
unfolding relay
relay-AreInBuffers mtu [] l h = h
relay-AreInBuffers mtu (r ∷ rs) l h =
    loop_on-AreInBuffers mtu rs (turn mtu (polled_turn l r) l) (relay-AreInBuffers mtu rs)
      (turn-AreInBuffers mtu (polled_turn l r) l h)
