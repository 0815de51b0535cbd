-- ===== src/Connection.antt =====
-- src/at_modem.c: at_connect_mtu and at_connect, the data mode between the DTE and the DCE. What
-- poll(2), read(2) and write(2) do in a turn of the loop is an argument. A call of poll() that fails
-- is made again; the statistics, which are only logged, are left out, and malloc() is taken to
-- succeed.
pub mod Relay
pub mod Buffers
pub mod Escape
use meego_cellular_matd.Prelude.{
  ℕ, zero, suc, ◌+◌, ◌-◌, ◌*◌, ◌/◌, ◌%◌, ◌^◌, ◌≤◌, ◌<◌, min, compare, Ordering, ◌≡◌, refl, sym, ap,
  ◌∙◌, subst, ◌≢◌, ◌↔◌, ◌⊎◌, inl, inr, Bool, true, false, not, ◌&&◌, ◌||◌, Option, none, some, List,
  [], ◌∷◌, ◌++◌, map, reverse, append-nil, append_assoc, reverse-append, arith, Bytes, codes, ltb,
  leb, ◌==◌, if◌then◌else◌, ltb→lt, lt→ltb, leb→le, ltb_false→le, le→ltb_false, leb_false→lt,
  ==_iff, tests, if_true, if_false, Bool-cases, Option-cases, length, get_elem?, get_or, set, take,
  drop, replicate, length-append, length-set, length-replicate, length-drop, length-take,
  take-append-drop, take_length-append, drop_length-append, get_elem?-set_self, get_elem?-set_ne,
  get_elem?-none, get_elem?-some, take-suc, all_below, all_below-elim, holds_num, holds_num-some,
}
use meego_cellular_matd.Modem.{Modem}
use meego_cellular_matd.Input.{Reader}
use meego_cellular_matd.Rate.{at_print_rate}
use meego_cellular_matd.Reply.{at_print_reply}

-- The index of the descriptors: 0 is the DTE and 1 the DCE.
pub data Side : Type 0 where
  dte dce : Side

abbrev pub other : Side → Side
other dte = dce
other dce = dte

-- What comes from a side: the bytes of its buffer from `offset` on, `len` in number; all that has
-- been read into it, and all of it that the other side has taken.
pub record Channel : Type 0 where
  pub pending : Bytes
  pub offset : ℕ
  pub received : Bytes
  pub taken : Bytes

pub record Link : Type 0 where
  pub from_dte : Channel
  pub from_dce : Channel
  pub last_rx : ℕ

abbrev pub channel : Side → Link → Channel
channel dte l = l.from_dte
channel dce l = l.from_dce

abbrev pub put_channel : Side → Channel → Link → Link
put_channel dte c l = record l { from_dte = c }
put_channel dce c l = record l { from_dce = c }

-- The outcome of read(2), and of write(2); `again` is EINTR or EAGAIN.
pub data Reading : Type 0 where
  arrived : Bytes → Reading  -- no bytes at the end of the stream
  not_yet : Reading
  read_error : Reading

pub data Writing : Type 0 where
  took : ℕ → Writing
  again : Writing
  write_error : Writing

-- What poll() reports of a side: whether it can be read, with the time and the outcome then, and
-- whether it can be written. Errors and hang-ups are reported as both.
pub record Polled : Type 0 where
  pub readable : Option (ℕ × Reading)
  pub writable : Option Writing

abbrev pub Turn : Type 0
Turn = Polled × Polled

-- How the loop goes on: to the next statement, to the next index, or out of it.
pub data Flow : Type 0 where
  going : Link → Flow
  next : Link → Flow
  leave : Link → Flow

abbrev pub second : ℕ
second = 1000000000

abbrev pub plus3 : Bytes
plus3 = codes "+++"

unfoldable pub is_plus3 : Bytes → Bool
is_plus3 (a ∷ b ∷ c ∷ []) = a == b'+' && (b == b'+' && c == b'+')
is_plus3 buf = false

abbrev pub is_dte : Side → Bool
is_dte dte = true
is_dte dce = false

-- The difference of the times is that of two `uint64_t`.
unfoldable pub is_escape : Side → ℕ → Link → Bytes → Bool
unfolding is_plus3
is_escape side now l buf =
    is_dte side && (is_plus3 buf && leb second ((now + 2 ^ 64 - l.last_rx) % 2 ^ 64))

abbrev pub filled : Channel → Bytes → Channel
filled c buf = record c { pending = buf; offset = 0; received = c.received ++ buf }

-- The statements behind read(), on the bytes that came.
unfoldable pub accept : Side → ℕ → Link → Bytes → Flow
unfolding is_escape
accept side now l [] = leave l
accept side now l (c ∷ t) =
    if is_escape side now l (c ∷ t)
    then leave l
    else going (put_channel side (filled (channel side l) (c ∷ t)) (record l { last_rx = now }))

-- The buffer is filled from its start, whatever it holds.
unfoldable pub receive : ℕ → Side → ℕ → Reading → Link → Flow
unfolding accept
receive mtu side now read_error l = leave l
receive mtu side now not_yet l = next l
receive mtu side now (arrived s) l = accept side now l (take mtu s)

abbrev pub drained : Channel → ℕ → Channel
drained c n = record c {
  pending = drop n c.pending;
  offset = c.offset + min n (length c.pending);
  taken = c.taken ++ take n c.pending;
}

-- A call of write() takes no more than it is given.
unfoldable pub send : Side → Writing → Link → Flow
send side write_error l = leave l
send side again l = next l
send side (took n) l = going (put_channel (other side) (drained (channel (other side) l) n) l)

abbrev pub then_send : Side → Option Writing → Flow → Flow
then_send side none flow = flow
then_send side (some w) (going l) = send side w l
then_send side (some w) flow = flow

-- The body of the loop over the two indices.
unfoldable pub turn_side : ℕ → Side → Polled → Link → Flow
unfolding receive send
turn_side mtu side p l = elim p.readable [
  | none ↦ then_send side p.writable (going l)
  | some (now, r) ↦ then_send side p.writable (receive mtu side now r l)
]

-- Both indices: the link, and whether the loop is left.
abbrev pub ended : Flow → Link × Bool
ended (leave l) = (l, true)
ended (going l) = (l, false)
ended (next l) = (l, false)

abbrev pub turn_dce : ℕ → Polled → Link × Bool → Link × Bool
turn_dce mtu p (l, true) = (l, true)
turn_dce mtu p (l, false) = ended (turn_side mtu dce p l)

unfoldable pub turn : ℕ → Turn → Link → Link × Bool
unfolding turn_side
turn mtu (p, q) l = turn_dce mtu q (ended (turn_side mtu dte p l))

abbrev pub is_empty : Bytes → Bool
is_empty [] = true
is_empty (c ∷ s) = false

-- The events that are asked for: a side is to be read while nothing of it is pending, and to be
-- written while something of the other side is.
unfoldable pub asks_in : Side → Link → Bool
asks_in side l = is_empty (channel side l).pending

unfoldable pub asks_out : Side → Link → Bool
asks_out side l = not (is_empty (channel (other side) l).pending)

-- What poll() finds at a side: whether it is ready to be read, with the time and the outcome then,
-- and to be written; and whether that is for an error or a hang-up, which is reported unasked.
pub record Ready : Type 0 where
  pub to_read : Option (ℕ × Reading)
  pub to_write : Option Writing
  pub read_trouble : Bool
  pub write_trouble : Bool

unfoldable pub polled : Side → Link → Ready → Polled
unfolding asks_in asks_out
polled side l r = record {
  readable = if asks_in side l || r.read_trouble then r.to_read else none;
  writable = if asks_out side l || r.write_trouble then r.to_write else none;
}

abbrev pub Round : Type 0
Round = Ready × Ready

abbrev pub polled_turn : Link → Round → Turn
polled_turn l (p, q) = (polled dte l p, polled dce l q)

-- The loop, for so many calls of poll() that return; behind them it waits.
abbrev pub loop_on : (Link → Link × Bool) → Link × Bool → Link × Bool
loop_on more (l, true) = (l, true)
loop_on more (l, false) = more l

unfoldable pub relay : ℕ → List Round → Link → Link × Bool
unfolding turn polled
relay mtu [] l = (l, false)
relay mtu (r ∷ rs) l = loop_on (relay mtu rs) (turn mtu (polled_turn l r) l)

abbrev pub silent : Channel
silent = record { pending = []; offset = 0; received = []; taken = [] }

abbrev pub fresh : Link
fresh = record { from_dte = silent; from_dce = silent; last_rx = 0 }

abbrev pub at_connect_code : ℕ
at_connect_code = 1

-- What is done before the loop, with the speeds of the terminal.
unfoldable pub enter_data : Modem → ℕ → ℕ → Modem
unfolding at_print_rate at_print_reply
enter_data m ispeed ospeed =
    let rated = (at_print_rate m ispeed ospeed).0 in
    let told = (at_print_reply rated at_connect_code).0 in
    if m.in_data then record m { aborted = true } else record told { in_data = true }

-- What the DTE has got of the DCE's data, and the mode: data mode until the loop is left.
abbrev pub after_relay : Modem → Link × Bool → Modem
after_relay m (l, left) = record m { in_data = not left; sent = m.sent ++ l.from_dce.taken }

unfoldable pub at_connect_mtu :
    ℕ → List Round → ℕ → ℕ → Modem → Reader → Modem × Reader × (Link × Bool)
unfolding enter_data relay
at_connect_mtu mtu rounds ispeed ospeed m r =
    let done = relay mtu rounds fresh in
    if m.in_data
    then (record m { aborted = true }, r, (fresh, true))
    else (after_relay (enter_data m ispeed ospeed) done, record r { pending = [] }, done)

unfoldable pub at_connect : List Round → ℕ → ℕ → Modem → Reader → Modem × Reader × (Link × Bool)
unfolding at_connect_mtu
at_connect rounds ispeed ospeed m r = at_connect_mtu 4096 rounds ispeed ospeed m r
