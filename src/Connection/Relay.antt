-- ===== src/Connection/Relay.antt =====
-- src/at_modem.c: what at_connect_mtu passes on between the DTE and the DCE.
use meego_cellular_matd.Prelude.{ℕ, ◌≡◌, false, Option, none, some, List, [], ◌∷◌, ◌++◌, Bytes}
use meego_cellular_matd.Modem.{Modem}
use meego_cellular_matd.Connection.{
  Channel, Link, Reading, Turn, Flow, going, next, leave, ended, Round,
}

-- Each byte that was read has been taken or is pending, once and in order.
abbrev pub IsInOrder : Channel → Type 0
IsInOrder c = c.received ≡ c.taken ++ c.pending

abbrev pub IsRelay : Link → Type 0
IsRelay l = IsInOrder l.from_dte × IsInOrder l.from_dce

-- A side is read when its buffer is empty: the loop asks for it then, but poll() reports errors and
-- hang-ups unasked.
abbrev Asked : Option (ℕ × Reading) → Bytes → Type 0
Asked none pending = Unit {0}
Asked (some r) pending = pending ≡ []

abbrev pub IsAsked : Turn → Link → Type 0
IsAsked (p, q) l = Asked p.readable l.from_dte.pending × Asked q.readable l.from_dce.pending

abbrev pub Holds : (Link → Type 0) → Flow → Type 0
Holds P (going l) = P l
Holds P (next l) = P l
Holds P (leave l) = P l

-- The invariant in the middle of a turn: the DCE is still to be read if it was asked for.
abbrev Before : Option (ℕ × Reading) → Link → Type 0
Before o l = IsRelay l × Asked o l.from_dce.pending

pub ended-Holds : (P : Link → Type 0) (flow : Flow) → Holds P flow → P (ended flow).0
ended-Holds P (going l) h = h
ended-Holds P (next l) h = h
ended-Holds P (leave l) h = h

-- No descriptor that is read has an error or a hang-up.
abbrev pub IsQuiet : Round → Type 0
IsQuiet (p, q) = (p.read_trouble ≡ false) × (q.read_trouble ≡ false)

abbrev pub AllQuiet : List Round → Type 0
AllQuiet [] = Unit {0}
AllQuiet (r ∷ rs) = IsQuiet r × AllQuiet rs
