-- ===== src/Interface/Formats.antt =====
-- plugins/interface.c: the flags of the terminal, and the tables of AT+ICF.
use meego_cellular_matd.Prelude.{
  ℕ, ◌+◌, ◌-◌, ◌%◌, Bool, true, false, ◌||◌, Option, none, some, List, [], ◌∷◌, Bytes, ◌==◌,
  if◌then◌else◌, get_or,
}
use meego_cellular_matd.Libc.Scanf.{space, literal, uint, sscanf, count_of, num_at}

-- The flags of `struct termios` that are read or written: CSIZE as the number of bits in a
-- character, and the others by their names.
pub record Termios : Type 0 where
  pub ixon : Bool
  pub ixany : Bool
  pub ixoff : Bool
  pub csize : ℕ
  pub cstopb : Bool
  pub parenb : Bool
  pub parodd : Bool
  pub cmspar : Bool
  pub clocal : Bool
  pub ispeed : ℕ
  pub ospeed : ℕ

pub record Terminal (W : Type 0) : Type 0 where
  pub tcgetattr : W → Option Termios
  pub tcsetattr : W → Termios → W × Bool

-- All of it zero; CS5 is 0.
abbrev pub zeroed : Termios
zeroed = record {
  ixon = false;
  ixany = false;
  ixoff = false;
  csize = 5;
  cstopb = false;
  parenb = false;
  parodd = false;
  cmspar = false;
  clocal = false;
  ispeed = 0;
  ospeed = 0;
}

abbrev pub attr_or_zero : Option Termios → Termios
attr_or_zero none = zeroed
attr_or_zero (some tp) = tp

-- `formats` and `parities`, of the flags CSIZE, CSTOPB and PARENB, and PARODD and CMSPAR.
abbrev pub formats : List (ℕ × Bool × Bool)
formats =
    (8, false, false)
    ∷ (8, true, false)
    ∷ (8, false, true)
    ∷ (8, false, false)
    ∷ (7, true, false)
    ∷ (7, false, true)
    ∷ (7, false, false)
    ∷ []

abbrev pub parities : List (Bool × Bool)
parities = (true, false) ∷ (false, false) ∷ (true, true) ∷ (false, true) ∷ []

abbrev pub format_of : ℕ → ℕ × Bool × Bool
format_of n = get_or formats n (8, false, false)

abbrev pub parity_of : ℕ → Bool × Bool
parity_of n = get_or parities n (false, false)

-- CSTOPB is not cleared before the flags are set.
unfoldable pub with_framing : Termios → ℕ → ℕ → Termios
with_framing tp format parity = record tp {
  csize = (format_of format).0;
  cstopb = tp.cstopb || (format_of format).1;
  parenb = (format_of format).2;
  parodd = (parity_of parity).0;
  cmspar = (parity_of parity).1;
}

-- The two `switch` statements of `get_framing`.
unfoldable pub size_format : ℕ → Option ℕ
size_format csize = if csize == 7 then some 6 else if csize == 8 then some 3 else none

unfoldable pub stop_format : Bool → Bool → ℕ → Option ℕ
stop_format true true n = none
stop_format true false n = some (n - 2)
stop_format false true n = some (n - 1)
stop_format false false n = some n

unfoldable pub read_parity : Bool → Bool → ℕ
read_parity parodd cmspar = (if parodd then 0 else 1) + (if cmspar then 2 else 0)

unfoldable pub read_framing : ℕ → Bool → Bool → Bool → Bool → Option (ℕ × ℕ)
unfolding size_format stop_format read_parity
read_framing csize cstopb parenb parodd cmspar = elim (size_format csize) [
  | none ↦ none
  | some n ↦ elim (stop_format cstopb parenb n) [
    | none ↦ none
    | some format ↦ some (format, read_parity parodd cmspar)
  ]
]

-- One or two numbers, with a default for the second.
unfoldable pub scan_pair : ℕ → Bytes → Option (ℕ × ℕ)
unfolding sscanf
scan_pair missing req =
    let r = sscanf (space ∷ uint ∷ space ∷ literal b',' ∷ space ∷ uint ∷ []) req in
    elim (count_of r) [
      | none ↦ none
      | some n ↦
          if n == 1
          then some (num_at r.args 0, missing)
          else if n == 2
          then some (num_at r.args 0, num_at r.args 1)
          else none
    ]

unfoldable pub with_flow : Termios → ℕ → ℕ → Termios
with_flow tp out in_flow = record tp {
  ixon = out % 2 == 1;
  ixany = false;
  ixoff = in_flow % 2 == 1;
}
