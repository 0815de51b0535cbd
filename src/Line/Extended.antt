-- ===== src/Line/Extended.antt =====
-- The length of an extended command at the start of a line.
use meego_cellular_matd.Prelude.{
  ℕ, suc, ◌<◌, ◌≡◌, ap, ◌⊎◌, inl, inr, Bool, true, false, not, Option, none, some, [], ◌∷◌, ◌++◌,
  arith, Bytes, ◌==◌, Bool-cases, length, take_length-append, drop_length-append,
}
use mathlib.Core.Option.{some-injective}
use mathlib.Core.Option
use meego_cellular_matd.Libc.Ctype.{is_alpha}
use meego_cellular_matd.Line.{
  cut, command_length, basic_command_length, extended_command_length, extended_from, lettered,
}

-- An extended command: its first byte starts no basic command and is no separator, and its quotes
-- are closed, with a semicolon in quotes at most.
pub record IsExtended (cmd : Bytes) : Type 0 where
  pub head : ℕ
  pub tail : Bytes
  pub parts : cmd ≡ head ∷ tail
  pub no_letter : is_alpha head ≡ false
  pub no_ampersand : (head == b'&') ≡ false
  pub no_space : (head == b' ') ≡ false
  pub no_semicolon : (head == b';') ≡ false
  pub no_nul : (head == 0) ≡ false
  pub closed : extended_from false cmd ≡ some (length cmd)

-- What may follow a command: the end of the line, or a semicolon.
abbrev pub IsEnd : Bytes → Type 0
IsEnd s = (s ≡ []) ⊎ ((t : Bytes) × (s ≡ b';' ∷ t))

map-suc-injective : (o : Option ℕ) (n : ℕ) → Option.map suc o ≡ some (suc n) → o ≡ some n
map-suc-injective none n h = cc
map-suc-injective (some l) n h = ap some (omega (arith, some-injective (suc l) (suc n) h))

pub extended_from-stops :
    (b : Bool) (cmd s : Bytes)
    → extended_from b cmd ≡ some (length cmd)
    → IsEnd s
    → extended_from b (cmd ++ s) ≡ some (length cmd)
unfolding extended_from
extended_from-stops true [] s h e = cc
extended_from-stops false [] s h (inl e) = rw e
extended_from-stops false [] s h (inr e) = rw e.1
extended_from-stops true (c ∷ cmd) s h e =
    ap (Option.map suc)
      (extended_from-stops (not (c == b'"')) cmd s (map-suc-injective _ (length cmd) h) e)
extended_from-stops false (c ∷ cmd) s h e = elim (Bool-cases (c == b';')) [
  | inl end ↦ absurd (omega (arith, some-injective 0 (suc (length cmd)) (rw end at h)))
  | inr more ↦ rw more (
      ap (Option.map suc)
        (extended_from-stops (c == b'"') cmd s (map-suc-injective _ (length cmd) (rw more at h)) e))
]

pub basic_command_length-IsExtended :
    (cmd s : Bytes) → IsExtended cmd → basic_command_length (cmd ++ s) ≡ 0
unfolding basic_command_length lettered
basic_command_length-IsExtended cmd s x = rw x.parts (ground (arith, x.no_letter))

pub command_length-IsExtended :
    (cmd s : Bytes) → IsExtended cmd → IsEnd s → command_length (cmd ++ s) ≡ length cmd
unfolding command_length extended_command_length
command_length-IsExtended cmd s x e =
    rw (basic_command_length-IsExtended cmd s x, extended_from-stops false cmd s x.closed e)

pub cut-append :
    (cmd s : Bytes)
    → 0 < length cmd
    → cut (cmd ++ s) (length cmd) ≡ record { cmd = some cmd; rest = s }
unfolding cut
cut-append cmd s h =
    let found : (length cmd == 0) ≡ false = ground arith in
    rw (found, take_length-append cmd s, drop_length-append cmd s)
