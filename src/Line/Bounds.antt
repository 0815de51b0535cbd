-- ===== src/Line/Bounds.antt =====
-- src/parser.c: the lengths of commands against that of the line.
use meego_cellular_matd.Prelude.{
  ℕ, zero, suc, ◌+◌, ◌≤◌, ◌≡◌, refl, inl, inr, Bool, true, false, not, Option, none, some, [], ◌∷◌,
  arith, Bytes, ◌==◌, Bool-cases, length, get_or, drop, length-drop,
}
use mathlib.Core.Option
use meego_cellular_matd.Line.{
  count_spaces, count_numerals, count_digits, s_operator, after_number, lettered,
  basic_command_length, extended_from, extended_command_length, command_length,
}

count_spaces-le : (s : Bytes) → count_spaces s ≤ length s
unfolding count_spaces
count_spaces-le [] = omega arith
count_spaces-le (c ∷ s) = ground (arith, count_spaces-le s)

count_numerals-le : (s : Bytes) → count_numerals s ≤ length s
unfolding count_numerals
count_numerals-le [] = omega arith
count_numerals-le (c ∷ s) = ground (arith, count_numerals-le s)

count_digits-le : (s : Bytes) → count_digits s ≤ length s
unfolding count_digits
count_digits-le s = omega (
  arith,
  count_spaces-le s,
  count_numerals-le (drop (count_spaces s) s),
  length-drop (count_spaces s) s,
)

get_or-past : (s : Bytes) (l : ℕ) → length s ≤ l → get_or s l 0 ≡ 0
get_or-past [] l h = refl
get_or-past (c ∷ s) zero h = absurd (omega arith)
get_or-past (c ∷ s) (suc l) h = get_or-past s l (omega arith)

s_operator-le : (cmd : Bytes) (l : ℕ) → l ≤ length cmd → s_operator cmd l ≤ length cmd
unfolding s_operator
s_operator-le cmd l h =
    ground (arith, get_or-past cmd l, count_digits-le (drop (l + 1) cmd), length-drop (l + 1) cmd)

after_number-le : (cmd : Bytes) (l : ℕ) → l ≤ length cmd → after_number cmd l ≤ length cmd
unfolding after_number
after_number-le cmd l h =
    s_operator-le cmd _ (omega (arith, count_spaces-le (drop l cmd), length-drop l cmd))

lettered-le : (offset : ℕ) (s : Bytes) → lettered offset s ≤ offset + length s
unfolding lettered
lettered-le offset [] = omega arith
lettered-le offset (c ∷ s) = ground (arith, count_digits-le s)

pub basic_command_length-le : (s : Bytes) → basic_command_length s ≤ length s
unfolding basic_command_length
basic_command_length-le [] = omega arith
basic_command_length-le (c ∷ s) = ground (
  arith,
  after_number-le (c ∷ s) (1 + count_digits s) (omega (arith, count_digits-le s)),
  lettered-le 1 s,
  lettered-le 0 (c ∷ s),
)

abbrev Within : Option ℕ → ℕ → Type 0
Within none n = Unit {0}
Within (some l) n = l ≤ n

Within-suc : (o : Option ℕ) (n : ℕ) → Within o n → Within (Option.map suc o) (suc n)
Within-suc none n h = tt
Within-suc (some l) n h = omega arith

extended_from-le : (b : Bool) (s : Bytes) → Within (extended_from b s) (length s)
unfolding extended_from
extended_from-le false [] = omega arith
extended_from-le true [] = tt
extended_from-le false (c ∷ s) = elim (Bool-cases (c == b';')) [
  | inl end ↦ rw end (omega arith)
  | inr more ↦
      rw more (Within-suc (extended_from (c == b'"') s) (length s) (extended_from-le (c == b'"') s))
]
extended_from-le true (c ∷ s) =
    Within-suc (extended_from (not (c == b'"')) s) (length s) (extended_from-le (not (c == b'"')) s)

pub extended_command_length-le : (s : Bytes) → extended_command_length s ≤ length s
unfolding extended_command_length
extended_command_length-le s = go (extended_from false s) (extended_from-le false s)
  where
    go : (o : Option ℕ) → Within o (length s) → Option.get_or o 0 ≤ length s
    go none h = omega arith
    go (some l) h = h

-- The length of a command, basic or extended, does not pass the end of the line.
pub command_length-le : (s : Bytes) → command_length s ≤ length s
unfolding command_length
command_length-le s = ground (arith, basic_command_length-le s, extended_command_length-le s)
