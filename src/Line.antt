-- ===== src/Line.antt =====
-- src/parser.c, the split of a command line: at_iterate_first, at_iterate_next, count_digits,
-- basic_command_length and extended_command_length. A pointer and a length into the line are the
-- rest of the line from there on; the byte behind the rest is the nul that ends the line.
pub mod Bounds
pub mod Split
pub mod Extended
pub mod Commands
use meego_cellular_matd.Prelude.{
  ℕ, zero, suc, ◌+◌, Bool, true, false, not, ◌&&◌, ◌||◌, Option, none, some, [], ◌∷◌, map, Bytes,
  codes, leb, ◌==◌, if◌then◌else◌, length, get_or, take, drop,
}
use mathlib.Core.Option
use meego_cellular_matd.Libc.Ctype.{is_digit, is_alpha, strncasecmp, is_eq}

-- `while (cmd[l] == ' ')`; the nul byte ends it.
unfoldable pub count_spaces : Bytes → ℕ
count_spaces [] = 0
count_spaces (c ∷ s) = let more = count_spaces s in if c == b' ' then suc more else 0

unfoldable pub count_numerals : Bytes → ℕ
count_numerals [] = 0
count_numerals (c ∷ s) = let more = count_numerals s in if is_digit c then suc more else 0

unfoldable pub count_digits : Bytes → ℕ
unfolding count_spaces count_numerals
count_digits s = let l = count_spaces s in l + count_numerals (drop l s)

-- The `switch` of the ATS branch, at the byte behind the number: `l` is its place.
unfoldable pub s_operator : Bytes → ℕ → ℕ
unfolding count_digits
s_operator cmd l =
    let c = get_or cmd l 0 in
    if c == b'=' then l + 1 + count_digits (drop (l + 1) cmd) else if c == b'?' then l + 1 else l

-- The ATS branch behind the number.
unfoldable pub after_number : Bytes → ℕ → ℕ
unfolding count_spaces s_operator
after_number cmd l = s_operator cmd (l + count_spaces (drop l cmd))

-- A letter and its number, at `cmd + offset`.
unfoldable pub lettered : ℕ → Bytes → ℕ
unfolding count_digits
lettered offset [] = 0
lettered offset (c ∷ s) = if is_alpha c then offset + 1 + count_digits s else 0

unfoldable pub basic_command_length : Bytes → ℕ
unfolding count_digits after_number lettered
basic_command_length [] = 0
basic_command_length (c ∷ s) =
    if c == b'D' || c == b'd'
    then length (c ∷ s)
    else if c == b'S' || c == b's'
    then after_number (c ∷ s) (1 + count_digits s)
    else if c == b'&'
    then lettered 1 s
    else lettered 0 (c ∷ s)

-- The loop of `extended_command_length`: the bytes up to a semicolon or the end. The flag says that
-- the `memchr` for a closing quote is under way; `none` is its failure.
unfoldable pub extended_from : Bool → Bytes → Option ℕ
extended_from false [] = some 0
extended_from true [] = none
extended_from false (c ∷ s) =
    let more = Option.map suc (extended_from (c == b'"') s) in if c == b';' then some 0 else more
extended_from true (c ∷ s) = Option.map suc (extended_from (not (c == b'"')) s)

unfoldable pub extended_command_length : Bytes → ℕ
unfolding extended_from
extended_command_length s = Option.get_or (extended_from false s) 0

-- What `at_iterate_next` returns: the command, `none` for NULL, and the new cursor.
pub record Next : Type 0 where
  pub cmd : Option Bytes
  pub rest : Bytes

-- The length of the command at the start of `buf`: basic, or else extended.
unfoldable pub command_length : Bytes → ℕ
unfolding basic_command_length extended_command_length
command_length buf =
    let l = basic_command_length buf in if l == 0 then extended_command_length buf else l

-- The assignments to the three pointers, and the pointer returned.
unfoldable pub cut : Bytes → ℕ → Next
cut buf l = record { cmd = if l == 0 then none else some (take l buf); rest = drop l buf }

-- `beyond` is what the linker has put behind the literal `" ;"`: the source passes the length of
-- the line to `memchr`, and not that of the literal.
module _ (beyond : ℕ → ℕ) where
  abbrev pub separators : ℕ → ℕ
  separators zero = b' '
  separators (suc zero) = b';'
  separators (suc (suc zero)) = 0
  separators (suc (suc (suc i))) = beyond i

  -- `memchr (mem + from, c, n) != NULL`
  unfoldable pub memchr_from : ℕ → ℕ → ℕ → Bool
  memchr_from from c zero = false
  memchr_from from c (suc n) = separators from == c || memchr_from (suc from) c n

  unfoldable pub skip_separators : Bytes → Bytes
  unfolding memchr_from
  skip_separators [] = []
  skip_separators (c ∷ s) =
      let more = skip_separators s in if memchr_from 0 c (length (c ∷ s)) then more else c ∷ s

  unfoldable pub iterate_next : Bytes → Next
  unfolding skip_separators command_length cut
  iterate_next line = let buf = skip_separators line in cut buf (command_length buf)

  -- `none` where one of the two assertions fails.
  unfoldable pub iterate_first : Bytes → Option Next
  unfolding iterate_next strncasecmp
  iterate_first line =
      if leb 2 (length line) && is_eq (strncasecmp line (codes "AT") 2)
      then some (iterate_next (drop 2 line))
      else none
