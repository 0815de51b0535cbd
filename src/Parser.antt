-- ===== src/Parser.antt =====
-- src/parser.c, the byte-wise line reader: `struct at_parser`, at_parser_init, at_find_prefix and
-- at_parser_push. The array reads and writes are by index; a read past the end of `buf` is a fault.
pub mod Editor
pub mod Arrays
pub mod Refine
pub mod Stream
pub mod Lines
use meego_cellular_matd.Prelude.{
  ℕ, ◌+◌, ◌-◌, ◌%◌, ◌^◌, Bool, ◌&&◌, ◌||◌, Option, none, some, [], ◌∷◌, ◌++◌, leb, ltb, ◌==◌,
  if◌then◌else◌, length, get_elem?, set, take, drop, Bytes, codes,
}
use meego_cellular_matd.Libc.Ctype.{strncasecmp, is_eq}

abbrev pub maxline : ℕ
maxline = 2048

pub record Parser : Type 0 where
  pub length : ℕ  -- size_t
  pub oldlength : ℕ  -- size_t
  pub buf : Bytes
  pub old : Bytes

-- `at_parser_init` sets the lengths; the two arrays keep whatever they hold.
unfoldable pub init : Bytes → Bytes → Parser
init buf old = record { length = 0; oldlength = 0; buf = buf; old = old }

-- The suffix that `at_find_prefix` returns; its length is the new `*plen`.
unfoldable pub find_prefix : Bytes → Option Bytes
unfolding strncasecmp
find_prefix [] = none
find_prefix (a ∷ []) = none
find_prefix (a ∷ b ∷ s) =
    let rest = find_prefix (b ∷ s) in
    if is_eq (strncasecmp (a ∷ b ∷ s) (codes "AT") 2) then some (a ∷ b ∷ s) else rest

-- The three rewrites of the received byte at the top of `at_parser_push`.
unfoldable pub normalise : ℕ → ℕ
normalise c =
    let c = c % 128 in let c = if c == 127 then 8 else c in if c == b'\n' then b'\r' else c

abbrev pub memcpy : Bytes → Bytes → Bytes
memcpy dst src = src ++ drop (length src) dst

-- What a call of `at_parser_push` ends in: a read outside of `buf`, or the new state and the
-- returned line, `none` for NULL.
pub data Pushed : Type 0 where
  fault : Pushed
  done : Parser → Option Bytes → Pushed

-- The `A/` branch, once `buf[length - 1]` has been read.
unfoldable pub repeat_line : Parser → Pushed
repeat_line p =
    let q = record p { length = 0 } in
    if p.oldlength == 0 then done q none else done q (some (take p.oldlength p.old))

-- What follows `at_find_prefix` at a line end: the line is saved and returned, if there is one.
unfoldable pub remember : Parser → Option Bytes → Pushed
remember p none = done p none
remember p (some ret) =
    done (record p { old = memcpy p.old (ret ++ (0 ∷ [])); oldlength = length ret }) (some ret)

-- The line end: too long a line is dropped, with the line before it.
unfoldable pub complete : Parser → Pushed
unfolding find_prefix remember
complete p =
    if leb maxline p.length
    then done (record p { oldlength = 0; length = 0 }) none
    else let buf = set p.buf p.length 0 in
      remember (record p { buf = buf; length = 0 }) (find_prefix (take p.length buf))

unfoldable pub store : Parser → ℕ → Pushed
unfolding complete
store p c =
    if c == b'\r'
    then complete p
    else if ltb c 32
    then done p none
    else let buf = if ltb p.length maxline then set p.buf p.length c else p.buf in
      done (record p { buf = buf; length = (p.length + 1) % 2 ^ 64 }) none

abbrev pub is_a : ℕ → Bool
is_a c = c == b'A' || c == b'a'

-- A slash behind the byte that was read from `buf`, if `buf` has it.
unfoldable pub slash : Parser → Option ℕ → Pushed
unfolding repeat_line store
slash p none = fault
slash p (some last) = if is_a last then repeat_line p else store p b'/'

-- `at_parser_push` on the rewritten byte.
unfoldable pub push_normal : Parser → ℕ → Pushed
unfolding slash store
push_normal p c =
    if c == 8
    then done (record p { length = p.length - 1 }) none
    else if c == b'/' && leb 1 p.length
    then slash p (get_elem? p.buf (p.length - 1))
    else store p c

unfoldable pub push : Parser → ℕ → Pushed
unfolding normalise push_normal
push p c = push_normal p (normalise c)
