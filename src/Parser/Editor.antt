-- ===== src/Parser/Editor.antt =====
-- What `at_parser_push` promises: an editor of an unbounded line that remembers the last command.
use meego_cellular_matd.Prelude.{
  ℕ, Bool, false, ◌&&◌, Option, none, some, [], ◌∷◌, reverse, Bytes, ltb, leb, ◌==◌, if◌then◌else◌,
  length,
}
use meego_cellular_matd.Parser.{maxline, is_a, find_prefix, normalise}

-- The characters typed since the last line end, the newest first, and the last command line, empty
-- when there is none.
pub record Editor : Type 0 where
  pub typed : Bytes
  pub last : Bytes

abbrev pub empty : Editor
empty = record { typed = []; last = [] }

abbrev pub newest_is_a : Bytes → Bool
newest_is_a [] = false
newest_is_a (c ∷ t) = is_a c

abbrev pub rub_out : Bytes → Bytes
rub_out [] = []
rub_out (c ∷ t) = t

abbrev pub recall : Bytes → Option Bytes
recall [] = none
recall (c ∷ t) = some (c ∷ t)

unfoldable pub keep : Editor → Option Bytes → Editor × Option Bytes
keep e none = (record e { typed = [] }, none)
keep e (some line) = (record { typed = []; last = line }, some line)

-- A finished line: too long, without a command, or with one.
unfoldable pub accept : Editor → Editor × Option Bytes
unfolding keep
accept e =
    if leb maxline (length e.typed) then (empty, none) else keep e (find_prefix (reverse e.typed))

-- Any byte but Backspace and the slash of `A/`.
unfoldable pub enter : Editor → ℕ → Editor × Option Bytes
unfolding accept
enter e c =
    if c == b'\r'
    then accept e
    else if ltb c 32
    then (e, none)
    else (record e { typed = c ∷ e.typed }, none)

unfoldable pub edit_normal : Editor → ℕ → Editor × Option Bytes
unfolding enter
edit_normal e c =
    if c == 8
    then (record e { typed = rub_out e.typed }, none)
    else if c == b'/' && newest_is_a e.typed
    then (record e { typed = [] }, recall e.last)
    else enter e c

unfoldable pub edit : Editor → ℕ → Editor × Option Bytes
unfolding edit_normal
edit e c = edit_normal e (normalise c)
