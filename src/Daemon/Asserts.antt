-- ===== src/Daemon/Asserts.antt =====
-- src/parser.c: the lines of `at_parser_push` and the assertions of `at_iterate_first`.
use meego_cellular_matd.Prelude.{
  ℕ, ◌+◌, ◌^◌, ◌≤◌, ◌<◌, ◌≡◌, refl, sym, subst, true, some, [], ◌∷◌, arith, Bytes, leb, length,
  drop,
}
use meego_cellular_matd.Parser.{maxline, Parser, normalise, done, push}
use meego_cellular_matd.Parser.Editor.{Editor, edit}
use meego_cellular_matd.Parser.Arrays.{Represents}
use meego_cellular_matd.Parser.Refine.{Refines, push-Refines}
use meego_cellular_matd.Parser.Stream.{line_after}
use meego_cellular_matd.Parser.Lines.{IsCommandLine, IsRemembered, AllLines, edit-Yields}
use meego_cellular_matd.Line.{iterate_first, iterate_next}

iterate_first-IsCommandLine :
    (beyond : ℕ → ℕ) (line : Bytes)
    → IsCommandLine line
    → iterate_first beyond line ≡ some (iterate_next beyond (drop 2 line))
unfolding iterate_first
iterate_first-IsCommandLine beyond line l =
    let enough : leb 2 (length line) ≡ true = ground (arith, l.at_least) in
    rw (enough, l.starts) refl

-- When a push to a parser that stands for an editor, with a command line or nothing remembered,
-- returns a line, the two assertions of `at_iterate_first` hold of the line, so its first command is
-- looked for behind the prefix, and the parser is again such a one. The character count must not
-- wrap, and for a slash at most 2048 characters have been typed.
pub push-iterate_first :
    (beyond : ℕ → ℕ) (p q : Parser) (e : Editor) (c : ℕ) (line : Bytes)
    → Represents p e
    → IsRemembered e.last
    → length e.typed + 1 < 2 ^ 64
    → (normalise c ≡ b'/' → length e.typed ≤ maxline)
    → push p c ≡ done q (some line)
    → (iterate_first beyond line ≡ some (iterate_next beyond (drop 2 line)))
      × Represents q (edit e c).0
      × IsRemembered (edit e c).0.last
push-iterate_first beyond p q e c line r m small fits h =
    let (after, out) = subst (λ x. Refines x (edit e c)) h (push-Refines p e c r small fits) in
    let (m', lines) = edit-Yields e c m in
    let all : AllLines (line ∷ []) = subst (λ o. AllLines (line_after o [])) (sym out) lines in
    (iterate_first-IsCommandLine beyond line all.0, after, m')
