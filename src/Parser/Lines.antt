-- ===== src/Parser/Lines.antt =====
-- The lines that the parser returns: command lines, and the repeated one.
use meego_cellular_matd.Prelude.{
  ℕ, ◌+◌, ◌^◌, ◌≤◌, ◌<◌, ◌≡◌, refl, sym, ap, subst, ◌≢◌, ◌⊎◌, inl, inr, true, ◌&&◌, Option, none,
  some, List, [], ◌∷◌, reverse, reverse-append, arith, Bytes, codes, ltb, leb, ◌==◌, leb_false→lt,
  Bool-cases, length, length-append,
}
use meego_cellular_matd.Parser.Arrays.{Represents}
use meego_cellular_matd.Parser.Refine.{find_prefix-length, push-Refines, Refines}
use meego_cellular_matd.Libc.Ctype.{strncasecmp, is_eq}
use meego_cellular_matd.Parser.{maxline, Parser, init, find_prefix, normalise, done, push}
use meego_cellular_matd.Parser.Editor.{
  Editor, empty, edit, edit_normal, enter, keep, accept, newest_is_a, recall,
}
use meego_cellular_matd.Parser.Stream.{
  line_after, push_all, edit_all, RunRefines, push_all-RunRefines, push_all-init,
}

-- What `at_iterate_first` asserts of a command line, and the room that the saved copy has.
pub record IsCommandLine (l : Bytes) : Type 0 where
  pub starts : is_eq (strncasecmp l (codes "AT") 2) ≡ true
  pub at_least : 2 ≤ length l
  pub at_most : length l < maxline

find_prefix-starts :
    (s l : Bytes)
    → find_prefix s ≡ some l
    → (is_eq (strncasecmp l (codes "AT") 2) ≡ true) × (2 ≤ length l)
unfolding find_prefix
find_prefix-starts [] l h = cc
find_prefix-starts (a ∷ []) l h = cc
find_prefix-starts (a ∷ b ∷ s) l h =
    elim (Bool-cases (is_eq (strncasecmp (a ∷ b ∷ s) (codes "AT") 2))) [
      | inl here ↦ ground (arith, h)
      | inr later ↦ find_prefix-starts (b ∷ s) l (rw later at h)
    ]

length-reverse : (t : Bytes) → length (reverse t) ≡ length t
length-reverse [] = refl
length-reverse (c ∷ t) = omega (
  arith,
  ap (length {A = ℕ}) (reverse-append (c ∷ []) t),
  length-append (reverse t) (c ∷ []),
  length-reverse t,
)

-- The remembered line, if there is one, is a command line.
abbrev pub IsRemembered : Bytes → Type 0
IsRemembered l = (l ≡ []) ⊎ IsCommandLine l

abbrev pub AllLines : List Bytes → Type 0
AllLines [] = Unit {0}
AllLines (l ∷ ls) = IsCommandLine l × AllLines ls

abbrev pub Yields : Editor × Option Bytes → Type 0
Yields r = IsRemembered r.0.last × AllLines (line_after r.1 [])

keep-Yields :
    (e : Editor) (found : Option Bytes)
    → IsRemembered e.last
    → ((l : Bytes) → found ≡ some l → IsCommandLine l)
    → Yields (keep e found)
unfolding keep
keep-Yields e none m h = (m, tt)
keep-Yields e (some l) m h = (inr (h l refl), (h l refl, tt))

accept-Yields : (e : Editor) → IsRemembered e.last → Yields (accept e)
unfolding accept
accept-Yields e m = elim (Bool-cases (leb maxline (length e.typed))) [
  | inl long ↦ rw long (inl refl, tt)
  | inr short ↦ rw short (
      keep-Yields e _ m λ l h.
        let (starts, two) = find_prefix-starts (reverse e.typed) l h in
        record {
          starts = starts;
          at_least = two;
          at_most = omega (
            arith,
            find_prefix-length (reverse e.typed) l h,
            length-reverse e.typed,
            leb_false→lt maxline (length e.typed) short,
          );
        })
]

recall-Yields : (e : Editor) → IsRemembered e.last → Yields (record e { typed = [] }, recall e.last)
recall-Yields e m = go e.last m
  where
    go : (l : Bytes) → IsRemembered l → IsRemembered l × AllLines (line_after (recall l) [])
    go [] m = (m, tt)
    go (c ∷ l) (inl no_line) = cc
    go (c ∷ l) (inr h) = (inr h, (h, tt))

enter-Yields : (e : Editor) (c : ℕ) → IsRemembered e.last → Yields (enter e c)
unfolding enter
enter-Yields e c m = elim (Bool-cases (c == b'\r')) [
  | inl end ↦ rw end (accept-Yields e m)
  | inr more ↦ elim (Bool-cases (ltb c 32)) [
    | inl control ↦ rw (more, control) (m, tt)
    | inr printing ↦ rw (more, printing) (m, tt)
  ]
]

edit_normal-Yields : (e : Editor) (c : ℕ) → IsRemembered e.last → Yields (edit_normal e c)
unfolding edit_normal
edit_normal-Yields e c m = elim (Bool-cases (c == 8)) [
  | inl back ↦ rw back (m, tt)
  | inr other ↦ elim (Bool-cases (c == b'/' && newest_is_a e.typed)) [
    | inl repeats ↦ rw (other, repeats) (recall-Yields e m)
    | inr plain ↦ rw (other, plain) (enter-Yields e c m)
  ]
]

pub edit-Yields : (e : Editor) (c : ℕ) → IsRemembered e.last → Yields (edit e c)
unfolding edit
edit-Yields e c m = edit_normal-Yields e (normalise c) m

AllLines-after :
    (out : Option Bytes) (ls : List Bytes)
    → AllLines (line_after out [])
    → AllLines ls
    → AllLines (line_after out ls)
AllLines-after none ls h k = k
AllLines-after (some l) ls h k = (h.0, k)

edit_all-AllLines : (cs : Bytes) (e : Editor) → IsRemembered e.last → AllLines (edit_all e cs).1
unfolding edit_all
edit_all-AllLines [] e m = tt
edit_all-AllLines (c ∷ cs) e m =
    let (m', out) = edit-Yields e c m in
    AllLines-after (edit e c).1 _ out (edit_all-AllLines cs (edit e c).0 m')

AllLines-run :
    (o : Option (Parser × List Bytes)) (s : Editor × List Bytes)
    → RunRefines o s
    → AllLines s.1
    → (r : Parser × List Bytes) × (o ≡ some r) × AllLines r.1
AllLines-run none s h all = absurd h
AllLines-run (some r) s h all = (r, refl, rw h.1 all)

-- Every line that a fresh parser returns, for an input of up to 2049 bytes, begins with `AT` in
-- either case, holds at least those two bytes and fewer than 2048; no push reads past the buffer.
pub push_all-command_lines :
    (buf old cs : Bytes)
    → length buf ≡ maxline
    → length old ≡ maxline
    → length cs ≤ maxline + 1
    → (r : Parser × List Bytes) × (push_all (init buf old) cs ≡ some r) × AllLines r.1
push_all-command_lines buf old cs b o room =
    AllLines-run (push_all (init buf old) cs) (edit_all empty cs)
      (push_all-init buf old cs b o room) (edit_all-AllLines cs empty (inl refl))

keep-found :
    (e : Editor) (found : Option Bytes) (line : Bytes)
    → (keep e found).1 ≡ some line
    → (found ≡ some line) × ((keep e found).0 ≡ record { typed = []; last = line })
unfolding keep
keep-found e none line h = cc
keep-found e (some l) line h = (h, ground (arith, h))

accept-found :
    (e : Editor) (line : Bytes)
    → (accept e).1 ≡ some line
    → (2 ≤ length line) × ((accept e).0 ≡ record { typed = []; last = line })
unfolding accept
accept-found e line h = elim (Bool-cases (leb maxline (length e.typed))) [
  | inl long ↦ cc (rw long at h)
  | inr short ↦
      let (found, state) = keep-found e (find_prefix (reverse e.typed)) line (rw short at h) in
      rw short ((find_prefix-starts (reverse e.typed) line found).1, state)
]

repeat_of :
    (line : Bytes)
    → 2 ≤ length line
    → let e : Editor = record { typed = []; last = line } in
      edit_all e (b'A' ∷ b'/' ∷ []) ≡ (e, line ∷ [])
unfolding edit_all edit normalise
repeat_of [] two = absurd (omega arith)
repeat_of (c ∷ line) two = refl

-- A line end that yields a line leaves it as the last one; `A/` then yields it and changes nothing.
edit_all-repeat :
    (e : Editor) (line : Bytes)
    → (edit e b'\r').1 ≡ some line
    → let kept : Editor = record { typed = []; last = line } in
      ((edit e b'\r').0 ≡ kept) × (edit_all kept (b'A' ∷ b'/' ∷ []) ≡ (kept, line ∷ []))
unfolding edit normalise
edit_all-repeat e line h = let (two, state) = accept-found e line h in (state, repeat_of line two)

not_slash : normalise b'\r' ≢ b'/'
unfolding normalise
not_slash h = omega (arith, h)

run_lines :
    (o : Option (Parser × List Bytes)) (s : Editor) (lines : List Bytes)
    → RunRefines o (s, lines)
    → (q : Parser) × (o ≡ some (q, lines)) × Represents q s
run_lines none s lines h = absurd h
run_lines (some r) s lines h = (r.0, rw h.1 refl, h.0)

-- Once a line end, pushed to a parser that stands for an editor whose character count does not wrap,
-- has returned a command line, the two bytes `A/` return that line again, and the parser is as ready
-- to repeat it as before.
pub push-repeat :
    (p q : Parser) (e : Editor) (line : Bytes)
    → Represents p e
    → length e.typed + 1 < 2 ^ 64
    → push p b'\r' ≡ done q (some line)
    → (r : Parser) × (push_all q (b'A' ∷ b'/' ∷ []) ≡ some (r, line ∷ []))
      × Represents q (record { typed = []; last = line })
      × Represents r (record { typed = []; last = line })
push-repeat p q e line r small h =
    let (rep, out) =
      subst (λ x. Refines x (edit e b'\r')) h
        (push-Refines p e b'\r' r small (λ same. absurd (not_slash same))) in
    let (state, again) = edit_all-repeat e line (sym out) in
    let ready = subst (Represents q) state rep in
    let (o, run, after) = run_lines (push_all q (b'A' ∷ b'/' ∷ [])) _ (line ∷ []) (
      subst (RunRefines (push_all q (b'A' ∷ b'/' ∷ []))) again
        (push_all-RunRefines (b'A' ∷ b'/' ∷ []) q _ ready (omega arith))) in
    (o, run, ready, after)
