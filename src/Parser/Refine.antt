-- ===== src/Parser/Refine.antt =====
-- src/parser.c: `at_parser_push` on the two fixed arrays, and the unbounded editor.
use meego_cellular_matd.Prelude.{
  ℕ, ◌+◌, ◌-◌, ◌^◌, ◌≤◌, ◌<◌, ◌≡◌, refl, sym, ap, ◌∙◌, subst, inl, inr, true, false, Option, none,
  some, [], ◌∷◌, reverse, arith, Bytes, ltb, leb, ◌==◌, if◌then◌else◌, leb_false→lt, ==_iff,
  Bool-cases, length, get_elem?, set, take, length-set, length-take, get_elem?-none,
}
use meego_cellular_matd.Parser.{
  maxline, init, is_a, slash, Parser, find_prefix, normalise, Pushed, fault, done, repeat_line,
  remember, complete, store, push_normal, push,
}
use meego_cellular_matd.Parser.Editor.{
  Editor, empty, edit, edit_normal, enter, keep, accept, recall,
}
use meego_cellular_matd.Parser.Arrays.{
  Represents, Holds-set, take-Holds, retyped, rub_out-Represents, stored-Represents, memcpy_old,
}

-- How a call of `at_parser_push` carries out one edit.
abbrev pub Refines : Pushed → Editor × Option Bytes → Type 0
Refines fault s = ⊥
Refines (done p out) s = Represents p s.0 × (out ≡ s.1)

repeat_line-Refines :
    (p : Parser) (t last : Bytes)
    → Represents p (record { typed = t; last = last })
    → Refines (repeat_line p) (record { typed = []; last = last }, recall last)
unfolding repeat_line
repeat_line-Refines p t [] r =
    let none_yet : (p.oldlength == 0) ≡ true = ground arith in
    rw none_yet (retyped p _ [] 0 r refl tt, refl)
repeat_line-Refines p t (c ∷ last) r =
    let some_yet : (p.oldlength == 0) ≡ false = ground arith in
    rw some_yet
      (retyped p _ [] 0 r refl tt, ap some (ap (λ n. take n p.old) r.oldlength_last ∙ r.old_last))

pub find_prefix-length : (s r : Bytes) → find_prefix s ≡ some r → length r ≤ length s
unfolding find_prefix
find_prefix-length [] r h = cc
find_prefix-length (a ∷ []) r h = cc
find_prefix-length (a ∷ b ∷ s) r h = ground (arith, find_prefix-length (b ∷ s) r)

remember-Refines :
    (p : Parser) (e : Editor) (found : Option Bytes)
    → Represents p (record e { typed = [] })
    → ((line : Bytes) → found ≡ some line → length line < maxline)
    → Refines (remember p found) (keep e found)
unfolding remember keep
remember-Refines p e none r short = (r, refl)
remember-Refines p e (some line) r short =
    let (size, line_kept) = memcpy_old p.old line r.old_size (short line refl) in
    (
      record {
        buf_size = r.buf_size;
        old_size = size;
        length_typed = r.length_typed;
        holds = tt;
        oldlength_last = refl;
        old_last = line_kept;
        last_fits = short line refl;
      },
      refl,
    )

-- The line that a line end reads from `buf`.
line_read :
    (p : Parser) (e : Editor)
    → Represents p e
    → length e.typed < maxline
    → take p.length (set p.buf p.length 0) ≡ reverse e.typed
line_read p e r short =
    ap (λ n. take n (set p.buf p.length 0)) r.length_typed
    ∙ take-Holds e.typed (set p.buf p.length 0) (omega arith)
        (Holds-set e.typed p.buf p.length 0 (omega arith) r.holds)

too_long-Represents :
    (p : Parser) (e : Editor)
    → Represents p e
    → Represents (record p { length = 0; oldlength = 0 }) empty
too_long-Represents p e r = record {
  buf_size = r.buf_size;
  old_size = r.old_size;
  length_typed = refl;
  holds = tt;
  oldlength_last = refl;
  old_last = refl;
  last_fits = omega arith;
}

cleared-Represents :
    (p : Parser) (e : Editor)
    → Represents p e
    → Represents (record p { buf = set p.buf p.length 0; length = 0 }) (record e { typed = [] })
cleared-Represents p e r = record {
  buf_size = length-set p.buf p.length 0 ∙ r.buf_size;
  old_size = r.old_size;
  length_typed = refl;
  holds = tt;
  oldlength_last = r.oldlength_last;
  old_last = r.old_last;
  last_fits = r.last_fits;
}

complete-Refines : (p : Parser) (e : Editor) → Represents p e → Refines (complete p) (accept e)
unfolding complete accept
complete-Refines p e r = elim (Bool-cases (leb maxline (length e.typed))) [
  | inl long ↦
      let long' : leb maxline p.length ≡ true = ap (leb maxline) r.length_typed ∙ long in
      rw (long, long') (too_long-Represents p e r, refl)
  | inr short ↦
      let short' : leb maxline p.length ≡ false = ap (leb maxline) r.length_typed ∙ short in
      let line = line_read p e r (ground arith) in
      let fits : length (reverse e.typed) < maxline = omega (
        arith,
        ap (length {A = ℕ}) line,
        length-take p.length (set p.buf p.length 0),
        leb_false→lt maxline p.length short',
      ) in
      rw (short, short', line)
        (remember-Refines _ e (find_prefix (reverse e.typed)) (cleared-Represents p e r)
          (λ found h. omega (arith, fits, find_prefix-length (reverse e.typed) found h)))
]

store-Refines :
    (p : Parser) (e : Editor) (c : ℕ)
    → Represents p e
    → length e.typed + 1 < 2 ^ 64
    → Refines (store p c) (enter e c)
unfolding store enter
store-Refines p e c r small = elim (Bool-cases (c == b'\r')) [
  | inl end ↦ rw end (complete-Refines p e r)
  | inr more ↦ elim (Bool-cases (ltb c 32)) [
    | inl control ↦ rw (more, control) (r, refl)
    | inr printing ↦ rw (more, printing) (stored-Represents p e c r small, refl)
  ]
]

newest_at : (p : Parser) (a : ℕ) (t : Bytes) → p.length ≡ length (a ∷ t) → p.length - 1 ≡ length t
newest_at p a t h = omega arith

-- A slash reads the newest character, which `buf` holds unless the line is past its end.
slash-Refines :
    (p : Parser) (a : ℕ) (t last : Bytes)
    → Represents p (record { typed = a ∷ t; last = last })
    → length t + 2 < 2 ^ 64
    → length t < maxline
    → let e : Editor = record { typed = a ∷ t; last = last } in
      Refines
        (slash p (get_elem? p.buf (p.length - 1)))
        (if is_a a then (record e { typed = [] }, recall last) else enter e b'/')
unfolding slash
slash-Refines p a t last r small fits =
    let newest : get_elem? p.buf (p.length - 1) ≡ some a =
      rw (newest_at p a t r.length_typed) (r.holds.0 fits) in
    rw newest (elim (Bool-cases (is_a a)) [
      | inl repeats ↦ rw repeats (repeat_line-Refines p (a ∷ t) last r)
      | inr plain ↦ rw plain (store-Refines p _ b'/' r (omega arith))
    ])

push_normal-slash :
    (p : Parser) (t last : Bytes)
    → let e : Editor = record { typed = t; last = last } in
      Represents p e
      → length t + 1 < 2 ^ 64
      → length t ≤ maxline
      → Refines (push_normal p b'/') (edit_normal e b'/')
unfolding push_normal edit_normal
push_normal-slash p [] last r small fits =
    let bare : leb 1 p.length ≡ false = ground arith in rw bare (store-Refines p _ b'/' r small)
push_normal-slash p (a ∷ t) last r small fits =
    let behind : leb 1 p.length ≡ true = ground arith in
    rw behind (slash-Refines p a t last r (omega arith) (omega arith))

push_normal-Refines :
    (p : Parser) (e : Editor) (c : ℕ)
    → Represents p e
    → length e.typed + 1 < 2 ^ 64
    → (c ≡ b'/' → length e.typed ≤ maxline)
    → Refines (push_normal p c) (edit_normal e c)
push_normal-Refines p e c r small fits = elim (Bool-cases (c == b'/')) [
  | inl is_slash ↦
      let same : c ≡ b'/' = (==_iff c b'/').0 is_slash in
      subst (λ x. Refines (push_normal p x) (edit_normal e x)) (sym same)
        (push_normal-slash p e.typed e.last r small (fits same))
  | inr plain ↦
      unfold push_normal edit_normal in
      elim (Bool-cases (c == 8)) [
        | inl back ↦ rw back (rub_out-Represents p e.typed e.last r, refl)
        | inr other ↦ rw (other, plain) (store-Refines p e c r small)
      ]
]

-- A byte pushed to fixed arrays that stand for an unbounded editor has the effect and the result
-- that the byte has on the editor, as long as the character count does not wrap and, for a slash, at
-- most 2048 characters have been typed.
pub push-Refines :
    (p : Parser) (e : Editor) (c : ℕ)
    → Represents p e
    → length e.typed + 1 < 2 ^ 64
    → (normalise c ≡ b'/' → length e.typed ≤ maxline)
    → Refines (push p c) (edit e c)
unfolding push edit
push-Refines p e c = push_normal-Refines p e (normalise c)

push_normal-fault :
    (p : Parser) (e : Editor)
    → Represents p e
    → maxline < length e.typed
    → push_normal p b'/' ≡ fault
unfolding push_normal slash
push_normal-fault p e r long =
    let behind : leb 1 p.length ≡ true = ground arith in
    rw (behind, get_elem?-none p.buf (p.length - 1) (omega arith))

-- On arrays that stand for an editor in which more than 2048 characters have been typed, a slash
-- reads past the end of the buffer.
push-fault :
    (p : Parser) (e : Editor) (c : ℕ)
    → Represents p e
    → normalise c ≡ b'/'
    → maxline < length e.typed
    → push p c ≡ fault
push-fault p e c r is_slash long =
    unfold push in
    subst (λ x. push_normal p x ≡ fault) (sym is_slash) (push_normal-fault p e r long)

-- A fresh parser, whatever its arrays hold, stands for the empty editor.
pub init-Represents :
    (buf old : Bytes)
    → length buf ≡ maxline
    → length old ≡ maxline
    → Represents (init buf old) empty
unfolding init
init-Represents buf old b o = record {
  buf_size = b;
  old_size = o;
  length_typed = refl;
  holds = tt;
  oldlength_last = refl;
  old_last = refl;
  last_fits = omega arith;
}
