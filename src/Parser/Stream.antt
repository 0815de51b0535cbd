-- ===== src/Parser/Stream.antt =====
-- A whole input through `at_parser_push`, as the reader thread feeds it, and the lines it yields.
use meego_cellular_matd.Prelude.{
  ℕ, ◌+◌, ◌≤◌, ◌≡◌, refl, ap, Option, none, some, List, [], ◌∷◌, reverse, arith, Bytes, length,
}
use meego_cellular_matd.Parser.Arrays.{Represents}
use meego_cellular_matd.Parser.Refine.{push-Refines, Refines, init-Represents}
use mathlib.Core.Option
use meego_cellular_matd.Parser.{
  maxline, Parser, init, find_prefix, normalise, Pushed, fault, done, push,
}
use meego_cellular_matd.Parser.Editor.{
  Editor, empty, edit, edit_normal, enter, keep, accept, rub_out,
}

abbrev pub line_after : Option Bytes → List Bytes → List Bytes
line_after none ls = ls
line_after (some l) ls = l ∷ ls

abbrev pub resume : Pushed → (Parser → Option (Parser × List Bytes)) → Option (Parser × List Bytes)
resume fault later = none
resume (done q out) later = Option.map (λ r. (r.0, line_after out r.1)) (later q)

-- The lines that a sequence of pushes returns; `none` once a push reads past the buffer.
unfoldable pub push_all : Parser → Bytes → Option (Parser × List Bytes)
push_all p [] = some (p, [])
push_all p (c ∷ cs) = resume (push p c) (λ q. push_all q cs)

unfoldable pub edit_all : Editor → Bytes → Editor × List Bytes
edit_all e [] = (e, [])
edit_all e (c ∷ cs) =
    let next = edit e c in let rest = edit_all next.0 cs in (rest.0, line_after next.1 rest.1)

keep-typed : (e : Editor) (found : Option Bytes) → (keep e found).0.typed ≡ []
unfolding keep
keep-typed e none = refl
keep-typed e (some l) = refl

rub_out-length : (t : Bytes) → length (rub_out t) ≤ length t
rub_out-length [] = omega arith
rub_out-length (c ∷ t) = omega arith

edit_normal-grows : (e : Editor) (c : ℕ) → length (edit_normal e c).0.typed ≤ length e.typed + 1
unfolding edit_normal enter accept
edit_normal-grows e c =
    let found = find_prefix (reverse e.typed) in
    ground (arith, keep-typed e found, rub_out-length e.typed)

pub edit-grows : (e : Editor) (c : ℕ) → length (edit e c).0.typed ≤ length e.typed + 1
unfolding edit
edit-grows e c = edit_normal-grows e (normalise c)

-- What a run of pushes owes the editor: the same lines, and arrays that stand for its new state.
abbrev pub RunRefines : Option (Parser × List Bytes) → Editor × List Bytes → Type 0
RunRefines none s = ⊥
RunRefines (some r) s = Represents r.0 s.0 × (r.1 ≡ s.1)

push_all-after :
    (out : Option Bytes) (rest : Option (Parser × List Bytes)) (s : Editor × List Bytes)
    → RunRefines rest s
    → RunRefines (Option.map (λ r. (r.0, line_after out r.1)) rest) (s.0, line_after out s.1)
push_all-after out none s h = h
push_all-after out (some r) s h = (h.0, ap (line_after out) h.1)

resume-RunRefines :
    (pushed : Pushed) (edited : Editor × Option Bytes)
    (later : Parser → Option (Parser × List Bytes)) (s : Editor × List Bytes)
    → Refines pushed edited
    → ((q : Parser) → Represents q edited.0 → RunRefines (later q) s)
    → RunRefines (resume pushed later) (s.0, line_after edited.1 s.1)
resume-RunRefines fault edited later s h k = absurd h
resume-RunRefines (done q out) edited later s (r, e) k =
    rw e (push_all-after edited.1 (later q) s (k q r))

pub push_all-RunRefines :
    (cs : Bytes) (p : Parser) (e : Editor)
    → Represents p e
    → length e.typed + length cs ≤ maxline + 1
    → RunRefines (push_all p cs) (edit_all e cs)
unfolding push_all edit_all
push_all-RunRefines [] p e r room = (r, refl)
push_all-RunRefines (c ∷ cs) p e r room =
    resume-RunRefines (push p c) (edit e c) (λ q. push_all q cs) (edit_all (edit e c).0 cs)
      (push-Refines p e c r (omega arith) (λ _. omega arith))
      (λ q k. push_all-RunRefines cs q (edit e c).0 k (omega (arith, edit-grows e c)))

-- From a fresh parser, whatever its arrays hold, any input of up to 2049 bytes is read with no
-- access outside of the arrays, and the lines returned are those of the unbounded editor.
pub push_all-init :
    (buf old cs : Bytes)
    → length buf ≡ maxline
    → length old ≡ maxline
    → length cs ≤ maxline + 1
    → RunRefines (push_all (init buf old) cs) (edit_all empty cs)
push_all-init buf old cs b o room =
    push_all-RunRefines cs (init buf old) empty (init-Represents buf old b o) (omega arith)
