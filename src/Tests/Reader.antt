-- ===== src/Tests/Reader.antt =====
-- Runs of the line reader, src/parser.c.
use meego_cellular_matd.Prelude.{
  ℕ, zero, suc, ◌<◌, ◌≡◌, refl, inl, some, List, [], ◌∷◌, ◌++◌, arith, Bytes, codes, length,
  get_elem?, set, replicate, length-replicate,
}
use meego_cellular_matd.Daemon.Asserts.{push-iterate_first}
use meego_cellular_matd.Line.{iterate_first, iterate_next}
use meego_cellular_matd.Parser.{maxline, Parser, init, normalise, memcpy, done, push, find_prefix}
use meego_cellular_matd.Parser.Editor.{Editor, empty, edit}
use meego_cellular_matd.Parser.Arrays.{Represents, Holds}
use meego_cellular_matd.Parser.Refine.{Refines, push-Refines, init-Represents}
use meego_cellular_matd.Parser.Stream.{push_all, edit_all}
use meego_cellular_matd.Parser.Lines.{AllLines, IsRemembered, push_all-command_lines, push-repeat}

abbrev zeros : Bytes
zeros = replicate maxline 0

zeros_length : length zeros ≡ maxline
zeros_length = length-replicate {A = ℕ} maxline 0

fresh-Represents : Represents (init zeros zeros) empty
fresh-Represents = init-Represents zeros zeros zeros_length zeros_length

push-Refines_example : Refines (push (init zeros zeros) b'A') (edit empty b'A')
push-Refines_example =
    push-Refines (init zeros zeros) empty b'A' fresh-Represents (omega arith) (λ _. omega arith)

get_elem?-replicate : (n i x : ℕ) → i < n → get_elem? (replicate n x) i ≡ some x
get_elem?-replicate zero i x h = absurd (omega arith)
get_elem?-replicate (suc n) zero x h = refl
get_elem?-replicate (suc n) (suc i) x h = get_elem?-replicate n i x (omega arith)

Holds-replicate : (n x : ℕ) → Holds (replicate n x) (replicate maxline x)
Holds-replicate zero x = tt
Holds-replicate (suc n) x =
    (λ fits. get_elem?-replicate maxline (length (replicate n x)) x fits, Holds-replicate n x)

push_all-command_lines_example :
    (r : Parser × List Bytes) × (push_all (init zeros zeros) (codes "xxat+cgmi\r") ≡ some r)
    × AllLines r.1
push_all-command_lines_example =
    push_all-command_lines zeros zeros (codes "xxat+cgmi\r") zeros_length zeros_length (omega arith)

abbrev typed_at : Editor
typed_at = record { typed = b'T' ∷ b'A' ∷ []; last = [] }

abbrev at_state : Parser
at_state = record { length = 2; oldlength = 0; buf = b'A' ∷ b'T' ∷ replicate 2046 0; old = zeros }

abbrev at_done : Parser
at_done = record {
  length = 0;
  oldlength = 2;
  buf = set at_state.buf 2 0;
  old = memcpy zeros (codes "AT" ++ (0 ∷ []));
}

at-Represents : Represents at_state typed_at
at-Represents = record {
  buf_size = omega (arith, length-replicate {A = ℕ} 2046 0);
  old_size = zeros_length;
  length_typed = refl;
  holds = (λ _. refl, (λ _. refl, tt));
  oldlength_last = refl;
  old_last = refl;
  last_fits = omega arith;
}

at_pushed : push at_state b'\r' ≡ done at_done (some (codes "AT"))
unfolding push
at_pushed = refl

push-repeat_example :
    (r : Parser) × (push_all at_done (codes "A/") ≡ some (r, codes "AT" ∷ []))
    × Represents at_done (record { typed = []; last = codes "AT" })
    × Represents r (record { typed = []; last = codes "AT" })
push-repeat_example =
    push-repeat at_state at_done typed_at (codes "AT") at-Represents (omega arith) at_pushed

-- Rubbish before the prefix, a rubbed-out character, a line without a command, and a repetition.
typing : (edit_all empty (codes "x!aTZq\u{8}\rfoo\rA/\n")).1 ≡ codes "aTZ" ∷ codes "aTZ" ∷ []
unfolding edit_all edit normalise find_prefix
typing = refl

push-iterate_first_example :
    (iterate_first (λ i. 0) (codes "AT") ≡ some (iterate_next (λ i. 0) []))
    × Represents at_done (edit typed_at b'\r').0
    × IsRemembered (edit typed_at b'\r').0.last
push-iterate_first_example =
    push-iterate_first (λ i. 0) at_state at_done typed_at b'\r' (codes "AT") at-Represents
      (inl refl) (omega arith) (λ _. omega arith) at_pushed
