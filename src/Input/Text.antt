-- ===== src/Input/Text.antt =====
-- src/at_modem.c: the text of `at_read_text` and the bytes that arrive.
use meego_cellular_matd.Prelude.{
  ℕ, zero, suc, ◌<◌, ◌≡◌, refl, ap, inl, inr, Option, none, some, List, [], ◌∷◌, ◌++◌, reverse,
  arith, Bytes, ◌==◌, if◌then◌else◌, Bool-cases, length,
}
use meego_cellular_matd.Modem.{Modem}
use meego_cellular_matd.Input.{
  Read, got, read_interrupted, read_failed, Reader, fetch, refill, Got, getchar, is_rub_out,
  drop_last, Entry, out_of_fuel, cancelled, entered, on_char, text_loop, read_text, prompted,
}

-- The bytes that come before the end of the input or an error.
unfoldable pub arriving : List Read → Bytes
arriving [] = []
arriving (read_interrupted ∷ rs) = arriving rs
arriving (read_failed ∷ rs) = []
arriving (got [] ∷ rs) = []
arriving (got (c ∷ s) ∷ rs) = (c ∷ s) ++ arriving rs

abbrev pub stream : Reader → Bytes
stream r = r.pending ++ arriving r.reads

-- What the bytes spell: characters up to Ctrl+Z, with those rubbed out left out; nothing if an
-- Escape or the end comes first. `typed` has the newest first.
unfoldable pub spelled : Bytes → Bytes → Option Bytes
spelled typed [] = none
spelled typed (c ∷ s) =
    let rubbed = spelled (drop_last typed) s in
    let more = spelled (c ∷ typed) s in
    if c == 27
    then none
    else if c == 26
    then some (reverse typed)
    else if is_rub_out c
    then rubbed
    else more

-- The text that was entered.
abbrev pub Enters : Entry → Option Bytes → Type 0
Enters out_of_fuel o = ⊥
Enters (cancelled m r) o = o ≡ none
Enters (entered m r t) o = o ≡ some t

-- The next byte of the stream, with the stream behind it, or its end.
abbrev pub GotNext : Got → Bytes → Type 0
GotNext (m, r, none) s = s ≡ []
GotNext (m, r, some c) s = s ≡ c ∷ stream r

refill-GotNext : (m : Modem) (rs : List Read) → GotNext (refill m (fetch rs)) (arriving rs)
unfolding fetch arriving
refill-GotNext m [] = refl
refill-GotNext m (read_interrupted ∷ rs) = refill-GotNext m rs
refill-GotNext m (read_failed ∷ rs) = refl
refill-GotNext m (got [] ∷ rs) = refl
refill-GotNext m (got (c ∷ s) ∷ rs) = refl

pub getchar-GotNext : (m : Modem) (r : Reader) → GotNext (getchar m r) (stream r)
unfolding getchar
getchar-GotNext m r = go r.pending
  where
    go :
        (p : Bytes)
        → GotNext
            (elim p [
              | [] ↦ refill m (fetch r.reads)
              | c ∷ s ↦ (m, record { pending = s; reads = r.reads }, some c)
            ])
            (p ++ arriving r.reads)
    go [] = refill-GotNext m r.reads
    go (c ∷ s) = refl

on_char-Enters :
    (more : Modem → Reader → Bytes → Entry) (prompt typed s : Bytes) (g : Got)
    → GotNext g s
    → ((m : Modem) (r : Reader) (t : Bytes)
        → length (stream r) < length s
        → Enters (more m r t) (spelled t (stream r)))
    → Enters (on_char more prompt typed g) (spelled typed s)
unfolding spelled
on_char-Enters more prompt typed s (m, r, none) e k = rw e refl
on_char-Enters more prompt typed s (m, r, some c) e k = elim (Bool-cases (c == 27)) [
  | inl escape ↦ rw (e, escape) refl
  | inr plain ↦ elim (Bool-cases (c == 26)) [
    | inl end ↦ rw (e, plain, end) refl
    | inr inside ↦ elim (Bool-cases (is_rub_out c)) [
      | inl rubs ↦
          rw (e, plain, inside, rubs)
            (k m r (drop_last typed) (omega (arith, ap (length {A = ℕ}) e)))
      | inr types ↦
          rw (e, plain, inside, types)
            (k (prompted m prompt c) r (c ∷ typed) (omega (arith, ap (length {A = ℕ}) e)))
    ]
  ]
]

text_loop-Enters :
    (fuel : ℕ) (m : Modem) (r : Reader) (prompt typed : Bytes)
    → length (stream r) < fuel
    → Enters (text_loop fuel m r prompt typed) (spelled typed (stream r))
unfolding text_loop
text_loop-Enters zero m r prompt typed room = absurd (omega arith)
text_loop-Enters (suc fuel) m r prompt typed room =
    on_char-Enters _ prompt typed (stream r) (getchar m r) (getchar-GotNext m r)
      (λ m' r' t less. text_loop-Enters fuel m' r' prompt t (omega arith))

-- With more fuel than bytes to come, `at_read_text` ends, and gives the text that the bytes spell, or
-- NULL if they spell none: it does not matter how the bytes are split over the calls of read(2),
-- which of them are interrupted, whether they are echoed, and what becomes of the prompts.
pub read_text-Enters :
    (fuel : ℕ) (m : Modem) (r : Reader) (prompt : Bytes)
    → length (stream r) < fuel
    → Enters (read_text fuel m r prompt) (spelled [] (stream r))
unfolding read_text
read_text-Enters fuel m r prompt room = text_loop-Enters fuel _ r prompt [] room
