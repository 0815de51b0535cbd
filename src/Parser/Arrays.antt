-- ===== src/Parser/Arrays.antt =====
-- What the arrays of `struct at_parser` hold, in the terms of the editor.
use meego_cellular_matd.Prelude.{
  ℕ, ◌+◌, ◌-◌, ◌%◌, ◌^◌, ◌≤◌, ◌<◌, ◌≡◌, refl, sym, ap, ◌∙◌, inl, inr, some, [], ◌∷◌, ◌++◌, reverse,
  append_assoc, reverse-append, arith, Bytes, ltb, if◌then◌else◌, tests, Bool-cases, length,
  get_elem?, set, take, drop, length-append, length-set, length-drop, take_length-append,
  get_elem?-set_self, get_elem?-set_ne, take-suc,
}
use meego_cellular_matd.Parser.{maxline, Parser, memcpy}
use meego_cellular_matd.Parser.Editor.{Editor, rub_out}

-- Each typed character that fits stands at its place in `buf`.
abbrev pub Holds : Bytes → Bytes → Type 0
Holds [] buf = Unit {0}
Holds (c ∷ t) buf = (length t < maxline → get_elem? buf (length t) ≡ some c) × Holds t buf

pub record Represents (p : Parser) (e : Editor) : Type 0 where
  pub buf_size : length p.buf ≡ maxline
  pub old_size : length p.old ≡ maxline
  pub length_typed : p.length ≡ length e.typed
  pub holds : Holds e.typed p.buf
  pub oldlength_last : p.oldlength ≡ length e.last
  pub old_last : take (length e.last) p.old ≡ e.last
  pub last_fits : length e.last < maxline

pub Holds-set : (t buf : Bytes) (i v : ℕ) → length t ≤ i → Holds t buf → Holds t (set buf i v)
Holds-set [] buf i v le h = tt
Holds-set (c ∷ t) buf i v le h = (
  λ fits. get_elem?-set_ne buf i (length t) v (omega arith) ∙ h.0 fits,
  Holds-set t buf i v (omega arith) h.1,
)

-- The line is what the editor holds, in the order of typing.
pub take-Holds :
    (t buf : Bytes) → length t ≤ maxline → Holds t buf → take (length t) buf ≡ reverse t
take-Holds [] buf le h = refl
take-Holds (c ∷ t) buf le h =
    take-suc (length t) buf c (h.0 (omega arith))
    ∙ ap (λ s. s ++ (c ∷ [])) (take-Holds t buf (omega arith) h.1)
    ∙ sym (reverse-append (c ∷ []) t)

-- A new count of the same characters, or of fewer.
pub retyped :
    (p : Parser) (e : Editor) (t : Bytes) (n : ℕ)
    → Represents p e
    → n ≡ length t
    → Holds t p.buf
    → Represents (record p { length = n }) (record e { typed = t })
retyped p e t n r len h = record {
  buf_size = r.buf_size;
  old_size = r.old_size;
  length_typed = len;
  holds = h;
  oldlength_last = r.oldlength_last;
  old_last = r.old_last;
  last_fits = r.last_fits;
}

pub rub_out-Represents :
    (p : Parser) (t last : Bytes)
    → Represents p (record { typed = t; last = last })
    → Represents (record p { length = p.length - 1 }) (record { typed = rub_out t; last = last })
rub_out-Represents p [] last r = retyped p _ [] (p.length - 1) r (omega arith) tt
rub_out-Represents p (c ∷ t) last r = retyped p _ t (p.length - 1) r (omega arith) r.holds.1

-- A character is stored while there is room, and counted in any case.
abbrev pub stored : Parser → ℕ → Parser
stored p c = record p {
  buf = if ltb p.length maxline then set p.buf p.length c else p.buf;
  length = (p.length + 1) % 2 ^ 64;
}

stored-Holds :
    (p : Parser) (t : Bytes) (c : ℕ)
    → length p.buf ≡ maxline
    → p.length ≡ length t
    → Holds t p.buf
    → Holds (c ∷ t) (stored p c).buf × (length (stored p c).buf ≡ maxline)
stored-Holds p t c size len h = elim (Bool-cases (ltb p.length maxline)) [
  | inl fits ↦
      rw (fits, len)
        (
          (
            λ low. get_elem?-set_self p.buf (length t) c (omega arith),
            Holds-set t p.buf (length t) c (omega arith) h,
          ),
          length-set p.buf (length t) c ∙ size,
        )
  | inr full ↦ rw full ((λ low. absurd (omega (tests, full)), h), size)
]

pub stored-Represents :
    (p : Parser) (e : Editor) (c : ℕ)
    → Represents p e
    → length e.typed + 1 < 2 ^ 64
    → Represents (stored p c) (record e { typed = c ∷ e.typed })
stored-Represents p e c r small =
    let (h, size) = stored-Holds p e.typed c r.buf_size r.length_typed r.holds in
    record {
      buf_size = size;
      old_size = r.old_size;
      length_typed = omega (arith, r);
      holds = h;
      oldlength_last = r.oldlength_last;
      old_last = r.old_last;
      last_fits = r.last_fits;
    }

-- What `memcpy` leaves in `old`: the line, its nul byte, and what stood behind.
pub memcpy_old :
    (old line : Bytes)
    → length old ≡ maxline
    → length line < maxline
    → (length (memcpy old (line ++ (0 ∷ []))) ≡ maxline)
      × (take (length line) (memcpy old (line ++ (0 ∷ []))) ≡ line)
memcpy_old old line size short =
    let nul = length-append line (0 ∷ []) in
    let rest = drop (length (line ++ (0 ∷ []))) old in
    (
      omega (
        arith,
        nul,
        length-append (line ++ (0 ∷ [])) rest,
        length-drop (length (line ++ (0 ∷ []))) old,
      ),
      ap (take (length line)) (append_assoc line (0 ∷ []) rest)
          ∙ take_length-append line ((0 ∷ []) ++ rest),
    )
