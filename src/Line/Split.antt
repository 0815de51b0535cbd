-- ===== src/Line/Split.antt =====
-- src/parser.c: the pieces of the line around a call of `at_iterate_next`.
use meego_cellular_matd.Prelude.{
  ℕ, zero, suc, ◌≤◌, ◌<◌, ◌≡◌, refl, sym, ap, subst, inl, inr, false, Option, none, some, [], ◌∷◌,
  ◌++◌, arith, Bytes, ◌==◌, if◌then◌else◌, Bool-cases, length, take, drop, length-append,
  length-take, take-append-drop,
}
use meego_cellular_matd.Line.{skip_separators, iterate_next, memchr_from, command_length}
use meego_cellular_matd.Line.Bounds.{command_length-le}

module _ (beyond : ℕ → ℕ) where
  skipped : Bytes → Bytes
  unfolding skip_separators
  skipped [] = []
  skipped (c ∷ s) =
      let more = c ∷ skipped s in if memchr_from beyond 0 c (length (c ∷ s)) then more else []

  skipped-append : (s : Bytes) → skipped s ++ skip_separators beyond s ≡ s
  unfolding skipped skip_separators
  skipped-append [] = refl
  skipped-append (c ∷ s) = elim (Bool-cases (memchr_from beyond 0 c (length (c ∷ s)))) [
    | inl separator ↦ rw separator (ap (◌∷◌ c) (skipped-append s))
    | inr command ↦ rw command refl
  ]

  -- What a call found: a command that is not empty, between separators and the rest; or none, with
  -- only separators passed over.
  abbrev pub Cuts : Bytes → Option Bytes → Bytes → Type 0
  Cuts line none rest = (before : Bytes) × (line ≡ before ++ rest)
  Cuts line (some cmd) rest = (before : Bytes) × (line ≡ before ++ (cmd ++ rest)) × (0 < length cmd)

  cut_at :
      (before buf : Bytes) (l : ℕ)
      → l ≤ length buf
      → Cuts (before ++ buf) (if l == 0 then none else some (take l buf)) (drop l buf)
  cut_at before buf zero h = (before, refl)
  cut_at before buf (suc l) h =
      let found : (suc l == 0) ≡ false = ground arith in
      rw found (
        before,
        ap (λ s. before ++ s) (sym (take-append-drop (suc l) buf)),
        omega (arith, length-take (suc l) buf),
      )

  -- For any line, and whatever stands behind the separator literal: a command found is not empty and
  -- is followed by the rest; the pieces make up the line, so no cursor leaves it.
  iterate_next-Cuts :
      (line : Bytes) → Cuts line (iterate_next beyond line).cmd (iterate_next beyond line).rest
  unfolding iterate_next
  iterate_next-Cuts line =
      let buf = skip_separators beyond line in
      subst (λ s. Cuts s (iterate_next beyond line).cmd (iterate_next beyond line).rest)
        (skipped-append line)
        (cut_at (skipped line) buf (command_length buf) (command_length-le buf))

  -- So each command found makes the line shorter, and the loop over a line ends.
  pub iterate_next-shorter :
      (line cmd : Bytes)
      → (iterate_next beyond line).cmd ≡ some cmd
      → length (iterate_next beyond line).rest < length line
  iterate_next-shorter line cmd h =
      let (before, parts, some_byte) =
        subst (λ o. Cuts line o (iterate_next beyond line).rest) h (iterate_next-Cuts line) in
      omega (
        arith,
        ap (length {A = ℕ}) parts,
        length-append before (cmd ++ (iterate_next beyond line).rest),
        length-append cmd (iterate_next beyond line).rest,
      )
