-- ===== src/Line/Commands.antt =====
-- The commands that the loop of `process_line` is handed, one call of `at_iterate_next` after the
-- other, and the line that they were joined from.
use meego_cellular_matd.Prelude.{
  ℕ, zero, suc, ◌+◌, ◌≤◌, ◌<◌, ◌≡◌, refl, sym, ap, ◌∙◌, ◌≢◌, ◌⊎◌, inl, inr, true, false, Option,
  none, some, List, [], ◌∷◌, ◌++◌, append-nil, append_assoc, arith, Bytes, ◌==◌, ==_iff, Bool-cases,
  length,
}
use meego_cellular_matd.Line.Extended.{IsExtended, IsEnd, command_length-IsExtended, cut-append}
use meego_cellular_matd.Line.Split.{iterate_next-shorter}
use meego_cellular_matd.Line.{
  Next, skip_separators, iterate_next, memchr_from, command_length, separators,
}

-- One round: the command found, before those of the rest.
abbrev pub gather : Next → (Bytes → List Bytes × Bytes) → List Bytes × Bytes
gather n more = elim n.cmd [
  | none ↦ ([], n.rest)
  | some cmd ↦ let (cs, left) = more n.rest in (cmd ∷ cs, left)
]

gather-cong :
    (n : Next) (k k' : Bytes → List Bytes × Bytes)
    → ((cmd : Bytes) → n.cmd ≡ some cmd → k n.rest ≡ k' n.rest)
    → gather n k ≡ gather n k'
gather-cong n k k' h = go n.cmd n.rest h
  where
    go :
        (o : Option Bytes) (rest : Bytes)
        → ((cmd : Bytes) → o ≡ some cmd → k rest ≡ k' rest)
        → gather (record { cmd = o; rest = rest }) k ≡ gather (record { cmd = o; rest = rest }) k'
    go none rest h = refl
    go (some cmd) rest h = ap (λ r. (cmd ∷ r.0, r.1)) (h cmd refl)

abbrev pub join : List Bytes → Bytes
join [] = []
join (c ∷ []) = c
join (c ∷ d ∷ cs) = c ++ b';' ∷ join (d ∷ cs)

module _ (beyond : ℕ → ℕ) where
  -- The commands of a line, in order, and what is left where no command is found. The fuel bounds
  -- the number of calls.
  unfoldable pub commands : ℕ → Bytes → List Bytes × Bytes
  commands zero line = ([], line)
  commands (suc fuel) line = gather (iterate_next beyond line) (commands fuel)

  -- A byte that `memchr` does not find, however far it looks.
  abbrev pub IsAbsent : ℕ → Type 0
  IsAbsent c = (i : ℕ) → beyond i ≢ c

  memchr_from-absent :
      (c : ℕ) (n i : ℕ)
      → IsAbsent c
      → c ≢ b' '
      → c ≢ b';'
      → c ≢ 0
      → memchr_from beyond i c n ≡ false
  unfolding memchr_from
  memchr_from-absent c zero i a s t z = refl
  memchr_from-absent c (suc n) zero a s t z = ground (arith, memchr_from-absent c n 1 a s t z)
  memchr_from-absent c (suc n) (suc zero) a s t z = ground (arith, memchr_from-absent c n 2 a s t z)
  memchr_from-absent c (suc n) (suc (suc zero)) a s t z =
      ground (arith, memchr_from-absent c n 3 a s t z)
  memchr_from-absent c (suc n) (suc (suc (suc i))) a s t z =
      ground (arith, a i, memchr_from-absent c n (suc (suc (suc (suc i)))) a s t z)

  skip_separators-absent :
      (c : ℕ) (s : Bytes)
      → IsAbsent c
      → c ≢ b' '
      → c ≢ b';'
      → c ≢ 0
      → skip_separators beyond (c ∷ s) ≡ c ∷ s
  unfolding skip_separators
  skip_separators-absent c s a sp sc z = rw (memchr_from-absent c (length (c ∷ s)) 0 a sp sc z)

  skip_separators-head :
      (cmd s : Bytes) (x : IsExtended cmd)
      → IsAbsent x.head
      → skip_separators beyond (cmd ++ s) ≡ cmd ++ s
  skip_separators-head cmd s x a = rw x.parts (
      skip_separators-absent x.head (x.tail ++ s) a (λ h. cc ((==_iff _ _).1 h, x.no_space))
        (λ h. cc ((==_iff _ _).1 h, x.no_semicolon)) (λ h. cc ((==_iff _ _).1 h, x.no_nul)))

  -- One extended command is cut off at its semicolon, or at the end.
  iterate_next-IsExtended :
      (cmd s : Bytes) (x : IsExtended cmd)
      → IsAbsent x.head
      → IsEnd s
      → iterate_next beyond (cmd ++ s) ≡ record { cmd = some cmd; rest = s }
  unfolding iterate_next
  iterate_next-IsExtended cmd s x a e =
      rw (skip_separators-head cmd s x a, command_length-IsExtended cmd s x e)
        (cut-append cmd s (rw x.parts (omega arith)))

  -- A semicolon between two commands is passed over.
  iterate_next-semicolon :
      (c : ℕ) (s : Bytes) → iterate_next beyond (b';' ∷ c ∷ s) ≡ iterate_next beyond (c ∷ s)
  unfolding iterate_next skip_separators memchr_from
  iterate_next-semicolon c s = refl

  -- Commands that can be joined: extended ones, each with a first byte that `memchr` passes over.
  abbrev pub AllExtended : List Bytes → Type 0
  AllExtended [] = Unit {0}
  AllExtended (c ∷ cs) = ((x : IsExtended c) × IsAbsent x.head) × AllExtended cs

  commands-cons :
      (fuel : ℕ) (cmd s : Bytes) (x : IsExtended cmd)
      → IsAbsent x.head
      → IsEnd s
      → commands (suc fuel) (cmd ++ s) ≡ (cmd ∷ (commands fuel s).0, (commands fuel s).1)
  unfolding commands
  commands-cons fuel cmd s x a e =
      ap (λ n. gather n (commands fuel)) (iterate_next-IsExtended cmd s x a e)

  commands-semicolon :
      (fuel c : ℕ) (s : Bytes) → commands (suc fuel) (b';' ∷ c ∷ s) ≡ commands (suc fuel) (c ∷ s)
  unfolding commands
  commands-semicolon fuel c s = ap (λ n. gather n (commands fuel)) (iterate_next-semicolon c s)

  -- The end of the line, or a lone semicolon: nothing more is found.
  iterate_next-end :
      (s : Bytes)
      → (s ≡ []) ⊎ (s ≡ b';' ∷ [])
      → iterate_next beyond s ≡ record { cmd = none; rest = s }
  unfolding iterate_next skip_separators memchr_from command_length
  iterate_next-end s (inl e) = rw e
  iterate_next-end s (inr e) = rw e

  IsEnd-of : {s : Bytes} → (s ≡ []) ⊎ (s ≡ b';' ∷ []) → IsEnd s
  IsEnd-of (inl e) = inl e
  IsEnd-of (inr e) = inr ([], e)

  join-head : (d : Bytes) (cs : List Bytes) → (t : Bytes) × (join (d ∷ cs) ≡ d ++ t)
  join-head d [] = ([], sym (append-nil d))
  join-head d (c ∷ cs) = (b';' ∷ join (c ∷ cs), refl)

  commands_skip :
      (fuel : ℕ) (d : Bytes) (cs : List Bytes) (s : Bytes)
      → IsExtended d
      → commands (suc fuel) (b';' ∷ (join (d ∷ cs) ++ s)) ≡ commands (suc fuel) (join (d ∷ cs) ++ s)
  commands_skip fuel d cs s y =
      let (t, e) = join-head d cs in
      let starts : join (d ∷ cs) ++ s ≡ y.head ∷ ((y.tail ++ t) ++ s) =
        ap (λ l. l ++ s) (e ∙ ap (λ l. l ++ t) y.parts) in
      rw starts (commands-semicolon fuel y.head ((y.tail ++ t) ++ s))

  pub commands-join :
      (cs : List Bytes) (fuel : ℕ) (s : Bytes)
      → AllExtended cs
      → (s ≡ []) ⊎ (s ≡ b';' ∷ [])
      → length cs < fuel
      → commands fuel (join cs ++ s) ≡ (cs, s)
  commands-join cs zero s all e room = absurd (omega arith)
  commands-join [] (suc fuel) s all e room =
      unfold commands in ap (λ n. gather n (commands fuel)) (iterate_next-end s e)
  commands-join (c ∷ []) (suc fuel) s ((x, a), all) e room =
      commands-cons fuel c s x a (IsEnd-of e)
      ∙ ap (λ r. (c ∷ r.0, r.1)) (commands-join [] fuel s tt e (omega arith))
  commands-join (c ∷ d ∷ cs) (suc zero) s all e room = absurd (omega arith)
  commands-join (c ∷ d ∷ cs) (suc (suc fuel)) s ((x, a), ((y, b), all)) e room =
      ap (commands (suc (suc fuel))) (append_assoc c (b';' ∷ join (d ∷ cs)) s)
      ∙ commands-cons (suc fuel) c (b';' ∷ (join (d ∷ cs) ++ s)) x a
          (inr (join (d ∷ cs) ++ s, refl))
      ∙ ap (λ r. (c ∷ r.0, r.1))
          (commands_skip fuel d cs s y
            ∙ commands-join (d ∷ cs) (suc fuel) s ((y, b), all) e (omega arith))

  -- With one more semicolon at its end, such a line leaves that semicolon over.
  commands-trailing :
      (cs : List Bytes)
      → AllExtended cs
      → commands (suc (length cs)) (join cs ++ (b';' ∷ [])) ≡ (cs, b';' ∷ [])
  commands-trailing cs all =
      commands-join cs (suc (length cs)) (b';' ∷ []) all (inr refl) (omega arith)

  -- The splitting ends: as many calls as the line has bytes, and one more, are enough, and further
  -- ones change nothing.
  commands-fuel :
      (fuel : ℕ) (line : Bytes) → length line < fuel → commands (suc fuel) line ≡ commands fuel line
  unfolding commands
  commands-fuel zero line h = absurd (omega arith)
  commands-fuel (suc fuel) line h =
      gather-cong (iterate_next beyond line) (commands (suc fuel)) (commands fuel) (λ cmd found.
        commands-fuel fuel (iterate_next beyond line).rest
          (omega (arith, iterate_next-shorter beyond line cmd found)))

  memchr_from-finds :
      (c n k p : ℕ) → separators beyond p ≡ c → k ≤ p → p < k + n → memchr_from beyond k c n ≡ true
  unfolding memchr_from
  memchr_from-finds c zero k p h le lt = absurd (omega arith)
  memchr_from-finds c (suc n) k p h le lt = elim (Bool-cases (k == p)) [
    | inl same ↦
        let here : (separators beyond k == c) ≡ true =
          (==_iff _ c).1 (ap (separators beyond) ((==_iff k p).0 same) ∙ h) in
        rw here
    | inr other ↦
        let later = memchr_from-finds c n (suc k) p h (ground arith) (omega arith) in
        ground (arith, later)
  ]

  -- If the first byte of a line stands at place `i` behind the literal, and the line is longer than
  -- that, the byte is passed over as a separator, so the command is not seen.
  iterate_next-beyond :
      (c : ℕ) (s : Bytes) (i : ℕ)
      → beyond i ≡ c
      → i + 2 < length s
      → iterate_next beyond (c ∷ s) ≡ iterate_next beyond s
  unfolding iterate_next skip_separators
  iterate_next-beyond c s i h room =
      rw (memchr_from-finds c (length (c ∷ s)) 0 (suc (suc (suc i))) h (omega arith) (omega arith))
