-- ===== src/Libc/Offsets.antt =====
-- The offsets that `%n` stores: they do not lie before the cursor.
use meego_cellular_matd.Prelude.{
  ℕ, zero, suc, ◌+◌, ◌≤◌, ◌≡◌, ap, subst, Bool, true, false, Option, none, some, List, [], ◌∷◌,
  arith, Bytes, ◌==◌, if◌then◌else◌, length, take, drop,
}
use meego_cellular_matd.Libc.Scanf.{
  int, scan_int, Directive, space, literal, uint, char, skip_char, skip_uint, scanset, skip_scanset,
  offset, hexa, scan_hexa, long_int, scan_long, Arg, wide, num, chr, str, pos, scan, pos_of,
  Scanned, scan_uint, count_space, count_set,
}

-- Every offset stored is at least `n`.
abbrev pub AllFrom : ℕ → List Arg → Type 0
AllFrom n [] = Unit {0}
AllFrom n (num v ∷ args) = AllFrom n args
AllFrom n (chr c ∷ args) = AllFrom n args
AllFrom n (str s ∷ args) = AllFrom n args
AllFrom n (wide b v ∷ args) = AllFrom n args
AllFrom n (pos k ∷ args) = (n ≤ k) × AllFrom n args

AllFrom-if :
    (m : ℕ) (b : Bool) (x y : Scanned)
    → AllFrom m x.args
    → AllFrom m y.args
    → AllFrom m (if b then x else y).args
AllFrom-if m true x y hx hy = hx
AllFrom-if m false x y hx hy = hy

-- Behind a number that is stored or skipped.
AllFrom-number :
    {A : Type 0} (m : ℕ) (o : Option (A × ℕ)) (none_found : Scanned) (f : A → ℕ → Scanned)
    → AllFrom m none_found.args
    → ((v : A) (j : ℕ) → AllFrom m (f v j).args)
    → AllFrom m (elim o as (λ x. Scanned) [ none ↦ none_found | some (v, j) ↦ f v j ]).args
AllFrom-number m none none_found f h hf = h
AllFrom-number m (some (v, j)) none_found f h hf = hf v j

pub scan-AllFrom :
    (ds : List Directive) (m n : ℕ) (s : Bytes) → m ≤ n → AllFrom m (scan ds n s).args
unfolding scan scan_uint scan_int scan_long scan_hexa
scan-AllFrom [] m n s h = tt
scan-AllFrom (space ∷ ds) m n s h =
    let k = count_space s in scan-AllFrom ds m (n + k) (drop k s) (omega (arith, h))
scan-AllFrom (literal c ∷ ds) m n [] h = tt
scan-AllFrom (literal c ∷ ds) m n (x ∷ s) h =
    AllFrom-if m (x == c) (scan ds (n + 1) s) (record { args = []; at_end = false })
      (scan-AllFrom ds m (n + 1) s (omega (arith, h))) tt
scan-AllFrom (char ∷ ds) m n [] h = tt
scan-AllFrom (char ∷ ds) m n (x ∷ s) h = scan-AllFrom ds m (n + 1) s (omega (arith, h))
scan-AllFrom (skip_char ∷ ds) m n [] h = tt
scan-AllFrom (skip_char ∷ ds) m n (x ∷ s) h = scan-AllFrom ds m (n + 1) s (omega (arith, h))
scan-AllFrom (offset ∷ ds) m n s h = (h, scan-AllFrom ds m n s h)
scan-AllFrom (uint ∷ ds) m n s h =
    let k = count_space s in
    let rest = drop k s in
    let behind : ℕ → ℕ → Scanned = λ v j. record (scan ds (n + k + j) (drop j rest)) {
      args = num v ∷ (scan ds (n + k + j) (drop j rest)).args;
    } in
    AllFrom-if m (length rest == 0) (record { args = []; at_end = true })
      (elim (scan_uint rest) [
        | none ↦ record { args = []; at_end = false }
        | some (v, j) ↦ behind v j
      ])
      tt
      (AllFrom-number m (scan_uint rest) (record { args = []; at_end = false }) behind tt
        (λ v j. scan-AllFrom ds m (n + k + j) (drop j rest) (omega (arith, h))))
scan-AllFrom (int ∷ ds) m n s h =
    let k = count_space s in
    let rest = drop k s in
    let behind : ℕ → ℕ → Scanned = λ v j. record (scan ds (n + k + j) (drop j rest)) {
      args = num v ∷ (scan ds (n + k + j) (drop j rest)).args;
    } in
    AllFrom-if m (length rest == 0) (record { args = []; at_end = true })
      (elim (scan_int rest) [
        | none ↦ record { args = []; at_end = false }
        | some (v, j) ↦ behind v j
      ])
      tt
      (AllFrom-number m (scan_int rest) (record { args = []; at_end = false }) behind tt
        (λ v j. scan-AllFrom ds m (n + k + j) (drop j rest) (omega (arith, h))))
scan-AllFrom (hexa ∷ ds) m n s h =
    let k = count_space s in
    let rest = drop k s in
    let behind : ℕ → ℕ → Scanned = λ v j. record (scan ds (n + k + j) (drop j rest)) {
      args = num v ∷ (scan ds (n + k + j) (drop j rest)).args;
    } in
    AllFrom-if m (length rest == 0) (record { args = []; at_end = true })
      (elim (scan_hexa rest) [
        | none ↦ record { args = []; at_end = false }
        | some (v, j) ↦ behind v j
      ])
      tt
      (AllFrom-number m (scan_hexa rest) (record { args = []; at_end = false }) behind tt
        (λ v j. scan-AllFrom ds m (n + k + j) (drop j rest) (omega (arith, h))))
scan-AllFrom (long_int ∷ ds) m n s h =
    let k = count_space s in
    let rest = drop k s in
    let behind : Bool × ℕ → ℕ → Scanned = λ v j. record (scan ds (n + k + j) (drop j rest)) {
      args = wide v.0 v.1 ∷ (scan ds (n + k + j) (drop j rest)).args;
    } in
    AllFrom-if m (length rest == 0) (record { args = []; at_end = true })
      (elim (scan_long rest) [
        | none ↦ record { args = []; at_end = false }
        | some (v, j) ↦ behind v j
      ])
      tt
      (AllFrom-number m (scan_long rest) (record { args = []; at_end = false }) behind tt
        (λ v j. scan-AllFrom ds m (n + k + j) (drop j rest) (omega (arith, h))))
scan-AllFrom (skip_uint ∷ ds) m n s h =
    let k = count_space s in
    let rest = drop k s in
    let behind : ℕ → ℕ → Scanned = λ v j. scan ds (n + k + j) (drop j rest) in
    AllFrom-if m (length rest == 0) (record { args = []; at_end = true })
      (elim (scan_uint rest) [
        | none ↦ record { args = []; at_end = false }
        | some (v, j) ↦ behind v j
      ])
      tt
      (AllFrom-number m (scan_uint rest) (record { args = []; at_end = false }) behind tt
        (λ v j. scan-AllFrom ds m (n + k + j) (drop j rest) (omega (arith, h))))
scan-AllFrom (scanset p max ∷ ds) m n s h =
    let j = count_set p max s in
    AllFrom-if m (j == 0) (record { args = []; at_end = length s == 0 })
      (record (scan ds (n + j) (drop j s)) {
        args = str (take j s) ∷ (scan ds (n + j) (drop j s)).args;
      })
      tt (scan-AllFrom ds m (n + j) (drop j s) (omega (arith, h)))
scan-AllFrom (skip_scanset p ∷ ds) m n s h =
    let j = count_set p (length s) s in
    AllFrom-if m (j == 0) (record { args = []; at_end = length s == 0 })
      (scan ds (n + j) (drop j s)) tt (scan-AllFrom ds m (n + j) (drop j s) (omega (arith, h)))

-- An offset that is read back is among them.
pub AllFrom-pos_of :
    (m : ℕ) (args : List Arg) (i k : ℕ) → AllFrom m args → pos_of args i ≡ some k → m ≤ k
AllFrom-pos_of m [] i k all e = cc
AllFrom-pos_of m (num v ∷ args) zero k all e = cc
AllFrom-pos_of m (chr v ∷ args) zero k all e = cc
AllFrom-pos_of m (str v ∷ args) zero k all e = cc
AllFrom-pos_of m (wide b v ∷ args) zero k all e = cc
AllFrom-pos_of m (pos v ∷ args) zero k all e =
    subst (λ j. m ≤ j) (ap (λ (o : Option ℕ). elim o [ none ↦ v | some j ↦ j ]) e) all.0
AllFrom-pos_of m (num v ∷ args) (suc i) k all e = AllFrom-pos_of m args i k all e
AllFrom-pos_of m (chr v ∷ args) (suc i) k all e = AllFrom-pos_of m args i k all e
AllFrom-pos_of m (str v ∷ args) (suc i) k all e = AllFrom-pos_of m args i k all e
AllFrom-pos_of m (wide b v ∷ args) (suc i) k all e = AllFrom-pos_of m args i k all e
AllFrom-pos_of m (pos v ∷ args) (suc i) k all e = AllFrom-pos_of m args i k all.1 e

-- Behind a byte that must be there, every offset is above 0.
pub scan_literal-AllFrom :
    (c : ℕ) (ds : List Directive) (n : ℕ) (s : Bytes) → AllFrom 1 (scan (literal c ∷ ds) n s).args
unfolding scan
scan_literal-AllFrom c ds n [] = tt
scan_literal-AllFrom c ds n (x ∷ s) =
    AllFrom-if 1 (x == c) (scan ds (n + 1) s) (record { args = []; at_end = false })
      (scan-AllFrom ds 1 (n + 1) s (omega arith)) tt

pub scan_char-AllFrom :
    (ds : List Directive) (n : ℕ) (s : Bytes) → AllFrom 1 (scan (char ∷ ds) n s).args
unfolding scan
scan_char-AllFrom ds n [] = tt
scan_char-AllFrom ds n (x ∷ s) = scan-AllFrom ds 1 (n + 1) s (omega arith)
