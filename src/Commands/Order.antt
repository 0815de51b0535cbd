-- ===== src/Commands/Order.antt =====
-- src/commands.c: the order of ext_cmp and ext_match, and of the search tree under each.
use meego_cellular_matd.Prelude.{
  ◌<◌, Ordering, ◌≡◌, refl, sym, ◌∙◌, inl, inr, Bool, true, false, Option, none, some, [], ◌∷◌,
  ◌++◌, arith, Bytes, ltb, ltb→lt, if_true, if_false, Bool-cases, length,
}
use meego_cellular_matd.Libc.Ctype.{is_alnum, to_lower, strncasecmp, strcasecmp}
use meego_cellular_matd.Commands.Search.{
  by_order, ext_cmp, ext_match, Tree, leaf, node, tfind, tsearch, lookup,
}

longer :
    (a b : Bytes)
    → length b < length a
    → strcasecmp a b ≡ (elim (strncasecmp a b (length b)) [
      | Ordering.lt ↦ Ordering.lt
      | Ordering.eq ↦ Ordering.gt
      | Ordering.gt ↦ Ordering.gt
    ])
unfolding strcasecmp strncasecmp
longer [] b h = absurd (omega arith)
longer (x ∷ a) [] h = refl
longer (x ∷ a) (y ∷ b) h = ground (arith, longer a b)

shorter :
    (a b : Bytes)
    → length a < length b
    → strcasecmp a b ≡ (elim (strncasecmp a b (length a)) [
      | Ordering.lt ↦ Ordering.lt
      | Ordering.eq ↦ Ordering.lt
      | Ordering.gt ↦ Ordering.gt
    ])
unfolding strcasecmp strncasecmp
shorter [] [] h = absurd (omega arith)
shorter [] (y ∷ b) h = refl
shorter (x ∷ a) [] h = absurd (omega arith)
shorter (x ∷ a) (y ∷ b) h = ground (arith, shorter a b)

-- For all names, whatever their lengths, the comparator of registration is the order of strcasecmp().
pub ext_cmp-eq-strcasecmp : (a b : Bytes) → ext_cmp a b ≡ strcasecmp a b
unfolding ext_cmp
ext_cmp-eq-strcasecmp a b = elim (Bool-cases (ltb (length b) (length a))) [
  | inl long ↦ if_true _ _ long ∙ sym (longer a b (ltb→lt _ _ long))
  | inr short ↦ if_false _ _ short ∙ (elim (Bool-cases (ltb (length a) (length b))) [
    | inl less ↦ if_true _ _ less ∙ sym (shorter a b (ltb→lt _ _ less))
    | inr same ↦ if_false _ _ same
  ])
]

-- Names that differ in case only compare alike.
pub strcasecmp-cong :
    (j n x : Bytes) → strcasecmp j n ≡ Ordering.eq → strcasecmp j x ≡ strcasecmp n x
unfolding strcasecmp
strcasecmp-cong [] [] x h = refl
strcasecmp-cong [] (b ∷ n) x h = cc
strcasecmp-cong (a ∷ j) [] x h = cc
strcasecmp-cong (a ∷ j) (b ∷ n) [] h = refl
strcasecmp-cong (a ∷ j) (b ∷ n) (c ∷ x) h = ground (arith, strcasecmp-cong j n x)

-- Letters and digits only.
abbrev pub AllAlnum : Bytes → Type 0
AllAlnum [] = Unit {0}
AllAlnum (c ∷ s) = (is_alnum c ≡ true) × AllAlnum s

-- What ends a command's name in a request: the end, or a byte that is no letter or digit.
abbrev pub IsStop : Bytes → Type 0
IsStop [] = Unit {0}
IsStop (c ∷ s) = is_alnum c ≡ false

-- If `name` goes on behind `key`, its next character comes after the one that ends the key.
abbrev pub Before : Bytes → Bytes → Bytes → Type 0
Before [] [] name = Unit {0}
Before [] (c ∷ s) [] = Unit {0}
Before [] (c ∷ s) (y ∷ name) = to_lower c < to_lower y
Before (x ∷ key) s [] = Unit {0}
Before (x ∷ key) s (y ∷ name) = Before key s name

match_tail :
    (key s name : Bytes)
    → AllAlnum key
    → IsStop s
    → Before key s name
    → ext_match (key ++ s) name ≡ strcasecmp key name
unfolding ext_match strcasecmp strncasecmp
match_tail [] [] [] all stop b = refl
match_tail [] [] (y ∷ name) all stop b = refl
match_tail [] (c ∷ s) [] all stop b = ground arith
match_tail [] (c ∷ s) (y ∷ name) all stop b = ground arith
match_tail (x ∷ key) s [] all stop b = ground arith
match_tail (x ∷ key) s (y ∷ name) all stop b = ground (arith, match_tail key s name all.1 stop b)

-- A name: any first character, then letters and digits.
abbrev pub IsName : Bytes → Type 0
IsName [] = ⊥
IsName (c ∷ s) = AllAlnum s

-- The comparator of look-up on a request `key ++ s`, `s` not starting with a letter or digit, is the
-- order of registration on the key, if no longer name with the key's letters sorts before `s`.
pub ext_match-eq-strcasecmp :
    (key s n : Bytes)
    → IsName key
    → IsName n
    → IsStop s
    → Before key s n
    → ext_match (key ++ s) n ≡ strcasecmp key n
ext_match-eq-strcasecmp [] s n k l stop b = absurd k
ext_match-eq-strcasecmp (c ∷ key) s [] k l stop b = absurd l
ext_match-eq-strcasecmp (c ∷ key) s (d ∷ n) k l stop b =
    unfold ext_match strcasecmp strncasecmp in ground (arith, match_tail key s n k stop b)

-- What the look-ups of `key ++ s` ask of a name in the tree.
abbrev pub Fits : Bytes → Bytes → Bytes → Type 0
Fits key s n = IsName n × Before key s n

module _ {H : Type 0} where
  -- What the names of a tree must satisfy for the look-ups of `key ++ s`.
  abbrev pub AllNames : (Bytes → Type 0) → Tree H → Type 0
  AllNames P leaf = Unit {0}
  AllNames P (node l n h r) = P n × AllNames P l × AllNames P r

  -- If the names of a tree of any shape fit a request, a name and a suffix that does not start with a
  -- letter or digit, the search with the comparator of look-up finds what a search for the name by
  -- the order of registration finds.
  pub tfind-eq-lookup :
      (key s : Bytes) (t : Tree H)
      → IsName key
      → IsStop s
      → AllNames (Fits key s) t
      → tfind (key ++ s) t ≡ lookup key t
  unfolding tfind lookup
  tfind-eq-lookup key s leaf k stop all = refl
  tfind-eq-lookup key s (node l n h r) k stop (fits, all_l, all_r) =
      let same = ext_match-eq-strcasecmp key s n k fits.0 stop fits.1 in
      ground
        (arith, same, tfind-eq-lookup key s l k stop all_l, tfind-eq-lookup key s r k stop all_r)

  -- The look-ups after a registration.
  abbrev pub or_else : Option H → H → Option H
  or_else none h = some h
  or_else (some old) h = some old

  pub lookup-tsearch :
      (j n : Bytes) (h : H) (t : Tree H)
      → lookup j (tsearch n h t).0
        ≡ (elim (strcasecmp j n) [ Ordering.eq ↦ or_else (lookup n t) h | _ ↦ lookup j t ])
  unfolding lookup tsearch
  lookup-tsearch j n h leaf = ground arith
  lookup-tsearch j n h (node l n' h' r) = ground (
    arith,
    ext_cmp-eq-strcasecmp n n',
    strcasecmp-cong j n n',
    lookup-tsearch j n h l,
    lookup-tsearch j n h r,
  )

  -- The second result of a registration says whether the name was new.
  pub added-tsearch :
      (n : Bytes) (h : H) (t : Tree H)
      → (tsearch n h t).1 ≡ (elim (lookup n t) [ none ↦ true | some old ↦ false ])
  unfolding lookup tsearch
  added-tsearch n h leaf = refl
  added-tsearch n h (node l n' h' r) =
      ground (arith, ext_cmp-eq-strcasecmp n n', added-tsearch n h l, added-tsearch n h r)

  AllNames-by_order :
      (P : Bytes → Type 0) (o : Ordering) (n : Bytes) (h : H) (l l' r r' : Tree H) (b b' : Bool)
      → P n
      → AllNames P l
      → AllNames P r
      → AllNames P l'
      → AllNames P r'
      → AllNames P
          (by_order {A = Tree H × Bool} o
            (node l' n h r, b)
            (node l n h r, false)
            (node l n h r', b')).0
  AllNames-by_order P Ordering.lt n h l l' r r' b b' q al ar al' ar' = (q, al', ar)
  AllNames-by_order P Ordering.eq n h l l' r r' b b' q al ar al' ar' = (q, al, ar)
  AllNames-by_order P Ordering.gt n h l l' r r' b b' q al ar al' ar' = (q, al, ar')

  pub AllNames-tsearch :
      (P : Bytes → Type 0) (n : Bytes) (h : H) (t : Tree H)
      → P n
      → AllNames P t
      → AllNames P (tsearch n h t).0
  unfolding tsearch
  AllNames-tsearch P n h leaf p all = (p, tt, tt)
  AllNames-tsearch P n h (node l n' h' r) p (q, all_l, all_r) =
      AllNames-by_order P (ext_cmp n n') n' h' l _ r _ _ _ q all_l all_r
        (AllNames-tsearch P n h l p all_l) (AllNames-tsearch P n h r p all_r)
