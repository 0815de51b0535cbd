-- ===== src/Ofono/Network/Codes.antt =====
-- plugins/ofono/network.c: strconcatcmp compares with a concatenation.
use meego_cellular_matd.Prelude.{
  ℕ, ◌≡◌, refl, sym, ap, ◌∙◌, ◌↔◌, inl, inr, Bool, true, false, some, [], ◌∷◌, ◌++◌, Bytes, ◌==◌,
  if◌then◌else◌, ==_iff, if_true, if_false, Bool-cases, drop,
}
use meego_cellular_matd.Ofono.Network.Operators.{match_rest, match_both, strconcatcmp}

cons-eq : (x y : ℕ) (a b : Bytes) → (x == y) ≡ true → a ≡ b → x ∷ a ≡ y ∷ b
cons-eq x y a b h e = ap (λ z. z ∷ a) ((==_iff x y).0 h) ∙ ap (λ z. y ∷ z) e

abbrev head_of : ℕ → Bytes → ℕ
head_of d [] = d
head_of d (x ∷ s) = x

-- One step of either loop, once the rest is compared.
step :
    (x y : ℕ) (rest : Bool) (a b : Bytes)
    → ((rest ≡ true) ↔ (a ≡ b))
    → ((if x == y then rest else false) ≡ true) ↔ (x ∷ a ≡ y ∷ b)
step x y rest a b same_rest = elim (Bool-cases (x == y)) [
  | inl same ↦ (
    λ h. cons-eq x y a b same (same_rest.0 (sym (if_true _ _ same) ∙ h)),
    λ h. if_true _ _ same ∙ same_rest.1 (ap (drop 1) h),
  )
  | inr other ↦ (
    λ h. let e : false ≡ true = sym (if_false {b = x == y} rest false other) ∙ h in cc,
    λ h. let e = (==_iff x y).1 (ap (head_of 0) h) in cc,
  )
]

match_rest-eq : (a b : Bytes) → (match_rest a b ≡ true) ↔ (a ≡ b)
unfolding match_rest
match_rest-eq [] [] = (λ _. refl, λ _. refl)
match_rest-eq [] (y ∷ b) = (λ h. cc, λ h. cc)
match_rest-eq (x ∷ a) [] = (λ h. cc, λ h. cc)
match_rest-eq (x ∷ a) (y ∷ b) = step x y (match_rest a b) a b (match_rest-eq a b)

match_both-eq : (a b1 b2 : Bytes) → (match_both a b1 b2 ≡ true) ↔ (a ≡ b1 ++ b2)
unfolding match_both
match_both-eq a [] b2 = match_rest-eq a b2
match_both-eq [] (y ∷ b1) b2 = (λ h. cc, λ h. cc)
match_both-eq (x ∷ a) (y ∷ b1) b2 =
    step x y (match_both a b1 b2) a (b1 ++ b2) (match_both-eq a b1 b2)

-- For three strings strconcatcmp tells whether the first is the other two one after the other.
strconcatcmp-eq :
    (a b1 b2 : Bytes) → (strconcatcmp (some a) (some b1) (some b2) ≡ true) ↔ (a ≡ b1 ++ b2)
unfolding strconcatcmp
strconcatcmp-eq a b1 b2 = match_both-eq a b1 b2
