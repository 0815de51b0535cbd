-- ===== src/Commands/Registration.antt =====
-- src/commands.c: the at_register functions, and properties that handlers keep.
use meego_cellular_matd.Prelude.{
  ℕ, zero, suc, ◌+◌, ◌-◌, Ordering, ◌≡◌, subst, ◌⊎◌, inl, inr, Bool, true, false, Option, none,
  some, List, [], ◌∷◌, Bytes, ltb, leb, if◌then◌else◌, length, set, replicate,
}
use mathlib.Core.Option.{some-injective}
use meego_cellular_matd.Commands.{
  AlphaCb, Handler, SHandler, Bank, Registered, registered, already, slot, register_in, put_in,
  cleared, register_ext, register_alpha, register_ampersand, register_s, max_s, name_max,
  name_too_long, out_of_range, assertion_failed, with_alpha, with_ampersand,
}
use meego_cellular_matd.Commands.Search.{Tree, leaf, node, tsearch, ext_cmp, by_order}
use meego_cellular_matd.Commands.Keeps.{
  Slots, Handlers, KeptByAlpha, KeptByBank, KeptByHandler, KeptByS, KeptBySet,
}

slot-set :
    {A : Type 0} (table : List (Option A)) (x i : ℕ) (h f : A)
    → slot (set table x (some h)) i ≡ some f
    → (h ≡ f) ⊎ (slot table i ≡ some f)
slot-set [] x i h f e = inr e
slot-set (o ∷ table) zero zero h f e = inl (some-injective h f e)
slot-set (o ∷ table) zero (suc i) h f e = inr e
slot-set (o ∷ table) (suc x) zero h f e = inr e
slot-set (o ∷ table) (suc x) (suc i) h f e = slot-set table x i h f e

Slots-put_in :
    {A : Type 0} (Q : A → Type 0) (o : Option A) (table : List (Option A)) (x : ℕ) (h : A)
    → Q h
    → Slots Q table
    → Slots Q (put_in o table x h).0
Slots-put_in Q (some old) table x h q all i f e = all i f e
Slots-put_in Q none table x h q all i f e = elim (slot-set table x i h f e) [
  | inl new ↦ subst Q new q
  | inr old ↦ all i f old
]

Slots-register_in :
    {A : Type 0} (Q : A → Type 0) (table : List (Option A)) (x : ℕ) (h : A)
    → Q h
    → Slots Q table
    → Slots Q (register_in table x h).0
unfolding register_in
Slots-register_in Q table x h = Slots-put_in Q (slot table x) table x h

Slots-replicate : {A : Type 0} (Q : A → Type 0) (n : ℕ) → Slots Q (replicate n none)
Slots-replicate Q zero i f e = cc
Slots-replicate Q (suc n) zero f e = cc
Slots-replicate Q (suc n) (suc i) f e = Slots-replicate Q n i f e

Handlers-by_order :
    {H : Type 0} (Q : H → Type 0) (o : Ordering) (x y z : Tree H × Bool)
    → Handlers Q x.0
    → Handlers Q y.0
    → Handlers Q z.0
    → Handlers Q (by_order o x y z).0
Handlers-by_order Q Ordering.lt x y z p q r = p
Handlers-by_order Q Ordering.eq x y z p q r = q
Handlers-by_order Q Ordering.gt x y z p q r = r

Handlers-tsearch :
    {H : Type 0} (Q : H → Type 0) (n : Bytes) (h : H) (t : Tree H)
    → Q h
    → Handlers Q t
    → Handlers Q (tsearch n h t).0
unfolding tsearch
Handlers-tsearch Q n h leaf q all = (q, tt, tt)
Handlers-tsearch Q n h (node l n' h' r) q (q', all_l, all_r) =
    Handlers-by_order Q (ext_cmp n n') (node (tsearch n h l).0 n' h' r, (tsearch n h l).1)
      (node l n' h' r, false) (node l n' h' (tsearch n h r).0, (tsearch n h r).1)
      (q', Handlers-tsearch Q n h l q all_l, all_r) (q', all_l, all_r)
      (q', all_l, Handlers-tsearch Q n h r q all_r)

module _ {W : Type 0} (P : W → Type 0) where
  bank_if :
      (b : Bool) (x y : Bank W × Registered)
      → KeptByBank P x.0
      → KeptByBank P y.0
      → KeptByBank P (if b then x else y).0
  bank_if true x y p q = p
  bank_if false x y p q = q

  -- An empty bank has no handler at all.
  pub cleared-KeptByBank : KeptByBank P cleared
  unfolding cleared
  cleared-KeptByBank = record {
    alpha = Slots-replicate (KeptByAlpha P) 26;
    ampersand = Slots-replicate (KeptByAlpha P) 26;
    dial = Slots-replicate (KeptBySet P) 2;
    s = Slots-replicate (KeptByS P) (max_s + 1);
    extended = tt;
  }

  pub register_alpha-KeptByBank :
      (bank : Bank W) (c : ℕ) (f : AlphaCb W)
      → KeptByAlpha P f
      → KeptByBank P bank
      → KeptByBank P (register_alpha bank c f).0
  unfolding register_alpha
  register_alpha-KeptByBank bank c f q k =
      bank_if _ (with_alpha bank (register_in bank.alpha (c - b'A') f)) (bank, assertion_failed)
        (record {
          alpha = Slots-register_in (KeptByAlpha P) bank.alpha (c - b'A') f q k.alpha;
          ampersand = k.ampersand;
          dial = k.dial;
          s = k.s;
          extended = k.extended;
        })
        k

  pub register_ampersand-KeptByBank :
      (bank : Bank W) (c : ℕ) (f : AlphaCb W)
      → KeptByAlpha P f
      → KeptByBank P bank
      → KeptByBank P (register_ampersand bank c f).0
  unfolding register_ampersand
  register_ampersand-KeptByBank bank c f q k =
      bank_if _ (with_ampersand bank (register_in bank.ampersand (c - b'A') f))
        (bank, assertion_failed)
        (record {
          alpha = k.alpha;
          ampersand = Slots-register_in (KeptByAlpha P) bank.ampersand (c - b'A') f q k.ampersand;
          dial = k.dial;
          s = k.s;
          extended = k.extended;
        })
        k

  pub register_s-KeptByBank :
      (bank : Bank W) (n : ℕ) (h : SHandler W)
      → KeptByS P h
      → KeptByBank P bank
      → KeptByBank P (register_s bank n h).0
  unfolding register_s
  register_s-KeptByBank bank n h q k =
      bank_if (ltb max_s n) (bank, out_of_range)
        (record bank { s = (register_in bank.s n h).0 }, (register_in bank.s n h).1) k
        (record {
          alpha = k.alpha;
          ampersand = k.ampersand;
          dial = k.dial;
          s = Slots-register_in (KeptByS P) bank.s n h q k.s;
          extended = k.extended;
        })

  pub register_ext-KeptByBank :
      (bank : Bank W) (n : Bytes) (h : Handler W)
      → KeptByHandler P h
      → KeptByBank P bank
      → KeptByBank P (register_ext bank n h).0
  unfolding register_ext
  register_ext-KeptByBank bank n h q k =
      let (tree, added) = tsearch n h bank.extended in
      bank_if (leb name_max (length n)) (bank, name_too_long)
        (if added then (record bank { extended = tree }, registered) else (bank, already)) k
        (bank_if added (record bank { extended = tree }, registered) (bank, already)
          (record {
            alpha = k.alpha;
            ampersand = k.ampersand;
            dial = k.dial;
            s = k.s;
            extended = Handlers-tsearch (KeptByHandler P) n h bank.extended q k.extended;
          })
          k)
