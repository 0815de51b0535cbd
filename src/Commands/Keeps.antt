-- ===== src/Commands/Keeps.antt =====
-- src/commands.c: properties of the state that the handlers of a bank keep, and at_commands_execute.
use meego_cellular_matd.Prelude.{
  ℕ, ◌-◌, Ordering, ◌≡◌, refl, subst, inl, inr, Bool, true, false, Option, none, some, List, [],
  ◌∷◌, arith, Bytes, ltb, ◌==◌, if◌then◌else◌, Bool-cases, get_or, drop,
}
use meego_cellular_matd.Modem.{at_error, at_no_dialtone, at_cme_einval}
use mathlib.Core.Option.{some-injective}
use meego_cellular_matd.Libc.Ctype.{is_upper, is_lower}
use meego_cellular_matd.Libc.Scanf.{
  Directive, Arg, chr, pos, sscanf, num_at, chr_at, count_of, space, literal, uint, skip_char,
  skip_scanset, char, offset,
}
use meego_cellular_matd.Commands.{
  AlphaCb, SetCb, GetCb, Handler, SHandler, Bank, slot, call_or, execute_s, execute_letter,
  execute_dial, after_equal, execute_equal, after_name, execute_handler, with_found,
  execute_extended, execute_ampersand, execute_bank, execute, max_s, strchr, dial_index, to_capital,
  s_handler, called_s, judged_s, in_name,
}
use meego_cellular_matd.Commands.Search.{Tree, leaf, node, tfind, ext_match}

-- A property of what a table holds.
abbrev pub Slots {ℓ} : {A : Type ℓ} → (A → Type 0) → List (Option A) → Type ℓ
Slots {A = A} Q table = (i : ℕ) (f : A) → slot table i ≡ some f → Q f

abbrev pub Handlers : {H : Type 0} → (H → Type 0) → Tree H → Type 0
Handlers Q leaf = Unit {0}
Handlers Q (node l n h r) = Q h × Handlers Q l × Handlers Q r

found_in :
    {H A : Type 0} {x y z : Option H} {h : H} (o : Ordering)
    → (elim o [ Ordering.lt ↦ x | Ordering.eq ↦ y | Ordering.gt ↦ z ]) ≡ some h
    → (x ≡ some h → A)
    → (y ≡ some h → A)
    → (z ≡ some h → A)
    → A
found_in Ordering.lt e f g k = f e
found_in Ordering.eq e f g k = g e
found_in Ordering.gt e f g k = k e

tfind-Handlers :
    {H : Type 0} (Q : H → Type 0) (req : Bytes) (t : Tree H) (h : H)
    → Handlers Q t
    → tfind req t ≡ some h
    → Q h
unfolding tfind
tfind-Handlers Q req leaf h all found = cc
tfind-Handlers Q req (node l n h' r) h (q, all_l, all_r) found =
    found_in (ext_match req n) found (tfind-Handlers Q req l h all_l)
      (λ e. subst Q (some-injective h' h e) q) (tfind-Handlers Q req r h all_r)

module _ {W : Type 0} (P : W → Type 0) where
  abbrev pub KeptByAlpha : AlphaCb W → Type 0
  KeptByAlpha f = (w : W) (n : ℕ) → P w → P (f w n).0

  abbrev pub KeptBySet : SetCb W → Type 0
  KeptBySet f = (w : W) (s : Bytes) → P w → P (f w s).0

  abbrev pub KeptByGet : GetCb W → Type 0
  KeptByGet f = (w : W) → P w → P (f w).0

  abbrev pub KeptByS : SHandler W → Type 0
  KeptByS h = KeptByAlpha h.set × KeptByGet h.get

  abbrev pub KeptByMaybe : Option (GetCb W) → Type 0
  KeptByMaybe none = Unit {0}
  KeptByMaybe (some f) = KeptByGet f

  abbrev pub KeptByHandler : Handler W → Type 0
  KeptByHandler h = KeptBySet h.set × KeptByMaybe h.get × KeptByMaybe h.test

  pub record KeptByBank (bank : Bank W) : Type 0 where
    pub alpha : Slots KeptByAlpha bank.alpha
    pub ampersand : Slots KeptByAlpha bank.ampersand
    pub dial : Slots KeptBySet bank.dial
    pub s : Slots KeptByS bank.s
    pub extended : Handlers KeptByHandler bank.extended

  kept_if : (b : Bool) (x y : W × ℕ) → P x.0 → P y.0 → P (if b then x else y).0
  kept_if true x y p q = p
  kept_if false x y p q = q

  kept_elim :
      {A : Type 0} (o : Option A) (x : W × ℕ) (f : A → W × ℕ)
      → P x.0
      → ((a : A) → o ≡ some a → P (f a).0)
      → P (elim o as (λ _. W × ℕ) [ none ↦ x | some a ↦ f a ]).0
  kept_elim none x f p k = p
  kept_elim (some a) x f p k = k a refl

  call_or-kept : (f : Option (GetCb W)) (w : W) (n : ℕ) → KeptByMaybe f → P w → P (call_or f w n).0
  call_or-kept none w n k p = p
  call_or-kept (some f) w n k p = k w p

  after_equal-kept :
      (h : Handler W) (w : W) (req : Bytes) (args : List Arg)
      → KeptByHandler h
      → P w
      → P (after_equal h w req args).0
  after_equal-kept h w req (pos off ∷ chr c ∷ rest) k p =
      kept_if (c == b'?') _ _ (call_or-kept h.test w _ k.2 p) (k.0 w (drop off req) p)
  after_equal-kept h w req _ k p = k.0 w [] p

  execute_equal-kept :
      (h : Handler W) (w : W) (req : Bytes) → KeptByHandler h → P w → P (execute_equal h w req).0
  unfolding execute_equal
  execute_equal-kept h w req k p =
      after_equal-kept h w req (sscanf (space ∷ offset ∷ char ∷ []) req).args k p

  after_name-kept :
      (h : Handler W) (w : W) (req : Bytes) (args : List Arg)
      → KeptByHandler h
      → P w
      → P (after_name h w req args).0
  after_name-kept h w req (chr c ∷ pos off ∷ rest) k p =
      kept_if (c == b'?') (call_or h.get w at_cme_einval)
        (if c == b'=' then execute_equal h w (drop off req) else (w, at_error))
        (call_or-kept h.get w at_cme_einval k.1 p)
        (kept_if (c == b'=') (execute_equal h w (drop off req)) (w, at_error)
          (execute_equal-kept h w (drop off req) k p) p)
  after_name-kept h w req _ k p = k.0 w [] p

  with_found-kept :
      (w : W) (req : Bytes) (o : Option (Handler W))
      → ((h : Handler W) → o ≡ some h → KeptByHandler h)
      → P w
      → P (with_found w req o).0
  unfolding execute_handler
  with_found-kept w req none k p = p
  with_found-kept w req (some h) k p =
      after_name-kept h w req (sscanf (skip_scanset in_name ∷ space ∷ char ∷ offset ∷ []) req).args
        (k h refl) p

  execute_letter-kept :
      (table : List (Option (AlphaCb W))) (x : ℕ) (format : List Directive) (w : W) (req : Bytes)
      → Slots KeptByAlpha table
      → P w
      → P (execute_letter table x format w req).0
  unfolding execute_letter
  execute_letter-kept table x format w req k p =
      kept_elim (slot table x) (w, at_error) _ p (λ f found. k x f found w _ p)

  execute_dial-kept :
      (bank : Bank W) (w : W) (req : Bytes) → KeptByBank bank → P w → P (execute_dial bank w req).0
  unfolding execute_dial
  execute_dial-kept bank w req k p =
      kept_elim (slot bank.dial (dial_index (strchr req b';'))) (w, at_no_dialtone) _ p
        (λ f found. k.dial _ f found w _ p)

  execute_ampersand-kept :
      (bank : Bank W) (w : W) (req : Bytes)
      → KeptByBank bank
      → P w
      → P (execute_ampersand bank w req).0
  unfolding execute_ampersand
  execute_ampersand-kept bank w req k p =
      let x = get_or req 1 0 in
      let format = literal b'&' ∷ skip_char ∷ space ∷ uint ∷ [] in
      let capital = execute_letter bank.ampersand (x - b'A') format w req in
      let small = execute_letter bank.ampersand (x - b'a') format w req in
      kept_if (is_upper x) capital (if is_lower x then small else (w, at_error))
        (execute_letter-kept bank.ampersand _ format w req k.ampersand p)
        (kept_if (is_lower x) small (w, at_error)
          (execute_letter-kept bank.ampersand _ format w req k.ampersand p) p)

  called_s-kept :
      (h : Option (SHandler W)) (w : W) (op value : ℕ)
      → ((s : SHandler W) → h ≡ some s → KeptByS s)
      → P w
      → P (called_s h w op value).0
  called_s-kept none w op value k p = p
  called_s-kept (some h) w op value k p =
      kept_if (op == b'?') (h.get w) (h.set w value) ((k h refl).1 w p) ((k h refl).0 w value p)

  s_handler-kept :
      (bank : Bank W) (x : ℕ) (h : SHandler W)
      → KeptByBank bank
      → s_handler bank x ≡ some h
      → KeptByS h
  s_handler-kept bank x h k found = elim (Bool-cases (ltb max_s x)) [
    | inl far ↦ cc (rw far at found)
    | inr near ↦ k.s x h (rw near at found)
  ]

  judged_s-kept :
      (o : Option ℕ) (w : W) (op : ℕ) (called : W × ℕ)
      → P w
      → P called.0
      → P (judged_s o w op called).0
  judged_s-kept none w op called p q = p
  judged_s-kept (some n) w op called p q = ground (arith, p, q)

  execute_s-kept :
      (bank : Bank W) (w : W) (req : Bytes) → KeptByBank bank → P w → P (execute_s bank w req).0
  unfolding execute_s
  execute_s-kept bank w req k p =
      let r = sscanf (skip_char ∷ space ∷ uint ∷ space ∷ char ∷ space ∷ uint ∷ []) req in
      let x = num_at r.args 0 in
      let op = chr_at r.args 1 in
      let value = num_at r.args 2 in
      let h = s_handler bank x in
      judged_s-kept (count_of r) w op (called_s h w op value) p
        (called_s-kept h w op value (λ s found. s_handler-kept bank x s k found) p)

  execute_bank-kept :
      (bank : Bank W) (w : W) (req : Bytes) → KeptByBank bank → P w → P (execute_bank bank w req).0
  unfolding execute_bank execute_extended
  execute_bank-kept bank w req k p =
      let c = to_capital (get_or req 0 0) in
      let letter = execute_letter bank.alpha (c - b'A') (skip_char ∷ space ∷ uint ∷ []) w req in
      let with_letter =
        if c == b'D'
        then execute_dial bank w req
        else if c == b'S'
        then execute_s bank w req
        else letter in
      let other = if c == b'&' then execute_ampersand bank w req else execute_extended bank w req in
      kept_if (is_upper c) with_letter other
        (kept_if (c == b'D') (execute_dial bank w req) _ (execute_dial-kept bank w req k p) (
          kept_if (c == b'S') (execute_s bank w req) letter (execute_s-kept bank w req k p)
            (execute_letter-kept bank.alpha _ _ w req k.alpha p)))
        (kept_if (c == b'&') (execute_ampersand bank w req) (execute_extended bank w req)
          (execute_ampersand-kept bank w req k p)
          (with_found-kept w req (tfind req bank.extended)
            (λ h found. tfind-Handlers KeptByHandler req bank.extended h k.extended found) p))

  -- If every handler that is registered keeps a property of the daemon's state, the execution of
  -- any request whatever keeps it, found or not.
  pub execute-kept :
      (bank : Bank W) (w : W) (req : Bytes)
      → KeptByBank bank
      → P w
      → P (execute (some bank) w req).0
  unfolding execute
  execute-kept bank w req k p = execute_bank-kept bank w req k p
