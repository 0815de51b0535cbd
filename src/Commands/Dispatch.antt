-- ===== src/Commands/Dispatch.antt =====
-- src/commands.c: at_commands_execute on an extended command, behind at_register_ext.
use meego_cellular_matd.Prelude.{
  ℕ, ◌<◌, Ordering, ◌≡◌, refl, sym, ap, ◌∙◌, ◌≢◌, true, false, Option, none, some, ◌∷◌, ◌++◌, arith,
  Bytes, leb, ◌==◌, if_false, length,
}
use meego_cellular_matd.Commands.Key.{
  IsKey, IsKey-AllInName, IsKey-IsName, IsKey-length, Fitting, AllNames-map, Fitting-equal,
  Fitting-query,
}
use Prim.Native.Nat.{Ordering, eq}
use meego_cellular_matd.Libc.Ctype.{is_upper, is_alpha, is_space, strcasecmp}
use meego_cellular_matd.Commands.{
  Bank, Handler, registered, already, name_max, register_ext, execute_handler, execute_extended,
  execute_bank, execute, call_or, to_capital, with_found,
}
use meego_cellular_matd.Commands.Forms.{
  execute_handler-query, execute_handler-equal, execute_equal-test, execute_equal-set,
}
use meego_cellular_matd.Commands.Search.{tsearch, lookup}
use meego_cellular_matd.Commands.Order.{
  IsStop, Fits, AllNames, tfind-eq-lookup, lookup-tsearch, added-tsearch, AllNames-tsearch,
}
use meego_cellular_matd.Modem.{at_ok, at_cme_einval}

not_upper : (c : ℕ) → is_alpha c ≡ false → is_upper (to_capital c) ≡ false
unfolding to_capital
not_upper c h = ground arith

not_ampersand : (c : ℕ) → is_alpha c ≡ false → (c == b'&') ≡ false → (to_capital c == b'&') ≡ false
unfolding to_capital
not_ampersand c h other = ground arith

module _ {W : Type 0} where
  -- A request whose first byte is no letter and no ampersand goes to the tree.
  extended_bank :
      (bank : Bank W) (w : W) (c : ℕ) (s : Bytes)
      → is_alpha c ≡ false
      → (c == b'&') ≡ false
      → execute_bank bank w (c ∷ s) ≡ execute_extended bank w (c ∷ s)
  unfolding execute_bank
  extended_bank bank w c s letter ampersand =
      if_false _ _ (not_upper c letter) ∙ if_false _ _ (not_ampersand c letter ampersand)

  execute-extended :
      (bank : Bank W) (w : W) (key s : Bytes)
      → IsKey key
      → execute (some bank) w (key ++ s) ≡ execute_extended bank w (key ++ s)
  unfolding execute
  execute-extended bank w key s k =
      rw k.parts (extended_bank bank w k.head (k.tail ++ s) k.no_letter k.no_ampersand)

  -- The handler that a request calls, once its name has been looked up.
  execute-lookup :
      (bank : Bank W) (w : W) (key s : Bytes)
      → IsKey key
      → IsStop s
      → AllNames (Fits key s) bank.extended
      → execute (some bank) w (key ++ s) ≡ with_found w (key ++ s) (lookup key bank.extended)
  unfolding execute_extended
  execute-lookup bank w key s k stop all =
      execute-extended bank w key s k
      ∙ ap (with_found w (key ++ s))
          (tfind-eq-lookup key s bank.extended (IsKey-IsName key k) stop all)

  -- What a successful registration has done.
  register_ext-tree :
      (bank : Bank W) (n : Bytes) (h : Handler W)
      → (register_ext bank n h).1 ≡ registered
      → ((register_ext bank n h).0.extended ≡ (tsearch n h bank.extended).0)
        × lookup n bank.extended ≡ none
  unfolding register_ext
  register_ext-tree bank n h done = ground (arith, added-tsearch n h bank.extended)

  lookup-registered :
      (bank : Bank W) (n key : Bytes) (h : Handler W)
      → (register_ext bank n h).1 ≡ registered
      → strcasecmp key n ≡ eq
      → lookup key (register_ext bank n h).0.extended ≡ some h
  lookup-registered bank n key h done same =
      let (tree, missing) = register_ext-tree bank n h done in
      rw (tree, lookup-tsearch key n h bank.extended, same, missing)

  AllNames-registered :
      (P : Bytes → Type 0) (bank : Bank W) (n : Bytes) (h : Handler W)
      → (register_ext bank n h).1 ≡ registered
      → P n
      → AllNames P bank.extended
      → AllNames P (register_ext bank n h).0.extended
  AllNames-registered P bank n h done p all =
      rw ((register_ext-tree bank n h done).0) (AllNames-tsearch P n h bank.extended p all)

  other_name : (o : Ordering) (x y : Option (Handler W)) → o ≢ eq → (elim o [ eq ↦ x | _ ↦ y ]) ≡ y
  other_name o x y differs = ground arith

  -- A request with a name that has been registered calls its handler.
  execute-registered :
      (bank : Bank W) (w : W) (n key s : Bytes) (h : Handler W)
      → (register_ext bank n h).1 ≡ registered
      → IsKey key
      → strcasecmp key n ≡ eq
      → IsStop s
      → Fits key s n
      → AllNames (Fits key s) bank.extended
      → execute (some (register_ext bank n h).0) w (key ++ s) ≡ execute_handler h w (key ++ s)
  execute-registered bank w n key s h done k same stop fits all =
      execute-lookup (register_ext bank n h).0 w key s k stop
        (AllNames-registered (Fits key s) bank n h done fits all)
      ∙ ap (with_found w (key ++ s)) (lookup-registered bank n key h done same)

  -- Once an extended command is registered, a request with its name in any case of the letters and
  -- the suffix `?` calls its get callback, or gives CME ERROR 50 if it has none; with the suffix `=?`
  -- it calls its test callback, or gives OK if it has none. The names of the tree are letters and
  -- digits behind their first byte, and none of them goes on behind the requested name with a
  -- character that does not sort behind the question mark.
  pub register_ext-execute :
      (bank : Bank W) (w : W) (n key s : Bytes) (h : Handler W)
      → (register_ext bank n h).1 ≡ registered
      → IsKey key
      → strcasecmp key n ≡ eq
      → Fitting key n
      → AllNames (Fitting key) bank.extended
      → (execute (some (register_ext bank n h).0) w (key ++ (b'?' ∷ s))
          ≡ call_or h.get w at_cme_einval)
        × execute (some (register_ext bank n h).0) w (key ++ (b'=' ∷ (b'?' ∷ s)))
          ≡ call_or h.test w at_ok
  register_ext-execute bank w n key s h done k same fits all = (
    execute-registered bank w n key (b'?' ∷ s) h done k same refl (Fitting-query key s n fits)
          (AllNames-map _ _ bank.extended (Fitting-query key s) all)
        ∙ execute_handler-query h w key s (IsKey-AllInName key k) (IsKey-length key k),
    execute-registered bank w n key (b'=' ∷ (b'?' ∷ s)) h done k same refl
          (Fitting-equal key (b'?' ∷ s) n fits)
          (AllNames-map _ _ bank.extended (Fitting-equal key (b'?' ∷ s)) all)
        ∙ execute_handler-equal h w key (b'?' ∷ s) (IsKey-AllInName key k) (IsKey-length key k)
        ∙ execute_equal-test h w s,
  )

  -- With an equal sign and parameters that do not start with white space or a question mark, a
  -- request with the name of a command that has been registered calls its set callback on exactly the
  -- parameters, under the same conditions on the names.
  pub register_ext-set :
      (bank : Bank W) (w : W) (n key s : Bytes) (c : ℕ) (h : Handler W)
      → (register_ext bank n h).1 ≡ registered
      → IsKey key
      → strcasecmp key n ≡ eq
      → Fitting key n
      → AllNames (Fitting key) bank.extended
      → is_space c ≡ false
      → (c == b'?') ≡ false
      → execute (some (register_ext bank n h).0) w (key ++ (b'=' ∷ (c ∷ s))) ≡ h.set w (c ∷ s)
  register_ext-set bank w n key s c h done k same fits all visible other =
      execute-registered bank w n key (b'=' ∷ (c ∷ s)) h done k same refl
        (Fitting-equal key (c ∷ s) n fits)
        (AllNames-map _ _ bank.extended (Fitting-equal key (c ∷ s)) all)
      ∙ execute_handler-equal h w key (c ∷ s) (IsKey-AllInName key k) (IsKey-length key k)
      ∙ execute_equal-set h w c s visible other

  -- Registering a command leaves the result of every request with another name as it was, if the
  -- names of the tree and the new one fit the request.
  pub register_ext-other :
      (bank : Bank W) (w : W) (n key s : Bytes) (h : Handler W)
      → (register_ext bank n h).1 ≡ registered
      → IsKey key
      → IsStop s
      → strcasecmp key n ≢ eq
      → Fits key s n
      → AllNames (Fits key s) bank.extended
      → execute (some (register_ext bank n h).0) w (key ++ s) ≡ execute (some bank) w (key ++ s)
  register_ext-other bank w n key s h done k stop differs fits all =
      execute-lookup (register_ext bank n h).0 w key s k stop
        (AllNames-registered (Fits key s) bank n h done fits all)
      ∙ ap (with_found w (key ++ s)) (
          ap (lookup key) ((register_ext-tree bank n h done).0)
          ∙ lookup-tsearch key n h bank.extended
          ∙ other_name (strcasecmp key n) _ _ differs)
      ∙ sym (execute-lookup bank w key s k stop all)

  register_ext-found :
      (bank : Bank W) (n : Bytes) (h old : Handler W)
      → length n < name_max
      → lookup n bank.extended ≡ some old
      → register_ext bank n h ≡ (bank, already)
  unfolding register_ext
  register_ext-found bank n h old fits found =
      let short : leb name_max (length n) ≡ false = ground (arith, fits) in
      let new : (tsearch n h bank.extended).1 ≡ false =
        added-tsearch n h bank.extended
        ∙ ap (λ (o : Option (Handler W)). elim o [ none ↦ true | some x ↦ false ]) found in
      rw (short, new) refl

  -- Once an extended command is registered, registering another under a name that differs at most
  -- in the case of its letters, and fits into a handler, is refused as a duplicate: the bank stays
  -- with the first handler.
  pub register_ext-again :
      (bank : Bank W) (n n' : Bytes) (h h' : Handler W)
      → (register_ext bank n h).1 ≡ registered
      → strcasecmp n' n ≡ eq
      → length n' < name_max
      → register_ext (register_ext bank n h).0 n' h' ≡ ((register_ext bank n h).0, already)
  register_ext-again bank n n' h h' done same fits =
      register_ext-found (register_ext bank n h).0 n' h' h fits
        (lookup-registered bank n n' h done same)
