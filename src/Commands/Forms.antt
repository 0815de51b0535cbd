-- ===== src/Commands/Forms.antt =====
-- The forms of an extended command, behind the look-up of its handler.
use meego_cellular_matd.Prelude.{
  ℕ, zero, suc, ◌+◌, ◌<◌, ◌≡◌, refl, ap, ◌∙◌, true, false, [], ◌∷◌, ◌++◌, arith, Bytes, ◌==◌,
  if_false, length, drop, length-append, drop_length-append,
}
use meego_cellular_matd.Libc.Ctype.{is_space}
use meego_cellular_matd.Libc.Scanf.{
  space, char, skip_scanset, offset, scan, sscanf, count_set, count_space, chr, pos,
}
use meego_cellular_matd.Commands.{
  Handler, execute_equal, execute_handler, call_or, in_name, after_equal, after_name,
}
use meego_cellular_matd.Modem.{at_ok, at_cme_einval}

-- A byte that the scan of a name passes.
abbrev pub AllInName : Bytes → Type 0
AllInName [] = Unit {0}
AllInName (c ∷ s) = (in_name c ≡ true) × AllInName s

count_set-AllInName :
    (key s : Bytes) (c max : ℕ)
    → AllInName key
    → in_name c ≡ false
    → length key < max
    → count_set in_name max (key ++ (c ∷ s)) ≡ length key
unfolding count_set
count_set-AllInName key s c zero all stops room = absurd (omega arith)
count_set-AllInName [] s c (suc max) all stops room = rw stops
count_set-AllInName (x ∷ key) s c (suc max) all stops room =
    rw all.0 (ap suc (count_set-AllInName key s c max all.1 stops (omega arith)))

space_behind :
    (key s : Bytes) (c : ℕ)
    → is_space c ≡ false
    → (n : ℕ) → n ≡ length key
    → count_space (drop n (key ++ (c ∷ s))) ≡ 0
unfolding count_space
space_behind key s c visible n e = rw (e, drop_length-append key (c ∷ s), visible)

-- The first directive of the scan skips the name; the operator and its place are stored.
scan_name :
    (key s : Bytes) (c : ℕ)
    → AllInName key
    → 0 < length key
    → in_name c ≡ false
    → is_space c ≡ false
    → sscanf (skip_scanset in_name ∷ space ∷ char ∷ offset ∷ []) (key ++ (c ∷ s))
      ≡ record { args = chr c ∷ pos (length key + 1) ∷ []; at_end = false }
unfolding sscanf scan count_space
scan_name key s c all some_byte stops visible =
    let n =
      count_set-AllInName key s c (length (key ++ (c ∷ s))) all stops
        (omega (arith, length-append key (c ∷ s))) in
    let some_name : (length key == 0) ≡ false = ground arith in
    rw (n, some_name, drop_length-append key (c ∷ s), visible)
      (ap (λ k. record { args = chr c ∷ pos k ∷ []; at_end = false })
        (omega (arith, n, space_behind key s c visible _ n)))

drop_past : (key s : Bytes) (c : ℕ) → drop (length key + 1) (key ++ (c ∷ s)) ≡ s
drop_past [] s c = refl
drop_past (x ∷ key) s c =
    ap (λ n. drop n (x ∷ (key ++ (c ∷ s)))) {y = suc (length key + 1)} (omega arith)
    ∙ drop_past key s c

scan_value :
    (c : ℕ) (s : Bytes)
    → is_space c ≡ false
    → sscanf (space ∷ offset ∷ char ∷ []) (c ∷ s)
      ≡ record { args = pos 0 ∷ chr c ∷ []; at_end = false }
unfolding sscanf scan count_space
scan_value c s visible = rw visible

module _ {W : Type 0} where
  pub execute_handler-query :
      (h : Handler W) (w : W) (key s : Bytes)
      → AllInName key
      → 0 < length key
      → execute_handler h w (key ++ (b'?' ∷ s)) ≡ call_or h.get w at_cme_einval
  unfolding execute_handler
  execute_handler-query h w key s all some_byte =
      ap (λ r. after_name h w (key ++ (b'?' ∷ s)) r.args)
        (scan_name key s b'?' all some_byte refl refl)

  pub execute_handler-equal :
      (h : Handler W) (w : W) (key s : Bytes)
      → AllInName key
      → 0 < length key
      → execute_handler h w (key ++ (b'=' ∷ s)) ≡ execute_equal h w s
  unfolding execute_handler
  execute_handler-equal h w key s all some_byte =
      ap (λ r. after_name h w (key ++ (b'=' ∷ s)) r.args)
        (scan_name key s b'=' all some_byte refl refl)
      ∙ ap (execute_equal h w) (drop_past key s b'=')

  -- What stands behind the equal sign: nothing, a question mark, or the parameters.
  pub execute_equal-none : (h : Handler W) (w : W) → execute_equal h w [] ≡ h.set w []
  unfolding execute_equal sscanf scan count_space
  execute_equal-none h w = refl

  pub execute_equal-test :
      (h : Handler W) (w : W) (s : Bytes) → execute_equal h w (b'?' ∷ s) ≡ call_or h.test w at_ok
  unfolding execute_equal sscanf scan count_space
  execute_equal-test h w s = refl

  pub execute_equal-set :
      (h : Handler W) (w : W) (c : ℕ) (s : Bytes)
      → is_space c ≡ false
      → (c == b'?') ≡ false
      → execute_equal h w (c ∷ s) ≡ h.set w (c ∷ s)
  unfolding execute_equal
  execute_equal-set h w c s visible other =
      ap (λ r. after_equal h w (c ∷ s) r.args) (scan_value c s visible) ∙ if_false _ _ other
