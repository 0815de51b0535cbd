-- ===== src/Tests/Registry.antt =====
-- Runs of the bank of commands, src/commands.c.
use meego_cellular_matd.Prelude.{ℕ, ◌+◌, ◌≡◌, refl, ◌≢◌, none, some, [], arith, Bytes, codes}
use Prim.Native.Nat.{eq}
use meego_cellular_matd.Modem.{at_ok}
use meego_cellular_matd.Libc.Ctype.{strcasecmp, to_lower}
use meego_cellular_matd.Commands.{
  Bank, Handler, Registered, registered, already, cleared, register_ext, execute, execute_bank,
  to_capital, execute_extended, execute_handler, execute_equal,
}
use meego_cellular_matd.Commands.Search.{leaf, node, tsearch, tfind, lookup, ext_cmp, ext_match}
use meego_cellular_matd.Commands.Order.{AllNames, tfind-eq-lookup}
use meego_cellular_matd.Commands.Key.{IsKey, Fitting}
use meego_cellular_matd.Commands.Dispatch.{
  register_ext-execute, register_ext-set, register_ext-other, register_ext-again,
}

-- A handler that counts its calls, and keeps the parameters of the last set.
abbrev World : Type 0
World = ℕ × Bytes

abbrev start : World
start = (0, [])

abbrev counter : ℕ → Handler World
counter n = record {
  set = λ w req. ((w.0 + n, req), at_ok);
  get = some (λ w. ((w.0 + n, w.1), at_ok));
  test = none;
}

abbrev bank : Bank World
bank = (register_ext cleared (codes "+CMER") (counter 1)).0

abbrev reg : Bank World × Registered
reg = register_ext bank (codes "+CMEE") (counter 10)

done : reg.1 ≡ registered
unfolding register_ext cleared ext_cmp strcasecmp to_lower
done = refl

cmee-IsKey : IsKey (codes "+cmee")
cmee-IsKey = record {
  head = b'+';
  tail = codes "cmee";
  parts = refl;
  all = (refl, (refl, (refl, (refl, tt))));
  no_letter = refl;
  no_ampersand = refl;
  named = refl;
}

cmee-Fitting : Fitting (codes "+cmee") (codes "+CMEE")
cmee-Fitting = ((refl, (refl, (refl, (refl, tt)))), tt)

cmer-Fitting : Fitting (codes "+cmee") (codes "+CMER")
cmer-Fitting = ((refl, (refl, (refl, (refl, tt)))), tt)

tree : bank.extended ≡ node leaf (codes "+CMER") (counter 1) leaf
unfolding register_ext cleared tsearch
tree = refl

bank-Fitting : AllNames (Fitting (codes "+cmee")) bank.extended
unfolding register_ext cleared tsearch
bank-Fitting = (cmer-Fitting, tt, tt)

register_ext-execute_example :
    (execute (some reg.0) start (codes "+cmee?") ≡ ((10, []), at_ok))
    × (execute (some reg.0) start (codes "+cmee=?") ≡ (start, at_ok))
register_ext-execute_example =
    register_ext-execute bank start (codes "+CMEE") (codes "+cmee") [] (counter 10) done cmee-IsKey
      (unfold strcasecmp to_lower in refl) cmee-Fitting bank-Fitting

register_ext-set_example : execute (some reg.0) start (codes "+cmee=2") ≡ ((10, codes "2"), at_ok)
register_ext-set_example =
    register_ext-set bank start (codes "+CMEE") (codes "+cmee") [] b'2' (counter 10) done cmee-IsKey
      (unfold strcasecmp to_lower in refl) cmee-Fitting bank-Fitting refl refl

cmer-IsKey : IsKey (codes "+CMER")
cmer-IsKey = record {
  head = b'+';
  tail = codes "CMER";
  parts = refl;
  all = (refl, (refl, (refl, (refl, tt))));
  no_letter = refl;
  no_ampersand = refl;
  named = refl;
}

differs : strcasecmp (codes "+CMER") (codes "+CMEE") ≢ eq
unfolding strcasecmp to_lower
differs h = cc

register_ext-other_example :
    execute (some reg.0) start (codes "+CMER=1") ≡ execute (some bank) start (codes "+CMER=1")
register_ext-other_example =
    register_ext-other bank start (codes "+CMEE") (codes "+CMER") (codes "=1") (counter 10) done
      cmer-IsKey refl differs ((refl, (refl, (refl, (refl, tt)))), tt)
      (unfold register_ext cleared tsearch in (((refl, (refl, (refl, (refl, tt)))), tt), tt, tt))

calls_cmer : execute (some reg.0) start (codes "+CMER=1") ≡ ((1, codes "1"), at_ok)
unfolding execute execute_bank to_capital execute_extended tfind register_ext cleared ext_cmp
    ext_match execute_handler execute_equal
calls_cmer = refl

register_ext-again_example : register_ext reg.0 (codes "+CmEe") (counter 3) ≡ (reg.0, already)
register_ext-again_example =
    register_ext-again bank (codes "+CMEE") (codes "+CmEe") (counter 10) (counter 3) done
      (unfold strcasecmp to_lower in refl) (omega arith)

tfind-eq-lookup_example :
    tfind (codes "+CMER=1") bank.extended ≡ lookup (codes "+CMER") bank.extended
tfind-eq-lookup_example =
    tfind-eq-lookup (codes "+CMER") (codes "=1") bank.extended (refl, (refl, (refl, (refl, tt))))
      refl
      (unfold register_ext cleared tsearch in (((refl, (refl, (refl, (refl, tt)))), tt), tt, tt))
