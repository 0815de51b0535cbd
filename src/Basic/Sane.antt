-- ===== src/Basic/Sane.antt =====
-- src/basic.c and src/charset.c: the ranges of the modem's parameters, for the handlers that set them.
use meego_cellular_matd.Prelude.{
  ℕ, suc, ◌≤◌, ◌<◌, ◌≡◌, refl, sym, subst, inl, inr, Bool, true, false, not, Option, none, some,
  List, [], ◌∷◌, arith, Bytes, codes, ltb, leb, ◌==◌, if◌then◌else◌, Bool-cases, length,
}
use meego_cellular_matd.Libc.Ctype.{strcasecmp, is_eq}
use mathlib.Core.Option
use mathlib.Core.Option.{some-injective}
use meego_cellular_matd.Modem.{
  Modem, at_reset, set_echo, set_quiet, set_verbose, set_charset, at_intermediate, write_unlocked,
  at_ok, at_error, at_cme_einval,
}
use meego_cellular_matd.Modem as Modem
use meego_cellular_matd.Charset.{
  Charset, at_cs_tab, set_cscs, set_named, set_found, scanned_name, find_cs, get_cscs, list_cscs,
  cscs, register_charset,
}
use meego_cellular_matd.Libc.Scanf.{atoi}
use meego_cellular_matd.Commands.{Bank, cleared, execute}
use meego_cellular_matd.Commands.Keeps.{
  KeptByAlpha, KeptByS, KeptByHandler, KeptByBank, execute-kept,
}
use meego_cellular_matd.Commands.Registration.{
  cleared-KeptByBank, register_alpha-KeptByBank, register_ampersand-KeptByBank,
  register_s-KeptByBank, register_ext-KeptByBank,
}
use meego_cellular_matd.Basic.{
  print, handle_bool, handle_set, handle_get, handle_reset, set_cmee, get_cmee, list_cmee, fixed,
  cmee, register_basic,
}

-- The error mode is one of the three, and the character set a row of the table.
pub record IsSane (m : Modem) : Type 0 where
  pub mode : m.cmee ≤ 2
  pub row : m.charset < length at_cs_tab

intermediate-IsSane : (m : Modem) (text : Bytes) → IsSane m → IsSane (at_intermediate m text).0
unfolding at_intermediate write_unlocked
intermediate-IsSane m text s = elim (Bool-cases m.in_data) [
  | inl busy ↦ rw busy (record { mode = s.mode; row = s.row })
  | inr idle ↦ rw idle (record { mode = s.mode; row = s.row })
]

reset-IsSane : (m : Modem) → IsSane (at_reset m)
unfolding at_reset
reset-IsSane m = record { mode = omega arith; row = omega arith }

set_cmee-IsSane : (m : Modem) (n : ℕ) → IsSane m → IsSane (Modem.set_cmee m n)
unfolding Modem.set_cmee
set_cmee-IsSane m n s = elim (Bool-cases (leb n 2)) [
  | inl fits ↦ rw fits (record { mode = ground arith; row = s.row })
  | inr large ↦ rw large (record { mode = s.mode; row = s.row })
]

find_cs-less : (rs : List Charset) (name : Bytes) (i : ℕ) → find_cs rs name ≡ some i → i < length rs
unfolding find_cs
find_cs-less [] name i h = cc
find_cs-less (r ∷ rs) name i h = elim (Bool-cases (is_eq (strcasecmp name r.gsm_name))) [
  | inl same ↦ omega (arith, some-injective 0 i (rw same at h))
  | inr other ↦ later (find_cs rs name) (rw other at h) (find_cs-less rs name)
]
  where
    later :
        (o : Option ℕ)
        → Option.map suc o ≡ some i
        → ((j : ℕ) → o ≡ some j → j < length rs)
        → i < suc (length rs)
    later none e k = cc
    later (some j) e k = omega (arith, some-injective (suc j) i e, k j refl)

set_found-IsSane :
    (m : Modem) (o : Option ℕ)
    → ((i : ℕ) → o ≡ some i → i < length at_cs_tab)
    → IsSane m
    → IsSane (set_found m o).0
unfolding set_charset
set_found-IsSane m none k s = s
set_found-IsSane m (some i) k s = record { mode = s.mode; row = omega (arith, k i refl) }

set_named-IsSane : (m : Modem) (o : Option Bytes) → IsSane m → IsSane (set_named m o).0
set_named-IsSane m none s = s
set_named-IsSane m (some name) s =
    set_found-IsSane m (find_cs at_cs_tab name) (find_cs-less at_cs_tab name) s

module _ {W : Type 0} (modem : W → Modem) (put : Modem → W → W)
    (modem-put : (m : Modem) (w : W) → modem (put m w) ≡ m) where
  abbrev Sane : W → Type 0
  Sane w = IsSane (modem w)

  put-Sane : (m : Modem) (w : W) → IsSane m → Sane (put m w)
  put-Sane m w s = subst IsSane (sym (modem-put m w)) s

  kept_if : (b : Bool) (x y : W × ℕ) → Sane x.0 → Sane y.0 → Sane (if b then x else y).0
  kept_if true x y p q = p
  kept_if false x y p q = q

  handle_bool-Sane :
      (setter : Modem → Bool → Modem)
      → ((m : Modem) (b : Bool) → IsSane m → IsSane (setter m b))
      → KeptByAlpha Sane (handle_bool modem put setter)
  unfolding handle_bool
  handle_bool-Sane setter k w n s =
      kept_if (leb 2 n) (w, at_error) (put (setter (modem w) (not (n == 0))) w, at_ok) s
        (put-Sane _ w (k (modem w) _ s))

  print-Sane : (w : W) (text : Bytes) → Sane w → Sane (print modem put w text)
  print-Sane w text s = put-Sane _ w (intermediate-IsSane (modem w) text s)

  fixed-Sane : (n : ℕ) → KeptByS Sane (fixed modem put n)
  unfolding handle_set handle_get
  fixed-Sane n =
      (λ w v s. kept_if (not (v == n)) (w, at_error) (w, at_ok) s s, λ w s. print-Sane w _ s)

  reset-Sane : KeptByAlpha Sane (handle_reset modem put)
  unfolding handle_reset
  reset-Sane w n s = put-Sane _ w (reset-IsSane (modem w))

  cmee-Sane : KeptByHandler Sane (cmee modem put)
  unfolding set_cmee get_cmee list_cmee
  cmee-Sane = (
    λ w req s.
        kept_if (ltb 2 (atoi req)) (w, at_cme_einval)
          (put (Modem.set_cmee (modem w) (atoi req)) w, at_ok) s
          (put-Sane _ w (set_cmee-IsSane (modem w) _ s)),
    λ w s. print-Sane w _ s,
    λ w s. print-Sane w _ s,
  )

  pub register_basic-Sane :
      (bank : Bank W) → KeptByBank Sane bank → KeptByBank Sane (register_basic modem put bank)
  unfolding register_basic
  register_basic-Sane bank k =
      register_ext-KeptByBank Sane _ (codes "+CMEE") (cmee modem put) cmee-Sane (
        register_ampersand-KeptByBank Sane _ b'F' (handle_reset modem put) reset-Sane (
          register_s-KeptByBank Sane _ 12 (fixed modem put 50) (fixed-Sane 50) (
            register_s-KeptByBank Sane _ 5 (fixed modem put 8) (fixed-Sane 8) (
              register_s-KeptByBank Sane _ 4 (fixed modem put 10) (fixed-Sane 10) (
                register_s-KeptByBank Sane _ 3 (fixed modem put 13) (fixed-Sane 13) (
                  register_s-KeptByBank Sane _ 2 (fixed modem put 43) (fixed-Sane 43) (
                    register_alpha-KeptByBank Sane _ b'Z' (handle_reset modem put) reset-Sane (
                      register_alpha-KeptByBank Sane _ b'V' (handle_bool modem put set_verbose)
                        (handle_bool-Sane set_verbose
                          λ m b s. record { mode = s.mode; row = s.row })
                        (register_alpha-KeptByBank Sane _ b'Q' (handle_bool modem put set_quiet)
                          (handle_bool-Sane set_quiet
                            λ m b s. record { mode = s.mode; row = s.row })
                          (register_alpha-KeptByBank Sane bank b'E' (handle_bool modem put set_echo)
                            (handle_bool-Sane set_echo
                              λ m b s. record { mode = s.mode; row = s.row })
                            k))))))))))

  cscs-Sane : KeptByHandler Sane (cscs modem put)
  unfolding set_cscs get_cscs list_cscs
  cscs-Sane = (
    λ w req s. put-Sane _ w (set_named-IsSane (modem w) (scanned_name req) s),
    λ w s. put-Sane _ w (intermediate-IsSane (modem w) _ s),
    λ w s. put-Sane _ w (intermediate-IsSane (modem w) _ s),
  )

  -- Whatever request is executed on a bank with the basic commands and AT+CSCS, the error mode stays
  -- one of the three and the character set a row of the table. The modem that has been put into the
  -- daemon's state must be the one that is read from it.
  pub execute-IsSane :
      (w : W) (req : Bytes)
      → IsSane (modem w)
      → IsSane (
          modem
            (execute
              (some (register_charset modem put (register_basic modem put cleared)))
              w
              req).0)
  unfolding register_charset
  execute-IsSane w req s =
      execute-kept Sane _ w req
        (register_ext-KeptByBank Sane _ (codes "+CSCS") (cscs modem put) cscs-Sane
          (register_basic-Sane cleared (cleared-KeptByBank Sane)))
        s
