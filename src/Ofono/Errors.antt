-- ===== src/Ofono/Errors.antt =====
-- plugins/ofono/core.c: the results that ofono_query gives for the names of errors.
use meego_cellular_matd.Prelude.{
  ℕ, ◌≤◌, Bool, true, false, Option, none, some, List, [], ◌∷◌, arith, Bytes, codes, if◌then◌else◌,
  drop,
}
use meego_cellular_matd.Libc.Ctype.{streq}
use meego_cellular_matd.Modem.{at_cme_error_0, at_cme_error_max, at_cme_unknown}
use meego_cellular_matd.Ofono.{
  at_cme_error, starts_with, error_named, error_code, ofono_errors, dbus_errors,
}

abbrev pub IsCme : ℕ → Type 0
IsCme err = (at_cme_error_0 ≤ err) × (err ≤ at_cme_error_max)

abbrev AllCme : List (Bytes × ℕ) → Type 0
AllCme [] = Unit {0}
AllCme (row ∷ table) = IsCme row.1 × AllCme table

IsCme-if : (b : Bool) (x y : ℕ) → IsCme x → IsCme y → IsCme (if b then x else y)
IsCme-if true x y hx hy = hx
IsCme-if false x y hx hy = hy

error_named-IsCme :
    (table : List (Bytes × ℕ)) (name : Bytes) (missing : ℕ)
    → AllCme table
    → IsCme missing
    → IsCme (error_named table name missing)
unfolding error_named
error_named-IsCme [] name missing all h = h
error_named-IsCme ((key, code) ∷ table) name missing all h =
    IsCme-if (streq name key) code (error_named table name missing) all.0
      (error_named-IsCme table name missing all.1 h)

ofono_errors-AllCme : AllCme ofono_errors
ofono_errors-AllCme = (
  (omega arith, omega arith),
  (
    (omega arith, omega arith),
    (
      (omega arith, omega arith),
      (
        (omega arith, omega arith),
        (
          (omega arith, omega arith),
          (
            (omega arith, omega arith),
            (
              (omega arith, omega arith),
              (
                (omega arith, omega arith),
                (
                  (omega arith, omega arith),
                  (
                    (omega arith, omega arith),
                    (
                      (omega arith, omega arith),
                      (
                        (omega arith, omega arith),
                        (
                          (omega arith, omega arith),
                          ((omega arith, omega arith), ((omega arith, omega arith), tt)),
                        ),
                      ),
                    ),
                  ),
                ),
              ),
            ),
          ),
        ),
      ),
    ),
  ),
)

-- Whatever the name of the error, and without one, a request that oFono refuses gives a CME error,
-- so that it never counts as a success.
pub error_code-IsCme : (name : Option Bytes) → IsCme (error_code name)
unfolding error_code
error_code-IsCme none = (omega arith, omega arith)
error_code-IsCme (some name) =
    IsCme-if (starts_with (codes "org.ofono.Error.") name) _ _
      (error_named-IsCme ofono_errors (drop 16 name) at_cme_unknown ofono_errors-AllCme
        (omega arith, omega arith))
      (IsCme-if (starts_with (codes "org.freedesktop.DBus.Error.") name) _ _
        (error_named-IsCme dbus_errors (drop 27 name) (at_cme_error 0)
          (
            (omega arith, omega arith),
            ((omega arith, omega arith), ((omega arith, omega arith), tt)),
          )
          (omega arith, omega arith))
        (omega arith, omega arith))
