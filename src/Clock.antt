-- ===== src/Clock.antt =====
-- plugins/clock.c: the real-time clock, AT+CCLK and AT$CCLK. time() with localtime_r(), mktime() and
-- settimeofday() are parameters.
pub mod Again
use meego_cellular_matd.Prelude.{
  ℕ, ◌+◌, ◌*◌, ◌/◌, ◌%◌, min, Bool, true, false, not, ◌&&◌, Option, none, some, List, [], ◌∷◌, ◌++◌,
  Bytes, codes, ◌==◌, if◌then◌else◌, set,
}
use meego_cellular_matd.Libc.Scanf.{
  Directive, literal, uint, long_int, sscanf, count_of, num_at, wide_at, Scanned,
}
use meego_cellular_matd.Libc.Format.{decimal_02, decimal_signed}
use meego_cellular_matd.Modem.{Modem, at_ok, at_error, at_cme_einval, at_cme_eperm, at_intermediate}
use meego_cellular_matd.Commands.{GetCb, SetCb, Bank, Handler, register_ext}

-- `struct tm`; an `int` is its bit pattern, and the offset a sign and a magnitude.
pub record Tm : Type 0 where
  pub year : ℕ
  pub mon : ℕ
  pub mday : ℕ
  pub hour : ℕ
  pub min : ℕ
  pub sec : ℕ
  pub gmtoff : Bool × ℕ

abbrev pub quarter : ℕ
quarter = 60 * 15

-- The quotient is rounded to 0.
unfoldable pub quarters : Bool × ℕ → Bool × ℕ
quarters (negative, n) = (negative && not (n / quarter == 0), n / quarter)

abbrev signed : Bool × ℕ → Bytes
signed (negative, n) = decimal_signed negative n

-- The text behind the prefix and the colon. The fields are not negative.
unfoldable pub clock_text : Tm → Bytes
unfolding quarters
clock_text d =
    decimal_02 (d.year % 100)
    ++ (b'/'
        ∷ (decimal_02 (1 + d.mon)
            ++ (b'/'
                ∷ (decimal_02 d.mday
                    ++ (b','
                        ∷ (decimal_02 d.hour
                            ++ (b':'
                                ∷ (decimal_02 d.min
                                    ++ (b':'
                                        ∷ (decimal_02 d.sec ++ signed (quarters d.gmtoff)))))))))))

abbrev pub clock_format : List Directive
clock_format =
    uint
    ∷ literal b'/'
    ∷ uint
    ∷ literal b'/'
    ∷ uint
    ∷ literal b','
    ∷ uint
    ∷ literal b':'
    ∷ uint
    ∷ literal b':'
    ∷ uint
    ∷ long_int
    ∷ []

abbrev tm_of : Scanned → Bool × ℕ → Tm
tm_of r gmtoff = record {
  year = num_at r.args 0;
  mon = num_at r.args 1;
  mday = num_at r.args 2;
  hour = num_at r.args 3;
  min = num_at r.args 4;
  sec = num_at r.args 5;
  gmtoff = gmtoff;
}

-- The `switch` of `set_cclk`.
abbrev pub clock_of : Scanned → Option Tm
clock_of r = elim (count_of r) [
  | none ↦ none
  | some n ↦
      if n == 6
      then some (tm_of r (false, 0))
      else if n == 7
      then some (tm_of r (wide_at r.args 6))
      else none
]

unfoldable pub scan_clock : Bytes → Option Tm
unfolding sscanf
scan_clock req = clock_of (sscanf clock_format req)

module _ {W : Type 0} (modem : W → Modem) (put : Modem → W → W) (localtime : W → Option Tm) where
  unfoldable pub get_cclk : ℕ → GetCb W
  unfolding clock_text
  get_cclk prefix w = elim (localtime w) [
    | none ↦ (w, at_error)
    | some d ↦
        let text = codes "\r\n" ++ (prefix ∷ (codes "CCLK: " ++ clock_text d)) in
        (put (at_intermediate (modem w) text).0 w, at_ok)
  ]

module _ {W : Type 0} (mktime : Tm → Option ℕ) (settimeofday : W → ℕ → W × Bool) where
  abbrev set_to : W × Bool → W × ℕ
  set_to (w, true) = (w, at_ok)
  set_to (w, false) = (w, at_cme_eperm)

  abbrev pub set_time : W → Option Tm → W × ℕ
  set_time w none = (w, at_error)
  set_time w (some d) = elim (mktime d) [
    | none ↦ (w, at_cme_einval)
    | some seconds ↦ set_to (settimeofday w seconds)
  ]

  unfoldable pub set_cclk : SetCb W
  unfolding scan_clock
  set_cclk w req = set_time w (scan_clock req)

module _ {W : Type 0} (modem : W → Modem) (put : Modem → W → W) (localtime : W → Option Tm)
    (mktime : Tm → Option ℕ) (settimeofday : W → ℕ → W × Bool) where
  abbrev clock : ℕ → Handler W
  clock prefix = record {
    set = set_cclk mktime settimeofday;
    get = some (get_cclk modem put localtime prefix);
    test = none;
  }

  unfoldable pub register_clock : Bank W → Bank W
  unfolding get_cclk set_cclk
  register_clock bank =
      (register_ext (register_ext bank (codes "+CCLK") (clock b'+')).0 (codes "$CCLK")
        (clock b'$')).0
