-- ===== src/Clock/Again.antt =====
-- plugins/clock.c: what AT+CCLK= makes of the text that AT+CCLK? prints.
use meego_cellular_matd.Prelude.{
  ℕ, zero, suc, ◌+◌, ◌*◌, ◌/◌, ◌%◌, ◌≤◌, ◌<◌, ◌≡◌, refl, ap, ◌∙◌, inl, inr, Bool, true, false, not,
  ◌&&◌, Option, none, some, List, [], ◌∷◌, ◌++◌, arith, Bytes, ltb, ◌==◌, if◌then◌else◌, ltb→lt,
  ==_iff, if_true, if_false, Bool-cases, length, drop,
}
use meego_cellular_matd.Clock.{
  Tm, quarter, quarters, clock_text, clock_format, clock_of, scan_clock, set_time, set_cclk,
}
use meego_cellular_matd.Libc.Ctype.{is_digit}
use meego_cellular_matd.Libc.Scanf.{
  sscanf, Arg, stop, Scanned, num, wide, store, literal, long_int, uint, Directive, scan_long,
  count_space, scan, sign_of, count_set, digits_value, strtoul32, scan_uint,
}
use meego_cellular_matd.Libc.Format.{decimal_signed, decimal, decimal_from, decimal_02}

-- Two digits, and what `%u` reads of them.
two-digits : (n : ℕ) → n ≤ 99 → decimal_02 n ≡ (b'0' + n / 10) ∷ (b'0' + n % 10) ∷ []
unfolding decimal_02 decimal decimal_from
two-digits zero small = refl
two-digits (suc m) small = elim (Bool-cases (ltb (suc m) 10)) [
  | inl short ↦ rw short (
      ap (λ a. b'0' ∷ a ∷ []) {x = b'0' + suc m} {y = b'0' + suc m % 10}
        (omega (arith, ltb→lt (suc m) 10 short))
      ∙ ap (λ a. a ∷ (b'0' + suc m % 10) ∷ []) {x = b'0'} {y = b'0' + suc m / 10}
          (omega (arith, ltb→lt (suc m) 10 short)))
  | inr long ↦ let one : ltb (suc m / 10) 10 ≡ true = ground (arith, small) in rw (long, one) refl
]

sign-digit : (d : ℕ) (s : Bytes) → d ≤ 9 → sign_of ((b'0' + d) ∷ s) ≡ (false, 0)
sign-digit d s small = ground (arith, small)

digit : (d : ℕ) → d ≤ 9 → is_digit (b'0' + d) ≡ true
digit d small = ground (arith, small)

value : (a b : ℕ) → a ≤ 9 → b ≤ 9 → strtoul32 false ((b'0' + a) ∷ (b'0' + b) ∷ []) ≡ a * 10 + b
unfolding strtoul32 digits_value
value a b ha hb = ground (arith, ha, hb)

counted :
    (a b c : ℕ) (s : Bytes)
    → a ≤ 9
    → b ≤ 9
    → is_digit c ≡ false
    → count_set is_digit
        (length ((b'0' + a) ∷ (b'0' + b) ∷ c ∷ s))
        ((b'0' + a) ∷ (b'0' + b) ∷ c ∷ s)
      ≡ 2
unfolding count_set
counted a b c s ha hb hc = rw (digit a ha, digit b hb, hc) refl

pair :
    (a b c : ℕ) (s : Bytes)
    → a ≤ 9
    → b ≤ 9
    → is_digit c ≡ false
    → scan_uint ((b'0' + a) ∷ (b'0' + b) ∷ c ∷ s) ≡ some (a * 10 + b, 2)
unfolding scan_uint
pair a b c s ha hb hc =
    rw (sign-digit a ((b'0' + b) ∷ c ∷ s) ha, counted a b c s ha hb hc, value a b ha hb) refl

not-space : (d : ℕ) (s : Bytes) → d ≤ 9 → count_space ((b'0' + d) ∷ s) ≡ 0
unfolding count_space
not-space d s small = ground (arith, small)

-- `%u` where no white space stands before the number.
abbrev behind : List Directive → ℕ → Bytes → Option (ℕ × ℕ) → Scanned
behind ds k s o = elim o [
  | none ↦ stop false
  | some (v, j) ↦ store (num v) (scan ds (k + 0 + j) (drop j s))
]

abbrev skipped : List Directive → ℕ → Bytes → ℕ → Scanned
skipped ds k s z =
    let rest = drop z s in
    if length rest == 0 then stop true else elim (scan_uint rest) [
      | none ↦ stop false
      | some (v, j) ↦ store (num v) (scan ds (k + z + j) (drop j rest))
    ]

skips :
    (ds : List Directive) (k : ℕ) (s : Bytes)
    → scan (uint ∷ ds) k s ≡ skipped ds k s (count_space s)
unfolding scan
skips ds k s = refl

number :
    (ds : List Directive) (k a b c : ℕ) (s : Bytes)
    → a ≤ 9
    → b ≤ 9
    → is_digit c ≡ false
    → scan (uint ∷ ds) k ((b'0' + a) ∷ (b'0' + b) ∷ c ∷ s)
      ≡ store (num (a * 10 + b)) (scan ds (k + 0 + 2) (c ∷ s))
number ds k a b c s ha hb apart =
    let text : Bytes = (b'0' + a) ∷ (b'0' + b) ∷ c ∷ s in
    skips ds k text
    ∙ ap (skipped ds k text) (not-space a ((b'0' + b) ∷ c ∷ s) ha)
    ∙ if_false {b = length text == 0} _ _ (ground arith)
    ∙ ap (behind ds k text) (pair a b c s ha hb apart)

-- A field of two digits, and what stands behind it.
field :
    (c : ℕ) (ds : List Directive) (k n : ℕ) (s : Bytes)
    → n ≤ 99
    → is_digit c ≡ false
    → scan (uint ∷ ds) k (decimal_02 n ++ (c ∷ s)) ≡ store (num n) (scan ds (k + 0 + 2) (c ∷ s))
field c ds k n s small apart =
    ap (λ (t : Bytes). scan (uint ∷ ds) k (t ++ (c ∷ s))) (two-digits n small)
    ∙ number ds k (n / 10) (n % 10) c s (omega (arith, small)) (omega arith) apart
    ∙ ap (λ v. store (num v) (scan ds (k + 0 + 2) (c ∷ s))) {x = n / 10 * 10 + n % 10} {y = n}
        (omega arith)

separated :
    (c : ℕ) (ds : List Directive) (k n : ℕ) (s : Bytes)
    → n ≤ 99
    → is_digit c ≡ false
    → scan (uint ∷ literal c ∷ ds) k (decimal_02 n ++ (c ∷ s))
      ≡ store (num n) (scan ds (k + 0 + 2 + 1) s)
unfolding scan
separated c ds k n s small apart =
    field c (literal c ∷ ds) k n s small apart
    ∙ ap (store (num n)) (if_true _ _ ((==_iff c c).1 refl))

pair_end : (a b : ℕ) → a ≤ 9 → b ≤ 9 → count_set is_digit 2 ((b'0' + a) ∷ (b'0' + b) ∷ []) ≡ 2
unfolding count_set
pair_end a b ha hb = rw (digit a ha, digit b hb) refl

value_long : (a b : ℕ) → a ≤ 9 → b ≤ 9 → digits_value 0 ((b'0' + a) ∷ (b'0' + b) ∷ []) ≡ a * 10 + b
unfolding digits_value
value_long a b ha hb = omega (arith, ha, hb)

long_pair :
    (negative : Bool) (a b : ℕ)
    → a ≤ 9
    → b ≤ 9
    → scan_long ((if negative then b'-' else b'+') ∷ (b'0' + a) ∷ (b'0' + b) ∷ [])
      ≡ some ((negative && not (a * 10 + b == 0), a * 10 + b), 3)
unfolding scan_long
long_pair true a b ha hb =
    rw (pair_end a b ha hb, value_long a b ha hb)
      (ap (λ v. some ((not (a * 10 + b == 0), v), 3)) {y = a * 10 + b} (omega (arith, ha, hb)))
long_pair false a b ha hb =
    rw (pair_end a b ha hb, value_long a b ha hb)
      (ap (λ v. some ((false, v), 3)) {y = a * 10 + b} (omega (arith, ha, hb)))

long_end :
    (k : ℕ) (negative : Bool) (a b : ℕ)
    → a ≤ 9
    → b ≤ 9
    → scan (long_int ∷ []) k ((if negative then b'-' else b'+') ∷ (b'0' + a) ∷ (b'0' + b) ∷ [])
      ≡ record { args = wide (negative && not (a * 10 + b == 0)) (a * 10 + b) ∷ []; at_end = false }
unfolding scan count_space
long_end k true a b ha hb = rw (long_pair true a b ha hb) refl
long_end k false a b ha hb = rw (long_pair false a b ha hb) refl

offset_read :
    (k n : ℕ) (negative : Bool)
    → n ≤ 99
    → scan (long_int ∷ []) k (decimal_signed negative n)
      ≡ record { args = wide (negative && not (n == 0)) n ∷ []; at_end = false }
unfolding decimal_signed
offset_read k n negative small =
    let sign : ℕ = if negative then b'-' else b'+' in
    let a = n / 10 in
    let b = n % 10 in
    ap (λ (t : Bytes). scan (long_int ∷ []) k (sign ∷ t)) (two-digits n small)
    ∙ long_end k negative a b (omega (arith, small)) (omega arith)
    ∙ ap (λ v. record { args = wide (negative && not (v == 0)) v ∷ []; at_end = false })
        {x = n / 10 * 10 + n % 10} {y = n} (omega arith)

-- The fields that localtime_r() gives: months from 0, years from 1900, and an offset of less than
-- 25 hours.
abbrev pub IsTime : Tm → Type 0
IsTime d =
    (d.mon ≤ 11)
    × (d.mday ≤ 31)
    × (d.hour ≤ 23)
    × (d.min ≤ 59)
    × (d.sec ≤ 60)
    × (d.gmtoff.1 < 90000)

-- What comes back of it: the last two digits of the year for the years since 1900, the number of
-- the month for the months behind January, and quarters of an hour for seconds.
abbrev pub misread : Tm → Tm
misread d = record d { year = d.year % 100; mon = 1 + d.mon; gmtoff = quarters d.gmtoff }

abbrev args_of : Tm → List Arg
args_of d =
    num d.year
    ∷ num d.mon
    ∷ num d.mday
    ∷ num d.hour
    ∷ num d.min
    ∷ num d.sec
    ∷ wide d.gmtoff.0 d.gmtoff.1
    ∷ []

zero-sign :
    (negative : Bool) (n : ℕ)
    → (negative && not (n == 0)) && not (n == 0) ≡ negative && not (n == 0)
zero-sign true n = elim (Bool-cases (n == 0)) [
  | inl none_left ↦ rw none_left refl
  | inr some_left ↦ rw some_left refl
]
zero-sign false n = refl

sign-apart : (b : Bool) → is_digit (if b then b'-' else b'+') ≡ false
sign-apart true = refl
sign-apart false = refl

scan_text :
    (d : Tm)
    → IsTime d
    → scan clock_format 0 (clock_text d) ≡ record { args = args_of (misread d); at_end = false }
unfolding clock_text quarters decimal_signed
scan_text d (mon, mday, hour, minute, sec, off) =
    let negative = d.gmtoff.0 in
    let n = d.gmtoff.1 in
    separated b'/' _ 0 (d.year % 100) _ (omega arith) refl
    ∙ ap (store (num (d.year % 100))) (
        separated b'/' _ 3 (1 + d.mon) _ (omega (arith, mon)) refl
        ∙ ap (store (num (1 + d.mon))) (
            separated b',' _ 6 d.mday _ (omega (arith, mday)) refl
            ∙ ap (store (num d.mday)) (
                separated b':' _ 9 d.hour _ (omega (arith, hour)) refl
                ∙ ap (store (num d.hour)) (
                    separated b':' _ 12 d.min _ (omega (arith, minute)) refl
                    ∙ ap (store (num d.min)) (
                        field (if negative && not (n / quarter == 0) then b'-' else b'+')
                          (long_int ∷ []) 15 d.sec (decimal_02 (n / quarter)) (omega (arith, sec))
                          (sign-apart (negative && not (n / quarter == 0)))
                        ∙ ap (store (num d.sec)) (
                            offset_read 17 (n / quarter) (negative && not (n / quarter == 0))
                              (omega (arith, off))
                            ∙ ap (λ b. record { args = wide b (n / quarter) ∷ []; at_end = false })
                                (zero-sign negative (n / quarter))))))))

-- The text that AT+CCLK? prints of a time whose fields are in their ranges, given to AT+CCLK=, sets
-- the clock to another time: the month is the one behind, the year is one of the years 1900 to 1999,
-- and an offset of so many quarters of an hour is one of so many seconds.
pub set_cclk-misread :
    {W : Type 0} (mktime : Tm → Option ℕ) (settimeofday : W → ℕ → W × Bool) (w : W) (d : Tm)
    → IsTime d
    → set_cclk mktime settimeofday w (clock_text d)
      ≡ set_time mktime settimeofday w (some (misread d))
unfolding set_cclk scan_clock sscanf
set_cclk-misread mktime settimeofday w d times =
    ap (λ (r : Scanned). set_time mktime settimeofday w (clock_of r)) (scan_text d times)
