-- ===== src/Libc/Format.antt =====
-- The conversions of <stdio.h> output that the daemon uses: `%u` and `%03u`.
use meego_cellular_matd.Prelude.{
  ℕ, zero, suc, ◌+◌, ◌-◌, ◌/◌, ◌%◌, ◌<◌, ◌≡◌, sym, ap, ◌∙◌, inl, inr, Bool, [], ◌∷◌, ◌++◌, arith,
  Bytes, ltb, if◌then◌else◌, ltb_false→le, Bool-cases, length, replicate,
}
use meego_cellular_matd.Libc.Scanf.{digits_value}

-- The digits of `n` before `acc`; one step of fuel for each digit, and `n + 1` steps are enough.
unfoldable pub decimal_from : ℕ → ℕ → Bytes → Bytes
decimal_from zero n acc = acc
decimal_from (suc fuel) n acc =
    let more = decimal_from fuel (n / 10) ((b'0' + n % 10) ∷ acc) in
    if ltb n 10 then (b'0' + n) ∷ acc else more

-- `%u`
unfoldable pub decimal : ℕ → Bytes
unfolding decimal_from
decimal n = decimal_from (suc n) n []

-- `%02u`
unfoldable pub decimal_02 : ℕ → Bytes
unfolding decimal
decimal_02 n = if ltb n 10 then b'0' ∷ decimal n else decimal n

-- `%+03ld`, for the sign and the magnitude of a `long`
unfoldable pub decimal_signed : Bool → ℕ → Bytes
unfolding decimal_02
decimal_signed negative n = (if negative then b'-' else b'+') ∷ decimal_02 n

-- `%03u`
unfoldable pub decimal_03 : ℕ → Bytes
unfolding decimal
decimal_03 n =
    if ltb n 10 then b'0' ∷ b'0' ∷ decimal n else if ltb n 100 then b'0' ∷ decimal n else decimal n

-- `%X` and `%04X`; one step of fuel for each digit.
abbrev hex_digit : ℕ → ℕ
hex_digit d = if ltb d 10 then b'0' + d else b'A' + (d - 10)

unfoldable pub hex_from : ℕ → ℕ → Bytes → Bytes
hex_from zero n acc = acc
hex_from (suc fuel) n acc =
    let more = hex_from fuel (n / 16) (hex_digit (n % 16) ∷ acc) in
    if ltb n 16 then hex_digit n ∷ acc else more

-- An `unsigned` has at most eight digits.
unfoldable pub hex : ℕ → Bytes
unfolding hex_from
hex n = hex_from 8 n []

unfoldable pub hex_04 : ℕ → Bytes
unfolding hex
hex_04 n =
    if ltb n 16
    then b'0' ∷ b'0' ∷ b'0' ∷ hex n
    else if ltb n 256
    then b'0' ∷ b'0' ∷ hex n
    else if ltb n 4096
    then b'0' ∷ hex n
    else hex n

-- `%06X`
unfoldable pub hex_06 : ℕ → Bytes
unfolding hex
hex_06 n = replicate (6 - length (hex n)) b'0' ++ hex n

abbrev pub crlf : Bytes
crlf = b'\r' ∷ b'\n' ∷ []

-- Reading the printed digits back.
digits_value-decimal_from :
    (fuel n : ℕ) (acc : Bytes)
    → n < fuel
    → digits_value 0 (decimal_from fuel n acc) ≡ digits_value n acc
unfolding digits_value decimal_from
digits_value-decimal_from zero n acc h = absurd (omega arith)
digits_value-decimal_from (suc fuel) n acc h = elim (Bool-cases (ltb n 10)) [
  | inl last ↦ rw last (ap (λ v. digits_value v acc) (omega arith))
  | inr more ↦ rw more (
      digits_value-decimal_from fuel (n / 10) ((b'0' + n % 10) ∷ acc)
        (omega (arith, ltb_false→le n 10 more))
      ∙ ap (λ v. digits_value v acc) {y = n} (omega arith))
]

pub digits_value-decimal : (n : ℕ) → digits_value 0 (decimal n) ≡ n
unfolding decimal digits_value
digits_value-decimal n = digits_value-decimal_from (suc n) n [] (omega arith)

-- Two numbers that are printed alike are equal.
pub decimal-injective : (m n : ℕ) → decimal m ≡ decimal n → m ≡ n
decimal-injective m n h =
    sym (digits_value-decimal m) ∙ ap (digits_value 0) h ∙ digits_value-decimal n
