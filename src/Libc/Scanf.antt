-- ===== src/Libc/Scanf.antt =====
-- sscanf(), for the directives that the daemon's formats are made of. The results are those of the
-- GNU C library on a 64-bit machine: `%u` goes through a 64-bit strtoul() and is cut to 32 bits.
use meego_cellular_matd.Prelude.{
  ℕ, zero, suc, ◌+◌, ◌-◌, ◌*◌, ◌%◌, ◌^◌, min, Bool, true, false, not, ◌&&◌, ◌||◌, Option, none,
  some, List, [], ◌∷◌, Bytes, leb, ◌==◌, if◌then◌else◌, length, take, drop,
}
use meego_cellular_matd.Libc.Ctype.{is_digit, is_space}

pub data Directive : Type 0 where
  space : Directive  -- white space in the format
  literal : ℕ → Directive
  uint : Directive  -- %u
  int : Directive  -- %d
  hexa : Directive  -- %x
  long_int : Directive  -- %ld
  char : Directive  -- %c
  skip_char : Directive  -- %*c
  skip_uint : Directive  -- %*u
  scanset : (ℕ → Bool) → ℕ → Directive  -- %<n>[...]
  skip_scanset : (ℕ → Bool) → Directive  -- %*[...]
  offset : Directive  -- %n

pub data Arg : Type 0 where
  num : ℕ → Arg
  chr : ℕ → Arg
  str : Bytes → Arg
  pos : ℕ → Arg
  wide : Bool → ℕ → Arg  -- the sign and the magnitude of a long

-- The values stored, in order, and whether the scan stopped at the end of the input.
pub record Scanned : Type 0 where
  pub args : List Arg
  pub at_end : Bool

abbrev pub stop : Bool → Scanned
stop b = record { args = []; at_end = b }

abbrev pub store : Arg → Scanned → Scanned
store a r = record r { args = a ∷ r.args }

unfoldable pub count_space : Bytes → ℕ
count_space [] = 0
count_space (c ∷ s) = let more = count_space s in if is_space c then suc more else 0

-- The length of the longest prefix of bytes in the set, at most `max`.
unfoldable pub count_set : (ℕ → Bool) → ℕ → Bytes → ℕ
count_set p zero s = 0
count_set p (suc max) [] = 0
count_set p (suc max) (c ∷ s) = let more = count_set p max s in if p c then suc more else 0

unfoldable pub digits_value : ℕ → Bytes → ℕ
digits_value v [] = v
digits_value v (c ∷ s) = digits_value (v * 10 + (c - b'0')) s

-- strtoul() of the digits after a sign, and the cut to `unsigned`.
unfoldable pub strtoul32 : Bool → Bytes → ℕ
unfolding digits_value
strtoul32 negative digits =
    let v = digits_value 0 digits in
    if leb (2 ^ 64) v then 2 ^ 32 - 1 else if negative then (2 ^ 64 - v) % 2 ^ 32 else v % 2 ^ 32

-- The sign, and the text behind it.
abbrev pub sign_of : Bytes → Bool × ℕ
sign_of [] = (false, 0)
sign_of (c ∷ s) = if c == b'-' then (true, 1) else if c == b'+' then (false, 1) else (false, 0)

-- `%u` behind the white space: the value and the number of bytes taken; none where no digit stands.
unfoldable pub scan_uint : Bytes → Option (ℕ × ℕ)
unfolding strtoul32 count_set
scan_uint s =
    let (negative, k) = sign_of s in
    let rest = drop k s in
    let n = count_set is_digit (length rest) rest in
    if n == 0 then none else some (strtoul32 negative (take n rest), k + n)

-- strtol() of the digits after a sign, and the cut to `int`, taken as 32 bits without a sign.
unfoldable pub strtol32 : Bool → Bytes → ℕ
unfolding digits_value
strtol32 negative digits =
    let v = digits_value 0 digits in
    if negative
    then (if leb (2 ^ 63) v then 0 else (2 ^ 64 - v) % 2 ^ 32)
    else if leb (2 ^ 63) v
    then 2 ^ 32 - 1
    else v % 2 ^ 32

-- `%d` behind the white space; the value is taken as 32 bits without a sign.
unfoldable pub scan_int : Bytes → Option (ℕ × ℕ)
unfolding strtol32 count_set
scan_int s =
    let (negative, k) = sign_of s in
    let rest = drop k s in
    let n = count_set is_digit (length rest) rest in
    if n == 0 then none else some (strtol32 negative (take n rest), k + n)

-- `%x` behind the white space; a `0x` before the digits is passed over.
abbrev is_xdigit : ℕ → Bool
is_xdigit c = is_digit c || (leb b'a' c && leb c b'f' || leb b'A' c && leb c b'F')

abbrev xdigit_value : ℕ → ℕ
xdigit_value c =
    if is_digit c then c - b'0' else if leb b'a' c then c - b'a' + 10 else c - b'A' + 10

unfoldable pub hexa_value : ℕ → Bytes → ℕ
hexa_value v [] = v
hexa_value v (c ∷ s) = hexa_value (v * 16 + xdigit_value c) s

abbrev radix_prefix : Bytes → ℕ
radix_prefix (z ∷ x ∷ d ∷ s) =
    if z == b'0' && ((x == b'x' || x == b'X') && is_xdigit d) then 2 else 0
radix_prefix s = 0

unfoldable pub scan_hexa : Bytes → Option (ℕ × ℕ)
unfolding hexa_value count_set
scan_hexa s =
    let (negative, k) = sign_of s in
    let j = k + radix_prefix (drop k s) in
    let rest = drop j s in
    let n = count_set is_xdigit (length rest) rest in
    let v = hexa_value 0 (take n rest) in
    let cut =
      if leb (2 ^ 64) v
      then 2 ^ 32 - 1
      else if negative
      then (2 ^ 64 - v) % 2 ^ 32
      else v % 2 ^ 32 in
    if n == 0 then none else some (cut, j + n)

-- `%ld` behind the white space: whether it is negative, its magnitude, and the bytes taken.
unfoldable pub scan_long : Bytes → Option ((Bool × ℕ) × ℕ)
unfolding digits_value count_set
scan_long s =
    let (negative, k) = sign_of s in
    let rest = drop k s in
    let n = count_set is_digit (length rest) rest in
    let v = digits_value 0 (take n rest) in
    if n == 0
    then none
    else some
        ((negative && not (v == 0), if negative then min v (2 ^ 63) else min v (2 ^ 63 - 1)), k + n)

-- `n` bytes of the input lie behind the cursor.
unfoldable pub scan : List Directive → ℕ → Bytes → Scanned
unfolding count_space count_set scan_uint scan_int scan_long scan_hexa
scan [] n s = stop false
scan (space ∷ ds) n s = let k = count_space s in scan ds (n + k) (drop k s)
scan (literal c ∷ ds) n [] = stop true
scan (literal c ∷ ds) n (x ∷ s) =
    let more = scan ds (n + 1) s in if x == c then more else stop false
scan (char ∷ ds) n [] = stop true
scan (char ∷ ds) n (x ∷ s) = store (chr x) (scan ds (n + 1) s)
scan (skip_char ∷ ds) n [] = stop true
scan (skip_char ∷ ds) n (x ∷ s) = scan ds (n + 1) s
scan (offset ∷ ds) n s = store (pos n) (scan ds n s)
scan (uint ∷ ds) n s =
    let k = count_space s in
    let rest = drop k s in
    if length rest == 0 then stop true else elim (scan_uint rest) [
      | none ↦ stop false
      | some (v, j) ↦ store (num v) (scan ds (n + k + j) (drop j rest))
    ]
scan (int ∷ ds) n s =
    let k = count_space s in
    let rest = drop k s in
    if length rest == 0 then stop true else elim (scan_int rest) [
      | none ↦ stop false
      | some (v, j) ↦ store (num v) (scan ds (n + k + j) (drop j rest))
    ]
scan (hexa ∷ ds) n s =
    let k = count_space s in
    let rest = drop k s in
    if length rest == 0 then stop true else elim (scan_hexa rest) [
      | none ↦ stop false
      | some (v, j) ↦ store (num v) (scan ds (n + k + j) (drop j rest))
    ]
scan (long_int ∷ ds) n s =
    let k = count_space s in
    let rest = drop k s in
    if length rest == 0 then stop true else elim (scan_long rest) [
      | none ↦ stop false
      | some (v, j) ↦ store (wide v.0 v.1) (scan ds (n + k + j) (drop j rest))
    ]
scan (skip_uint ∷ ds) n s =
    let k = count_space s in
    let rest = drop k s in
    if length rest == 0 then stop true else elim (scan_uint rest) [
      | none ↦ stop false
      | some (v, j) ↦ scan ds (n + k + j) (drop j rest)
    ]
scan (scanset p max ∷ ds) n s =
    let j = count_set p max s in
    let more = store (str (take j s)) (scan ds (n + j) (drop j s)) in
    if j == 0 then stop (length s == 0) else more
scan (skip_scanset p ∷ ds) n s =
    let j = count_set p (length s) s in
    let more = scan ds (n + j) (drop j s) in if j == 0 then stop (length s == 0) else more

-- What sscanf() counts: `%n` is not counted.
abbrev pub count_args : List Arg → ℕ
count_args [] = 0
count_args (num v ∷ rest) = suc (count_args rest)
count_args (chr c ∷ rest) = suc (count_args rest)
count_args (str t ∷ rest) = suc (count_args rest)
count_args (wide b v ∷ rest) = suc (count_args rest)
count_args (pos n ∷ rest) = count_args rest

-- The value returned by sscanf(), `none` for EOF.
abbrev pub count_of : Scanned → Option ℕ
count_of r = if count_args r.args == 0 && r.at_end then none else some (count_args r.args)

unfoldable pub sscanf : List Directive → Bytes → Scanned
unfolding scan
sscanf ds s = scan ds 0 s

-- The variable that the i-th directive stored to; one that was not stored to reads as 0 here.
abbrev pub num_at : List Arg → ℕ → ℕ
num_at [] i = 0
num_at (num v ∷ rest) zero = v
num_at (a ∷ rest) zero = 0
num_at (a ∷ rest) (suc i) = num_at rest i

abbrev pub wide_at : List Arg → ℕ → Bool × ℕ
wide_at [] i = (false, 0)
wide_at (wide b v ∷ rest) zero = (b, v)
wide_at (a ∷ rest) zero = (false, 0)
wide_at (a ∷ rest) (suc i) = wide_at rest i

abbrev pub chr_at : List Arg → ℕ → ℕ
chr_at [] i = 0
chr_at (chr c ∷ rest) zero = c
chr_at (a ∷ rest) zero = 0
chr_at (a ∷ rest) (suc i) = chr_at rest i

abbrev pub pos_at : List Arg → ℕ → ℕ
pos_at [] i = 0
pos_at (pos n ∷ rest) zero = n
pos_at (a ∷ rest) zero = 0
pos_at (a ∷ rest) (suc i) = pos_at rest i

-- The same for a `%n` whose variable was set to -1 before.
abbrev pub pos_of : List Arg → ℕ → Option ℕ
pos_of [] i = none
pos_of (pos n ∷ rest) zero = some n
pos_of (a ∷ rest) zero = none
pos_of (a ∷ rest) (suc i) = pos_of rest i

abbrev pub str_at : List Arg → ℕ → Bytes
str_at [] i = []
str_at (str t ∷ rest) zero = t
str_at (a ∷ rest) zero = []
str_at (a ∷ rest) (suc i) = str_at rest i

-- atoi(), as `unsigned`; without a digit it is 0.
unfoldable pub atoi : Bytes → ℕ
unfolding strtol32 count_space count_set
atoi s =
    let rest = drop (count_space s) s in
    let (negative, k) = sign_of rest in
    let digits = drop k rest in
    strtol32 negative (take (count_set is_digit (length digits) digits) digits)
