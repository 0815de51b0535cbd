-- ===== src/Libc/Ctype.antt =====
-- What the daemon uses of <ctype.h> and <strings.h>, in the C locale. A list is a C string, and its
-- end is the nul byte; the comparisons return the sign of the C result.
use meego_cellular_matd.Prelude.{
  ℕ, zero, suc, ◌+◌, Bool, true, false, ◌&&◌, ◌||◌, [], ◌∷◌, leb, ◌==◌, if◌then◌else◌, compare,
  Ordering, Bytes,
}

abbrev pub is_digit : ℕ → Bool
is_digit c = leb b'0' c && leb c b'9'

abbrev pub is_upper : ℕ → Bool
is_upper c = leb b'A' c && leb c b'Z'

abbrev pub is_lower : ℕ → Bool
is_lower c = leb b'a' c && leb c b'z'

abbrev pub is_alpha : ℕ → Bool
is_alpha c = is_upper c || is_lower c

abbrev pub is_alnum : ℕ → Bool
is_alnum c = is_alpha c || is_digit c

-- isspace(): space, \t, \n, \v, \f, \r
abbrev pub is_space : ℕ → Bool
is_space c = c == 32 || leb 9 c && leb c 13

unfoldable pub to_lower : ℕ → ℕ
to_lower c = if is_upper c then c + 32 else c

unfoldable pub strncasecmp : Bytes → Bytes → ℕ → Ordering
unfolding to_lower
strncasecmp a b zero = Ordering.eq
strncasecmp [] [] (suc n) = Ordering.eq
strncasecmp [] (y ∷ b) (suc n) = Ordering.lt
strncasecmp (x ∷ a) [] (suc n) = Ordering.gt
strncasecmp (x ∷ a) (y ∷ b) (suc n) =
    let rest = strncasecmp a b n in
    elim (compare (to_lower x) (to_lower y)) [
      | Ordering.lt ↦ Ordering.lt
      | Ordering.eq ↦ rest
      | Ordering.gt ↦ Ordering.gt
    ]

unfoldable pub strcasecmp : Bytes → Bytes → Ordering
unfolding to_lower
strcasecmp [] [] = Ordering.eq
strcasecmp [] (y ∷ b) = Ordering.lt
strcasecmp (x ∷ a) [] = Ordering.gt
strcasecmp (x ∷ a) (y ∷ b) =
    let rest = strcasecmp a b in
    elim (compare (to_lower x) (to_lower y)) [
      | Ordering.lt ↦ Ordering.lt
      | Ordering.eq ↦ rest
      | Ordering.gt ↦ Ordering.gt
    ]

-- The test `!val` on such a result.
abbrev pub is_eq : Ordering → Bool
is_eq Ordering.eq = true
is_eq Ordering.lt = false
is_eq Ordering.gt = false

-- `!strcmp (a, b)`
unfoldable pub streq : Bytes → Bytes → Bool
streq [] [] = true
streq [] (y ∷ b) = false
streq (x ∷ a) [] = false
streq (x ∷ a) (y ∷ b) = x == y && streq a b
