-- ===== src/Ofono/Sms/Forms.antt =====
-- plugins/ofono/sms.c: what the commands on messages scan.
use meego_cellular_matd.Prelude.{
  ℕ, ◌+◌, ◌-◌, ◌*◌, ◌%◌, ◌^◌, ◌⊎◌, inl, inr, Bool, false, not, ◌&&◌, Option, none, some, List, [],
  ◌∷◌, Bytes, codes, ltb, leb, ◌==◌, if◌then◌else◌, length,
}
use meego_cellular_matd.Libc.Scanf.{
  Directive, space, literal, uint, scanset, sscanf, count_of, num_at, str_at, Scanned,
}
use meego_cellular_matd.Modem.{at_cms_enotsup}
use meego_cellular_matd.Ofono.Calls.{type_of}

abbrev pub bearers : List Bytes
bearers = codes "ps-only" ∷ codes "cs-only" ∷ codes "ps-preferred" ∷ codes "cs-preferred" ∷ []

-- A number in quotes, of at most so many characters, with its type behind it or not.
abbrev address_format : ℕ → List Directive
address_format max =
    space
    ∷ literal b'"'
    ∷ scanset (λ c. not (c == b'"')) max
    ∷ literal b'"'
    ∷ space
    ∷ literal b','
    ∷ space
    ∷ uint
    ∷ []

-- The number, or an error: one for a type that does not fit, and the other for no number.
abbrev pub address_of : ℕ → Scanned → Bytes ⊎ ℕ
address_of missing r = elim (count_of r) [
  | none ↦ inr missing
  | some n ↦
      let number = str_at r.args 0 in
      if n == 2
      then (if num_at r.args 1 == type_of number then inl number else inr at_cms_enotsup)
      else if n == 1
      then inl number
      else inr missing
]

unfoldable pub scan_address : ℕ → ℕ → Bytes → Bytes ⊎ ℕ
unfolding sscanf
scan_address max missing req = address_of missing (sscanf (address_format max) req)

-- `hexdigit`; none for -1.
unfoldable pub pdu_digit : ℕ → Option ℕ
pdu_digit c =
    if leb b'0' c && leb c b'9'
    then some (c - b'0')
    else if leb b'A' c && leb c b'F'
    then some (c + 10 - b'A')
    else if leb b'a' c && leb c b'f'
    then some (c + 10 - b'a')
    else none

-- The loop of `send_pdu`: it ends at a byte that is no digit, and fails at an odd one.
abbrev pub with_digits : Option ℕ → Option ℕ → Option Bytes → Option Bytes
with_digits none lo rest = some []
with_digits (some hi) none rest = none
with_digits (some hi) (some lo) none = none
with_digits (some hi) (some lo) (some rest) = some ((hi * 16 + lo) ∷ rest)

abbrev pub odd_digit : Option ℕ → Option Bytes
odd_digit none = some []
odd_digit (some hi) = none

unfoldable pub pdu_bytes : Bytes → Option Bytes
unfolding pdu_digit
pdu_bytes [] = some []
pdu_bytes (a ∷ []) = odd_digit (pdu_digit a)
pdu_bytes (a ∷ b ∷ s) = with_digits (pdu_digit a) (pdu_digit b) (pdu_bytes s)

-- The length of the PDU: one byte, the address of the service centre with the length that the first
-- byte tells, and what the parameter tells.
unfoldable pub has_length : Bytes → ℕ → Bool
has_length [] len = false
has_length (sc ∷ pdu) len =
    let extended = if ltb sc 128 then sc else 2 ^ 32 - 256 + sc in
    length (sc ∷ pdu) % 2 ^ 32 == (1 + extended + len) % 2 ^ 32
