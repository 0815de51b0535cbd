-- ===== src/Ofono/Ussd/Text.antt =====
-- plugins/ofono/ss.c: the decoding of the text of AT+CUSD.
use meego_cellular_matd.Prelude.{
  ℕ, ◌+◌, ◌-◌, ◌*◌, ◌/◌, ◌%◌, Bool, true, false, not, ◌&&◌, ◌||◌, Option, none, some, [], ◌∷◌, ◌++◌,
  Bytes, codes, ltb, leb, ◌==◌, if◌then◌else◌,
}
use meego_cellular_matd.Libc.Ctype.{streq}
use meego_cellular_matd.Libc.Scanf.{
  space, literal, uint, int, scanset, sscanf, count_of, num_at, str_at,
}

-- The `switch` of `cb_dcs` on the low bits, for the groups with a class and an alphabet.
abbrev alphabet : ℕ → Bool → Option ℕ
alphabet lo wide =
    if lo / 4 == 0
    then some 7
    else if lo / 4 == 1
    then some 8
    else if lo / 4 == 2 && wide
    then some 16
    else none

-- `none` is -1.
unfoldable pub cb_dcs : ℕ → Option ℕ
cb_dcs dcs =
    let hi = dcs / 16 % 16 in
    let lo = dcs % 16 in
    if hi == 0 || (hi == 2 || hi == 3)
    then some 7
    else if hi == 1
    then (if ltb 1 lo then none else if lo == 0 then some 7 else some 16)
    else if leb 4 hi && leb hi 7 || hi == 9
    then alphabet lo true
    else if hi == 15
    then alphabet lo false
    else none

-- The comparisons are on `int`, so a character below the digits or the letters is below 10 or 6 as
-- well; a result below 0 is none.
unfoldable pub ss_hexdigit : ℕ → Option ℕ
ss_hexdigit c =
    if ltb c b'0'
    then none
    else if ltb c (b'0' + 10)
    then some (c - b'0')
    else if ltb c (b'A' + 6)
    then some (c - (b'A' - 10))
    else if ltb c (b'a' - 10)
    then none
    else if ltb c (b'a' + 6)
    then some (c - (b'a' - 10))
    else none

-- The code point of four characters: the third is read in place of the fourth.
abbrev code_point : Option ℕ → Option ℕ → Option ℕ → Option ℕ
code_point (some a) (some b) (some c) = some (a * 4096 + b * 256 + c * 16 + c)
code_point a b c = none

-- The bytes of a code point, or none where the loop stops.
unfoldable pub utf8_of : ℕ → Option Bytes
utf8_of cp =
    if cp == 0
    then none
    else if ltb cp 0x80
    then some (cp ∷ [])
    else if ltb cp 0x800
    then some ((0xC0 + cp / 64) ∷ (0x80 + cp % 64) ∷ [])
    else if leb 0xD800 cp && ltb cp 0xE000
    then none
    else some ((0xE0 + cp / 4096) ∷ (0x80 + cp / 64 % 64) ∷ (0x80 + cp % 64) ∷ [])

abbrev utf8_at : Option ℕ → Option Bytes
utf8_at none = none
utf8_at (some cp) = utf8_of cp

-- What `sms16_decode` gives, or that it reads behind the nul.
pub data Decoded : Type 0 where
  decoded : Bytes → Decoded
  not_decoded : Decoded
  past_end : Decoded

abbrev before : Option Bytes → Decoded → Decoded
before none rest = not_decoded
before (some out) (decoded more) = decoded (out ++ more)
before (some out) not_decoded = not_decoded
before (some out) past_end = past_end

-- With three characters left, the step of four passes the nul.
unfoldable pub sms16_decode : Bytes → Decoded
unfolding ss_hexdigit utf8_of
sms16_decode [] = decoded []
sms16_decode (a ∷ []) = not_decoded
sms16_decode (a ∷ b ∷ []) = not_decoded
sms16_decode (a ∷ b ∷ c ∷ []) =
    before (utf8_at (code_point (ss_hexdigit a) (ss_hexdigit b) (ss_hexdigit c))) past_end
sms16_decode (a ∷ b ∷ c ∷ d ∷ str) =
    before (utf8_at (code_point (ss_hexdigit a) (ss_hexdigit b) (ss_hexdigit c))) (sms16_decode str)

abbrev pub decoded_option : Option Bytes → Decoded
decoded_option none = not_decoded
decoded_option (some s) = decoded s

-- `m` of `ussd_cb`
unfoldable pub ussd_event : Bytes → Option ℕ
unfolding streq
ussd_event event =
    if streq event (codes "NotificationReceived")
    then some 0
    else if streq event (codes "RequestReceived")
    then some 1
    else if streq event (codes "ResponseReceived")
    then some 2
    else none

-- The mode, the text and the coding scheme of AT+CUSD; what is left out is 0 or empty.
unfoldable pub scan_cusd : Bytes → Option (ℕ × Bytes × ℕ)
unfolding sscanf
scan_cusd req =
    let comma = literal b',' in
    let r =
      sscanf
        (space
          ∷ uint
          ∷ space
          ∷ comma
          ∷ space
          ∷ literal b'"'
          ∷ scanset (λ c. not (c == b'"')) 159
          ∷ literal b'"'
          ∷ space
          ∷ comma
          ∷ space
          ∷ int
          ∷ [])
        req in
    elim (count_of r) [
      | none ↦ none
      | some n ↦ some (num_at r.args 0, str_at r.args 1, num_at r.args 2 % 256)
    ]
