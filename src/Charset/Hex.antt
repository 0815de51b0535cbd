-- ===== src/Charset/Hex.antt =====
-- src/charset.c: at_hex_decode against at_hex_encode.
use meego_cellular_matd.Prelude.{
  ℕ, ◌-◌, ◌/◌, ◌%◌, ◌<◌, ◌≡◌, refl, ap, some, [], ◌∷◌, arith, Bytes, if◌then◌else◌, get_or,
  all_below, all_below-elim, holds_num, holds_num-some,
}
use meego_cellular_matd.Charset.{hexdigit, hex_decode, tab, hex_encode}
use meego_cellular_matd.Libc.Ctype.{is_lower}

abbrev pub AllBytes : Bytes → Type 0
AllBytes [] = Unit {0}
AllBytes (c ∷ s) = (c < 256) × AllBytes s

hexdigit-tab : (n : ℕ) → n < 16 → hexdigit (get_or tab n 0) ≡ some n
hexdigit-tab n h = holds_num-some _ n (
    all_below-elim 16 (λ k. holds_num (hexdigit (get_or tab k 0)) k) n
      (unfold all_below hexdigit in refl) h)

-- Encoded bytes are decoded to themselves.
pub hex_decode-hex_encode : (s : Bytes) → AllBytes s → hex_decode (hex_encode s) ≡ some s
unfolding hex_decode hex_encode
hex_decode-hex_encode [] h = refl
hex_decode-hex_encode (c ∷ s) h =
    let hi = hexdigit-tab (c / 16) (omega (arith, h.0)) in
    let lo = hexdigit-tab (c % 16) (omega arith) in
    rw (hi, lo, hex_decode-hex_encode s h.1) (ap (λ b. some (b ∷ s)) {y = c} (omega arith))

-- Capital letters for the digits.
abbrev pub upper : ℕ → ℕ
upper c = if is_lower c then c - 32 else c
