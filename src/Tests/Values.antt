-- ===== src/Tests/Values.antt =====
-- Runs of the text input, of the character sets and of the dummy parameters.
use meego_cellular_matd.Prelude.{
  ℕ, ◌≡◌, refl, ap, true, false, some, [], ◌∷◌, ◌++◌, arith, codes, length,
}
use meego_cellular_matd.Modem.{Modem, at_ok}
use meego_cellular_matd.Input.{Reader, got, read_interrupted, read_text}
use meego_cellular_matd.Input.Text.{Enters, spelled, stream, arriving, read_text-Enters}
use meego_cellular_matd.Charset.{hex_decode, hex_encode}
use meego_cellular_matd.Charset.Hex.{hex_decode-hex_encode}
use meego_cellular_matd.Dummy.{
  fresh, set_s6, set_s7, set_s8, set_s10, set_cpnstat, set_dr, set_ds, scan_ds, store_ds,
}
use meego_cellular_matd.Dummy.Bounds.{InRange, set-InRange}

abbrev quiet_modem : Modem
quiet_modem = record {
  echo = true;
  quiet = true;
  verbose = true;
  rate_report = false;
  in_data = false;
  cmee = 1;
  hungup = false;
  reset = false;
  charset = 0;
  sent = [];
  writes = [];
  aborted = false;
}

-- The text `hi`, with a character rubbed out, in two chunks and an interruption.
abbrev typing : Reader
typing = record {
  pending = codes "h";
  reads = got (codes "x\u{8}") ∷ read_interrupted ∷ got (b'i' ∷ 26 ∷ []) ∷ [];
}

stream_of_typing : stream typing ≡ codes "hx\u{8}" ++ (b'i' ∷ 26 ∷ [])
unfolding arriving
stream_of_typing = refl

spells_hi : spelled [] (stream typing) ≡ some (codes "hi")
unfolding spelled arriving
spells_hi = refl

read_text-Enters_example :
    Enters (read_text 6 quiet_modem typing (codes "> ")) (spelled [] (stream typing))
read_text-Enters_example =
    read_text-Enters 6 quiet_modem typing (codes "> ")
      (omega (arith, ap (length {A = ℕ}) stream_of_typing))

hex_decode-hex_encode_example :
    hex_decode (hex_encode (0 ∷ 127 ∷ 255 ∷ [])) ≡ some (0 ∷ 127 ∷ 255 ∷ [])
hex_decode-hex_encode_example =
    hex_decode-hex_encode (0 ∷ 127 ∷ 255 ∷ []) (omega arith, (omega arith, (omega arith, tt)))

-- The last digit of an odd number of them is dropped, and need not be one.
drops_odd : hex_decode (codes "41Z") ≡ some (codes "A")
unfolding hex_decode
drops_odd = refl

fresh-InRange : InRange fresh
fresh-InRange = record {
  s6 = (omega arith, omega arith);
  cpnstat = omega arith;
  dr = omega arith;
  ds_dir = omega arith;
  ds_nego = omega arith;
  ds_dict = (omega arith, omega arith);
  ds_string = (omega arith, omega arith);
  s7 = (omega arith, omega arith);
  s8 = (omega arith, omega arith);
  s10 = (omega arith, omega arith);
}

set-InRange_example :
    InRange (set_s6 fresh 11).0
    × InRange (set_s7 fresh 11).0
    × InRange (set_s8 fresh 11).0
    × InRange (set_s10 fresh 11).0
    × InRange (set_cpnstat fresh (codes "3,1,300,6")).0
    × InRange (set_dr fresh (codes "3,1,300,6")).0
    × InRange (set_ds fresh (codes "3,1,300,6")).0
set-InRange_example = set-InRange fresh 11 (codes "3,1,300,6") fresh-InRange

-- A dictionary smaller than the listed range of 512-65535.
takes_small : (set_ds fresh (codes "3,1,300,6")).1 ≡ at_ok
unfolding set_ds scan_ds store_ds
takes_small = refl
