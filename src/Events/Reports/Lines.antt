-- ===== src/Events/Reports/Lines.antt =====
-- plugins/input.c: what AT+CMER scans, and the lines for the events.
use meego_cellular_matd.Prelude.{
  ℕ, ◌+◌, ◌/◌, ◌%◌, ◌⊎◌, inl, inr, Bool, true, false, not, ◌&&◌, ◌||◌, Option, none, some, List, [],
  ◌∷◌, ◌++◌, Bytes, codes, ltb, leb, ◌==◌, if◌then◌else◌,
}
use meego_cellular_matd.Libc.Scanf.{
  Directive, space, literal, uint, sscanf, count_of, num_at, Scanned,
}
use meego_cellular_matd.Libc.Format.{decimal}
use meego_cellular_matd.Modem.{at_error, at_cme_einval}
use meego_cellular_matd.Ofono.Calls.{bit}
use meego_cellular_matd.Events.Keymap.{
  Name, Row, keymap, key_semicolon, btn_touch, ev_key, ev_abs, abs_x, abs_y,
}
use meego_cellular_matd.Events.Device.{Event}
use meego_cellular_matd.Events.Keypad.{number_of}

-- `cmer_t`; `none` is -1.
pub record Cmer : Type 0 where
  pub keyp_fd : Option ℕ
  pub tscrn_fd : Option ℕ
  pub enabled : Bool
  pub depressed : Bool
  pub x : ℕ
  pub y : ℕ

-- The loop of `report_keyp` from the character `c` on: the first row with the code, in its first or
-- its second column.
unfoldable pub find_key : (Name → ℕ) → List Row → ℕ → ℕ → Option (Bool × ℕ)
find_key number [] c code = none
find_key number ((key, alpha) ∷ rows) c code =
    let rest = find_key number rows (c + 1) code in
    if number_of number key == code
    then some (false, c)
    else if number_of number alpha == code
    then some (true, c)
    else rest

-- What is shown of a key.
abbrev pub key_text : Option (Bool × ℕ) → Option Bytes
key_text none = none
key_text (some (false, c)) = some (b'"' ∷ c ∷ b'"' ∷ [])
key_text (some (true, c)) = some (b';' ∷ c ∷ b';' ∷ [])

unfoldable pub shown_key : (Name → ℕ) → ℕ → Option Bytes
unfolding find_key
shown_key number code =
    if code == number key_semicolon
    then some (codes "\";;\"")
    else key_text (find_key number keymap 32 code)

abbrev key_line : Option Bytes → ℕ → Option Bytes
key_line none value = none
key_line (some key) value =
    some (codes "\r\n+CKEV: " ++ (key ++ (b',' ∷ (decimal value ++ codes "\r\n"))))

-- The line for an event of the keypad, if any.
unfoldable pub keyp_line : (Name → ℕ) → Event → Option Bytes
unfolding shown_key
keyp_line number ev =
    if ev.type == number ev_key && leb ev.value 1
    then key_line (shown_key number ev.code) ev.value
    else none

-- The line for an event of the touchscreen, and the state behind it.
unfoldable pub tscrn_line : Cmer → Bytes
tscrn_line cmer =
    codes "\r\n+CTEV: "
    ++ (decimal (bit cmer.depressed)
        ++ (b',' ∷ (decimal cmer.x ++ (b',' ∷ (decimal cmer.y ++ codes "\r\n")))))

unfoldable pub touched : (Name → ℕ) → Event → Cmer → Cmer
touched number ev cmer =
    if ev.type == number ev_key
    then (if not (ev.code == number btn_touch) || ltb 1 ev.value
        then cmer
        else record cmer { depressed = not (ev.value == 0) })
    else if ev.type == number ev_abs
    then (if ev.code == number abs_x
        then record cmer { x = ev.value }
        else if ev.code == number abs_y
        then record cmer { y = ev.value }
        else cmer)
    else cmer

-- The six numbers of AT+CMER, with 0 for those that are left out, and their test: mode, keypad and
-- touchscreen, or an error.
abbrev cmer_checked : ℕ → ℕ → ℕ → ℕ → ℕ → ℕ → (ℕ × ℕ × ℕ) ⊎ ℕ
cmer_checked mode keyp disp ind bfr tscrn =
    let bad_tscrn = ltb 3 tscrn || (tscrn + 1) / 2 % 2 == 1 in
    if ltb 1 mode || (ltb 1 keyp || (ltb 0 disp || (ltb 0 ind || (ltb 0 bfr || bad_tscrn))))
    then inr at_error
    else inl (mode, keyp, tscrn)

abbrev cmer_of : Scanned → (ℕ × ℕ × ℕ) ⊎ ℕ
cmer_of r =
    let a : ℕ → ℕ → ℕ = λ n i. if ltb i n then num_at r.args i else 0 in
    elim (count_of r) [
      | none ↦ inr at_cme_einval
      | some n ↦
          if n == 0
          then inr at_cme_einval
          else cmer_checked (a n 0) (a n 1) (a n 2) (a n 3) (a n 4) (a n 5)
    ]

unfoldable pub scan_cmer : Bytes → (ℕ × ℕ × ℕ) ⊎ ℕ
unfolding sscanf
scan_cmer req =
    let comma : List Directive → List Directive = λ rest. space ∷ literal b',' ∷ space ∷ rest in
    cmer_of (
      sscanf (uint ∷ comma (uint ∷ comma (uint ∷ comma (uint ∷ comma (uint ∷ comma (uint ∷ []))))))
        req)
