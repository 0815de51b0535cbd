-- ===== src/Events/Shown.antt =====
-- plugins/uinput.c and plugins/input.c: the texts that +CKEV shows of the keys, as parameters of
-- AT+CKPD.
use meego_cellular_matd.Prelude.{
  ℕ, zero, suc, ◌+◌, ◌-◌, ◌≤◌, ◌<◌, ◌≡◌, refl, ap, ◌∙◌, subst, inl, inr, Bool, true, false, ◌||◌,
  Option, none, some, List, [], ◌∷◌, arith, Bytes, ltb, leb, ◌==◌, if◌then◌else◌, ==_iff,
  Bool-cases, length, get_elem?,
}
use meego_cellular_matd.Libc.Scanf.{sscanf}
use meego_cellular_matd.Events.Keymap.{Name, Row, keymap, key_semicolon, key_comma}
use meego_cellular_matd.Events.Keypad.{number_of, column, cell, key_code, key_codes, scan_ckpd}
use meego_cellular_matd.Events.Reports.{find_key, shown_key, key_text}

-- A character from `c` on whose row has the code, in the column that is told.
abbrev Replays : (Name → ℕ) → List Row → ℕ → ℕ → Option (Bool × ℕ) → Type 0
Replays number rows c code none = ⊥
Replays number rows c code (some (alpha, d)) =
    (c ≤ d) × (d < c + length rows) × (cell number alpha (get_elem? rows (d - c)) ≡ code)

later-Replays :
    (number : Name → ℕ) (row : Row) (rows : List Row) (c code : ℕ) (o : Option (Bool × ℕ))
    → Replays number rows (c + 1) code o
    → Replays number (row ∷ rows) c code o
later-Replays number row rows c code none h = h
later-Replays number row rows c code (some (alpha, d)) (le, less, e) = (
  omega (arith, le),
  omega (arith, less),
  ap (λ n. cell number alpha (get_elem? (row ∷ rows) n)) {x = d - c} {y = suc (d - (c + 1))}
        (omega (arith, le))
      ∙ e,
)

here-Replays :
    (number : Name → ℕ) (row : Row) (rows : List Row) (c code : ℕ) (alpha : Bool)
    → number_of number (column alpha row) ≡ code
    → Replays number (row ∷ rows) c code (some (alpha, c))
here-Replays number row rows c code alpha e = (
  omega arith,
  omega arith,
  ap (λ n. cell number alpha (get_elem? (row ∷ rows) n)) {x = c - c} {y = 0} (omega arith) ∙ e,
)

not-here :
    (number : Name → ℕ) (key second : Option Name) (rows : List Row) (i code : ℕ) (alpha : Bool)
    → (number_of number key == code) ≡ false
    → (number_of number second == code) ≡ false
    → cell number alpha (get_elem? ((key, second) ∷ rows) i) ≡ code
    → cell number alpha (get_elem? rows (i - 1)) ≡ code
not-here number key second rows zero code true first other e = absurd (ground (arith, other, e))
not-here number key second rows zero code false first other e = absurd (ground (arith, first, e))
not-here number key second rows (suc i) code alpha first other e =
    ap (λ n. cell number alpha (get_elem? rows n)) {x = suc i - 1} {y = i} (omega arith) ∙ e

find_key-Replays :
    (number : Name → ℕ) (rows : List Row) (c i code : ℕ) (alpha : Bool)
    → 0 < code
    → cell number alpha (get_elem? rows i) ≡ code
    → Replays number rows c code (find_key number rows c code)
unfolding find_key
find_key-Replays number [] c i code alpha some_key e = absurd (omega (arith, some_key, e))
find_key-Replays number ((key, second) ∷ rows) c i code alpha some_key e =
    elim (Bool-cases (number_of number key == code)) [
      | inl first ↦
          rw first (here-Replays number (key, second) rows c code false ((==_iff _ _).0 first))
      | inr not_first ↦ elim (Bool-cases (number_of number second == code)) [
        | inl other ↦
            rw (not_first, other)
              (here-Replays number (key, second) rows c code true ((==_iff _ _).0 other))
        | inr not_other ↦
            rw (not_first, not_other)
              (later-Replays number (key, second) rows c code (find_key number rows (c + 1) code)
                (find_key-Replays number rows (c + 1) (i - 1) code alpha some_key
                  (not-here number key second rows i code alpha not_first not_other e)))
      ]
    ]

scan_quoted :
    (d : ℕ)
    → (d == b',') ≡ false
    → scan_ckpd (b'"' ∷ d ∷ b'"' ∷ []) ≡ some (b'"' ∷ d ∷ b'"' ∷ [], 1, 1)
unfolding scan_ckpd sscanf
scan_quoted d h = rw h refl

scan_between :
    (d : ℕ)
    → (d == b',') ≡ false
    → scan_ckpd (b';' ∷ d ∷ b';' ∷ []) ≡ some (b';' ∷ d ∷ b';' ∷ [], 1, 1)
unfolding scan_ckpd sscanf
scan_between d h = rw h refl

-- A parameter of AT+CKPD: the codes of its characters, and a tenth of a second for each press and
-- each pause. Code 0 is no key, but takes its time.
abbrev pub Gives : (Name → ℕ) → Bytes → List ℕ → Type 0
Gives number text keys = (scan_ckpd text ≡ some (text, 1, 1)) × (key_codes number false text ≡ keys)

-- The codes of the text that is shown for a key: it is late behind a quotation mark.
abbrev pub keys_for : Bool → ℕ → List ℕ
keys_for true code = 0 ∷ code ∷ 0 ∷ []
keys_for false code = code ∷ []

text-Gives-plain :
    (number : Name → ℕ) (d code : ℕ)
    → (d == b',') ≡ false
    → (d == b';') ≡ false
    → key_code number false d ≡ code
    → Gives number (b'"' ∷ d ∷ b'"' ∷ []) (0 ∷ code ∷ 0 ∷ [])
unfolding key_codes
text-Gives-plain number d code comma semicolon e =
    let quote : key_code number false b'"' ≡ 0 = unfold key_code in refl in
    (scan_quoted d comma, rw (semicolon, quote, e) refl)

text-Gives-alpha :
    (number : Name → ℕ) (d code : ℕ)
    → (d == b',') ≡ false
    → (d == b';') ≡ false
    → key_code number true d ≡ code
    → Gives number (b';' ∷ d ∷ b';' ∷ []) (code ∷ [])
unfolding key_codes
text-Gives-alpha number d code comma semicolon e = (scan_between d comma, rw (semicolon, e) refl)

-- A character that has another key than those of the row.
apart :
    (number : Name → ℕ) (key : Name) (k : ℕ) (alpha : Bool) (d code : ℕ)
    → key_code number false k ≡ 0
    → key_code number true k ≡ number key
    → 0 < code
    → (code == number key) ≡ false
    → key_code number alpha d ≡ code
    → (d == k) ≡ false
apart number key k alpha d code plain shifted h other e = elim (Bool-cases (d == k)) [
  | inr differs ↦ differs
  | inl same ↦
      absurd (go alpha (subst (λ (x : ℕ). key_code number alpha x ≡ code) ((==_iff d k).0 same) e))
]
  where
    go : (b : Bool) → key_code number b k ≡ code → ⊥
    go false same = omega (arith, h, plain, same)
    go true same = ground (arith, other, shifted, same)

key_code-cell :
    (number : Name → ℕ) (alpha : Bool) (d : ℕ)
    → 32 ≤ d
    → d < 128
    → key_code number alpha d ≡ cell number alpha (get_elem? keymap (d - 32))
unfolding key_code
key_code-cell number alpha d low high =
    let not_low : ltb d 32 ≡ false = ground (arith, low) in
    let not_high : leb 128 d ≡ false = ground (arith, high) in rw (not_low, not_high) refl

-- The text of a key presses it, if the key is none of those that cannot be given.
Replays-presses :
    (number : Name → ℕ) (code : ℕ) (o : Option (Bool × ℕ))
    → 0 < code
    → (code == number key_semicolon) ≡ false
    → (code == number key_comma) ≡ false
    → Replays number keymap 32 code o
    → (text : Bytes) × (late : Bool) × (key_text o ≡ some text)
      × Gives number text (keys_for late code)
Replays-presses number code none h semicolon comma r = absurd r
Replays-presses number code (some (alpha, d)) h semicolon comma (low, high, e) =
    let is_code = key_code-cell number alpha d low (omega (arith, high)) ∙ e in
    let no_comma =
      apart number key_comma b',' alpha d code (unfold key_code in refl) (unfold key_code in refl) h
        comma is_code in
    let no_semicolon =
      apart number key_semicolon b';' alpha d code (unfold key_code in refl)
        (unfold key_code in refl) h semicolon is_code in
    go alpha is_code no_comma no_semicolon
  where
    go :
        (b : Bool)
        → key_code number b d ≡ code
        → (d == b',') ≡ false
        → (d == b';') ≡ false
        → (text : Bytes) × (late : Bool) × (key_text (some (b, d)) ≡ some text)
          × Gives number text (keys_for late code)
    go false k c s = (b'"' ∷ d ∷ b'"' ∷ [], true, refl, text-Gives-plain number d code c s k)
    go true k c s = (b';' ∷ d ∷ b';' ∷ [], false, refl, text-Gives-alpha number d code c s k)

key_code-in_table :
    (number : Name → ℕ) (alpha : Bool) (c : ℕ)
    → 0 < key_code number alpha c
    → cell number alpha (get_elem? keymap (c - 32)) ≡ key_code number alpha c
unfolding key_code
key_code-in_table number alpha c h = elim (Bool-cases (ltb c 32 || leb 128 c)) [
  | inl out ↦ absurd (
      omega (
        arith,
        ap (λ (b : Bool). if b then 0 else cell number alpha (get_elem? keymap (c - 32))) out,
        h,
      ))
  | inr within ↦ rw within refl
]

pub shown_key-Gives :
    (number : Name → ℕ) (alpha : Bool) (c : ℕ)
    → 0 < key_code number alpha c
    → (key_code number alpha c == number key_semicolon) ≡ false
    → (key_code number alpha c == number key_comma) ≡ false
    → (text : Bytes) × (late : Bool) × (shown_key number (key_code number alpha c) ≡ some text)
      × Gives number text (keys_for late (key_code number alpha c))
unfolding shown_key
shown_key-Gives number alpha c some_key semicolon comma =
    let code = key_code number alpha c in
    rw semicolon (
      Replays-presses number code (find_key number keymap 32 code) some_key semicolon comma (
        find_key-Replays number keymap 32 (c - 32) code alpha some_key
          (key_code-in_table number alpha c some_key)))
