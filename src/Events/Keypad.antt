-- ===== src/Events/Keypad.antt =====
-- plugins/uinput.c: AT+CKPD, and AT+CMEC.
use meego_cellular_matd.Prelude.{
  ℕ, ◌-◌, ◌%◌, ◌⊎◌, inl, inr, Bool, true, false, not, ◌||◌, Option, none, some, List, [], ◌∷◌, ◌++◌,
  Bytes, codes, ltb, leb, ◌==◌, if◌then◌else◌, get_elem?,
}
use meego_cellular_matd.Libc.Scanf.{
  Directive, space, literal, uint, scanset, sscanf, count_of, num_at, str_at, Scanned,
}
use meego_cellular_matd.Libc.Format.{decimal}
use meego_cellular_matd.Modem.{Modem, at_ok, at_error, at_cme_einval, at_cme_eperm, at_intermediate}
use meego_cellular_matd.Commands.{GetCb, SetCb}
use meego_cellular_matd.Events.Keymap.{Name, Row, keymap, ev_key, ev_syn, syn_report}
use meego_cellular_matd.Events.Device.{
  Time, Request, write_dev, set_phys, set_evbit, set_keybit, Uinput, Kernel, ds_to_tv, add_delay,
  create_uinput,
}

-- The keys that are set up, row by row.
abbrev keybit : Option Name → List (Bool × Request) → List (Bool × Request)
keybit none requests = requests
keybit (some key) requests = (true, set_keybit key) ∷ requests

unfoldable pub keybits : List Row → List (Bool × Request)
keybits [] = []
keybits ((key, alpha) ∷ rows) = keybit key (keybit alpha (keybits rows))

unfoldable pub setup_keypad : List (Bool × Request)
unfolding keybits
setup_keypad =
    (true, write_dev (codes "3GPP Mobile Terminal keypad controls") [])
    ∷ (false, set_phys)
    ∷ (true, set_evbit ev_key)
    ∷ keybits keymap

-- The number of a key, or 0.
abbrev pub number_of : (Name → ℕ) → Option Name → ℕ
number_of number none = 0
number_of number (some key) = number key

abbrev pub column : Bool → Row → Option Name
column true (key, alpha) = alpha
column false (key, alpha) = key

-- A cell of the table, and 0 behind it.
abbrev pub cell : (Name → ℕ) → Bool → Option Row → ℕ
cell number alpha none = 0
cell number alpha (some row) = number_of number (column alpha row)

-- `keymap[c].alpha` or `keymap[c].key`, for the character `c`, of 8 bits with a sign.
unfoldable pub key_code : (Name → ℕ) → Bool → ℕ → ℕ
key_code number alpha c =
    if ltb c 32 || leb 128 c then 0 else cell number alpha (get_elem? keymap (c - 32))

-- The codes of the loop over the characters; a semicolon that is doubled stands for itself.
unfoldable pub key_codes : (Name → ℕ) → Bool → Bytes → List ℕ
unfolding key_code
key_codes number alpha [] = []
key_codes number alpha (c ∷ []) = if c == b';' then [] else key_code number alpha c ∷ []
key_codes number alpha (c ∷ d ∷ s) =
    let doubled = key_codes number alpha s in
    let toggled = key_codes number (not alpha) (d ∷ s) in
    let more = key_codes number alpha (d ∷ s) in
    if c == b';'
    then (if d == b';' then key_code number alpha c ∷ doubled else toggled)
    else key_code number alpha c ∷ more

-- The keys, and how long each is pressed and let go of.
abbrev ckpd_of : Scanned → Option (Bytes × ℕ × ℕ)
ckpd_of r = elim (count_of r) [
  | none ↦ none
  | some n ↦
      let keys = str_at r.args 0 in
      if n == 1
      then some (keys, 1, 1)
      else if n == 2
      then some (keys, num_at r.args 1 % 256, 1)
      else if n == 3
      then some (keys, num_at r.args 1 % 256, num_at r.args 2 % 256)
      else none
]

unfoldable pub scan_ckpd : Bytes → Option (Bytes × ℕ × ℕ)
unfolding sscanf
scan_ckpd req = ckpd_of (
    sscanf
      (space
        ∷ scanset (λ c. not (c == b',')) 1023
        ∷ literal b','
        ∷ space
        ∷ uint
        ∷ space
        ∷ literal b','
        ∷ space
        ∷ uint
        ∷ [])
      req)

-- The state of AT+CMEC: the two numbers, or an error.
abbrev cmec_checked : ℕ → ℕ → ℕ → ℕ → (ℕ × ℕ) ⊎ ℕ
cmec_checked keyp disp ind tscrn =
    if ltb 2 keyp || (ltb 2 disp || (ltb 2 ind || ltb 2 tscrn))
    then inr at_cme_einval
    else if keyp == 1 || (not (disp == 0) || (not (ind == 0) || tscrn == 1))
    then inr at_cme_eperm
    else inl (keyp, tscrn)

abbrev cmec_of : Scanned → (ℕ × ℕ) ⊎ ℕ
cmec_of r =
    let a = num_at r.args in
    elim (count_of r) [
      | none ↦ inr at_cme_einval
      | some n ↦
          if n == 1
          then cmec_checked (a 0) 0 0 2
          else if n == 2
          then cmec_checked (a 0) (a 1) 0 2
          else if n == 3
          then cmec_checked (a 0) (a 1) (a 2) 2
          else if n == 4
          then cmec_checked (a 0) (a 1) (a 2) (a 3)
          else inr at_cme_einval
    ]

unfoldable pub scan_cmec : Bytes → (ℕ × ℕ) ⊎ ℕ
unfolding sscanf
scan_cmec req =
    let comma : List Directive → List Directive = λ rest. space ∷ literal b',' ∷ space ∷ rest in
    cmec_of (sscanf (uint ∷ comma (uint ∷ comma (uint ∷ comma (uint ∷ [])))) req)

-- The two devices: the keypad and the touchscreen.
pub record Inputs : Type 0 where
  pub keypad : Uinput
  pub screen : Uinput

module _ {W : Type 0} (kernel : Kernel W) (inputs : W → Inputs) (keep : Inputs → W → W) where
  -- An event and the report behind it.
  unfoldable pub emit_key : W → ℕ → Time → ℕ → ℕ → W × Bool
  emit_key w fd time code value =
      let (w1, done) =
        kernel.write_event w fd
          (record { time = time; type = kernel.number ev_key; code = code; value = value }) in
      if not done
      then (w1, false)
      else kernel.write_event w1 fd (record {
        time = time;
        type = kernel.number ev_syn;
        code = kernel.number syn_report;
        value = 0;
      })

  abbrev emit_if : W → ℕ → Time → ℕ → ℕ → W × Bool
  emit_if w fd time code value = if code == 0 then (w, true) else emit_key w fd time code value

  -- The loop over the keys: each is pressed and released.
  unfoldable pub press_all : W → ℕ → Time → Time → Time → List ℕ → W × ℕ
  unfolding emit_key add_delay
  press_all w fd time press pause [] = (w, at_ok)
  press_all w fd time press pause (code ∷ keys) =
      let (w1, pressed) = emit_if w fd time code 1 in
      let later = add_delay time press in
      let (w2, released) = emit_if w1 fd later code 0 in
      if not pressed
      then (w1, at_error)
      else if not released
      then (w2, at_error)
      else press_all w2 fd (add_delay later pause) press pause keys

  abbrev pub press_on : Bytes × ℕ × ℕ → W × Option ℕ → W × ℕ
  press_on given (w, none) = (w, at_error)
  press_on (keys, press, pause) (w, some fd) =
      let p = inputs w in
      let w1 = keep (record p { keypad = record p.keypad { fd = some fd } }) w in
      press_all w1 fd (kernel.gettimeofday w1) (ds_to_tv press) (ds_to_tv pause)
        (key_codes kernel.number false keys)

  unfoldable pub handle_keypad : SetCb W
  unfolding scan_ckpd create_uinput setup_keypad press_all key_codes ds_to_tv
  handle_keypad w req =
      let p = inputs w in
      if p.keypad.cmec == 0 then (w, at_cme_eperm) else elim (scan_ckpd req) [
        | none ↦ (w, at_error)
        | some given ↦ press_on given (create_uinput kernel w p.keypad.fd setup_keypad)
      ]

  unfoldable pub set_cmec : SetCb W
  unfolding scan_cmec
  set_cmec w req = elim (scan_cmec req) [
    | inr err ↦ (w, err)
    | inl (keyp, tscrn) ↦
        let p = inputs w in
        (
          keep
              (record {
                keypad = record p.keypad { cmec = keyp };
                screen = record p.screen { cmec = tscrn };
              })
              w,
          at_ok,
        )
  ]

module _ {W : Type 0} (modem : W → Modem) (put : Modem → W → W) (inputs : W → Inputs) where
  unfoldable pub get_cmec : GetCb W
  get_cmec w =
      let p = inputs w in
      let text =
        codes "\r\n+CMEC: "
        ++ (decimal p.keypad.cmec ++ (codes ",0,0," ++ decimal p.screen.cmec)) in
      (put (at_intermediate (modem w) text).0 w, at_ok)

  unfoldable pub list_cmec : GetCb W
  list_cmec w =
      (put (at_intermediate (modem w) (codes "\r\n+CMEC: (0,2),(0),(0),(0,2)")).0 w, at_ok)
