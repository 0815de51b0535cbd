-- ===== src/Dummy.antt =====
-- plugins/dummy.c: commands that accept the parameters of the standards and do nothing with them.
-- `W` is the state of the daemon, with the modem and the plugin's `dummy_t` in it.
pub mod Bounds
use meego_cellular_matd.Prelude.{
  ℕ, ◌+◌, ◌-◌, ◌%◌, ◌^◌, not, ◌||◌, Option, none, some, List, [], ◌∷◌, ◌++◌, Bytes, codes, ltb,
  ◌==◌, if◌then◌else◌, set,
}
use meego_cellular_matd.Libc.Scanf.{space, literal, uint, sscanf, count_of, num_at, Arg, Scanned}
use meego_cellular_matd.Libc.Format.{decimal, decimal_03, crlf}
use meego_cellular_matd.Modem.{
  Modem, at_ok, at_error, at_no_carrier, at_cme_einval, at_cme_enotsup, at_intermediate,
}
use meego_cellular_matd.Commands.{
  AlphaCb, GetCb, SetCb, Handler, SHandler, Bank, register_alpha, register_s, register_ext,
}

-- `dummy_t`; the widths of the fields are written out at the assignments.
pub record Dummy : Type 0 where
  pub s6 : ℕ  -- 4 bits
  pub cpnstat : ℕ  -- 1 bit
  pub dr : ℕ  -- 1 bit
  pub ds_dir : ℕ  -- 2 bits
  pub ds_nego : ℕ  -- 1 bit
  pub ds_dict : ℕ  -- 16 bits
  pub ds_string : ℕ  -- 8 bits
  pub s7 : ℕ  -- 8 bits
  pub s8 : ℕ  -- 8 bits
  pub s10 : ℕ  -- 8 bits

-- As `at_plugin_register` leaves it.
abbrev pub fresh : Dummy
fresh = record {
  s6 = 2;
  cpnstat = 0;
  dr = 0;
  ds_dir = 3;
  ds_nego = 0;
  ds_dict = 512;
  ds_string = 6;
  s7 = 50;
  s8 = 2;
  s10 = 2;
}

-- `sscanf (req, " %u", &n) != 1` and its value.
unfoldable pub scan_number : Bytes → Option ℕ
unfolding sscanf
scan_number req =
    let r = sscanf (space ∷ uint ∷ []) req in
    elim (count_of r) [ none ↦ none | some n ↦ if n == 1 then some (num_at r.args 0) else none ]

-- `set_s6`; the state is unchanged on an error.
unfoldable pub set_s6 : Dummy → ℕ → Dummy × ℕ
set_s6 d val =
    if ltb val 2 || ltb 10 val then (d, at_error) else (record d { s6 = val % 16 }, at_ok)

-- `set_byte`: the byte that is set, or none on an error.
unfoldable pub set_byte : ℕ → Option ℕ
set_byte val = if ltb val 1 || ltb 255 val then none else some (val % 256)

abbrev pub byte_to : Dummy → (ℕ → Dummy) → Option ℕ → Dummy × ℕ
byte_to d store none = (d, at_error)
byte_to d store (some b) = (store b, at_ok)

unfoldable pub set_s7 : Dummy → ℕ → Dummy × ℕ
unfolding set_byte
set_s7 d val = elim (set_byte val) [ none ↦ (d, at_error) | some b ↦ (record d { s7 = b }, at_ok) ]

unfoldable pub set_s8 : Dummy → ℕ → Dummy × ℕ
unfolding set_byte
set_s8 d val = elim (set_byte val) [ none ↦ (d, at_error) | some b ↦ (record d { s8 = b }, at_ok) ]

unfoldable pub set_s10 : Dummy → ℕ → Dummy × ℕ
set_s10 d val = byte_to d (λ b. record d { s10 = b }) (set_byte val)

abbrev pub cpnstat_to : Dummy → Option ℕ → Dummy × ℕ
cpnstat_to d none = (d, at_cme_einval)
cpnstat_to d (some mode) =
    if ltb 1 mode then (d, at_cme_enotsup) else (record d { cpnstat = mode % 2 }, at_ok)

unfoldable pub set_cpnstat : Dummy → Bytes → Dummy × ℕ
set_cpnstat d req = cpnstat_to d (scan_number req)

abbrev pub dr_to : Dummy → Option ℕ → Dummy × ℕ
dr_to d none = (d, at_error)
dr_to d (some dr) = if ltb 1 dr then (d, at_error) else (record d { dr = dr % 2 }, at_ok)

unfoldable pub set_dr : Dummy → Bytes → Dummy × ℕ
set_dr d req = dr_to d (scan_number req)

-- The four parameters of AT+DS, in their ranges or not.
unfoldable pub store_ds : Dummy → ℕ → ℕ → ℕ → ℕ → Dummy × ℕ
store_ds d dir nego dict str =
    if ltb 3 dir || (ltb 1 nego || (ltb dict 256 || (ltb 65535 dict || (ltb str 6 || ltb 250 str))))
    then (d, at_error)
    else (
      record d {
        ds_dir = dir % 4;
        ds_nego = nego % 2;
        ds_dict = dict % 2 ^ 16;
        ds_string = str % 2 ^ 8;
      },
      at_ok,
    )

-- The `switch` of `set_ds`, each case falling through to the next.
abbrev pub ds_to : Dummy → Option ℕ → List Arg → Dummy × ℕ
ds_to d none args = (d, at_error)
ds_to d (some n) args =
    if n == 0
    then store_ds d 3 0 256 6
    else if n == 1
    then store_ds d (num_at args 0) 0 256 6
    else if n == 2
    then store_ds d (num_at args 0) (num_at args 1) 256 6
    else if n == 3
    then store_ds d (num_at args 0) (num_at args 1) (num_at args 2) 6
    else if n == 4
    then store_ds d (num_at args 0) (num_at args 1) (num_at args 2) (num_at args 3)
    else (d, at_error)

unfoldable pub scan_ds : Bytes → Scanned
unfolding sscanf
scan_ds req =
    let comma = literal b',' in
    sscanf
      (space ∷ uint ∷ space ∷ comma ∷ space ∷ uint ∷ space ∷ comma ∷ space ∷ uint ∷ space ∷ comma
        ∷ space ∷ uint ∷ [])
      req

unfoldable pub set_ds : Dummy → Bytes → Dummy × ℕ
set_ds d req = ds_to d (count_of (scan_ds req)) (scan_ds req).args

module _ {W : Type 0} (modem : W → Modem) (put : Modem → W → W) (dummy : W → Dummy)
    (keep : Dummy → W → W) where
  -- A text, whatever becomes of it; or the result of the call as the result of the handler.
  abbrev pub print : W → Bytes → W × ℕ
  print w text = (put (at_intermediate (modem w) text).0 w, at_ok)

  abbrev pub print_result : W → Bytes → W × ℕ
  print_result w text = let (m, res) = at_intermediate (modem w) text in (put m w, res)

  abbrev pub on_dummy : W → Dummy × ℕ → W × ℕ
  on_dummy w (d, res) = (keep d w, res)

  abbrev pub alpha_nothing : AlphaCb W
  alpha_nothing w value = (w, at_ok)

  abbrev pub alpha_no_carrier : AlphaCb W
  alpha_no_carrier w value = (w, at_no_carrier)

  -- `set_zero` and `set_fclass`
  abbrev pub zero_to : W → Option ℕ → W × ℕ
  zero_to w none = (w, at_cme_einval)
  zero_to w (some mode) = if not (mode == 0) then (w, at_cme_enotsup) else (w, at_ok)

  unfoldable pub set_zero : SetCb W
  set_zero w req = zero_to w (scan_number req)

  unfoldable pub get_zero : Bytes → GetCb W
  get_zero cmd w = print w (crlf ++ (cmd ++ codes ": 0"))

  unfoldable pub list_zero : Bytes → GetCb W
  list_zero cmd w = print w (crlf ++ (cmd ++ codes ": (0)"))

  unfoldable pub get_fclass : GetCb W
  get_fclass w = print w (codes "\r\n0")

  unfoldable pub get_cpnstat : GetCb W
  get_cpnstat w = print w (codes "\r\n+CPNSTAT: " ++ (decimal (dummy w).cpnstat ++ codes ",1"))

  unfoldable pub list_cpnstat : GetCb W
  list_cpnstat w = print w (codes "\r\n+CPNSTAT: (0,1)")

  unfoldable pub get_byte : (Dummy → ℕ) → GetCb W
  get_byte field w = print_result w (crlf ++ (decimal_03 (field (dummy w)) ++ crlf))

  unfoldable pub get_dr : GetCb W
  get_dr w = print w (codes "\r\n+DR: " ++ decimal (dummy w).dr)

  unfoldable pub list_dr : GetCb W
  list_dr w = print w (codes "\r\n+DR: (0,1)")

  unfoldable pub get_ds : GetCb W
  get_ds w =
      let d = dummy w in
      print w (
        codes "\r\n+DS: "
        ++ (decimal d.ds_dir
            ++ (b','
                ∷ (decimal d.ds_nego
                    ++ (b',' ∷ (decimal d.ds_dict ++ (b',' ∷ decimal d.ds_string)))))))

  unfoldable pub list_ds : GetCb W
  list_ds w = print w (codes "\r\n+DS: (0-3),(0,1),(512-65535),(6-250)")

  abbrev s_of : (Dummy → ℕ → Dummy × ℕ) → (Dummy → ℕ) → SHandler W
  s_of setter field = record {
    set = λ w val. on_dummy w (setter (dummy w) val);
    get = get_byte field;
  }

  abbrev ext_of : (Dummy → Bytes → Dummy × ℕ) → GetCb W → GetCb W → Handler W
  ext_of setter getter lister = record {
    set = λ w req. on_dummy w (setter (dummy w) req);
    get = some getter;
    test = some lister;
  }

  -- `at_register_zero`
  unfoldable pub register_zero : Bank W → Bytes → Bank W
  register_zero bank cmd =
      (register_ext bank cmd
        (record { set = set_zero; get = some (get_zero cmd); test = some (list_zero cmd) })).0

  abbrev fclass : Handler W
  fclass = record { set = set_zero; get = some get_fclass; test = none }

  -- `at_plugin_register`, once its state has been allocated and holds `fresh`.
  unfoldable pub register_dummy : Bank W → Bank W
  unfolding register_zero
  register_dummy bank =
      let bank = (register_alpha bank b'L' alpha_nothing).0 in
      let bank = (register_alpha bank b'M' alpha_nothing).0 in
      let bank = (register_alpha bank b'P' alpha_nothing).0 in
      let bank = (register_alpha bank b'T' alpha_nothing).0 in
      let bank = (register_s bank 6 (s_of set_s6 (λ d. d.s6))).0 in
      let bank = (register_s bank 7 (s_of set_s7 (λ d. d.s7))).0 in
      let bank = (register_s bank 8 (s_of set_s8 (λ d. d.s8))).0 in
      let bank = (register_s bank 10 (s_of set_s10 (λ d. d.s10))).0 in
      let bank = (register_alpha bank b'O' alpha_no_carrier).0 in
      let bank = (register_alpha bank b'X' alpha_nothing).0 in
      let bank = register_zero bank (codes "+CMOD") in
      let bank = register_zero bank (codes "+CVMOD") in
      let bank = register_zero bank (codes "+CSNS") in
      let bank = register_zero bank (codes "+CPNET") in
      let bank = register_zero bank (codes "+VGR") in
      let bank = register_zero bank (codes "+VGT") in
      let bank =
        (register_ext bank (codes "+CPNSTAT") (ext_of set_cpnstat get_cpnstat list_cpnstat)).0 in
      let bank = (register_ext bank (codes "+FCLASS") fclass).0 in
      let bank = (register_ext bank (codes "+DR") (ext_of set_dr get_dr list_dr)).0 in
      (register_ext bank (codes "+DS") (ext_of set_ds get_ds list_ds)).0
