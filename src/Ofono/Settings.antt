-- ===== src/Ofono/Settings.antt =====
-- plugins/ofono/callsettings.c: the identification of lines and names, and call waiting.
use meego_cellular_matd.Prelude.{
  ℕ, ◌%◌, Bool, false, not, Option, none, some, List, [], ◌∷◌, ◌++◌, Bytes, codes, ltb, ◌==◌,
  if◌then◌else◌,
}
use meego_cellular_matd.Libc.Ctype.{streq}
use meego_cellular_matd.Libc.Scanf.{space, literal, uint, sscanf, count_of, num_at}
use meego_cellular_matd.Libc.Format.{decimal}
use meego_cellular_matd.Modem.{at_ok, at_cme_enotsup, at_cme_einval, at_cme_unknown}
use meego_cellular_matd.Commands.{GetCb, SetCb, Bank, register_ext}
use meego_cellular_matd.Dummy.{scan_number}
use meego_cellular_matd.Ofono.{
  string, Plugin, Host, as_string, modem_prop_get, modem_prop_set, intermediate,
  intermediate_result,
}
use meego_cellular_matd.Ofono.Calls.{bit}
use meego_cellular_matd.Ofono.Voicecall.{ext}

-- The chains of `strcmp` that turn a setting into a number.
unfoldable pub setting_number : List (Bytes × ℕ) → ℕ → Option Bytes → ℕ
unfolding streq
setting_number table missing none = missing
setting_number [] missing (some s) = missing
setting_number ((name, n) ∷ table) missing (some s) =
    let rest = setting_number table missing (some s) in if streq s name then n else rest

-- The state of a service of the network.
abbrev pub service : List (Bytes × ℕ)
service = (codes "disabled", 0) ∷ (codes "enabled", 1) ∷ []

abbrev pub restriction : List (Bytes × ℕ)
restriction =
    (codes "disabled", 0) ∷ (codes "permanent", 1) ∷ (codes "on", 3) ∷ (codes "off", 4) ∷ []

abbrev pub hidden : List (Bytes × ℕ)
hidden = (codes "enabled", 1) ∷ (codes "disabled", 2) ∷ []

-- The `switch` of `set_clir`.
unfoldable pub clir_value : ℕ → Option Bytes
clir_value n =
    if n == 0
    then some (codes "default")
    else if n == 1
    then some (codes "enabled")
    else if n == 2
    then some (codes "disabled")
    else none

-- What `set_ccwa` scans: the subscription, and the mode with the class if the mode is given.
unfoldable pub scan_ccwa : Bytes → Option (ℕ × Option (ℕ × ℕ))
unfolding sscanf
scan_ccwa req =
    let comma = literal b',' in
    let r =
      sscanf (space ∷ uint ∷ space ∷ comma ∷ space ∷ uint ∷ space ∷ comma ∷ space ∷ uint ∷ [])
        req in
    let n = num_at r.args 0 in
    let mode = num_at r.args 1 in
    elim (count_of r) [
      | none ↦ none
      | some count ↦
          if count == 0
          then some (0, none)
          else if count == 1
          then some (n, none)
          else if count == 2
          then some (n, some (mode, 7))
          else some (n, some (mode, num_at r.args 2))
    ]

module _ {W : Type 0} (host : Host W) where
  -- `set_clip`, `set_colp`, `set_cdip` and `set_cnap`, which differ in the field.
  abbrev flag_to : (Bool → Plugin → Plugin) → W → Option ℕ → W × ℕ
  flag_to field w none = (w, at_cme_einval)
  flag_to field w (some mode) =
      if ltb 1 mode
      then (w, at_cme_enotsup)
      else (host.keep (field (not (mode == 0)) (host.plugin w)) w, at_ok)

  unfoldable pub set_flag : (Bool → Plugin → Plugin) → SetCb W
  set_flag field w req = flag_to field w (scan_number req)

  -- The functions that print the field and the state of the service.
  unfoldable pub get_flag : Bytes → Bytes → (Plugin → Bool) → GetCb W
  unfolding setting_number
  get_flag cmd name field w =
      let (w1, setting) = modem_prop_get host w (codes "CallSettings") name as_string in
      intermediate_result host w1 (
        codes "\r\n"
        ++ (cmd
            ++ (codes ": "
                ++ (decimal (bit (field (host.plugin w1)))
                    ++ (b',' ∷ decimal (setting_number service 2 setting))))))

  abbrev ok_of : W × ℕ → W × ℕ
  ok_of (w, res) = (w, at_ok)

  unfoldable pub set_clip : SetCb W
  set_clip = set_flag (λ b p. record p { clip = b })

  unfoldable pub get_clip : GetCb W
  get_clip w = ok_of (get_flag (codes "+CLIP") (codes "CallingLinePresentation") (λ p. p.clip) w)

  unfoldable pub list_clip : GetCb W
  list_clip w = (intermediate host w (codes "\r\n+CLIP: (0-1)"), at_ok)

  unfoldable pub set_colp : SetCb W
  set_colp = set_flag (λ b p. record p { colp = b })

  unfoldable pub get_colp : GetCb W
  get_colp w = get_flag (codes "+COLP") (codes "ConnectedLinePresentation") (λ p. p.colp) w

  unfoldable pub list_colp : GetCb W
  list_colp w = (intermediate host w (codes "\r\n+COLP: (0-1)"), at_ok)

  unfoldable pub set_cdip : SetCb W
  set_cdip = set_flag (λ b p. record p { cdip = b })

  unfoldable pub get_cdip : GetCb W
  get_cdip w = ok_of (get_flag (codes "+CDIP") (codes "CalledLinePresentation") (λ p. p.cdip) w)

  unfoldable pub list_cdip : GetCb W
  list_cdip w = (intermediate host w (codes "\r\n+CDIP: (0-1)"), at_ok)

  unfoldable pub set_cnap : SetCb W
  set_cnap = set_flag (λ b p. record p { cnap = b })

  unfoldable pub get_cnap : GetCb W
  get_cnap w = ok_of (get_flag (codes "+CNAP") (codes "CallingNamePresentation") (λ p. p.cnap) w)

  unfoldable pub list_cnap : GetCb W
  list_cnap w = (intermediate host w (codes "\r\n+CNAP: (0-1)"), at_ok)

  abbrev hide : W → Option Bytes → W × ℕ
  hide w none = (w, at_cme_einval)
  hide w (some value) =
      modem_prop_set host w (codes "CallSettings") (codes "HideCallerId") (string value) none

  unfoldable pub set_clir : SetCb W
  unfolding clir_value
  set_clir w req = elim (scan_number req) [
    | none ↦ (w, at_cme_einval)
    | some n ↦ hide w (clir_value n)
  ]

  unfoldable pub get_clir : GetCb W
  unfolding setting_number
  get_clir w =
      let (w1, n) = modem_prop_get host w (codes "CallSettings") (codes "HideCallerId") as_string in
      let (w2, m) =
        modem_prop_get host w1 (codes "CallSettings") (codes "CallingLineRestriction") as_string in
      (
        intermediate host w2 (
            codes "\r\n+CLIR: "
            ++ (decimal (setting_number hidden 0 n)
                ++ (b',' ∷ decimal (setting_number restriction 2 m)))),
        at_ok,
      )

  unfoldable pub list_clir : GetCb W
  list_clir w = (intermediate host w (codes "\r\n+CLIR: (0-2),(0-4)"), at_ok)

  unfoldable pub do_colr : SetCb W
  unfolding setting_number
  do_colr w (c ∷ req) = (w, at_cme_einval)
  do_colr w [] =
      let (w1, m) =
        modem_prop_get host w (codes "CallSettings") (codes "ConnectedLineRestriction") as_string in
      (intermediate host w1 (codes "\r\n+COLR: " ++ decimal (setting_number service 2 m)), at_ok)

  -- The state that `set_ccwa` reports for mode 2.
  abbrev waiting_state : W × Option Bytes → W × ℕ
  waiting_state (w, none) = (w, at_cme_unknown)
  waiting_state (w, some state) =
      if streq state (codes "disabled")
      then intermediate_result host w (codes "\r\n+CCWA: 0,1")
      else if streq state (codes "enabled")
      then intermediate_result host w (codes "\r\n+CCWA: 1,1")
      else (w, at_cme_unknown)

  unfoldable pub voice_waiting : W → ℕ → W × ℕ
  unfolding streq
  voice_waiting w mode =
      let settings = codes "CallSettings" in
      let name = codes "VoiceCallWaiting" in
      if mode == 0
      then modem_prop_set host w settings name (string (codes "disabled")) none
      else if mode == 1
      then modem_prop_set host w settings name (string (codes "enabled")) none
      else if mode == 2
      then waiting_state (modem_prop_get host w settings name as_string)
      else (w, at_cme_enotsup)

  -- The mode, which counts for the class of voice calls only.
  abbrev waiting_mode : W → Option (ℕ × ℕ) → W × ℕ
  waiting_mode w none = (w, at_ok)
  waiting_mode w (some (mode, class)) = if class % 2 == 1 then voice_waiting w mode else (w, at_ok)

  abbrev ccwa_to : W → Option (ℕ × Option (ℕ × ℕ)) → W × ℕ
  ccwa_to w none = (w, at_cme_enotsup)
  ccwa_to w (some (n, mode)) =
      if ltb 1 n
      then (w, at_cme_enotsup)
      else waiting_mode (host.keep (record (host.plugin w) { ccwa = not (n == 0) }) w) mode

  unfoldable pub set_ccwa : SetCb W
  unfolding scan_ccwa voice_waiting
  set_ccwa w req = ccwa_to w (scan_ccwa req)

  unfoldable pub get_ccwa : GetCb W
  get_ccwa w =
      intermediate_result host w (codes "\r\n+CCWA: " ++ decimal (bit (host.plugin w).ccwa))

  unfoldable pub list_ccwa : GetCb W
  list_ccwa w = intermediate_result host w (codes "\r\n+CCWA: (0,1)")

  unfoldable pub call_settings_register : Bank W → W → Bank W × W
  call_settings_register bank w =
      let bank =
        (register_ext bank (codes "+CLIP") (ext set_clip (some get_clip) (some list_clip))).0 in
      let bank =
        (register_ext bank (codes "+CLIR") (ext set_clir (some get_clir) (some list_clir))).0 in
      let bank =
        (register_ext bank (codes "+COLP") (ext set_colp (some get_colp) (some list_colp))).0 in
      let bank =
        (register_ext bank (codes "+CDIP") (ext set_cdip (some get_cdip) (some list_cdip))).0 in
      let bank =
        (register_ext bank (codes "+CNAP") (ext set_cnap (some get_cnap) (some list_cnap))).0 in
      let bank = (register_ext bank (codes "+COLR") (ext do_colr none none)).0 in
      let bank =
        (register_ext bank (codes "+CCWA") (ext set_ccwa (some get_ccwa) (some list_ccwa))).0 in
      (
        bank,
        host.keep
            (record (host.plugin w) {
              clip = false;
              colp = false;
              cdip = false;
              cnap = false;
              ccwa = false;
            })
            w,
      )
