-- ===== src/Events/Reports.antt =====
-- plugins/input.c: AT+CMER, and what its thread reports. The nodes of the devices are those that the
-- build has configured; opening and closing them, and the thread, are parameters.
mod Lines
unfoldable pub use Lines.*
use meego_cellular_matd.Prelude.{
  ℕ, ◌+◌, ◌-◌, ◌⊎◌, inl, inr, Bool, true, false, Option, none, some, ◌∷◌, ◌++◌, Bytes, codes, ◌==◌,
  if◌then◌else◌,
}
use meego_cellular_matd.Libc.Format.{decimal}
use meego_cellular_matd.Modem.{
  Modem, at_ok, at_error, at_cme_enomem, at_intermediate, at_unsolicited,
}
use meego_cellular_matd.Commands.{GetCb, SetCb, Bank, register_ext}
use meego_cellular_matd.Ofono.Calls.{bit}
use meego_cellular_matd.Ofono.Ringing.{is_some}
use meego_cellular_matd.Ofono.Voicecall.{ext}
use meego_cellular_matd.Events.Keymap.{Name, ev_syn}
use meego_cellular_matd.Events.Device.{Event}

-- The nodes of the two devices, none where the build has none, and the system's part.
pub record Nodes (W : Type 0) : Type 0 where
  pub open_keypad : Option (W → W × Option ℕ)
  pub open_screen : Option (W → W × Option ℕ)
  pub close : W → ℕ → W
  pub start : W → W × Bool
  pub cancel : W → W

module _ {W : Type 0} (nodes : Nodes W) (cmer : W → Cmer) (keep : Cmer → W → W) where
  -- The old thread is ended, and the keypad closed.
  abbrev ended : W → W
  ended w =
      if (cmer w).enabled
      then keep (record (cmer (nodes.cancel w)) { enabled = false }) (nodes.cancel w)
      else w

  abbrev close_keypad : W → Option ℕ → W
  close_keypad w none = w
  close_keypad w (some fd) =
      keep (record (cmer (nodes.close w fd)) { keyp_fd = none }) (nodes.close w fd)

  -- The state, and whether the device could be opened if it was asked for.
  abbrev keypad_opened : W × Option ℕ → W × Bool
  keypad_opened (w, none) = (w, false)
  keypad_opened (w, some fd) = (keep (record (cmer w) { keyp_fd = some fd }) w, true)

  abbrev open_if : ℕ → Option (W → W × Option ℕ) → (W × Option ℕ → W × Bool) → W → W × Bool
  open_if wanted node opened w =
      if wanted == 0
      then (w, true)
      else elim node [ none ↦ (w, false) | some node_open ↦ opened (node_open w) ]

  abbrev screen_opened : W × Option ℕ → W × Bool
  screen_opened (w, none) = (w, false)
  screen_opened (w, some fd) = (keep (record (cmer w) { tscrn_fd = some fd }) w, true)

  abbrev started : W × Bool → W × ℕ
  started (w, false) = (w, at_cme_enomem)
  started (w, true) = (keep (record (cmer w) { enabled = true }) w, at_ok)

  abbrev start_if : ℕ → W × Bool → W × ℕ
  start_if mode (w, false) = (w, at_error)
  start_if mode (w, true) = if mode == 0 then (w, at_ok) else started (nodes.start w)

  abbrev screen_if : ℕ → W × Bool → W × Bool
  screen_if tscrn (w, false) = (w, false)
  screen_if tscrn (w, true) = open_if tscrn nodes.open_screen screen_opened w

  abbrev pub cmer_to : W → (ℕ × ℕ × ℕ) ⊎ ℕ → W × ℕ
  cmer_to w (inr err) = (w, err)
  cmer_to w (inl (mode, keyp, tscrn)) =
      let w1 = ended w in
      let w2 = close_keypad w1 (cmer w1).keyp_fd in
      start_if mode (screen_if tscrn (open_if keyp nodes.open_keypad keypad_opened w2))

  unfoldable pub set_cmer : SetCb W
  unfolding scan_cmer
  set_cmer w req = cmer_to w (scan_cmer req)

module _ {W : Type 0} (number : Name → ℕ) (cmer : W → Cmer) (keep : Cmer → W → W)
    (modem : W → Modem) (put : Modem → W → W) where
  abbrev reported : W → Option Bytes → W
  reported w none = w
  reported w (some text) = put (at_unsolicited (modem w) text).0 w

  unfoldable pub report_keyp : W → Event → W
  unfolding keyp_line
  report_keyp w ev = reported w (keyp_line number ev)

  unfoldable pub report_tscrn : W → Event → W
  unfolding tscrn_line touched
  report_tscrn w ev =
      if ev.type == number ev_syn
      then reported w (some (tscrn_line (cmer w)))
      else keep (touched number ev (cmer w)) w

  unfoldable pub get_cmer : GetCb W
  get_cmer w =
      let c = cmer w in
      let screen = if is_some c.tscrn_fd then 3 else 0 in
      let text =
        codes "\r\n+CMER: "
        ++ (decimal (bit c.enabled)
            ++ (b','
                ∷ (decimal (bit (is_some c.keyp_fd)) ++ (codes ",0,0,0," ++ decimal screen)))) in
      (put (at_intermediate (modem w) text).0 w, at_ok)

  -- Whether the nodes can be read.
  unfoldable pub list_cmer : Bool → Bool → GetCb W
  list_cmer can_keyp can_tscrn w =
      let keyp = if can_keyp then codes "0-1" else codes "0" in
      let tscrn = if can_tscrn then codes "0,3" else codes "0" in
      let text =
        codes "\r\n+CMER: (0-1),(" ++ (keyp ++ (codes "),(0),(0),(0),(" ++ (tscrn ++ codes ")"))) in
      (put (at_intermediate (modem w) text).0 w, at_ok)

-- What is found of a device that is open: nothing to read, or not a whole event; that it is gone; an
-- event.
pub data Found : Type 0 where
  nothing gone : Found
  event : Event → Found

module _ {W : Type 0} (nodes : Nodes W) (number : Name → ℕ) (cmer : W → Cmer) (keep : Cmer → W → W)
    (modem : W → Modem) (put : Modem → W → W) where
  abbrev keypad_turn : W → Option ℕ → Found → W
  keypad_turn w none found = w
  keypad_turn w (some fd) nothing = w
  keypad_turn w (some fd) gone = close_keypad nodes cmer keep w (some fd)
  keypad_turn w (some fd) (event ev) = report_keyp number cmer keep modem put w ev

  abbrev screen_turn : W → Option ℕ → Found → W
  screen_turn w none found = w
  screen_turn w (some fd) nothing = w
  screen_turn w (some fd) gone =
      keep (record (cmer (nodes.close w fd)) { tscrn_fd = none }) (nodes.close w fd)
  screen_turn w (some fd) (event ev) = report_tscrn number cmer keep modem put w ev

  -- A turn of the loop of `cmer_thread` after poll().
  unfoldable pub cmer_turn : W → Found → Found → W
  unfolding report_keyp report_tscrn
  cmer_turn w keyp tscrn =
      let w1 = keypad_turn w (cmer w).keyp_fd keyp in screen_turn w1 (cmer w1).tscrn_fd tscrn

abbrev pub no_reports : Cmer
no_reports = record {
  keyp_fd = none;
  tscrn_fd = none;
  enabled = false;
  depressed = false;
  x = 0;
  y = 0;
}

module _ {W : Type 0} (nodes : Nodes W) (number : Name → ℕ) (cmer : W → Cmer) (keep : Cmer → W → W)
    (modem : W → Modem) (put : Modem → W → W) where
  unfoldable pub register_cmer : Bool → Bool → Bank W → W → Bank W × W
  register_cmer can_keyp can_tscrn bank w = (
    (register_ext bank (codes "+CMER") (
        ext (set_cmer nodes cmer keep) (some (get_cmer number cmer keep modem put))
          (some (list_cmer number cmer keep modem put can_keyp can_tscrn)))).0,
    keep no_reports w,
  )

  unfoldable pub unregister_cmer : W → W
  unfolding set_cmer
  unregister_cmer w = (set_cmer nodes cmer keep w (codes "0,0,0,0,0,0")).0
