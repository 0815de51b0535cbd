-- ===== src/Events/Presses.antt =====
-- plugins/uinput.c and plugins/input.c: the keys that AT+CKPD presses, and what +CKEV shows of them.
use meego_cellular_matd.Prelude.{ℕ, Bool, Option, none, some, if◌then◌else◌}
use meego_cellular_matd.Modem.{at_ok, at_error}
use meego_cellular_matd.Events.Device.{Time, Kernel, add_delay, ds_to_tv}
use meego_cellular_matd.Events.Keypad.{Inputs, emit_key}

module _ {W : Type 0} (kernel : Kernel W) (inputs : W → Inputs) (keep : Inputs → W → W) where
  -- A press of a key at a time and its release a tenth of a second later, up to a failure.
  unfoldable pub press_key : W → ℕ → Time → ℕ → W × ℕ
  unfolding emit_key
  press_key w fd time code =
      let (w1, pressed) = emit_key kernel inputs keep w fd time code 1 in
      let (w2, released) = emit_key kernel inputs keep w1 fd (add_delay time (ds_to_tv 1)) code 0 in
      if pressed then (if released then (w2, at_ok) else (w2, at_error)) else (w1, at_error)

  -- What AT+CKPD does for one key: it sets the device up, and presses the key at once or, for late,
  -- two tenths of a second later.
  abbrev pub press_one : Bool → ℕ → W × Option ℕ → W × ℕ
  press_one late code (w, none) = (w, at_error)
  press_one late code (w, some fd) =
      let p = inputs w in
      let w1 = keep (record p { keypad = record p.keypad { fd = some fd } }) w in
      let now = kernel.gettimeofday w1 in
      let tenth = ds_to_tv 1 in
      press_key w1 fd (if late then add_delay (add_delay now tenth) tenth else now) code
