-- ===== src/Events/Touchscreen.antt =====
-- plugins/uinput.c: AT+CTSA and AT+CSS, and the registration of the commands.
use meego_cellular_matd.Prelude.{
  ℕ, ◌+◌, ◌-◌, ◌%◌, ◌^◌, Bool, true, false, Option, none, some, List, [], ◌∷◌, ◌++◌, Bytes, codes,
  leb, ◌==◌, if◌then◌else◌,
}
use meego_cellular_matd.Libc.Scanf.{
  Directive, space, literal, uint, sscanf, count_of, num_at, Scanned,
}
use meego_cellular_matd.Libc.Format.{decimal}
use meego_cellular_matd.Modem.{
  Modem, at_ok, at_error, at_cme_enotsup, at_cme_einval, at_cme_eperm, at_intermediate,
}
use meego_cellular_matd.Commands.{GetCb, SetCb, Bank, register_ext}
use meego_cellular_matd.Ofono.Voicecall.{ext}
use meego_cellular_matd.Events.Keymap.{
  Name, btn_touch, ev_key, ev_abs, ev_syn, syn_report, syn_mt_report, abs_x, abs_y,
  abs_mt_position_x, abs_mt_position_y, abs_mt_touch_major, abs_mt_tracking_id,
}
use meego_cellular_matd.Events.Device.{
  destroy_uinput, Time, Request, write_dev, set_phys, set_evbit, set_keybit, set_absbit, Kernel,
  add_delay, create_uinput,
}
use meego_cellular_matd.Events.Keypad.{Inputs, handle_keypad, set_cmec, get_cmec, list_cmec}

-- The size along an axis, for its greatest and its least value, if the device gives them.
unfoldable pub extent : ℕ → Option (ℕ × ℕ) → ℕ
extent missing none = missing
extent missing (some (greatest, least)) = (greatest + 2 ^ 32 - least + 1) % 2 ^ 32

unfoldable pub get_screen_size : Option (ℕ × ℕ) → Option (ℕ × ℕ) → ℕ × ℕ
unfolding extent
get_screen_size x y = (extent 800 x, extent 480 y)

unfoldable pub setup_touchscreen : ℕ × ℕ → List (Bool × Request)
setup_touchscreen (width, height) =
    let w = (width + 2 ^ 32 - 1) % 2 ^ 32 in
    let h = (height + 2 ^ 32 - 1) % 2 ^ 32 in
    (
      true,
      write_dev (codes "3GPP Mobile Terminal touchscreen controls") (
          (abs_x, w)
          ∷ (abs_y, h)
          ∷ (abs_mt_position_x, w)
          ∷ (abs_mt_position_y, h)
          ∷ (abs_mt_touch_major, 1)
          ∷ []),
    )
    ∷ (false, set_phys)
    ∷ (true, set_evbit ev_key)
    ∷ (true, set_keybit btn_touch)
    ∷ (true, set_evbit ev_abs)
    ∷ (true, set_absbit abs_x)
    ∷ (true, set_absbit abs_y)
    ∷ (true, set_absbit abs_mt_touch_major)
    ∷ (true, set_absbit abs_mt_position_x)
    ∷ (true, set_absbit abs_mt_position_y)
    ∷ (true, set_absbit abs_mt_tracking_id)
    ∷ []

-- What `set_ctsa` does, one after the other.
pub data Action : Type 0 where
  emit : Name → Name → ℕ → Action
  delay : Action

abbrev pub depress : ℕ → List Action
depress action = if action == 0 then [] else emit ev_key btn_touch 1 ∷ []

abbrev pub release : ℕ → List Action
release action = if action == 1 then [] else emit ev_key btn_touch 0 ∷ emit ev_syn syn_report 0 ∷ []

abbrev pub move_to : ℕ → ℕ → List Action
move_to x y =
    emit ev_abs abs_x x
    ∷ emit ev_abs abs_y y
    ∷ delay
    ∷ emit ev_abs abs_mt_position_x x
    ∷ emit ev_abs abs_mt_position_y y
    ∷ emit ev_abs abs_mt_touch_major 1
    ∷ emit ev_abs abs_mt_tracking_id 0
    ∷ emit ev_syn syn_mt_report 0
    ∷ emit ev_syn syn_report 0
    ∷ delay
    ∷ []

unfoldable pub actions : ℕ → ℕ → ℕ → List Action
actions action x y = depress action ++ (move_to x y ++ release action)

abbrev ctsa_of : Scanned → Option (ℕ × ℕ × ℕ)
ctsa_of r = elim (count_of r) [
  | none ↦ none
  | some n ↦ if n == 3 then some (num_at r.args 0, num_at r.args 1, num_at r.args 2) else none
]

unfoldable pub scan_ctsa : Bytes → Option (ℕ × ℕ × ℕ)
unfolding sscanf
scan_ctsa req =
    let comma : List Directive → List Directive = λ rest. space ∷ literal b',' ∷ space ∷ rest in
    ctsa_of (sscanf (uint ∷ comma (uint ∷ comma (uint ∷ []))) req)

module _ {W : Type 0} (kernel : Kernel W) (inputs : W → Inputs) (keep : Inputs → W → W)
    (axis : W → Name → Option (ℕ × ℕ)) where
  abbrev screen_size : W → ℕ × ℕ
  screen_size w = get_screen_size (axis w abs_x) (axis w abs_y)

  -- Up to the first event that cannot be sent.
  unfoldable pub act : W → ℕ → Time → List Action → W × ℕ
  unfolding add_delay
  act w fd time [] = (w, at_ok)
  act w fd time (delay ∷ rest) = act w fd (add_delay time (0, 100000)) rest
  act w fd time (emit type code value ∷ rest) =
      let (w1, done) = kernel.write_event w fd (record {
        time = time;
        type = kernel.number type;
        code = kernel.number code;
        value = value;
      }) in
      if done then act w1 fd time rest else (w1, at_error)

  abbrev touch : ℕ × ℕ × ℕ → W × Option ℕ → W × ℕ
  touch given (w, none) = (w, at_error)
  touch (action, x, y) (w, some fd) =
      let p = inputs w in
      let w1 = keep (record p { screen = record p.screen { fd = some fd } }) w in
      act w1 fd (kernel.gettimeofday w1) (actions action x y)

  abbrev touch_to : W → Option (ℕ × ℕ × ℕ) → W × ℕ
  touch_to w none = (w, at_cme_einval)
  touch_to w (some (action, x, y)) =
      if leb 3 action
      then (w, at_cme_enotsup)
      else touch (action, x, y)
          (create_uinput kernel w (inputs w).screen.fd (setup_touchscreen (screen_size w)))

  unfoldable pub set_ctsa : SetCb W
  unfolding scan_ctsa create_uinput setup_touchscreen get_screen_size act actions
  set_ctsa w req =
      if (inputs w).screen.cmec == 0 then (w, at_cme_eperm) else touch_to w (scan_ctsa req)

module _ {W : Type 0} (modem : W → Modem) (put : Modem → W → W)
    (axis : W → Name → Option (ℕ × ℕ)) where
  unfoldable pub list_ctsa : GetCb W
  list_ctsa w = (put (at_intermediate (modem w) (codes "\r\n+CTSA: (0-2)")).0 w, at_ok)

  unfoldable pub handle_css : SetCb W
  unfolding get_screen_size
  handle_css w (c ∷ req) = (w, at_cme_einval)
  handle_css w [] =
      let (width, height) = get_screen_size (axis w abs_x) (axis w abs_y) in
      let text = codes "\r\n+CSS: " ++ (decimal width ++ (b',' ∷ decimal height)) in
      (put (at_intermediate (modem w) text).0 w, at_ok)

abbrev pub no_inputs : Inputs
no_inputs = record {
  keypad = record { fd = none; cmec = 2 };
  screen = record { fd = none; cmec = 2 };
}

module _ {W : Type 0} (kernel : Kernel W) (inputs : W → Inputs) (keep : Inputs → W → W)
    (axis : W → Name → Option (ℕ × ℕ)) (modem : W → Modem) (put : Modem → W → W) where
  unfoldable pub register_inputs : Bank W → W → Bank W × W
  register_inputs bank w =
      let bank =
        (register_ext bank (codes "+CKPD") (ext (handle_keypad kernel inputs keep) none none)).0 in
      let bank =
        (register_ext bank (codes "+CTSA")
          (ext (set_ctsa kernel inputs keep axis) none (some (list_ctsa modem put axis)))).0 in
      let bank = (register_ext bank (codes "+CSS") (ext (handle_css modem put axis) none none)).0 in
      (
        (register_ext bank (codes "+CMEC") (
            ext (set_cmec kernel inputs keep) (some (get_cmec modem put inputs))
              (some (list_cmec modem put inputs)))).0,
        keep no_inputs w,
      )

  unfoldable pub unregister_inputs : W → W
  unfolding destroy_uinput
  unregister_inputs w =
      let w1 = destroy_uinput kernel w (inputs w).keypad.fd in
      destroy_uinput kernel w1 (inputs w1).screen.fd
