-- ===== src/Events/Device.antt =====
-- plugins/uinput.c: the devices that the events are sent through. The system calls are a parameter.
use meego_cellular_matd.Prelude.{
  ℕ, ◌+◌, ◌-◌, ◌*◌, ◌/◌, ◌%◌, Bool, true, false, not, ◌&&◌, Option, none, some, List, [], ◌∷◌, ◌++◌,
  Bytes, codes, leb, if◌then◌else◌,
}
use meego_cellular_matd.Events.Keymap.{Name}

-- `struct timeval`
abbrev pub Time : Type 0
Time = ℕ × ℕ

-- `struct input_event`; the value is the bit pattern of an `int32_t`.
pub record Event : Type 0 where
  pub time : Time
  pub type : ℕ
  pub code : ℕ
  pub value : ℕ

-- What a device is set up with.
pub data Request : Type 0 where
  write_dev : Bytes → List (Name × ℕ) → Request  -- the name, and the greatest values of axes
  set_phys : Request
  set_evbit set_keybit set_absbit : Name → Request
  dev_create dev_destroy : Request

-- `uinput_t`; `none` is -1.
pub record Uinput : Type 0 where
  pub fd : Option ℕ
  pub cmec : ℕ

-- The system calls on a state `W`. A write or an ioctl gives whether it has succeeded.
pub record Kernel (W : Type 0) : Type 0 where
  pub number : Name → ℕ
  pub open_file : W → Bytes → W × Option ℕ
  pub close : W → ℕ → W
  pub request : W → ℕ → Request → W × Bool
  pub write_event : W → ℕ → Event → W × Bool
  pub gettimeofday : W → Time

unfoldable pub ds_to_tv : ℕ → Time
ds_to_tv ds = (ds / 10, ds % 10 * 100000)

-- The sum of two times, both with fewer than 1000000 microseconds; the sleep is left out.
unfoldable pub add_delay : Time → Time → Time
add_delay (sec, usec) (dsec, dusec) =
    if leb 1000000 (usec + dusec)
    then (sec + dsec + 1, usec + dusec - 1000000)
    else (sec + dsec, usec + dusec)

module _ {W : Type 0} (kernel : Kernel W) where
  -- The requests of a set-up, up to the first that fails and has to succeed.
  unfoldable pub set_up : W → ℕ → List (Bool × Request) → W × Bool
  set_up w fd [] = (w, true)
  set_up w fd ((must, r) ∷ requests) =
      let (w1, done) = kernel.request w fd r in
      if must && not done then (w1, false) else set_up w1 fd requests

  abbrev open_second : W × Option ℕ → W × Option ℕ
  open_second (w, some fd) = (w, some fd)
  open_second (w, none) = kernel.open_file w (codes "/dev/uinput")

  abbrev created : ℕ → W × Bool → W × Option ℕ
  created fd (w, true) = (w, some fd)
  created fd (w, false) = (kernel.close w fd, none)

  abbrev set_up_opened : List (Bool × Request) → W × Option ℕ → W × Option ℕ
  set_up_opened requests (w, none) = (w, none)
  set_up_opened requests (w, some fd) =
      created fd (set_up w fd (requests ++ ((true, dev_create) ∷ [])))

  -- `create_uinput`: the device as it is then, and its descriptor if there is one.
  unfoldable pub create_uinput : W → Option ℕ → List (Bool × Request) → W × Option ℕ
  unfolding set_up
  create_uinput w (some fd) requests = (w, some fd)
  create_uinput w none requests =
      set_up_opened requests (open_second (kernel.open_file w (codes "/dev/input/uinput")))

  unfoldable pub destroy_uinput : W → Option ℕ → W
  destroy_uinput w none = w
  destroy_uinput w (some fd) = kernel.close (kernel.request w fd dev_destroy).0 fd
