-- ===== src/Events.antt =====
-- plugins/uinput.c and plugins/input.c: events of the Linux input framework.
pub mod Keymap
pub mod Device
pub mod Keypad
pub mod Touchscreen
pub mod Reports
pub mod Shown
pub mod Presses
