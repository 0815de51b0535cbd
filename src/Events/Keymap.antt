-- ===== src/Events/Keymap.antt =====
-- plugins/keymap.h: the keys of AT+CKPD, and the names of <linux/input.h> that plugins/uinput.c and
-- plugins/input.c use. The numbers behind the names are a parameter.
use meego_cellular_matd.Prelude.{Option, none, some, List, [], ◌∷◌}

pub data Name : Type 0 where
  key_space key_numeric_pound key_apostrophe key_numeric_star key_comma key_minus key_dot : Name
  key_slash key_0 key_1 key_2 key_3 key_4 key_5 key_6 key_7 key_8 key_9 key_semicolon key_left :
      Name
  key_equal key_right key_ab key_a key_b key_clear key_c key_volumedown key_d key_esc key_e : Name
  key_fn key_f key_g key_h key_i key_j key_k key_screenlock key_l key_menu key_m key_n key_o : Name
  key_power key_p key_mute key_q key_last key_r key_enter key_s key_t key_volumeup key_u : Name
  key_down key_v key_pause key_w key_aux key_x key_backspace key_y key_z key_leftbrace : Name
  key_backslash key_rightbrace key_up key_grave btn_touch ev_key ev_abs ev_syn syn_report : Name
  syn_mt_report abs_x abs_y abs_mt_position_x abs_mt_position_y abs_mt_touch_major : Name
  abs_mt_tracking_id : Name

-- `keymap`: what a character from 32 on presses, without and within semicolons; `none` is 0. The last
-- row has no initializer.
abbrev pub Row : Type 0
Row = Option Name × Option Name

abbrev pub keymap : List Row
keymap =
    (none, some key_space)
    ∷ (none, none)
    ∷ (none, none)
    ∷ (some key_numeric_pound, none)
    ∷ (none, none)
    ∷ (none, none)
    ∷ (none, none)
    ∷ (none, some key_apostrophe)
    ∷ (none, none)
    ∷ (none, none)
    ∷ (some key_numeric_star, none)
    ∷ (none, none)
    ∷ (none, some key_comma)
    ∷ (none, some key_minus)
    ∷ (none, some key_dot)
    ∷ (none, some key_slash)
    ∷ (some key_0, some key_0)
    ∷ (some key_1, some key_1)
    ∷ (some key_2, some key_2)
    ∷ (some key_3, some key_3)
    ∷ (some key_4, some key_4)
    ∷ (some key_5, some key_5)
    ∷ (some key_6, some key_6)
    ∷ (some key_7, some key_7)
    ∷ (some key_8, some key_8)
    ∷ (some key_9, some key_9)
    ∷ (none, none)
    ∷ (none, some key_semicolon)
    ∷ (some key_left, none)
    ∷ (none, some key_equal)
    ∷ (some key_right, none)
    ∷ (none, none)
    ∷ (some key_ab, none)
    ∷ (some key_a, some key_a)
    ∷ (some key_b, some key_b)
    ∷ (some key_clear, some key_c)
    ∷ (some key_volumedown, some key_d)
    ∷ (some key_esc, some key_e)
    ∷ (some key_fn, some key_f)
    ∷ (none, some key_g)
    ∷ (none, some key_h)
    ∷ (none, some key_i)
    ∷ (none, some key_j)
    ∷ (none, some key_k)
    ∷ (some key_screenlock, some key_l)
    ∷ (some key_menu, some key_m)
    ∷ (none, some key_n)
    ∷ (none, some key_o)
    ∷ (some key_power, some key_p)
    ∷ (some key_mute, some key_q)
    ∷ (some key_last, some key_r)
    ∷ (some key_enter, some key_s)
    ∷ (some key_enter, some key_t)
    ∷ (some key_volumeup, some key_u)
    ∷ (some key_down, some key_v)
    ∷ (some key_pause, some key_w)
    ∷ (some key_aux, some key_x)
    ∷ (some key_backspace, some key_y)
    ∷ (none, some key_z)
    ∷ (some key_1, some key_leftbrace)
    ∷ (none, some key_backslash)
    ∷ (some key_2, some key_rightbrace)
    ∷ (some key_up, none)
    ∷ (none, none)
    ∷ (none, some key_grave)
    ∷ (some key_a, some key_a)
    ∷ (some key_b, some key_b)
    ∷ (some key_clear, some key_c)
    ∷ (some key_volumedown, some key_d)
    ∷ (some key_esc, some key_e)
    ∷ (some key_fn, some key_f)
    ∷ (none, some key_g)
    ∷ (none, some key_h)
    ∷ (none, some key_i)
    ∷ (none, some key_j)
    ∷ (none, some key_k)
    ∷ (some key_screenlock, some key_l)
    ∷ (some key_menu, some key_m)
    ∷ (none, some key_n)
    ∷ (none, some key_o)
    ∷ (some key_power, some key_p)
    ∷ (some key_mute, some key_q)
    ∷ (some key_last, some key_r)
    ∷ (some key_enter, some key_s)
    ∷ (some key_enter, some key_t)
    ∷ (some key_volumeup, some key_u)
    ∷ (some key_down, some key_v)
    ∷ (some key_pause, some key_w)
    ∷ (some key_aux, some key_x)
    ∷ (some key_backspace, some key_y)
    ∷ (none, some key_z)
    ∷ (none, none)
    ∷ (none, none)
    ∷ (none, none)
    ∷ (none, none)
    ∷ (none, none)
    ∷ []
