-- ===== src/Modem.antt =====
-- src/at_modem.c: the state of `struct at_modem`, its session parameters and its output functions.
-- include/at_command.h: `enum at_error`.
pub mod Output
use meego_cellular_matd.Prelude.{
  ℕ, zero, suc, ◌+◌, ◌-◌, ◌%◌, ◌^◌, Bool, true, false, List, [], ◌∷◌, ◌++◌, Bytes, leb,
  if◌then◌else◌, take, drop,
}

-- What one call of write(2) on the descriptor to the DTE does.
pub data Written : Type 0 where
  wrote : ℕ → Written
  interrupted : Written  -- EINTR
  failed : Written

-- The state that the modem's own code reads and writes. The outcomes of the calls of write(2) to
-- come are a list; past its end each call takes all that it is given. `aborted` says that an
-- assertion has failed or that a read was out of bounds.
pub record Modem : Type 0 where
  pub echo : Bool
  pub quiet : Bool
  pub verbose : Bool
  pub rate_report : Bool
  pub in_data : Bool  -- `data`: data mode
  pub cmee : ℕ
  pub hungup : Bool
  pub reset : Bool
  pub charset : ℕ
  pub sent : Bytes
  pub writes : List Written
  pub aborted : Bool

-- `at_error_t` and the value -1 of an `int` as one.
abbrev pub at_ok : ℕ
at_ok = 0

abbrev pub at_no_carrier : ℕ
at_no_carrier = 3

abbrev pub at_error : ℕ
at_error = 4

abbrev pub at_no_dialtone : ℕ
at_no_dialtone = 6

abbrev pub at_cme_error_0 : ℕ
at_cme_error_0 = 0x100

abbrev pub at_cme_enotsup : ℕ
at_cme_enotsup = 0x104

abbrev pub at_cme_einval : ℕ
at_cme_einval = 0x132

abbrev pub at_cme_ebusy : ℕ
at_cme_ebusy = 0x102

abbrev pub at_cme_eperm : ℕ
at_cme_eperm = 0x103

abbrev pub at_cme_enomem : ℕ
at_cme_enomem = 0x114

abbrev pub at_cme_enoent : ℕ
at_cme_enoent = 0x116

abbrev pub at_cme_etimedout : ℕ
at_cme_etimedout = 0x11F

abbrev pub at_cme_unknown : ℕ
at_cme_unknown = 0x164

abbrev pub at_cme_error_max : ℕ
at_cme_error_max = 0x1FF

abbrev pub at_cms_error_0 : ℕ
at_cms_error_0 = 0x200

abbrev pub at_cms_error_max : ℕ
at_cms_error_max = 0x3FF

abbrev pub at_cms_enotsup : ℕ
at_cms_enotsup = 815

abbrev pub at_cms_pdu_einval : ℕ
at_cms_pdu_einval = 816

abbrev pub at_cms_txt_einval : ℕ
at_cms_txt_einval = 817

abbrev pub at_cms_enomem : ℕ
at_cms_enomem = 834

abbrev pub at_cms_unknown : ℕ
at_cms_unknown = 1012

abbrev pub minus_one : ℕ
minus_one = 2 ^ 32 - 1

-- `at_reset`
unfoldable pub at_reset : Modem → Modem
at_reset m = record m {
  echo = true;
  quiet = false;
  verbose = true;
  rate_report = false;
  in_data = false;
  cmee = 1;
  hungup = false;
  reset = true;
  charset = 0;
}

abbrev pub set_echo : Modem → Bool → Modem
set_echo m on = record m { echo = on }

abbrev pub set_quiet : Modem → Bool → Modem
set_quiet m on = record m { quiet = on }

abbrev pub set_verbose : Modem → Bool → Modem
set_verbose m on = record m { verbose = on }

abbrev pub set_rate_report : Modem → Bool → Modem
set_rate_report m on = record m { rate_report = on }

-- The field has two bits, and the assertion keeps it at most 2.
unfoldable pub set_cmee : Modem → ℕ → Modem
set_cmee m mode = if leb mode 2 then record m { cmee = mode % 4 } else record m { aborted = true }

-- The field has six bits.
unfoldable pub set_charset : Modem → ℕ → Modem
set_charset m cs = record m { charset = cs % 64 }

-- The loop of `at_write_unlocked`, on the outcomes to come: the result, the bytes that reached the
-- DTE, and the outcomes left. A call never takes more than it is given.
pub record Writing : Type 0 where
  pub result : ℕ
  pub sent : Bytes
  pub writes : List Written

unfoldable pub write_loop : List Written → Bytes → Bytes → Writing
write_loop ws sent [] = record { result = 0; sent = sent; writes = ws }
write_loop [] sent (c ∷ blob) = record { result = 0; sent = sent ++ (c ∷ blob); writes = [] }
write_loop (interrupted ∷ ws) sent (c ∷ blob) = write_loop ws sent (c ∷ blob)
write_loop (failed ∷ ws) sent (c ∷ blob) = record { result = minus_one; sent = sent; writes = ws }
write_loop (wrote zero ∷ ws) sent (c ∷ blob) = record {
  result = minus_one;
  sent = sent;
  writes = ws;
}
write_loop (wrote (suc n) ∷ ws) sent (c ∷ blob) =
    write_loop ws (sent ++ take (suc n) (c ∷ blob)) (drop (suc n) (c ∷ blob))

unfoldable pub write_unlocked : Modem → Bytes → Modem × ℕ
unfolding write_loop
write_unlocked m blob =
    let w = write_loop m.writes m.sent blob in
    (record m { sent = w.sent; writes = w.writes }, w.result)

-- `at_unsolicited_blob`: the text is dropped in data mode.
unfoldable pub at_unsolicited : Modem → Bytes → Modem × ℕ
unfolding write_unlocked
at_unsolicited m blob = if m.in_data then (m, minus_one) else write_unlocked m blob

-- `at_intermediate_blob`: it asserts that the modem is not in data mode.
unfoldable pub at_intermediate : Modem → Bytes → Modem × ℕ
unfolding write_unlocked
at_intermediate m blob =
    if m.in_data then (record m { aborted = true }, minus_one) else write_unlocked m blob
