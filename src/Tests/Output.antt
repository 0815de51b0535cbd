-- ===== src/Tests/Output.antt =====
-- Runs of the output of the modem, src/at_modem.c, and of its messages, src/error.c.
use meego_cellular_matd.Prelude.{◌≡◌, refl, true, false, List, [], ◌∷◌, codes}
use meego_cellular_matd.Libc.Format.{decimal}
use meego_cellular_matd.Modem.{
  Modem, Written, wrote, interrupted, failed, write_unlocked, at_unsolicited, at_intermediate,
  at_cme_einval,
}
use meego_cellular_matd.Modem.Output.{Delivers, write_unlocked-Delivers}
use meego_cellular_matd.Reply.{at_print_reply, at_ring}

abbrev modem : List Written → Modem
modem ws = record {
  echo = true;
  quiet = false;
  verbose = true;
  rate_report = false;
  in_data = false;
  cmee = 1;
  hungup = false;
  reset = false;
  charset = 0;
  sent = [];
  writes = ws;
  aborted = false;
}

-- A short write, an interruption and an error.
abbrev broken : Modem
broken = modem (wrote 2 ∷ interrupted ∷ failed ∷ [])

write_unlocked-Delivers_example :
    Delivers
      (codes "hello")
      []
      (write_unlocked broken (codes "hello")).0.sent
      (write_unlocked broken (codes "hello")).1
write_unlocked-Delivers_example = write_unlocked-Delivers broken (codes "hello")

sends_two : (write_unlocked broken (codes "hello")).0.sent ≡ codes "he"
unfolding write_unlocked
sends_two = refl

prints_error : (at_print_reply (modem []) at_cme_einval).0.sent ≡ codes "\r\n+CME ERROR: 50\r\n"
unfolding at_print_reply at_intermediate decimal
prints_error = refl

prints_ring : (at_ring (modem [])).0.sent ≡ codes "\r\nRING\r\n"
unfolding at_ring at_unsolicited
prints_ring = refl
