-- ===== src/Reply/Text.antt =====
-- What the DTE sees of a result code.
use meego_cellular_matd.Prelude.{
  ℕ, ◌+◌, ◌-◌, ◌<◌, ◌≡◌, sym, ap, ◌∙◌, false, [], ◌∷◌, ◌++◌, arith, Bytes, codes, if_false,
}
use mathlib.Core.List.{append_cancel_left, append_cancel_right}
use meego_cellular_matd.Libc.Format.{decimal, crlf, decimal-injective}
use meego_cellular_matd.Modem.{
  Modem, at_cme_error_0, at_cme_error_max, at_intermediate, write_unlocked, write_loop,
}
use meego_cellular_matd.Reply.{print_cme, print_loud, at_print_reply}

-- One text goes out, between two line ends.
abbrev pub PrintsOne : Modem → Modem × ℕ → Type 0
PrintsOne m r = (t : Bytes) × (r ≡ write_unlocked m (crlf ++ (t ++ crlf)))

append_cancel : (s a b c : Bytes) → s ++ (a ++ c) ≡ s ++ (b ++ c) → a ≡ b
append_cancel s a b c h = append_cancel_right a b c (append_cancel_left s (a ++ c) (b ++ c) h)

cme_text : ℕ → Bytes
cme_text res = codes "\r\n+CME ERROR: " ++ (decimal res ++ crlf)

print_cme_numeric :
    (m : Modem) (res : ℕ) → m.cmee ≡ 1 → print_cme m res ≡ at_intermediate m (cme_text res)
unfolding print_cme cme_text
print_cme_numeric m res mode = ground arith

-- A CME error in the numeric mode.
print_loud-cme :
    (m : Modem) (res : ℕ)
    → m.cmee ≡ 1
    → res < 0x100
    → print_loud m (at_cme_error_0 + res) ≡ at_intermediate m (cme_text res)
unfolding print_loud
print_loud-cme m res mode small =
    let numeric = print_cme_numeric m (at_cme_error_0 + res - at_cme_error_0) mode in
    let same : at_cme_error_0 + res - at_cme_error_0 ≡ res = omega arith in
    let printed = numeric ∙ ap (λ k. at_intermediate m (cme_text k)) same in ground (arith, printed)

written_all :
    (m : Modem) (c : ℕ) (t : Bytes)
    → m.in_data ≡ false
    → m.writes ≡ []
    → (at_intermediate m (c ∷ t)).0.sent ≡ m.sent ++ (c ∷ t)
unfolding at_intermediate write_unlocked write_loop
written_all m c t idle all_taken =
    ap (λ (r : Modem × ℕ). r.0.sent) (if_false _ (write_unlocked m (c ∷ t)) idle)
    ∙ ap (λ ws. (write_loop ws m.sent (c ∷ t)).sent) all_taken

-- What a CME error adds to the output.
print_reply-sent :
    (m : Modem) (res : ℕ)
    → m.in_data ≡ false
    → m.quiet ≡ false
    → m.cmee ≡ 1
    → m.writes ≡ []
    → res < 0x100
    → (at_print_reply m (at_cme_error_0 + res)).0.sent ≡ m.sent ++ cme_text res
unfolding at_print_reply cme_text
print_reply-sent m res idle loud mode all_taken small =
    ap (λ (r : Modem × ℕ). r.0.sent)
      (if_false (m, 0) (print_loud m (at_cme_error_0 + res)) loud ∙ print_loud-cme m res mode small)
    ∙ written_all m _ _ idle all_taken

-- With the numeric error mode, and system calls that take all they are given, two CME errors that
-- are reported alike are the same error.
at_print_reply-injective :
    (m : Modem) (res other : ℕ)
    → m.in_data ≡ false
    → m.quiet ≡ false
    → m.cmee ≡ 1
    → m.writes ≡ []
    → res < at_cme_error_max - at_cme_error_0 + 1
    → other < at_cme_error_max - at_cme_error_0 + 1
    → (at_print_reply m (at_cme_error_0 + res)).0.sent
      ≡ (at_print_reply m (at_cme_error_0 + other)).0.sent
    → res ≡ other
at_print_reply-injective m res other idle loud mode all_taken small small' h =
    let texts =
      sym (print_reply-sent m res idle loud mode all_taken small)
      ∙ h
      ∙ print_reply-sent m other idle loud mode all_taken small' in
    decimal-injective res other (
      append_cancel (codes "\r\n+CME ERROR: ") (decimal res) (decimal other) crlf
        (unfold cme_text in append_cancel_left m.sent (cme_text res) (cme_text other) texts))
