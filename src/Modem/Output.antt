-- ===== src/Modem/Output.antt =====
-- What reaches the DTE of a text that the modem writes.
use meego_cellular_matd.Prelude.{
  ℕ, zero, suc, ◌≡◌, refl, sym, ap, ◌∙◌, ◌⊎◌, inl, inr, true, false, List, [], ◌∷◌, ◌++◌,
  append-nil, append_assoc, Bytes, Bool-cases, take, drop, take-append-drop,
}
use meego_cellular_matd.Modem.{
  Written, wrote, interrupted, failed, Modem, minus_one, write_loop, write_unlocked, at_unsolicited,
}

-- `part` is what of `blob` was written: all of it if the result is 0, else a beginning.
pub record Delivers (blob before after : Bytes) (result : ℕ) : Type 0 where
  pub part : Bytes
  pub unsent : Bytes
  pub splits : blob ≡ part ++ unsent
  pub sent_is : after ≡ before ++ part
  pub result_is : ((result ≡ 0) × (unsent ≡ [])) ⊎ (result ≡ minus_one)

write_loop-Delivers :
    (ws : List Written) (sent blob : Bytes)
    → Delivers blob sent (write_loop ws sent blob).sent (write_loop ws sent blob).result
unfolding write_loop
write_loop-Delivers ws sent [] = record {
  part = [];
  unsent = [];
  splits = refl;
  sent_is = sym (append-nil sent);
  result_is = inl (refl, refl);
}
write_loop-Delivers [] sent (c ∷ blob) = record {
  part = c ∷ blob;
  unsent = [];
  splits = sym (append-nil (c ∷ blob));
  sent_is = refl;
  result_is = inl (refl, refl);
}
write_loop-Delivers (interrupted ∷ ws) sent (c ∷ blob) = write_loop-Delivers ws sent (c ∷ blob)
write_loop-Delivers (failed ∷ ws) sent (c ∷ blob) = record {
  part = [];
  unsent = c ∷ blob;
  splits = refl;
  sent_is = sym (append-nil sent);
  result_is = inr refl;
}
write_loop-Delivers (wrote zero ∷ ws) sent (c ∷ blob) = record {
  part = [];
  unsent = c ∷ blob;
  splits = refl;
  sent_is = sym (append-nil sent);
  result_is = inr refl;
}
write_loop-Delivers (wrote (suc n) ∷ ws) sent (c ∷ blob) =
    let first = take (suc n) (c ∷ blob) in
    let d = write_loop-Delivers ws (sent ++ first) (drop (suc n) (c ∷ blob)) in
    record {
      part = first ++ d.part;
      unsent = d.unsent;
      splits =
          sym (take-append-drop (suc n) (c ∷ blob))
          ∙ ap (λ s. first ++ s) d.splits
          ∙ sym (append_assoc first d.part d.unsent);
      sent_is = d.sent_is ∙ append_assoc sent first d.part;
      result_is = d.result_is;
    }

-- Whatever the system calls do (short writes, interruptions, errors), what reaches the DTE of a text
-- is a beginning of it, each byte once and in order; it is all of it if the result is 0, and the
-- result is -1 otherwise.
pub write_unlocked-Delivers :
    (m : Modem) (blob : Bytes)
    → Delivers blob m.sent (write_unlocked m blob).0.sent (write_unlocked m blob).1
unfolding write_unlocked
write_unlocked-Delivers m blob = write_loop-Delivers m.writes m.sent blob

-- In data mode an unsolicited text is dropped with result -1 and the modem is unchanged; outside of
-- data mode it is delivered as far as the system calls allow.
at_unsolicited-Delivers :
    (m : Modem) (blob : Bytes)
    → ((m.in_data ≡ true) × (at_unsolicited m blob ≡ (m, minus_one)))
      ⊎ ((m.in_data ≡ false)
          × Delivers blob m.sent (at_unsolicited m blob).0.sent (at_unsolicited m blob).1)
unfolding at_unsolicited
at_unsolicited-Delivers m blob = elim (Bool-cases m.in_data) [
  | inl busy ↦ inl (busy, rw busy)
  | inr idle ↦ inr (idle, rw idle (write_loop-Delivers m.writes m.sent blob))
]
