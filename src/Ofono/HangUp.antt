-- ===== src/Ofono/HangUp.antt =====
-- plugins/ofono/voicecall.c: the loop of AT+CHUP, on buses that do and do not end the calls.
use meego_cellular_matd.Prelude.{
  ℕ, zero, suc, ◌<◌, ◌≡◌, refl, ap, ◌∙◌, inl, inr, false, Option, none, some, [], arith, codes,
  ◌==◌, ==_iff, if_true, if_false, Bool-cases,
}
use mathlib.Core.Option
use meego_cellular_matd.Modem.{at_ok, minus_one}
use meego_cellular_matd.Ofono.{Host, voicecall_request}
use meego_cellular_matd.Ofono.Calls.{find_call_by_state, hang_up_loop, set_chup}

module _ {W : Type 0} (host : Host W) where
  abbrev pub find_active : W → W × ℕ
  find_active w = find_call_by_state host w (codes "active")

  abbrev pub hang_up : W × ℕ → W
  hang_up (w, id) = (voicecall_request host w id (codes "Hangup") []).0

  hang_up_loop-none :
      (fuel : ℕ) (w : W)
      → (find_active w).1 ≡ minus_one
      → hang_up_loop host (suc fuel) w ≡ some (find_active w).0
  unfolding hang_up_loop
  hang_up_loop-none fuel w h = if_true _ _ ((==_iff (find_active w).1 minus_one).1 h)

  hang_up_loop-some :
      (fuel : ℕ) (w : W)
      → ((find_active w).1 == minus_one) ≡ false
      → hang_up_loop host (suc fuel) w ≡ hang_up_loop host fuel (hang_up (find_active w))
  unfolding hang_up_loop
  hang_up_loop-some fuel w h = if_false _ _ h

  -- The loop has ended behind a look at the calls that found none active.
  abbrev pub Ended : Option (W × ℕ) → Type 0
  Ended r =
      (last : W) × ((find_active last).1 ≡ minus_one) × (r ≡ some ((find_active last).0, at_ok))

  module _ (calls : W → ℕ)
      (ends : (w : W)
        → ((find_active w).1 == minus_one) ≡ false
        → calls (hang_up (find_active w)) < calls w) where
    hang_up_loop-ends :
        (fuel : ℕ) (w : W)
        → calls w < fuel
        → (last : W) × ((find_active last).1 ≡ minus_one)
          × (hang_up_loop host fuel w ≡ some (find_active last).0)
    hang_up_loop-ends zero w h = absurd (omega arith)
    hang_up_loop-ends (suc fuel) w h = elim (Bool-cases ((find_active w).1 == minus_one)) [
      | inl found ↦
          let none_left = (==_iff (find_active w).1 minus_one).0 found in
          (w, none_left, hang_up_loop-none fuel w none_left)
      | inr more ↦
          let (last, none_left, e) =
            hang_up_loop-ends fuel (hang_up (find_active w)) (omega (arith, ends w more)) in
          (last, none_left, hang_up_loop-some fuel w more ∙ e)
    ]

    -- If each hang-up of an active call that is found makes a number of calls smaller, AT+CHUP
    -- without a parameter ends, with as many turns of its loop as that number and one more; it
    -- gives OK, and the last look at the calls found none active.
    pub set_chup-Ended : (fuel : ℕ) (w : W) → calls w < fuel → Ended (set_chup host fuel w [])
    unfolding set_chup
    set_chup-Ended fuel w h =
        let (last, none_left, e) = hang_up_loop-ends fuel w h in
        (last, none_left, ap (Option.map (λ w1. (w1, at_ok))) e)

  hang_up_loop-stuck :
      (w : W)
      → ((find_active w).1 == minus_one) ≡ false
      → hang_up (find_active w) ≡ w
      → (fuel : ℕ) → hang_up_loop host fuel w ≡ none
  unfolding hang_up_loop
  hang_up_loop-stuck w found same zero = refl
  hang_up_loop-stuck w found same (suc fuel) =
      hang_up_loop-some fuel w found
      ∙ ap (hang_up_loop host fuel) same
      ∙ hang_up_loop-stuck w found same fuel

  -- If an active call is found and the request to hang it up leaves everything as it was, the loop
  -- of AT+CHUP does not end in any number of turns.
  pub set_chup-none :
      (w : W)
      → ((find_active w).1 == minus_one) ≡ false
      → hang_up (find_active w) ≡ w
      → (fuel : ℕ) → set_chup host fuel w [] ≡ none
  unfolding set_chup
  set_chup-none w found same fuel =
      ap (Option.map (λ w1. (w1, at_ok))) (hang_up_loop-stuck w found same fuel)
