-- ===== src/Interface/Framing.antt =====
-- plugins/interface.c: what AT+ICF reads back of what it has set.
use meego_cellular_matd.Prelude.{
  ℕ, ◌+◌, ◌-◌, ◌≤◌, ◌≡◌, refl, sym, ap, ◌∙◌, subst, Bool, true, false, ◌&&◌, ◌||◌, Option, none,
  some, arith, Bytes, ltb, ◌==◌, if◌then◌else◌, if_true, if_false, all_below, all_below-elim,
}
use meego_cellular_matd.Modem.{Modem, at_ok}
use meego_cellular_matd.Interface.{
  Termios, Terminal, format_of, parity_of, with_framing, read_framing, scan_pair, set_framing,
  get_framing, print_framing, framing_to, at_get_attr, at_set_attr, size_format, stop_format,
  read_parity,
}

-- The framing read back once it has been set, where the second stop bit was set before or not.
unfoldable pub framed : Bool → ℕ → ℕ → Option (ℕ × ℕ)
unfolding read_framing
framed stop format parity =
    read_framing (format_of format).0 (stop || (format_of format).1) (format_of format).2
      (parity_of parity).0 (parity_of parity).1

abbrev same : Option (ℕ × ℕ) → Option (ℕ × ℕ) → Bool
same none none = true
same (some p) none = false
same none (some q) = false
same (some p) (some q) = p.0 == q.0 && p.1 == q.1

both-eq : (x y a b : ℕ) → (x == a && y == b) ≡ true → (x ≡ a) × (y ≡ b)
both-eq x y a b h = ground arith

same-eq : (o o' : Option (ℕ × ℕ)) → same o o' ≡ true → o ≡ o'
same-eq none none h = refl
same-eq (some p) none h = cc
same-eq none (some q) h = cc
same-eq (some p) (some q) h =
    let (e, e') = both-eq p.0 p.1 q.0 q.1 h in
    ap (λ x. some (x, p.1)) e ∙ ap (λ y. some (q.0, y)) e'

-- A check of the formats 1 to 6 with the parities 0 to 3.
abbrev all_framings : (ℕ → ℕ → Bool) → Bool
all_framings p = all_below 6 (λ f. all_below 4 (p (f + 1)))

pub all_framings-elim :
    (p : ℕ → ℕ → Bool) (format parity : ℕ)
    → all_framings p ≡ true
    → 1 ≤ format
    → format ≤ 6
    → parity ≤ 3
    → p format parity ≡ true
unfolding all_below
all_framings-elim p format parity h low high small =
    subst (λ n. p n parity ≡ true) {x = format - 1 + 1} {y = format} (omega (arith, low))
      (all_below-elim 4 (p (format - 1 + 1)) parity
        (all_below-elim 6 (λ f. all_below 4 (p (f + 1))) (format - 1) h (omega (arith, low, high)))
        (omega (arith, small)))

framed-clear :
    (format parity : ℕ)
    → 1 ≤ format
    → format ≤ 6
    → parity ≤ 3
    → framed false format parity ≡ some (format, parity)
unfolding framed read_framing size_format stop_format read_parity all_below
framed-clear format parity low high small =
    same-eq (framed false format parity) (some (format, parity)) (
      all_framings-elim (λ f p. same (framed false f p) (some (f, p))) format parity refl low high
        small)

-- What is read back where the second stop bit was set before: the formats with a parity bit are
-- refused, and those with one stop bit turn into those with two.
abbrev pub kept_stop : ℕ → ℕ → Option (ℕ × ℕ)
kept_stop format parity =
    if format == 1 || format == 3
    then some (1, parity)
    else if format == 4 || format == 6
    then some (4, parity)
    else none

framed-stop :
    (format parity : ℕ)
    → 1 ≤ format
    → format ≤ 6
    → parity ≤ 3
    → framed true format parity ≡ kept_stop format parity
unfolding framed read_framing size_format stop_format read_parity all_below
framed-stop format parity low high small =
    same-eq (framed true format parity) (kept_stop format parity) (
      all_framings-elim (λ f p. same (framed true f p) (kept_stop f p)) format parity refl low high
        small)

module _ {W : Type 0} (modem : W → Modem) (put : Modem → W → W) (terminal : Terminal W)
    (conf : W → ℕ × ℕ) (keep : ℕ × ℕ → W → W) (at_execute : W → Bytes → W × ℕ)
    (takes : (w : W) (tp : Termios) → (terminal.tcsetattr w tp).1 ≡ true)
    (keeps : (w : W) (tp : Termios)
      → terminal.tcgetattr (terminal.tcsetattr w tp).0 ≡ some tp) where
  abbrev set_req : W → Bytes → W × ℕ
  set_req = set_framing modem put terminal conf keep at_execute

  abbrev get_req : W → W × ℕ
  get_req = get_framing modem put terminal conf keep at_execute

  abbrev attr : W → Termios
  attr = at_get_attr modem put terminal conf keep at_execute

  abbrev show : W → Option (ℕ × ℕ) → W × ℕ
  show = print_framing modem put terminal conf keep at_execute

  set_framing-takes :
      (w : W) (req : Bytes) (format parity : ℕ)
      → scan_pair 3 req ≡ some (format, parity)
      → format ≤ 6
      → parity ≤ 3
      → set_req w req ≡ ((terminal.tcsetattr w (with_framing (attr w) format parity)).0, at_ok)
  unfolding set_framing at_set_attr
  set_framing-takes w req format parity scanned high small =
      let tp = with_framing (attr w) format parity in
      ap (framing_to modem put terminal conf keep at_execute w) scanned
      ∙ if_false {b = ltb 6 format || ltb 3 parity} _ _ (ground (arith, high, small))
      ∙ if_true _ _ (takes w tp)

  get_framing-reads :
      (w : W) (tp : Termios) (format parity : ℕ)
      → get_req (terminal.tcsetattr w (with_framing tp format parity)).0
        ≡ show
            (terminal.tcsetattr w (with_framing tp format parity)).0
            (framed tp.cstopb format parity)
  unfolding get_framing at_get_attr framed with_framing
  get_framing-reads w tp format parity = rw (keeps w (with_framing tp format parity)) refl

  set_framing-read_back :
      (w : W) (req : Bytes) (format parity : ℕ) (expected : Option (ℕ × ℕ))
      → scan_pair 3 req ≡ some (format, parity)
      → format ≤ 6
      → parity ≤ 3
      → framed (attr w).cstopb format parity ≡ expected
      → ((set_req w req).1 ≡ at_ok) × (get_req (set_req w req).0 ≡ show (set_req w req).0 expected)
  set_framing-read_back w req format parity expected scanned high small e =
      let done = set_framing-takes w req format parity scanned high small in
      (
        ap (λ (r : W × ℕ). r.1) done,
        subst (λ (r : W × ℕ). get_req r.0 ≡ show r.0 expected) (sym done)
            (get_framing-reads w (attr w) format parity
              ∙ ap (show (terminal.tcsetattr w (with_framing (attr w) format parity)).0) e),
      )

  -- On a terminal that takes and keeps its attributes and has no second stop bit set, AT+ICF with
  -- a format from 1 to 6 and a parity up to 3 gives OK, and AT+ICF? then prints the two.
  pub set_framing-get_framing :
      (w : W) (req : Bytes) (format parity : ℕ)
      → scan_pair 3 req ≡ some (format, parity)
      → 1 ≤ format
      → format ≤ 6
      → parity ≤ 3
      → (attr w).cstopb ≡ false
      → ((set_req w req).1 ≡ at_ok)
        × (get_req (set_req w req).0 ≡ show (set_req w req).0 (some (format, parity)))
  set_framing-get_framing w req format parity scanned low high small clear =
      set_framing-read_back w req format parity (some (format, parity)) scanned high small
        (ap (λ stop. framed stop format parity) clear ∙ framed-clear format parity low high small)

  -- On a terminal that takes and keeps its attributes and has a second stop bit set, AT+ICF with
  -- a format from 1 to 6 and a parity up to 3 gives OK, but AT+ICF? then prints 1 for the
  -- formats 1 and 3 and 4 for the formats 4 and 6, with the parity, and gives ERROR for the
  -- formats 2 and 5.
  pub set_framing-kept_stop :
      (w : W) (req : Bytes) (format parity : ℕ)
      → scan_pair 3 req ≡ some (format, parity)
      → 1 ≤ format
      → format ≤ 6
      → parity ≤ 3
      → (attr w).cstopb ≡ true
      → ((set_req w req).1 ≡ at_ok)
        × (get_req (set_req w req).0 ≡ show (set_req w req).0 (kept_stop format parity))
  set_framing-kept_stop w req format parity scanned low high small set_before =
      set_framing-read_back w req format parity (kept_stop format parity) scanned high small (
        ap (λ stop. framed stop format parity) set_before
        ∙ framed-stop format parity low high small)
