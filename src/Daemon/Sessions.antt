-- ===== src/Daemon/Sessions.antt =====
-- src/at_modem.c: a whole run of dte_thread, from its first byte to the end of the input.
use meego_cellular_matd.Prelude.{
  ℕ, zero, suc, ◌+◌, ◌≤◌, ◌<◌, ◌≡◌, refl, sym, ap, ◌∙◌, subst, inl, inr, true, false, Option, none,
  some, [], ◌∷◌, arith, Bytes, Bool-cases, length,
}
use meego_cellular_matd.Modem.{Modem}
use meego_cellular_matd.Parser.{maxline, Parser, init, Pushed, fault, done, push}
use meego_cellular_matd.Parser.Editor.{Editor, empty, edit}
use meego_cellular_matd.Parser.Arrays.{Represents}
use meego_cellular_matd.Parser.Refine.{Refines, push-Refines, init-Represents}
use meego_cellular_matd.Parser.Stream.{edit-grows}
use meego_cellular_matd.Line.{Next, iterate_next, iterate_first}
use meego_cellular_matd.Input.{Reader, Got, getchar}
use meego_cellular_matd.Input.Text.{stream, GotNext, getchar-GotNext}
use meego_cellular_matd.Commands.{Bank, execute}
use meego_cellular_matd.Session.{
  at_end_of_line, assert_no_data, executed, loop, from_first, process_line, at_execute_string,
}
use meego_cellular_matd.Daemon.{
  Served, stopped, crashed, out_of_fuel, on_pushed, on_got, reinit, serve, dte_thread,
}

-- The number of bytes to come.
abbrev pub to_come : {W : Type 0} → (W → Reader) → W → ℕ
to_come reader w = length (stream (reader w))

module _ {W : Type 0} (beyond : ℕ → ℕ) (modem : W → Modem) (put : Modem → W → W)
    (bank : W → Option (Bank W)) (reader : W → Reader) where
  assert_no_data-to_come :
      ((m : Modem) (w : W) → reader (put m w) ≡ reader w)
      → (w : W) → to_come reader (assert_no_data beyond modem put bank w) ≡ to_come reader w
  unfolding assert_no_data
  assert_no_data-to_come apart w = elim (Bool-cases (modem w).in_data) [
    | inl inside ↦ rw inside (ap (λ r. length (stream r)) (apart _ w))
    | inr outside ↦ rw outside refl
  ]

  at_end_of_line-to_come :
      (w : W) (rest : Bytes)
      → to_come reader (at_end_of_line beyond modem put bank w rest).0 ≡ to_come reader w
  at_end_of_line-to_come w [] = refl
  at_end_of_line-to_come w (c ∷ s) = refl

  executed-to_come :
      ((m : Modem) (w : W) → reader (put m w) ≡ reader w)
      → (more : W → W × ℕ) → ((w : W) → to_come reader (more w).0 ≤ to_come reader w)
      → (r : W × ℕ) → to_come reader (executed beyond modem put bank more r).0 ≤ to_come reader r.0
  executed-to_come apart more less (w, zero) =
      omega (arith, less (assert_no_data beyond modem put bank w), assert_no_data-to_come apart w)
  executed-to_come apart more less (w, suc res) = omega (arith, assert_no_data-to_come apart w)

  -- A line takes no more from the input than its commands do.
  loop-to_come :
      ((m : Modem) (w : W) → reader (put m w) ≡ reader w)
      → ((w : W) (req : Bytes) → to_come reader (execute (bank w) w req).0 ≤ to_come reader w)
      → (fuel : ℕ) (w : W) (cmd : Option Bytes) (rest : Bytes)
      → to_come reader (loop beyond modem put bank fuel w cmd rest).0 ≤ to_come reader w
  unfolding loop at_execute_string
  loop-to_come apart takes fuel w none rest = omega (arith, at_end_of_line-to_come w rest)
  loop-to_come apart takes zero w (some req) rest = omega arith
  loop-to_come apart takes (suc fuel) w (some req) rest =
      let n = iterate_next beyond rest in
      omega (
        arith,
        takes w req,
        executed-to_come apart (λ w'. loop beyond modem put bank fuel w' n.cmd n.rest)
            (λ w'. loop-to_come apart takes fuel w' n.cmd n.rest) (execute (bank w) w req),
      )

  from_first-to_come :
      ((m : Modem) (w : W) → reader (put m w) ≡ reader w)
      → ((w : W) (req : Bytes) → to_come reader (execute (bank w) w req).0 ≤ to_come reader w)
      → (fuel : ℕ) (w : W) (o : Option Next)
      → to_come reader (from_first beyond modem put bank fuel w o) ≤ to_come reader w
  from_first-to_come apart takes fuel w none =
      omega (arith, ap (λ r. length (stream r)) (apart _ w))
  from_first-to_come apart takes fuel w (some n) =
      let ran = loop beyond modem put bank fuel w n.cmd n.rest in
      omega (
        arith,
        ap (λ r. length (stream r)) (apart _ ran.0),
        loop-to_come apart takes fuel w n.cmd n.rest,
      )

-- The thread has come to its end, in such a state.
abbrev pub Ends : {W : Type 0} → (W → Type 0) → Served W → Type 0
Ends P (stopped w) = P w
Ends P (crashed w) = ⊥
Ends P (out_of_fuel w) = ⊥

Ends-map :
    {W : Type 0} (P Q : W → Type 0) (s : Served W) → ((w : W) → P w → Q w) → Ends P s → Ends Q s
Ends-map P Q (stopped w) f h = f w h
Ends-map P Q (crashed w) f h = h
Ends-map P Q (out_of_fuel w) f h = h

module _ {W : Type 0} (beyond : ℕ → ℕ) (modem : W → Modem) (put : Modem → W → W)
    (bank : W → Option (Bank W)) (reader : W → Reader) (put_reader : Reader → W → W)
    (reload : W → W) where
  -- A line that the editor gives is executed.
  abbrev pub after_line : W → Option Bytes → W
  after_line w none = w
  after_line w (some line) = process_line beyond modem put bank w line

  -- The daemon with the commands as they are when a byte is read.
  abbrev pub ready : W → W
  ready w = reinit beyond modem put bank reader put_reader reload w

  -- A run of the thread from a state of the daemon and of an editor whose line has no bound, to a
  -- state of the daemon: byte by byte, until a hang-up or the end of the input.
  pub data Session : W → Editor → W → Type 0 where
    hung_up : (w : W) (e : Editor) → (modem w).hungup ≡ true → Session w e w
    input_ended :
        (w : W) (e : Editor) (m : Modem) (r : Reader)
        → (modem w).hungup ≡ false
        → getchar (modem (ready w)) (reader (ready w)) ≡ (m, r, none)
        → Session w e (put_reader r (put m (ready w)))
    byte_read :
        (w : W) (e : Editor) (c : ℕ) (m : Modem) (r : Reader) (v : W)
        → (modem w).hungup ≡ false
        → getchar (modem (ready w)) (reader (ready w)) ≡ (m, r, some c)
        → Session (after_line (put_reader r (put m (ready w))) (edit e c).1) (edit e c).0 v
        → Session w e v

  on_pushed-done :
      (P : W → Type 0) (more : W → Parser → Served W) (w : W) (q : Parser) (out : Option Bytes)
      → Ends P (more (after_line w out) q)
      → Ends P (on_pushed beyond modem put bank reader put_reader reload more w (done q out))
  on_pushed-done P more w q none h = h
  on_pushed-done P more w q (some line) h = h

  on_pushed-Ends :
      (P : W → Type 0) (more : W → Parser → Served W) (w : W) (x : Pushed)
      (s : Editor × Option Bytes)
      → Refines x s
      → ((q : Parser) → Represents q s.0 → Ends P (more (after_line w s.1) q))
      → Ends P (on_pushed beyond modem put bank reader put_reader reload more w x)
  on_pushed-Ends P more w fault s h k = absurd h
  on_pushed-Ends P more w (done q out) s (r, e) k =
      on_pushed-done P more w q out
        (subst (λ (o : Option Bytes). Ends P (more (after_line w o) q)) (sym e) (k q r))

  after_line-to_come :
      ((m : Modem) (w : W) → reader (put m w) ≡ reader w)
      → ((w : W) (req : Bytes) → to_come reader (execute (bank w) w req).0 ≤ to_come reader w)
      → (w : W) (o : Option Bytes) → to_come reader (after_line w o) ≤ to_come reader w
  unfolding process_line
  after_line-to_come apart takes w none = omega arith
  after_line-to_come apart takes w (some line) =
      from_first-to_come beyond modem put bank reader apart takes (length line) w
        (iterate_first beyond line)

  ready-to_come :
      ((m : Modem) (w : W) → reader (put m w) ≡ reader w)
      → ((w : W) → reader (reload w) ≡ reader w)
      → (w : W) → reader (ready w) ≡ reader w
  unfolding reinit
  ready-to_come apart kept w = elim (Bool-cases (modem w).reset) [
    | inl again ↦ rw again (apart _ (reload w) ∙ kept w)
    | inr not_again ↦ rw not_again refl
  ]

  serve-Session :
      ((m : Modem) (w : W) → reader (put m w) ≡ reader w)
      → ((r : Reader) (w : W) → reader (put_reader r w) ≡ r)
      → ((w : W) → reader (reload w) ≡ reader w)
      → ((w : W) (req : Bytes) → to_come reader (execute (bank w) w req).0 ≤ to_come reader w)
      → (fuel : ℕ) (w : W) (p : Parser) (e : Editor) → Represents p e
      → to_come reader w < fuel
      → length e.typed + to_come reader w ≤ maxline + 1
      → Ends (Session w e) (serve beyond modem put bank reader put_reader reload fuel w p)
  unfolding serve
  serve-Session apart kept again takes zero w p e h enough room = absurd (omega (arith, enough))
  serve-Session apart kept again takes (suc fuel) w p e h enough room =
      elim (Bool-cases (modem w).hungup) [
        | inl hung ↦ rw hung (hung_up w e hung)
        | inr not_hung ↦ rw not_hung (
            go (serve-Session apart kept again takes fuel) not_hung
              (getchar (modem (ready w)) (reader (ready w))) refl
              (getchar-GotNext (modem (ready w)) (reader (ready w))))
      ]
    where
      go :
          ((w2 : W) (q : Parser) (e2 : Editor)
            → Represents q e2
            → to_come reader w2 < fuel
            → length e2.typed + to_come reader w2 ≤ maxline + 1
            → Ends (Session w2 e2) (serve beyond modem put bank reader put_reader reload fuel w2 q))
          → (modem w).hungup ≡ false
          → (g : Got) → getchar (modem (ready w)) (reader (ready w)) ≡ g
          → GotNext g (stream (reader (ready w)))
          → Ends (Session w e) (
              on_got beyond modem put bank reader put_reader reload
                (serve beyond modem put bank reader put_reader reload fuel)
                (ready w)
                p
                g)
      go more not_hung (m, r, none) eq n = input_ended w e m r not_hung eq
      go more not_hung (m, r, some c) eq n =
          let w1 = put_reader r (put m (ready w)) in
          let w2 = after_line w1 (edit e c).1 in
          let less = after_line-to_come apart takes w1 (edit e c).1 in
          let mine : to_come reader w1 ≡ length (stream r) =
            ap (λ r. length (stream r)) (kept r (put m (ready w))) in
          let whole : to_come reader w ≡ suc (length (stream r)) =
            ap (λ r. length (stream r)) (sym (ready-to_come apart again w)) ∙ ap length n in
          on_pushed-Ends (Session w e) (serve beyond modem put bank reader put_reader reload fuel)
            w1 (push p c) (edit e c)
            (push-Refines p e c h (omega (arith, room, whole)) (λ _. omega (arith, room, whole)))
            (λ q k.
              Ends-map (Session w2 (edit e c).0) (Session w e)
                (serve beyond modem put bank reader put_reader reload fuel w2 q)
                (λ v run. byte_read w e c m r v not_hung eq run)
                (more w2 q (edit e c).0 k (omega (arith, less, mine, whole, enough))
                  (omega (arith, less, mine, whole, room, edit-grows e c))))

  -- If the handlers only take bytes from the input, and the other changes of the daemon's state
  -- leave the input as it is, the thread ends on an input of up to 2049 bytes, with a turn for each
  -- byte and one more, however the bytes are split over the calls of read() and whatever the
  -- parser's arrays hold. No push reads past the buffer, and its run is one of the editor: each
  -- line that the editor gives is executed before the next byte is read.
  pub dte_thread-Session :
      ((m : Modem) (w : W) → reader (put m w) ≡ reader w)
      → ((r : Reader) (w : W) → reader (put_reader r w) ≡ r)
      → ((w : W) → reader (reload w) ≡ reader w)
      → ((w : W) (req : Bytes) → to_come reader (execute (bank w) w req).0 ≤ to_come reader w)
      → (w : W) (buf old : Bytes) → length buf ≡ maxline
      → length old ≡ maxline
      → to_come reader w ≤ maxline + 1
      → Ends (Session w empty) (
          dte_thread beyond modem put bank reader put_reader reload
            (to_come reader w + 1)
            w
            buf
            old)
  unfolding dte_thread
  dte_thread-Session apart kept again takes w buf old b o room =
      serve-Session apart kept again takes (to_come reader w + 1) w (init buf old) empty
        (init-Represents buf old b o) (omega arith) (omega (arith, room))
