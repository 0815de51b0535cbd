-- ===== src/Session/Order.antt =====
-- src/at_modem.c: process_line, and the sequence of the commands of its line.
use meego_cellular_matd.Prelude.{
  ℕ, zero, suc, ◌+◌, ◌≤◌, ◌<◌, ◌≡◌, refl, sym, ap, ◌∙◌, ◌≢◌, inl, true, ◌&&◌, Option, none, some,
  List, [], ◌∷◌, ◌++◌, append-nil, arith, Bytes, codes, leb, if◌then◌else◌, if_true, length,
  length-append,
}
use meego_cellular_matd.Reply.{at_print_reply}
use meego_cellular_matd.Libc.Ctype.{strncasecmp, is_eq, to_lower}
use meego_cellular_matd.Line.{Next, iterate_next, iterate_first}
use meego_cellular_matd.Line.Split.{iterate_next-shorter}
use meego_cellular_matd.Line.Commands.{commands, gather, join, AllExtended, commands-join}
use meego_cellular_matd.Modem.{Modem, at_ok, at_error}
use meego_cellular_matd.Commands.{Bank, execute}
use meego_cellular_matd.Session.{
  at_execute_string, assert_no_data, at_end_of_line, executed, loop, printed, from_first,
  process_line,
}

-- The execution of commands, one after the other, and of what is left of the line behind them: from
-- a state of the daemon to another, with a result code.
module _ {W : Type 0} (modem : W → Modem) (put : Modem → W → W) (bank : W → Option (Bank W)) where
  -- The daemon records that it would have been aborted if a command has left it in data mode.
  abbrev pub outside_data : W → W
  outside_data w = if (modem w).in_data then put (record (modem w) { aborted = true }) w else w

  pub data Runs : W → List Bytes → Bytes → W → ℕ → Type 0 where
    ended : (w : W) → Runs w [] [] w at_ok
    left_over : (w : W) (c : ℕ) (s : Bytes) → Runs w [] (c ∷ s) w at_error
    fails :
        (w v : W) (cmd : Bytes) (cs : List Bytes) (rest : Bytes) (res : ℕ)
        → execute (bank w) w cmd ≡ (v, res)
        → res ≢ at_ok
        → Runs w (cmd ∷ cs) rest (outside_data v) res
    goes_on :
        (w v u : W) (cmd : Bytes) (cs : List Bytes) (rest : Bytes) (res : ℕ)
        → execute (bank w) w cmd ≡ (v, at_ok)
        → Runs (outside_data v) cs rest u res
        → Runs w (cmd ∷ cs) rest u res

module _ {W : Type 0} (beyond : ℕ → ℕ) (modem : W → Modem) (put : Modem → W → W)
    (bank : W → Option (Bank W)) where
  -- The commands in order, up to the first that gives another result than OK; behind the last, the
  -- rest of the line is judged.
  unfoldable pub in_order : W → List Bytes → Bytes → W × ℕ
  in_order w [] rest = at_end_of_line beyond modem put bank w rest
  in_order w (cmd ∷ cs) rest =
      executed beyond modem put bank (λ w'. in_order w' cs rest)
        (at_execute_string beyond modem put bank w cmd)

  executed-cong :
      (f g : W → W × ℕ) (r : W × ℕ)
      → ((w : W) → f w ≡ g w)
      → executed beyond modem put bank f r ≡ executed beyond modem put bank g r
  executed-cong f g (w, zero) h = h (assert_no_data beyond modem put bank w)
  executed-cong f g (w, suc res) h = refl

  abbrev found_in_order : W → ℕ → Next → W × ℕ
  found_in_order w fuel n = let all = gather n (commands beyond fuel) in in_order w all.0 all.1

  loop-in_order :
      (fuel : ℕ) (w : W) (cmd : Option Bytes) (rest : Bytes)
      → ((c : Bytes) → cmd ≡ some c → length rest < fuel)
      → loop beyond modem put bank fuel w cmd rest
        ≡ found_in_order w fuel (record { cmd = cmd; rest = rest })
  unfolding loop in_order commands
  loop-in_order fuel w none rest room = refl
  loop-in_order zero w (some cmd) rest room = absurd (omega (arith, room cmd refl))
  loop-in_order (suc fuel) w (some cmd) rest room =
      executed-cong _ _ (at_execute_string beyond modem put bank w cmd) (λ w'.
        loop-in_order fuel w' (iterate_next beyond rest).cmd (iterate_next beyond rest).rest
          (λ c found. omega (arith, room cmd refl, iterate_next-shorter beyond rest c found)))

  first_command :
      (a t : ℕ) (body : Bytes)
      → is_eq (strncasecmp (a ∷ t ∷ body) (codes "AT") 2) ≡ true
      → iterate_first beyond (a ∷ t ∷ body) ≡ some (iterate_next beyond body)
  unfolding iterate_first
  first_command a t body prefix =
      let enough : leb 2 (length (a ∷ t ∷ body)) ≡ true = ground arith in
      if_true
        {b = leb 2 (length (a ∷ t ∷ body)) && is_eq (strncasecmp (a ∷ t ∷ body) (codes "AT") 2)} _
        none (rw enough prefix)

  process_line-in_order :
      (w : W) (a t : ℕ) (body : Bytes)
      → is_eq (strncasecmp (a ∷ t ∷ body) (codes "AT") 2) ≡ true
      → let all = commands beyond (suc (length (a ∷ t ∷ body))) body in
        process_line beyond modem put bank w (a ∷ t ∷ body)
        ≡ printed beyond modem put bank (in_order w all.0 all.1)
  unfolding process_line commands
  process_line-in_order w a t body prefix =
      let n = iterate_next beyond body in
      ap (from_first beyond modem put bank (length (a ∷ t ∷ body)) w)
        (first_command a t body prefix)
      ∙ ap (printed beyond modem put bank) (
          loop-in_order (length (a ∷ t ∷ body)) w n.cmd n.rest
            (λ c found. omega (arith, iterate_next-shorter beyond body c found)))

  executed-Runs :
      (w : W) (cmd : Bytes) (cs : List Bytes) (rest : Bytes) (r : W × ℕ)
      → execute (bank w) w cmd ≡ r
      → ((v : W) → let e = in_order v cs rest in Runs modem put bank v cs rest e.0 e.1)
      → let e = executed beyond modem put bank (λ v. in_order v cs rest) r in
        Runs modem put bank w (cmd ∷ cs) rest e.0 e.1
  unfolding assert_no_data
  executed-Runs w cmd cs rest (v, zero) e more =
      let u = outside_data modem put bank v in
      goes_on w v (in_order u cs rest).0 cmd cs rest (in_order u cs rest).1 e (more u)
  executed-Runs w cmd cs rest (v, suc res) e more =
      fails w v cmd cs rest (suc res) e (λ none. omega (arith, none))

  in_order-Runs :
      (w : W) (cs : List Bytes) (rest : Bytes)
      → Runs modem put bank w cs rest (in_order w cs rest).0 (in_order w cs rest).1
  unfolding in_order at_execute_string
  in_order-Runs w [] [] = ended w
  in_order-Runs w [] (c ∷ s) = left_over w c s
  in_order-Runs w (cmd ∷ cs) rest =
      executed-Runs w cmd cs rest (execute (bank w) w cmd) refl (λ v. in_order-Runs v cs rest)

  -- A line that begins with `AT` in either case is executed command by command, in the order of the
  -- line, up to the first that does not give OK, whose result is that of the line; behind the last
  -- one the result is OK if nothing is left of the line and ERROR otherwise. Then that one result
  -- is printed, and nothing else is done.
  pub process_line-Runs :
      (w : W) (a t : ℕ) (body : Bytes)
      → is_eq (strncasecmp (a ∷ t ∷ body) (codes "AT") 2) ≡ true
      → let all = commands beyond (suc (length (a ∷ t ∷ body))) body in
        (v : W) × (res : ℕ) × Runs modem put bank w all.0 all.1 v res
        × process_line beyond modem put bank w (a ∷ t ∷ body)
          ≡ put (at_print_reply (modem v) res).0 v
  process_line-Runs w a t body prefix =
      let all = commands beyond (suc (length (a ∷ t ∷ body))) body in
      let e = in_order w all.0 all.1 in
      (e.0, e.1, in_order-Runs w all.0 all.1, process_line-in_order w a t body prefix)

  length-join : (cs : List Bytes) → AllExtended beyond cs → length cs ≤ length (join cs) + 1
  length-join [] all = omega arith
  length-join (c ∷ []) ((x, a), all) = omega arith
  length-join (c ∷ d ∷ cs) ((x, a), all) =
      omega (arith, length-append c (b';' ∷ join (d ∷ cs)), length-join (d ∷ cs) all)

  -- In particular a line that joins extended commands by semicolons executes exactly those, in
  -- order, up to the first that fails, and prints one result.
  process_line-join :
      (w : W) (cs : List Bytes)
      → AllExtended beyond cs
      → process_line beyond modem put bank w (codes "AT" ++ join cs)
        ≡ printed beyond modem put bank (in_order w cs [])
  process_line-join w cs all =
      process_line-in_order w b'A' b'T' (join cs) (unfold strncasecmp to_lower in refl)
      ∙ ap (λ (r : List Bytes × Bytes). printed beyond modem put bank (in_order w r.0 r.1))
          (ap (commands beyond (suc (length (b'A' ∷ b'T' ∷ join cs)))) (sym (append-nil (join cs)))
            ∙ commands-join beyond cs _ [] all (inl refl) (omega (arith, length-join cs all)))
