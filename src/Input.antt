-- ===== src/Input.antt =====
-- src/at_modem.c: the input from the DTE, at_getchar and at_read_text. realloc() is taken to
-- succeed.
pub mod Text
use meego_cellular_matd.Prelude.{
  ℕ, zero, suc, Bool, ◌||◌, Option, none, some, List, [], ◌∷◌, reverse, Bytes, ◌==◌, if◌then◌else◌,
}
use meego_cellular_matd.Modem.{Modem, at_intermediate}

-- What one call of read(2) on the descriptor of the DTE does; no bytes are the end of the input.
pub data Read : Type 0 where
  got : Bytes → Read
  read_interrupted : Read  -- EINTR
  read_failed : Read

-- The part of `struct at_modem` that holds the input: the bytes of `in_buf` from `in_offset` to
-- `in_size`, and the outcomes of the calls of read(2) to come. Past its end the list is at the end
-- of the input.
pub record Reader : Type 0 where
  pub pending : Bytes
  pub reads : List Read

-- The loop on EINTR and the `switch` behind it: the bytes that came, if any, and the outcomes left.
unfoldable pub fetch : List Read → Option Bytes × List Read
fetch [] = (none, [])
fetch (read_interrupted ∷ rs) = fetch rs
fetch (read_failed ∷ rs) = (none, rs)
fetch (got [] ∷ rs) = (none, rs)
fetch (got (c ∷ s) ∷ rs) = (some (c ∷ s), rs)

-- A chunk is echoed at once.
abbrev pub echoed : Modem → Bytes → Modem
echoed m chunk = if m.echo then (at_intermediate m chunk).0 else m

-- The state of the modem and its input, and the byte, `none` for -1.
abbrev pub Got : Type 0
Got = Modem × Reader × Option ℕ

abbrev pub refill : Modem → Option Bytes × List Read → Got
refill m (none, rs) = (m, record { pending = []; reads = rs }, none)
refill m (some [], rs) = (m, record { pending = []; reads = rs }, none)
refill m (some (c ∷ s), rs) = (echoed m (c ∷ s), record { pending = s; reads = rs }, some c)

unfoldable pub getchar : Modem → Reader → Got
unfolding fetch
getchar m r = elim r.pending [
  | [] ↦ refill m (fetch r.reads)
  | c ∷ s ↦ (m, record { pending = s; reads = r.reads }, some c)
]

-- Backspace and Delete.
abbrev pub is_rub_out : ℕ → Bool
is_rub_out c = c == 8 || c == 127

abbrev pub drop_last : Bytes → Bytes
drop_last [] = []
drop_last (c ∷ t) = t

-- What `at_read_text` ends in: no fuel, NULL, or the text. The characters that have been stored are
-- held with the newest first.
pub data Entry : Type 0 where
  out_of_fuel : Entry
  cancelled : Modem → Reader → Entry
  entered : Modem → Reader → Bytes → Entry

abbrev pub prompted : Modem → Bytes → ℕ → Modem
prompted m prompt c = if c == b'\r' then (at_intermediate m prompt).0 else m

-- One turn of the loop, on the outcome of `at_getchar`.
abbrev pub on_char : (Modem → Reader → Bytes → Entry) → Bytes → Bytes → Got → Entry
on_char more prompt buf (m, r, none) = cancelled m r
on_char more prompt buf (m, r, some c) =
    if c == 27
    then cancelled m r
    else if c == 26
    then entered m r (reverse buf)
    else if is_rub_out c
    then more m r (drop_last buf)
    else more (prompted m prompt c) r (c ∷ buf)

unfoldable pub text_loop : ℕ → Modem → Reader → Bytes → Bytes → Entry
text_loop zero m r prompt buf = out_of_fuel
text_loop (suc fuel) m r prompt buf =
    on_char (λ m' r' buf'. text_loop fuel m' r' prompt buf') prompt buf (getchar m r)

-- `at_read_text`, with one step of fuel for each character.
unfoldable pub read_text : ℕ → Modem → Reader → Bytes → Entry
read_text fuel m r prompt = text_loop fuel (at_intermediate m prompt).0 r prompt []
