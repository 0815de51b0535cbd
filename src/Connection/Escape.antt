-- ===== src/Connection/Escape.antt =====
-- src/at_modem.c: the escape sequence of at_connect_mtu, and the data that a hang-up overtakes.
use meego_cellular_matd.Prelude.{
  ℕ, zero, suc, ◌+◌, ◌-◌, ◌%◌, ◌^◌, ◌≤◌, ◌<◌, ◌≡◌, refl, ap, ◌∙◌, inl, inr, Bool, false, none, some,
  [], ◌∷◌, arith, Bytes, leb, Bool-cases, take,
}
use meego_cellular_matd.Connection.{
  Link, arrived, Polled, is_plus3, is_escape, second, plus3, filled, accept, receive, turn_side,
  turn,
}

-- A turn in which a side can be read only.
abbrev pub read_only : ℕ → Bytes → Polled
read_only now s = record { readable = some (now, arrived s); writable = none }

abbrev pub idle : Polled
idle = record { readable = none; writable = none }

take-plus3 : (mtu : ℕ) → 3 ≤ mtu → take mtu plus3 ≡ plus3
take-plus3 zero room = absurd (omega (arith, room))
take-plus3 (suc zero) room = absurd (omega (arith, room))
take-plus3 (suc (suc zero)) room = absurd (omega (arith, room))
take-plus3 (suc (suc (suc k))) room = ap plus (take-none k)
  where
    plus : Bytes → Bytes
    plus s = b'+' ∷ b'+' ∷ b'+' ∷ s

    take-none : (n : ℕ) → take {A = ℕ} n [] ≡ []
    take-none zero = refl
    take-none (suc n) = refl

take-some : (mtu c : ℕ) (s : Bytes) → 0 < mtu → take mtu (c ∷ s) ≡ c ∷ take (mtu - 1) s
take-some zero c s room = absurd (omega (arith, room))
take-some (suc k) c s room = ap (λ n. c ∷ take n s) {y = suc k - 1} (omega arith)

-- The link after data of the DCE.
abbrev after_data : ℕ → Bytes → Link → Link
after_data now buf l = record l { from_dce = filled l.from_dce buf; last_rx = now }

hears :
    (mtu before : ℕ) (c : ℕ) (s : Bytes) (l : Link)
    → 3 ≤ mtu
    → turn mtu (idle, read_only before (c ∷ s)) l
      ≡ (after_data before (c ∷ take (mtu - 1) s) l, false)
unfolding turn turn_side receive accept is_escape
hears mtu before c s l room = rw (take-some mtu c s (omega (arith, room))) refl

plus3-escapes :
    (mtu now : ℕ) (l : Link)
    → 3 ≤ mtu
    → (turn mtu (read_only now plus3, idle) l).1 ≡ leb second ((now + 2 ^ 64 - l.last_rx) % 2 ^ 64)
unfolding turn turn_side receive accept is_escape is_plus3
plus3-escapes mtu now l room =
    rw (take-plus3 mtu room) (elim (Bool-cases (leb second ((now + 2 ^ 64 - l.last_rx) % 2 ^ 64))) [
      | inl late ↦ rw late refl
      | inr soon ↦ rw soon refl
    ])

-- After data of the DCE, three plus signs that the DTE sends alone end the data mode exactly if a
-- second has gone by since, whenever the DTE itself has sent something: data that comes from the DCE
-- keeps them from being an escape sequence.
pub turn-escape :
    (mtu before now : ℕ) (c : ℕ) (s : Bytes) (l : Link)
    → 3 ≤ mtu
    → before ≤ now
    → now < 2 ^ 64
    → let heard = (turn mtu (idle, read_only before (c ∷ s)) l).0 in
      ((turn mtu (idle, read_only before (c ∷ s)) l).1 ≡ false)
      × ((turn mtu (read_only now plus3, idle) heard).1 ≡ leb second (now - before))
turn-escape mtu before now c s l room later small =
    let heard = hears mtu before c s l room in
    let gone : (now + 2 ^ 64 - before) % 2 ^ 64 ≡ now - before = omega (arith, later, small) in
    (
      ap (λ (r : Link × Bool). r.1) heard,
      ap (λ (r : Link × Bool). (turn mtu (read_only now plus3, idle) r.0).1) heard
          ∙ plus3-escapes mtu now (after_data before (c ∷ take (mtu - 1) s) l) room
          ∙ ap (leb second) gone,
    )
