-- ===== src/Clac.antt =====
-- src/commands.c: AT+CLAC, the list of the commands. The lock is held throughout, so `clac_modem` is
-- the modem of the handler.
pub mod Complete
use meego_cellular_matd.Prelude.{
  ℕ, zero, suc, ◌+◌, Option, none, some, List, [], ◌∷◌, ◌++◌, Bytes, ◌==◌, if◌then◌else◌,
}
use meego_cellular_matd.Libc.Format.{decimal, crlf}
use meego_cellular_matd.Modem.{Modem, at_ok, at_cme_einval, at_intermediate}
use meego_cellular_matd.Commands.{Bank, slot, max_s}
use meego_cellular_matd.Commands.Search.{Tree, leaf, node}

-- The name is listed if it starts with a plus sign: `print_clac`.
abbrev pub name_line : Bytes → List Bytes
name_line [] = []
name_line (c ∷ s) = if c == b'+' then (crlf ++ (c ∷ s)) ∷ [] else []

-- twalk() in the order of the tree.
unfoldable pub name_lines : {H : Type 0} → Tree H → List Bytes
name_lines leaf = []
name_lines (node l n h r) = name_lines l ++ (name_line n ++ name_lines r)

-- One of the loops over a table: the entries from `i` on, `n` of them, that are set.
unfoldable pub slot_lines : {A : Type 0} → (ℕ → Bytes) → List (Option A) → ℕ → ℕ → List Bytes
slot_lines text table i zero = []
slot_lines text table i (suc n) =
    let more = slot_lines text table (suc i) n in
    elim (slot table i) [ none ↦ more | some f ↦ text i ∷ more ]

abbrev pub letter_line : ℕ → Bytes
letter_line i = crlf ++ ((b'A' + i) ∷ [])

abbrev pub s_line : ℕ → Bytes
s_line i = crlf ++ (b'S' ∷ decimal i)

abbrev pub ampersand_line : ℕ → Bytes
ampersand_line i = crlf ++ (b'&' ∷ (b'A' + i) ∷ [])

-- The texts go out one by one, whatever becomes of each.
unfoldable pub print_all : Modem → List Bytes → Modem
print_all m [] = m
print_all m (t ∷ ts) = print_all (at_intermediate m t).0 ts

module _ {W : Type 0} where
  -- The loops over the tables.
  unfoldable pub table_lines : Bank W → List Bytes
  table_lines bank =
      slot_lines letter_line bank.alpha 0 3
      ++ ((crlf ++ (b'D' ∷ []))
          ∷ (slot_lines letter_line bank.alpha 4 14
              ++ (slot_lines s_line bank.s 0 (max_s + 1)
                  ++ (slot_lines letter_line bank.alpha 19 7
                      ++ slot_lines ampersand_line bank.ampersand 0 26))))

  unfoldable pub clac_lines : Bank W → List Bytes
  clac_lines bank = table_lines bank ++ name_lines bank.extended

  unfoldable pub handle_clac : Bank W → Modem → Bytes → Modem × ℕ
  handle_clac bank m [] = (print_all m (clac_lines bank), at_ok)
  handle_clac bank m (c ∷ s) = (m, at_cme_einval)
