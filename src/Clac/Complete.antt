-- ===== src/Clac/Complete.antt =====
-- src/commands.c: the list of AT+CLAC before and behind a registration.
use meego_cellular_matd.Prelude.{◌≡◌, ◌⊎◌, Bool, List, [], ◌∷◌, Bytes}

-- The text is one of the list.
abbrev pub Listed : Bytes → List Bytes → Type 0
Listed t [] = ⊥
Listed t (x ∷ xs) = (t ≡ x) ⊎ Listed t xs
