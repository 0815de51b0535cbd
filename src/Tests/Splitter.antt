-- ===== src/Tests/Splitter.antt =====
-- Runs of the split of a command line, src/parser.c.
use meego_cellular_matd.Prelude.{ℕ, ◌≡◌, refl, some, List, [], ◌∷◌, Bytes, codes, get_or}
use meego_cellular_matd.Line.{iterate_next, iterate_first, extended_from}
use meego_cellular_matd.Line.Extended.{IsExtended}
use meego_cellular_matd.Line.Commands.{commands}

-- Nothing but nul bytes behind the literal, or the start of another one.
abbrev nothing : ℕ → ℕ
nothing i = 0

abbrev another : ℕ → ℕ
another i = get_or (codes "+AT") i 0

finds_e0 : (iterate_next nothing (codes " E0V1")).cmd ≡ some (codes "E0")
unfolding iterate_next
finds_e0 = refl

abbrev two : List Bytes
two = codes "+CGMI" ∷ codes "+CPBF=\"a;b\"" ∷ []

abbrev extended_cgmi : IsExtended (codes "+CGMI")
unfolding extended_from
extended_cgmi = record {
  head = b'+';
  tail = codes "CGMI";
  parts = refl;
  no_letter = refl;
  no_ampersand = refl;
  no_space = refl;
  no_semicolon = refl;
  no_nul = refl;
  closed = refl;
}

abbrev extended_cpbf : IsExtended (codes "+CPBF=\"a;b\"")
unfolding extended_from
extended_cpbf = record {
  head = b'+';
  tail = codes "CPBF=\"a;b\"";
  parts = refl;
  no_letter = refl;
  no_ampersand = refl;
  no_space = refl;
  no_semicolon = refl;
  no_nul = refl;
  closed = refl;
}

-- The plus sign is lost, so the command is taken for a basic one.
loses_plus :
    (iterate_first another (codes "AT+CGMI"))
    ≡ some (record { cmd = some (codes "C"); rest = codes "GMI" })
unfolding iterate_first
loses_plus = refl

basic_commands :
    commands nothing 9 (codes "E0 S3=13 &F D123;")
    ≡ (codes "E0" ∷ codes "S3=13" ∷ codes "&F " ∷ codes "D123;" ∷ [], [])
unfolding commands iterate_next
basic_commands = refl
