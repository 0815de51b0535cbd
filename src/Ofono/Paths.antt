-- ===== src/Ofono/Paths.antt =====
-- plugins/ofono/voicecall.c and core.c: the object paths of calls and the numbers read from them.
use meego_cellular_matd.Prelude.{
  ℕ, zero, suc, ◌+◌, ◌≤◌, ◌<◌, ◌≡◌, refl, sym, ap, ◌∙◌, ◌↔◌, inl, inr, Bool, true, false, none,
  some, List, [], ◌∷◌, ◌++◌, arith, Bytes, codes, ltb, ◌==◌, if◌then◌else◌, ltb→lt, ltb_false→le,
  ==_iff, if_true, if_false, Bool-cases, length, drop, length-append, drop_length-append, all_below,
  all_below-elim,
}
use meego_cellular_matd.Ofono.{voicecall_path}
use meego_cellular_matd.Libc.Ctype.{is_lower}
use meego_cellular_matd.Libc.Scanf.{
  literal, uint, skip_scanset, sscanf, scan, count_of, num_at, count_set, Directive, Scanned,
}
use meego_cellular_matd.Libc.Format.{decimal, decimal_02}
use meego_cellular_matd.Modem.{minus_one}
use meego_cellular_matd.Ofono.Calls.{get_call_id, in_modem, private_path}

-- The name of a modem that the format of `get_call_id` passes.
abbrev pub AllInModem : Bytes → Type 0
AllInModem [] = Unit {0}
AllInModem (c ∷ s) = (in_modem c ≡ true) × AllInModem s

count_set-AllInModem :
    (name s : Bytes) (max : ℕ)
    → AllInModem name
    → length name < max
    → count_set in_modem max (name ++ (b'/' ∷ s)) ≡ length name
unfolding count_set
count_set-AllInModem name s zero all room = absurd (omega arith)
count_set-AllInModem [] s (suc max) all room = refl
count_set-AllInModem (x ∷ name) s (suc max) all room =
    rw all.0 (ap suc (count_set-AllInModem name s max all.1 (omega arith)))

-- The number that the last two directives read of the rest of the path.
unfoldable numbered : Scanned → ℕ
numbered r = elim (count_of r) [
  | none ↦ minus_one
  | some n ↦ if n == 1 then num_at r.args 0 else minus_one
]

abbrev last_part : List Directive
last_part = skip_scanset is_lower ∷ uint ∷ []

abbrev call_format : List Directive
call_format = literal b'/' ∷ skip_scanset in_modem ∷ literal b'/' ∷ last_part

scan_modem :
    (name s : Bytes)
    → AllInModem name
    → 0 < length name
    → sscanf call_format (b'/' ∷ (name ++ (b'/' ∷ s))) ≡ scan last_part (1 + length name + 1) s
unfolding sscanf scan
scan_modem name s all some_byte =
    let n =
      count_set-AllInModem name s (length (name ++ (b'/' ∷ s))) all
        (omega (arith, length-append name (b'/' ∷ s))) in
    let some_name : (length name == 0) ≡ false = ground arith in
    rw (n, some_name, drop_length-append name (b'/' ∷ s)) refl

get_call_id-numbered : (call : Bytes) → get_call_id call ≡ numbered (sscanf call_format call)
unfolding get_call_id numbered
get_call_id-numbered call = refl

-- The numbers up to 99, one by one.
reads : ℕ → ℕ → Bool
unfolding numbered scan decimal_02
reads n id = numbered (scan last_part n (codes "voicecall" ++ decimal_02 id)) == id

all_read : (n : ℕ) → all_below 100 (reads n) ≡ true
unfolding reads all_below numbered scan decimal_02
all_read n = refl

append-slash : (name rest : Bytes) → (b'/' ∷ name) ++ (b'/' ∷ rest) ≡ b'/' ∷ (name ++ (b'/' ∷ rest))
append-slash name rest = refl

-- The number of a call is read back from the path that requests on it are sent to, for a modem
-- whose name is a slash with at least one small letter or digit behind it, and nothing else, and
-- for the numbers up to 99.
pub get_call_id-voicecall_path :
    (name : Bytes) (id : ℕ)
    → AllInModem name
    → 0 < length name
    → id ≤ 99
    → get_call_id (voicecall_path (b'/' ∷ name) id) ≡ id
unfolding voicecall_path reads
get_call_id-voicecall_path name id all some_byte small =
    let tail = codes "voicecall" ++ decimal_02 id in
    let n = 1 + length name + 1 in
    get_call_id-numbered (b'/' ∷ (name ++ (b'/' ∷ tail)))
    ∙ ap numbered (scan_modem name tail all some_byte)
    ∙ (==_iff (numbered (scan last_part n tail)) id).0
        (all_below-elim 100 (reads n) id (all_read n) (omega (arith, small)))

drop-prefix : (modem a b : Bytes) → modem ++ a ≡ modem ++ b → a ≡ b
drop-prefix modem a b e =
    sym (drop_length-append modem a) ∙ ap (drop (length modem)) e ∙ drop_length-append modem b

-- The path of AT+CHLD=2x is the one that other requests on the call are sent to exactly if the
-- number of the call has two digits or more.
private_path-eq-voicecall_path :
    (modem : Bytes) (id : ℕ) → (private_path modem id ≡ voicecall_path modem id) ↔ (10 ≤ id)
unfolding private_path voicecall_path decimal_02
private_path-eq-voicecall_path modem id = elim (Bool-cases (ltb id 10)) [
  | inl short ↦ (
    λ e.
        let padded : decimal_02 id ≡ b'0' ∷ decimal id = if_true _ _ short in
        let same = drop-prefix (codes "/voicecall") (decimal id) (decimal_02 id) (
          drop-prefix modem (codes "/voicecall" ++ decimal id) (codes "/voicecall" ++ decimal_02 id)
            e) in
        absurd (omega (arith, ap (length {A = ℕ}) (same ∙ padded))),
    λ long. absurd (omega (arith, long, ltb→lt id 10 short)),
  )
  | inr long ↦ (
    λ e. ltb_false→le id 10 long,
    λ h.
        ap (λ (d : Bytes). modem ++ (codes "/voicecall" ++ d)) {x = decimal id} {y = decimal_02 id}
          (sym (if_false _ _ long)),
  )
]
