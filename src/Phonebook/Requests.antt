-- ===== src/Phonebook/Requests.antt =====
-- src/phonebook.c: the types of the phonebooks, and what AT+CPBS and AT+CPBW scan.
use meego_cellular_matd.Prelude.{
  ℕ, ◌+◌, ◌-◌, ◌%◌, ◌^◌, ◌⊎◌, inl, inr, Bool, true, false, not, ◌||◌, Option, none, some, List, [],
  ◌∷◌, Bytes, ltb, leb, ◌==◌, if◌then◌else◌, get_or,
}
use meego_cellular_matd.Libc.Ctype.{is_alpha}
use meego_cellular_matd.Libc.Scanf.{
  Directive, space, literal, uint, scanset, sscanf, count_of, num_at, str_at, num, Arg, Scanned,
}
use meego_cellular_matd.Modem.{at_cme_enotsup, at_cme_einval}

abbrev pub uint_max : ℕ
uint_max = 2 ^ 32 - 1

abbrev pub int_max : ℕ
int_max = 2 ^ 31 - 1

-- What `write_cb` is given behind the index.
pub record Record : Type 0 where
  pub number : Bytes
  pub text : Bytes
  pub group : Bytes
  pub adnumber : Bytes
  pub adtext : Bytes
  pub email : Bytes
  pub sip : Bytes
  pub tel : Bytes
  pub hidden : ℕ

-- `struct at_phonebook`; the range callback gives the two numbers and the result, the writing one
-- the index and the result.
pub record Phonebook (W : Type 0) : Type 0 where
  pub name : Bytes
  pub pw_cb : Option (W → Bytes → W × ℕ)
  pub read_cb : Option (W → ℕ → ℕ → W × ℕ)
  pub write_cb : Option (W → ℕ → Record → W × ℕ × ℕ)
  pub find_cb : Option (W → Bytes → W × ℕ)
  pub range_cb : Option (W → W × (ℕ × ℕ) × ℕ)

-- `at_phonebooks_t`; the list from `first` on, and `none` where `active` has not been set.
pub record Phonebooks (W : Type 0) : Type 0 where
  pub phonebooks : List (Phonebook W)
  pub active : Option (Phonebook W)
  pub written_index : ℕ

-- `" \"%2[A-Za-z]\" , \"%8[^\"]\""`
abbrev not_quote : ℕ → Bool
not_quote c = not (c == b'"')

abbrev pub quoted : ℕ → List Directive → List Directive
quoted max rest = literal b'"' ∷ scanset not_quote max ∷ literal b'"' ∷ rest

abbrev pub comma : List Directive → List Directive
comma rest = space ∷ literal b',' ∷ space ∷ rest

unfoldable pub scan_storage : Bytes → Scanned
unfolding sscanf
scan_storage req =
    sscanf (space ∷ literal b'"' ∷ scanset is_alpha 2 ∷ literal b'"' ∷ comma (quoted 8 [])) req

-- The directives of `pb_write` from the number on.
abbrev write_format : List Directive
write_format = quoted 31 (
    comma (
      uint
      ∷ comma (
          quoted 255 (
            comma (
              quoted 255 (
                comma (
                  quoted 31 (
                    comma (
                      uint
                      ∷ comma (
                          quoted 255 (
                            comma (
                              quoted 255 (
                                comma
                                  (quoted 255 (comma (quoted 255 (comma (uint ∷ []))))))))))))))))))

-- The two calls of sscanf() in `pb_write`: what the variables hold, in the order of the first
-- format, and `val`, with none for -1.
unfoldable pub scan_write : Bytes → Option ℕ × List Arg
unfolding sscanf
scan_write req =
    let r = sscanf (space ∷ uint ∷ comma write_format) req in
    let r2 = sscanf (comma write_format) req in
    let val2 : Option ℕ = elim (count_of r2) [
      | none ↦ none
      | some n ↦ if n == 0 then some 0 else some (n + 1)
    ] in
    elim (count_of r) [
      | none ↦ (none, [])
      | some n ↦ if n == 0 then (val2, num uint_max ∷ r2.args) else (some n, r.args)
    ]

abbrev pub type_of : Bytes → ℕ
type_of number = if get_or number 0 0 == b'+' then 145 else 129

-- The `switch` of `pb_write`, each case falling through to the next, and the test of the types: a
-- string that was not scanned is empty.
abbrev pub parsed : Option ℕ → List Arg → (ℕ × Record) ⊎ ℕ
parsed none args = inr at_cme_einval
parsed (some val) args =
    let number = str_at args 1 in
    let adnumber = str_at args 5 in
    let type = if leb 3 val then num_at args 2 else type_of number in
    let adtype = if leb 7 val then num_at args 6 else type_of adnumber in
    let hidden = num_at args 11 % 256 in
    if val == 0 || ltb 12 val
    then inr at_cme_einval
    else if not (type == type_of number) || (not (adtype == type_of adnumber) || ltb 1 hidden)
    then inr at_cme_enotsup
    else inl (
      num_at args 0,
      record {
        number = number;
        text = str_at args 3;
        group = str_at args 4;
        adnumber = adnumber;
        adtext = str_at args 7;
        email = str_at args 8;
        sip = str_at args 9;
        tel = str_at args 10;
        hidden = hidden;
      },
    )

unfoldable pub parse_write : Bytes → (ℕ × Record) ⊎ ℕ
unfolding scan_write
parse_write req = let (val, args) = scan_write req in parsed val args

-- A conversion that has failed.
abbrev pub is_none : Option Bytes → Bool
is_none none = true
is_none (some s) = false
