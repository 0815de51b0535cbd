-- ===== src/Phonebook.antt =====
-- src/phonebook.c: the list of phonebooks and AT+CPBS, AT+CPBR, AT+CPBF and AT+CPBW. A callback is a
-- function on the state `W` of the daemon, with the plugin's data applied already; a phonebook does
-- not change once it is registered, so a copy of it stands for a pointer to it.
mod Requests
pub mod Default
unfoldable pub use Requests.*
use meego_cellular_matd.Prelude.{
  ℕ, ◌+◌, ◌-◌, ◌*◌, ◌⊎◌, inl, inr, Bool, true, not, ◌||◌, Option, none, some, List, [], ◌∷◌, ◌++◌,
  Bytes, codes, ◌==◌, if◌then◌else◌, length, get_or, set, take,
}
use meego_cellular_matd.Libc.Ctype.{strncasecmp, is_eq, streq}
use meego_cellular_matd.Libc.Scanf.{space, uint, sscanf, count_of, num_at, str_at}
use meego_cellular_matd.Libc.Format.{decimal}
use meego_cellular_matd.Modem.{
  Modem, at_ok, at_error, at_cme_error_0, at_cme_enotsup, at_cme_einval, at_intermediate,
}
use meego_cellular_matd.Commands.{GetCb, SetCb, Bank, register_ext}
use meego_cellular_matd.Charset.{at_to_utf8}

module _ {W : Type 0} where
  unfoldable pub init : Phonebooks W → Phonebooks W
  init pbs = record pbs { phonebooks = []; written_index = uint_max }

  unfoldable pub pb_byname : List (Phonebook W) → Bytes → Option (Phonebook W)
  unfolding strncasecmp
  pb_byname [] name = none
  pb_byname (pb ∷ pbs) name =
      let rest = pb_byname pbs name in if is_eq (strncasecmp pb.name name 2) then some pb else rest

  -- The list of `pb_list`, with the last comma cut off.
  unfoldable pub name_list : List (Phonebook W) → Bytes
  name_list [] = []
  name_list (pb ∷ pbs) =
      b'"' ∷ get_or pb.name 0 0 ∷ get_or pb.name 1 0 ∷ b'"' ∷ b',' ∷ name_list pbs

  -- What `at_phonebooks_register` does to the list; the name has two bytes.
  unfoldable pub add : Phonebooks W → Phonebook W → Phonebooks W
  unfolding streq
  add pbs pb =
      let listed = record pbs { phonebooks = pb ∷ pbs.phonebooks } in
      if length pbs.phonebooks == 0 || streq pb.name (codes "ME")
      then record listed { active = some pb }
      else listed

  module _ (modem : W → Modem) (put : Modem → W → W) (phonebooks : W → Phonebooks W)
      (keep : Phonebooks W → W → W) (iconv : Bytes → Bytes → ℕ → Bytes → Option Bytes) where
    abbrev print : W → Bytes → W × ℕ
    print w text = let (m, res) = at_intermediate (modem w) text in (put m w, res)

    abbrev select : W → Phonebook W → W × ℕ
    select w pb =
        (keep (record (phonebooks w) { active = some pb; written_index = uint_max }) w, at_ok)

    -- The password is asked for where the phonebook has a callback for it.
    abbrev pub with_password : W → Phonebook W → Bytes → Option (W → Bytes → W × ℕ) → W × ℕ
    with_password w pb pw none = select w pb
    with_password w pb pw (some cb) =
        let (w1, ret) = cb w pw in if ret == at_ok then select w1 pb else (w1, ret)

    abbrev pub select_found : W → Bytes → Option (Phonebook W) → W × ℕ
    select_found w pw none = (w, at_cme_enotsup)
    select_found w pw (some pb) = with_password w pb pw pb.pw_cb

    unfoldable pub pb_select : SetCb W
    unfolding pb_byname scan_storage
    pb_select w req =
        let r = scan_storage req in
        let found = pb_byname (phonebooks w).phonebooks (str_at r.args 0) in
        elim (count_of r) [
          | none ↦ (w, at_cme_einval)
          | some n ↦
              if n == 1 || n == 2
              then select_found w (str_at r.args 1) found
              else (w, at_cme_einval)
        ]

    -- A handler on the active phonebook. The commands are registered when there is one.
    abbrev pub on_active : (Phonebook W → W × ℕ) → W → W × ℕ
    on_active handler w = elim (phonebooks w).active [
      | none ↦ (put (record (modem w) { aborted = true }) w, at_error)
      | some pb ↦ handler pb
    ]

    -- The name is printed up to a nul, and `behind` are the bytes up to one behind its two letters.
    unfoldable pub pb_show : Bytes → GetCb W
    pb_show behind w =
        on_active (λ pb. print w (codes "\r\n+CPBS: \"" ++ (pb.name ++ (behind ++ (b'"' ∷ []))))) w

    unfoldable pub pb_list : GetCb W
    unfolding name_list
    pb_list w =
        let pbs = (phonebooks w).phonebooks in
        let names = take (5 * length pbs - 1) (name_list pbs) in
        if length pbs == 0
        then (w, at_cme_error_0)
        else print w (codes "\r\n+CPBS: (" ++ (names ++ codes ")"))

    abbrev read_from : W → Option (W → ℕ → ℕ → W × ℕ) → ℕ → ℕ → W × ℕ
    read_from w none start end = (w, at_cme_enotsup)
    read_from w (some cb) start end = cb w start end

    unfoldable pub pb_read : SetCb W
    unfolding sscanf
    pb_read w req =
        let r = sscanf (space ∷ uint ∷ comma (uint ∷ [])) req in
        let start = num_at r.args 0 in
        elim (count_of r) [
          | none ↦ (w, at_cme_einval)
          | some n ↦
              if n == 1
              then on_active (λ pb. read_from w pb.read_cb start start) w
              else if n == 2
              then on_active (λ pb. read_from w pb.read_cb start (num_at r.args 1)) w
              else (w, at_cme_einval)
        ]

    abbrev range_line : W × (ℕ × ℕ) × ℕ → W × ℕ
    range_line (w, (start, end), ret) =
        if ret == at_ok
        then print w
            (codes "\r\n+CPBR: (" ++ (decimal start ++ (b'-' ∷ (decimal end ++ codes "),,,,,,,"))))
        else (w, ret)

    abbrev range_of : W → Option (W → W × (ℕ × ℕ) × ℕ) → W × ℕ
    range_of w none = (w, at_cme_enotsup)
    range_of w (some cb) = range_line (cb w)

    unfoldable pub pb_read_test : GetCb W
    pb_read_test w = on_active (λ pb. range_of w pb.range_cb) w

    abbrev find_text : W → (W → Bytes → W × ℕ) → Option Bytes → W × ℕ
    find_text w cb none = (w, at_cme_einval)
    find_text w cb (some text) = cb w text

    abbrev find_with : W → Bytes → Option (W → Bytes → W × ℕ) → W × ℕ
    find_with w needle none = (w, at_cme_enotsup)
    find_with w needle (some cb) = find_text w cb (at_to_utf8 iconv (modem w) needle)

    unfoldable pub pb_find : SetCb W
    unfolding sscanf
    pb_find w req =
        let r = sscanf (space ∷ quoted 255 []) req in
        elim (count_of r) [
          | none ↦ (w, at_cme_einval)
          | some n ↦
              if n == 1
              then on_active (λ pb. find_with w (str_at r.args 0) pb.find_cb) w
              else (w, at_cme_einval)
        ]

    unfoldable pub pb_find_test : GetCb W
    pb_find_test w = print w (codes "\r\n+CPBF: 31,255,255,255,255,255,255")

    -- Whether one of the six conversions of `pb_write` fails. Their results are not passed on.
    unfoldable pub unconvertible : Modem → Record → Bool
    unconvertible m r =
        is_none (at_to_utf8 iconv m r.text)
        || (is_none (at_to_utf8 iconv m r.group)
            || (is_none (at_to_utf8 iconv m r.adtext)
                || (is_none (at_to_utf8 iconv m r.email)
                    || (is_none (at_to_utf8 iconv m r.sip) || is_none (at_to_utf8 iconv m r.tel)))))

    abbrev written : W × ℕ × ℕ → W × ℕ
    written (w, idx, ret) =
        if ret == at_ok
        then (keep (record (phonebooks w) { written_index = idx }) w, ret)
        else (w, ret)

    abbrev write_with : W → (ℕ × Record) ⊎ ℕ → Option (W → ℕ → Record → W × ℕ × ℕ) → W × ℕ
    write_with w (inr err) cb = (w, err)
    write_with w (inl (idx, r)) none = (w, at_cme_enotsup)
    write_with w (inl (idx, r)) (some cb) =
        if unconvertible (modem w) r then (w, at_cme_einval) else written (cb w idx r)

    unfoldable pub pb_write : SetCb W
    unfolding unconvertible parse_write
    pb_write w req = on_active (λ pb. write_with w (parse_write req) pb.write_cb) w

    unfoldable pub pb_offset : GetCb W
    pb_offset w =
        let idx = (phonebooks w).written_index in
        if not (idx == uint_max)
        then print w (codes "\r\n+CPBW: " ++ decimal idx)
        else print w (codes "\r\n+CPBW: -1")

    abbrev write_test : W → Option (W → ℕ → Record → W × ℕ × ℕ) → W × ℕ
    write_test w none = (w, at_cme_enotsup)
    write_test w (some cb) = print w (
        codes "\r\n+CPBW: (0-"
        ++ (decimal int_max ++ codes "),31,(129,145),255,255,255,255,255,255"))

    unfoldable pub pb_write_test : GetCb W
    pb_write_test w = on_active (λ pb. write_test w pb.write_cb) w

    -- The four registrations that come with the first phonebook.
    unfoldable pub register_commands : Bytes → Bank W → Bank W
    register_commands behind bank =
        let bank =
          (register_ext bank (codes "+CPBS")
            (record { set = pb_select; get = some (pb_show behind); test = some pb_list })).0 in
        let bank =
          (register_ext bank (codes "+CPBR")
            (record { set = pb_read; get = none; test = some pb_read_test })).0 in
        let bank =
          (register_ext bank (codes "+CPBF")
            (record { set = pb_find; get = none; test = some pb_find_test })).0 in
        (register_ext bank (codes "+CPBW")
          (record { set = pb_write; get = some pb_offset; test = some pb_write_test })).0

    unfoldable pub at_phonebooks_register :
        Bytes → Bank W → Phonebooks W → Phonebook W → Bank W × Phonebooks W
    unfolding add register_commands
    at_phonebooks_register behind bank pbs pb =
        if length pbs.phonebooks == 0
        then (register_commands behind bank, add pbs pb)
        else (bank, add pbs pb)
