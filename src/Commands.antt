-- ===== src/Commands.antt =====
-- src/commands.c: the bank of registered handlers, at_register_* and at_commands_execute. A handler
-- is a function on the state of the whole daemon, the type `W`; what C passes as an opaque pointer is
-- a part of that state, or has been applied already. malloc() is taken to succeed.
pub mod Search
pub mod Order
pub mod Forms
pub mod Key
pub mod Dispatch
pub mod Keeps
pub mod Registration
use meego_cellular_matd.Prelude.{
  ℕ, ◌+◌, ◌-◌, Bool, true, false, not, ◌&&◌, ◌||◌, Option, none, some, List, [], ◌∷◌, Bytes, ltb,
  leb, ◌==◌, if◌then◌else◌, length, get_or, set, drop, replicate,
}
use meego_cellular_matd.Libc.Ctype.{is_lower, is_upper}
use meego_cellular_matd.Libc.Scanf.{
  space, literal, uint, char, skip_char, skip_scanset, offset, Directive, Arg, sscanf, count_of,
  num_at, chr_at, chr, pos,
}
use meego_cellular_matd.Modem.{at_ok, at_error, at_no_dialtone, at_cme_einval}
use meego_cellular_matd.Commands.Search.{Tree, leaf, tfind, tsearch}

abbrev pub name_max : ℕ
name_max = 15

abbrev pub max_s : ℕ
max_s = 25

-- The results of a registration; the first is 0, the last a failed assertion.
pub data Registered : Type 0 where
  registered name_too_long already out_of_range assertion_failed : Registered

-- The callbacks: at_alpha_cb and at_set_s_cb, at_set_cb, at_get_cb and at_get_s_cb.
abbrev pub AlphaCb : Type 0 → Type 0
AlphaCb W = W → ℕ → W × ℕ

abbrev pub SetCb : Type 0 → Type 0
SetCb W = W → Bytes → W × ℕ

abbrev pub GetCb : Type 0 → Type 0
GetCb W = W → W × ℕ

-- `struct at_handler`, without its name, which the tree holds.
pub record Handler (W : Type 0) : Type 0 where
  pub set : SetCb W
  pub get : Option (GetCb W)
  pub test : Option (GetCb W)

pub record SHandler (W : Type 0) : Type 0 where
  pub set : AlphaCb W
  pub get : GetCb W

-- `struct at_commands`; `none` is a null pointer.
pub record Bank (W : Type 0) : Type 0 where
  pub alpha : List (Option (AlphaCb W))
  pub ampersand : List (Option (AlphaCb W))
  pub dial : List (Option (SetCb W))
  pub s : List (Option (SHandler W))
  pub extended : Tree (Handler W)

abbrev pub slot {ℓ} : {A : Type ℓ} → List (Option A) → ℕ → Option A
slot xs i = get_or xs i none

-- An entry of one of the tables of handlers, where the place holds nothing yet.
abbrev pub put_in {ℓ} :
    {A : Type ℓ} → Option A → List (Option A) → ℕ → A → List (Option A) × Registered
put_in (some old) table x h = (table, already)
put_in none table x h = (set table x (some h), registered)

unfoldable pub register_in {ℓ} :
    {A : Type ℓ} → List (Option A) → ℕ → A → List (Option A) × Registered
register_in table x h = put_in (slot table x) table x h

abbrev pub dial_index : Bool → ℕ
dial_index true = 1
dial_index false = 0

-- `strchr (s, c) != NULL`
unfoldable pub strchr : Bytes → ℕ → Bool
strchr [] c = false
strchr (x ∷ s) c = x == c || strchr s c

-- The first statements of `at_commands_execute`: a small letter is made a capital one.
unfoldable pub to_capital : ℕ → ℕ
to_capital c = if is_lower c then c - 32 else c

-- The set of `%*[^?= ]`.
abbrev pub in_name : ℕ → Bool
in_name c = not (c == b'?' || (c == b'=' || c == b' '))

module _ {W : Type 0} where
  -- The tables as `at_commands_init` clears them.
  unfoldable pub cleared : Bank W
  cleared = record {
    alpha = replicate 26 none;
    ampersand = replicate 26 none;
    dial = replicate 2 none;
    s = replicate (max_s + 1) none;
    extended = leaf;
  }

  unfoldable pub register_ext : Bank W → Bytes → Handler W → Bank W × Registered
  unfolding tsearch
  register_ext bank name h =
      if leb name_max (length name)
      then (bank, name_too_long)
      else let (tree, added) = tsearch name h bank.extended in
        if added then (record bank { extended = tree }, registered) else (bank, already)

  abbrev with_alpha : Bank W → List (Option (AlphaCb W)) × Registered → Bank W × Registered
  with_alpha bank (table, r) = (record bank { alpha = table }, r)

  abbrev with_ampersand : Bank W → List (Option (AlphaCb W)) × Registered → Bank W × Registered
  with_ampersand bank (table, r) = (record bank { ampersand = table }, r)

  unfoldable pub register_alpha : Bank W → ℕ → AlphaCb W → Bank W × Registered
  unfolding register_in
  register_alpha bank cmd req =
      if is_upper cmd && (not (cmd == b'D') && not (cmd == b'S'))
      then with_alpha bank (register_in bank.alpha (cmd - b'A') req)
      else (bank, assertion_failed)

  unfoldable pub register_ampersand : Bank W → ℕ → AlphaCb W → Bank W × Registered
  unfolding register_in
  register_ampersand bank cmd req =
      if is_upper cmd
      then with_ampersand bank (register_in bank.ampersand (cmd - b'A') req)
      else (bank, assertion_failed)

  unfoldable pub register_dial : Bank W → Bool → SetCb W → Bank W × Registered
  unfolding register_in
  register_dial bank voice req =
      let (table, r) = register_in bank.dial (dial_index voice) req in
      (record bank { dial = table }, r)

  unfoldable pub register_s : Bank W → ℕ → SHandler W → Bank W × Registered
  unfolding register_in
  register_s bank param h =
      if ltb max_s param
      then (bank, out_of_range)
      else let (table, r) = register_in bank.s param h in (record bank { s = table }, r)

  -- A set or get callback that may be missing.
  abbrev pub call_or : Option (GetCb W) → W → ℕ → W × ℕ
  call_or none w missing = (w, missing)
  call_or (some f) w missing = f w

  -- The handler of an S parameter, if it is in range and registered.
  abbrev pub s_handler : Bank W → ℕ → Option (SHandler W)
  s_handler bank x = if ltb max_s x then none else slot bank.s x

  -- Behind the `switch`: the call of the handler, if there is one.
  abbrev pub called_s : Option (SHandler W) → W → ℕ → ℕ → W × ℕ
  called_s none w op value = (w, at_error)
  called_s (some h) w op value = if op == b'?' then h.get w else h.set w value

  -- The `switch` on the result of sscanf(), before what follows it.
  abbrev pub judged_s : Option ℕ → W → ℕ → W × ℕ → W × ℕ
  judged_s none w op called = (w, at_error)
  judged_s (some n) w op called =
      if n == 2
      then (if op == b'?' then called else (w, at_error))
      else if n == 3
      then (if op == b'=' then called else (w, at_error))
      else (w, at_error)

  -- ATS: the number, the operator and the value that sscanf() stored.
  unfoldable pub execute_s : Bank W → W → Bytes → W × ℕ
  unfolding sscanf
  execute_s bank w req =
      let r = sscanf (skip_char ∷ space ∷ uint ∷ space ∷ char ∷ space ∷ uint ∷ []) req in
      let x = num_at r.args 0 in
      let op = chr_at r.args 1 in
      let value = num_at r.args 2 in
      judged_s (count_of r) w op (called_s (s_handler bank x) w op value)

  -- A single character, or an ampersand and one: the handler, with the number behind it or 0.
  unfoldable pub execute_letter : List (Option (AlphaCb W)) → ℕ → List Directive → W → Bytes → W × ℕ
  unfolding sscanf
  execute_letter table x format w req = elim (slot table x) [
    | none ↦ (w, at_error)
    | some f ↦ f w (num_at (sscanf format req).args 0)
  ]

  unfoldable pub execute_dial : Bank W → W → Bytes → W × ℕ
  execute_dial bank w req = elim (slot bank.dial (dial_index (strchr req b';'))) [
    | none ↦ (w, at_no_dialtone)
    | some cb ↦ cb w (drop 1 req)
  ]

  -- Behind the equal sign of an extended command: what sscanf() stored decides.
  abbrev pub after_equal : Handler W → W → Bytes → List Arg → W × ℕ
  after_equal h w req (pos off ∷ chr c ∷ rest) =
      if c == b'?' then call_or h.test w at_ok else h.set w (drop off req)
  after_equal h w req _ = h.set w []

  unfoldable pub execute_equal : Handler W → W → Bytes → W × ℕ
  unfolding sscanf
  execute_equal h w req = after_equal h w req (sscanf (space ∷ offset ∷ char ∷ []) req).args

  -- An extended command whose handler has been found: the operator behind its name.
  abbrev pub after_name : Handler W → W → Bytes → List Arg → W × ℕ
  after_name h w req (chr c ∷ pos off ∷ rest) =
      if c == b'?'
      then call_or h.get w at_cme_einval
      else if c == b'='
      then execute_equal h w (drop off req)
      else (w, at_error)
  after_name h w req _ = h.set w []

  unfoldable pub execute_handler : Handler W → W → Bytes → W × ℕ
  unfolding sscanf
  execute_handler h w req =
      after_name h w req (sscanf (skip_scanset in_name ∷ space ∷ char ∷ offset ∷ []) req).args

  -- The handler that the tree holds, or a null pointer.
  abbrev pub with_found : W → Bytes → Option (Handler W) → W × ℕ
  with_found w req none = (w, at_error)
  with_found w req (some h) = execute_handler h w req

  unfoldable pub execute_extended : Bank W → W → Bytes → W × ℕ
  execute_extended bank w req = with_found w req (tfind req bank.extended)

  -- `AT&`: the letter in either case.
  unfoldable pub execute_ampersand : Bank W → W → Bytes → W × ℕ
  execute_ampersand bank w req =
      let x = get_or req 1 0 in
      let format = literal b'&' ∷ skip_char ∷ space ∷ uint ∷ [] in
      if is_upper x
      then execute_letter bank.ampersand (x - b'A') format w req
      else if is_lower x
      then execute_letter bank.ampersand (x - b'a') format w req
      else (w, at_error)

  unfoldable pub execute_bank : Bank W → W → Bytes → W × ℕ
  execute_bank bank w req =
      let c = to_capital (get_or req 0 0) in
      if is_upper c
      then (if c == b'D'
          then execute_dial bank w req
          else if c == b'S'
          then execute_s bank w req
          else execute_letter bank.alpha (c - b'A') (skip_char ∷ space ∷ uint ∷ []) w req)
      else if c == b'&'
      then execute_ampersand bank w req
      else execute_extended bank w req

  -- `at_commands_execute`; `none` is a null pointer.
  unfoldable pub execute : Option (Bank W) → W → Bytes → W × ℕ
  execute none w req = (w, at_error)
  execute (some bank) w req = execute_bank bank w req
