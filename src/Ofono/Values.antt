-- ===== src/Ofono/Values.antt =====
-- plugins/ofono/core.c, core.h and ofono.h, and at_dbus_dict_lookup_string of src/dbus.c: the values
-- and messages of the bus, the state of the plugin, and the reading of replies.
use meego_cellular_matd.Prelude.{
  ℕ, ◌+◌, Bool, true, false, ◌&&◌, Option, none, some, List, [], ◌∷◌, ◌++◌, Bytes, codes, ◌==◌,
  if◌then◌else◌, length, get_or, drop,
}
use meego_cellular_matd.Libc.Ctype.{streq}
use meego_cellular_matd.Libc.Format.{decimal_02}
use meego_cellular_matd.Modem.{
  Modem, at_ok, at_cme_error_0, at_cme_ebusy, at_cme_eperm, at_cme_enotsup, at_cme_enomem,
  at_cme_enoent, at_cme_etimedout, at_cme_einval, at_cme_unknown,
}

-- A D-Bus value of one of the types that the plugin asks for.
pub data Value : Type 0 where
  string : Bytes → Value
  object_path : Bytes → Value
  boolean : Bool → Value
  byte : ℕ → Value
  uint16 : ℕ → Value
  uint32 : ℕ → Value
  strings : List Bytes → Value  -- an array of strings
  counts : List (Bytes × Option ℕ) → Value  -- a dictionary of bytes, with none for another value
  double : ℕ → Value  -- its bit pattern
  byte_arrays : List Bytes → Value  -- an array of arrays of bytes
  other : Value

-- A dictionary with keys that are strings; `none` is an entry that is no variant.
abbrev pub Dict : Type 0
Dict = List (Bytes × Option Value)

-- A structure of an array: its first argument, if it is an object path, and its second, if it is a
-- dictionary with keys that are strings.
pub record Entry : Type 0 where
  pub path : Option Bytes
  pub props : Option Dict

-- An argument of a message.
pub data Argument : Type 0 where
  plain : Value → Argument
  variant : Value → Argument
  dict : Dict → Argument
  structs : List Entry → Argument
  unreadable : Argument

pub record Message : Type 0 where
  pub path : Bytes
  pub interface : Bytes
  pub method : Bytes
  pub args : List Argument

-- What at_dbus_query gives: the sender and the arguments of a reply, or the name of an error.
pub data Reply : Type 0 where
  returned : Option Bytes → List Argument → Reply
  failed : Option Bytes → Reply

-- `ofono_obj_t`
pub data Object : Type 0 where
  ofono_any ofono_modem : Object

-- `struct ofono_watch`, without the plugin and the callback, which the field that holds it tells.
pub record Watch : Type 0 where
  pub object : Object
  pub interface : Bytes
  pub signal : Option Bytes
  pub arg0 : Option Bytes

-- `struct plugin`; `none` is a null pointer. The widths are written out at the assignments.
pub record Plugin : Type 0 where
  pub name : Option Bytes
  pub modemv : List Bytes
  pub modem : ℕ
  pub vhu : ℕ
  pub cring : Bool
  pub clip : Bool
  pub colp : Bool
  pub cdip : Bool
  pub cnap : Bool
  pub ccwa : Bool
  pub ring_filter : Option Watch
  pub barring_filter : Option Watch
  pub hold_filter : Option Watch
  pub mpty_filter : Option Watch
  pub fwd_filter : Option Watch
  pub cops : ℕ
  pub creg : ℕ
  pub creg_filter : Option Watch
  pub cgreg : ℕ
  pub cgreg_filter : Option Watch
  pub cgatt_filter : Option Watch
  pub caoc_filter : Option Watch
  pub ccwe_filter : Option Watch
  pub text_mode : Bool
  pub ussd_filter : Option Watch

-- The parts of the daemon's state `W` that the plugin works on, and the bus.
pub record Host (W : Type 0) : Type 0 where
  pub modem : W → Modem
  pub put : Modem → W → W
  pub plugin : W → Plugin
  pub keep : Plugin → W → W
  pub bus : W → Message → W × Reply

abbrev pub at_cme_error : ℕ → ℕ
at_cme_error n = at_cme_error_0 + n

-- `p->modemc` and `p->modemv[p->modem]`
abbrev pub modemc : Plugin → ℕ
modemc p = length p.modemv

abbrev pub current_modem : Plugin → Bytes
current_modem p = get_or p.modemv p.modem []

-- What follows where the result so far is AT_OK.
abbrev pub and_then : {W : Type 0} → W × ℕ → (W → W × ℕ) → W × ℕ
and_then (w, res) next = if res == at_ok then next w else (w, res)

-- `!strncmp (s, prefix, strlen (prefix))`
unfoldable pub starts_with : Bytes → Bytes → Bool
starts_with [] s = true
starts_with (x ∷ prefix) [] = false
starts_with (x ∷ prefix) (y ∷ s) = x == y && starts_with prefix s

-- The chains of `strcmp` on the rest of an error's name, with the result where none matches.
unfoldable pub error_named : List (Bytes × ℕ) → Bytes → ℕ → ℕ
unfolding streq
error_named [] name missing = missing
error_named ((key, code) ∷ table) name missing =
    let rest = error_named table name missing in if streq name key then code else rest

abbrev pub ofono_errors : List (Bytes × ℕ)
ofono_errors =
    (codes "InvalidArguments", at_cme_einval)
    ∷ (codes "InvalidFormat", at_cme_error 25)
    ∷ (codes "NotImplemented", at_cme_enotsup)
    ∷ (codes "Failed", at_cme_error 0)
    ∷ (codes "InProgress", at_cme_ebusy)
    ∷ (codes "NotFound", at_cme_enoent)
    ∷ (codes "NotActive", at_cme_einval)
    ∷ (codes "NotSupported", at_cme_enotsup)
    ∷ (codes "Timedout", at_cme_etimedout)
    ∷ (codes "SimNotReady", at_cme_error 14)
    ∷ (codes "InUse", at_cme_ebusy)
    ∷ (codes "NotAttached", at_cme_error 30)
    ∷ (codes "AttachInProgress", at_cme_error 30)
    ∷ (codes "Canceled", at_cme_unknown)
    ∷ (codes "AccessDenied", at_cme_eperm)
    ∷ []

abbrev pub dbus_errors : List (Bytes × ℕ)
dbus_errors =
    (codes "AccessDenied", at_cme_eperm)
    ∷ (codes "NoMemory", at_cme_enomem)
    ∷ (codes "InvalidArgs", at_cme_einval)
    ∷ []

unfoldable pub error_code : Option Bytes → ℕ
unfolding starts_with error_named
error_code none = at_cme_unknown
error_code (some name) =
    if starts_with (codes "org.ofono.Error.") name
    then error_named ofono_errors (drop 16 name) at_cme_unknown
    else if starts_with (codes "org.freedesktop.DBus.Error.") name
    then error_named dbus_errors (drop 27 name) (at_cme_error 0)
    else at_cme_unknown

-- What `ofono_query` gives: a reply, with AT_OK, or a null pointer with an error.
pub data Answer : Type 0 where
  answer : Option Bytes → List Argument → Answer
  refused : ℕ → Answer

abbrev pub answer_of : Reply → Answer
answer_of (returned sender args) = answer sender args
answer_of (failed name) = refused (error_code name)

-- The result of a request whose reply does not matter.
abbrev pub error_of : Answer → ℕ
error_of (answer sender args) = at_ok
error_of (refused err) = err

-- `at_dbus_dict_lookup_string` and the test for a variant in `ofono_dict_find`.
unfoldable pub dict_lookup : Dict → Bytes → Option Value
unfolding streq
dict_lookup [] name = none
dict_lookup ((key, value) ∷ entries) name =
    let rest = dict_lookup entries name in if streq name key then value else rest

-- The tests of the value's type with `dbus_message_iter_get_basic`.
abbrev pub as_string : Value → Option Bytes
as_string (string s) = some s
as_string _ = none

abbrev pub as_bool : Value → Option Bool
as_bool (boolean b) = some b
as_bool _ = none

abbrev pub as_byte : Value → Option ℕ
as_byte (byte n) = some n
as_byte _ = none

abbrev pub as_u16 : Value → Option ℕ
as_u16 (uint16 n) = some n
as_u16 _ = none

abbrev pub as_u32 : Value → Option ℕ
as_u32 (uint32 n) = some n
as_u32 _ = none

abbrev pub as_double : Value → Option ℕ
as_double (double n) = some n
as_double _ = none

-- An array; the strings at its beginning are what is read of it.
abbrev pub as_array : Value → Option (List Bytes)
as_array (strings l) = some l
as_array _ = none

abbrev pub as_counts : Value → Option (List (Bytes × Option ℕ))
as_counts (counts l) = some l
as_counts _ = none

abbrev pub of_type {ℓ} : {A : Type ℓ} → (Value → Option A) → Option Value → Option A
of_type type none = none
of_type type (some value) = type value

-- `ofono_dict_find`, with the type as the reading of a value; `none` is -1 or a null pointer.
unfoldable pub ofono_dict_find {ℓ} :
    {A : Type ℓ} → Option Dict → Bytes → (Value → Option A) → Option A
unfolding dict_lookup
ofono_dict_find none name type = none
ofono_dict_find (some entries) name type = of_type type (dict_lookup entries name)

-- The first argument of a message, if it is a dictionary.
abbrev pub first_dict : List Argument → Option Dict
first_dict (dict d ∷ args) = some d
first_dict _ = none

unfoldable pub ofono_prop_find {ℓ} :
    {A : Type ℓ} → List Argument → Bytes → (Value → Option A) → Option A
unfolding ofono_dict_find
ofono_prop_find args name type = ofono_dict_find (first_dict args) name type

-- `ofono_req_new`
unfoldable pub ofono_req_new : Bytes → Bytes → Bytes → List Argument → Message
ofono_req_new path subif method args = record {
  path = path;
  interface = codes "org.ofono." ++ subif;
  method = method;
  args = args;
}

-- `"%s/voicecall%02u"`
unfoldable pub voicecall_path : Bytes → ℕ → Bytes
unfolding decimal_02
voicecall_path modem callid = modem ++ (codes "/voicecall" ++ decimal_02 callid)

-- A property that `modem_props_get` may not have got.
abbrev pub prop_of {ℓ} : {A : Type ℓ} → Bytes → (Value → Option A) → Answer → Option A
prop_of name type (answer sender args) = ofono_prop_find args name type
prop_of name type (refused err) = none
