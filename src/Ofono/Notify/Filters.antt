-- ===== src/Ofono/Notify/Filters.antt =====
-- plugins/ofono/voicecall.c: which filters of AT+CSSN take the signal for a forwarded call.
use meego_cellular_matd.Prelude.{
  ℕ, ◌≡◌, refl, Bool, true, false, not, ◌&&◌, ◌||◌, none, some, [], ◌∷◌, Bytes, codes, ◌==◌, ==_iff,
}
use meego_cellular_matd.Libc.Ctype.{streq}
use meego_cellular_matd.Ofono.{ofono_modem, plain, string, Watch, Plugin, modemc, current_modem}
use meego_cellular_matd.Ofono.Signals.{
  ofono_prop_watch, watched, same, wanted, object_fits, Signal, ofono_signal_watch,
  ofono_signal_matcher, first_string,
}
use meego_cellular_matd.Ofono.Voicecall.{ringing}
use meego_cellular_matd.Ofono.Ringing.{
  is_some, without_ssn, with_ssi, with_ssu, with_fwd, filters_ssn,
}

pub streq_refl : (s : Bytes) → streq s s ≡ true
unfolding streq
streq_refl [] = refl
streq_refl (x ∷ s) = rw ((==_iff x x).1 refl) (streq_refl s)

-- The two numbers as the tests of AT+CSSN.
abbrev pub on : ℕ → Bool
on n = not (n == 0)

pub shown :
    (a b : Bool) (p : Plugin)
    → (is_some (filters_ssn a b p).barring_filter ≡ a)
      × (is_some (filters_ssn a b p).hold_filter ≡ b)
unfolding filters_ssn without_ssn with_ssi with_ssu with_fwd
shown true true p = (refl, refl)
shown true false p = (refl, refl)
shown false true p = (refl, refl)
shown false false p = (refl, refl)

-- The signal of oFono for a call that is forwarded.
abbrev pub forwarded : Bytes → Bytes → Bytes → Signal
forwarded name path type = record {
  sender = some name;
  path = path;
  interface = codes "org.ofono.VoiceCallManager";
  member = codes "Forwarded";
  args = plain (string type) ∷ [];
}

and_false : (a b c : Bool) → (a && (b && (false && c))) ≡ false
and_false true true c = refl
and_false true false c = refl
and_false false true c = refl
and_false false false c = refl

-- A filter on another signal does not match.
matcher-other :
    (p : Plugin) (s : Watch) (msg : Signal)
    → wanted s.signal (some msg.member) ≡ false
    → ofono_signal_matcher p s msg ≡ false
unfolding ofono_signal_matcher
matcher-other p s msg h = rw h (
    and_false (same p.name msg.sender) (streq msg.interface s.interface)
      (wanted s.arg0 (first_string msg.args) && object_fits s.object p msg.path))

-- The filters behind AT+CSSN.
abbrev pub asked : Bool → Bool → Plugin → Plugin
asked ssi ssu p = filters_ssn ssi ssu p

fwd_watch : Watch
unfolding ofono_signal_watch
fwd_watch =
    ofono_signal_watch ofono_modem (codes "VoiceCallManager") (some (codes "Forwarded")) none

module _ (p : Plugin) (name type : Bytes) (named : p.name ≡ some name)
    (some_modem : (modemc p == 0) ≡ false) where
  abbrev msg : Signal
  msg = forwarded name (current_modem p) type

  fwd-matches : ofono_signal_matcher p fwd_watch msg ≡ true
  unfolding ofono_signal_matcher fwd_watch streq ofono_signal_watch
  fwd-matches = rw (named, streq_refl name, some_modem, streq_refl (current_modem p)) refl

-- The filters of the others do not take it.
module _ (p : Plugin) (name path type : Bytes) where
  abbrev sent : Signal
  sent = forwarded name path type

  pub ring-other :
      (a b : Bool)
      → p.ring_filter ≡ (ringing p).ring_filter
      → watched (asked a b p) (asked a b p).ring_filter sent ≡ false
  unfolding filters_ssn without_ssn with_ssi with_ssu with_fwd ringing ofono_signal_watch streq
  ring-other true true e = rw e (matcher-other _ _ sent refl)
  ring-other true false e = rw e (matcher-other _ _ sent refl)
  ring-other false true e = rw e (matcher-other _ _ sent refl)
  ring-other false false e = rw e (matcher-other _ _ sent refl)

  pub barring-other : (a b : Bool) → watched (asked a b p) (asked a b p).barring_filter sent ≡ false
  unfolding filters_ssn without_ssn with_ssi with_ssu with_fwd ringing ofono_signal_watch streq
  barring-other true true = matcher-other (asked true true p) _ sent refl
  barring-other true false = matcher-other (asked true false p) _ sent refl
  barring-other false true = refl
  barring-other false false = refl

  pub hold-other : (a b : Bool) → watched (asked a b p) (asked a b p).hold_filter sent ≡ false
  unfolding filters_ssn without_ssn with_ssi with_ssu with_fwd ringing ofono_signal_watch
      ofono_prop_watch streq
  hold-other true true = matcher-other (asked true true p) _ sent refl
  hold-other true false = refl
  hold-other false true = matcher-other (asked false true p) _ sent refl
  hold-other false false = refl

  pub mpty-other : (a b : Bool) → watched (asked a b p) (asked a b p).mpty_filter sent ≡ false
  unfolding filters_ssn without_ssn with_ssi with_ssu with_fwd ringing ofono_signal_watch
      ofono_prop_watch streq
  mpty-other true true = matcher-other (asked true true p) _ sent refl
  mpty-other true false = refl
  mpty-other false true = matcher-other (asked false true p) _ sent refl
  mpty-other false false = refl

-- The modem and the name are not touched.
unchanged :
    (a b : Bool) (p : Plugin)
    → ((asked a b p).name ≡ p.name)
      × (modemc (asked a b p) ≡ modemc p)
      × (current_modem (asked a b p) ≡ current_modem p)
unfolding filters_ssn without_ssn with_ssi with_ssu with_fwd ringing
unchanged true true p = (refl, refl, refl)
unchanged true false p = (refl, refl, refl)
unchanged false true p = (refl, refl, refl)
unchanged false false p = (refl, refl, refl)

pub fwd-asked :
    (a b : Bool) (p : Plugin) (name type : Bytes)
    → p.name ≡ some name
    → (modemc p == 0) ≡ false
    → watched (asked a b p) (asked a b p).fwd_filter (forwarded name (current_modem p) type)
      ≡ (a || b)
unfolding filters_ssn without_ssn with_ssi with_ssu with_fwd ringing fwd_watch
fwd-asked true true p name type named some_modem =
    fwd-matches (asked true true p) name type named some_modem
fwd-asked true false p name type named some_modem =
    fwd-matches (asked true false p) name type named some_modem
fwd-asked false true p name type named some_modem =
    fwd-matches (asked false true p) name type named some_modem
fwd-asked false false p name type named some_modem = refl
