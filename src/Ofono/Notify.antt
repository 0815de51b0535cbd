-- ===== src/Ofono/Notify.antt =====
-- plugins/ofono/voicecall.c: what AT+CSSN asks for, and the signals that are reported then.
mod Filters
unfoldable pub use Filters.*
use meego_cellular_matd.Prelude.{
  ℕ, zero, suc, ◌+◌, ◌-◌, ◌≤◌, ◌≡◌, refl, sym, ap, ◌∙◌, subst, Bool, true, false, not, ◌||◌, some,
  [], ◌∷◌, ◌++◌, arith, Bytes, codes, ltb, ◌==◌, if◌then◌else◌, if_false,
}
use meego_cellular_matd.Modem.{at_ok}
use meego_cellular_matd.Ofono.Calls.{bit}
use meego_cellular_matd.Libc.Format.{decimal, decimal_from}
use meego_cellular_matd.Libc.Ctype.{streq}
use meego_cellular_matd.Ofono.{
  intermediate_result, Host, plain, string, Plugin, modemc, current_modem,
}
use meego_cellular_matd.Ofono.Signals.{watched, Signal}
use meego_cellular_matd.Ofono.Voicecall.{ringing}
use meego_cellular_matd.Ofono.Ringing.{
  ssn_to, get_ssn, set_ssn, scan_ssn, report_ssu, report_ssi, forwarded_callback, on_signal,
}

module _ {W : Type 0} (host : Host W) where
  forwarded_only :
      (w : W) (msg : Signal) (fits : Bool)
      → watched (host.plugin w) (host.plugin w).ring_filter msg ≡ false
      → watched (host.plugin w) (host.plugin w).barring_filter msg ≡ false
      → watched (host.plugin w) (host.plugin w).hold_filter msg ≡ false
      → watched (host.plugin w) (host.plugin w).mpty_filter msg ≡ false
      → watched (host.plugin w) (host.plugin w).fwd_filter msg ≡ fits
      → on_signal host w msg ≡ (if fits then forwarded_callback host w msg.args else w)
  unfolding on_signal
  forwarded_only w msg fits ring barring hold mpty fwd = rw (ring, barring, hold, mpty, fwd) refl

  -- What a forwarded call does on the filters of AT+CSSN.
  forwarded-asked :
      (w : W) (a b : Bool) (p : Plugin) (name type : Bytes)
      → host.plugin w ≡ asked a b p
      → p.ring_filter ≡ (ringing p).ring_filter
      → p.name ≡ some name
      → (modemc p == 0) ≡ false
      → on_signal host w (forwarded name (current_modem p) type)
        ≡ (if a || b then forwarded_callback host w (plain (string type) ∷ []) else w)
  forwarded-asked w a b p name type e ringed named some_modem =
      let msg = forwarded name (current_modem p) type in
      forwarded_only w msg (a || b)
        (subst (λ q. watched q q.ring_filter msg ≡ false) (sym e)
          (ring-other p name (current_modem p) type a b ringed))
        (subst (λ q. watched q q.barring_filter msg ≡ false) (sym e)
          (barring-other p name (current_modem p) type a b))
        (subst (λ q. watched q q.hold_filter msg ≡ false) (sym e)
          (hold-other p name (current_modem p) type a b))
        (subst (λ q. watched q q.mpty_filter msg ≡ false) (sym e)
          (mpty-other p name (current_modem p) type a b))
        (subst (λ q. watched q q.fwd_filter msg ≡ (a || b)) (sym e)
          (fwd-asked a b p name type named some_modem))

  outgoing :
      (w : W) (a b : Bool) (p : Plugin)
      → host.plugin w ≡ asked a b p
      → (if a || b then forwarded_callback host w (plain (string (codes "outgoing")) ∷ []) else w)
        ≡ (if a then report_ssi host w 2 else w)
  unfolding forwarded_callback streq
  outgoing w true b p e = rw (e, (shown true b p).0) refl
  outgoing w false true p e = rw (e, (shown false true p).0) refl
  outgoing w false false p e = refl

  incoming :
      (w : W) (a b : Bool) (p : Plugin)
      → host.plugin w ≡ asked a b p
      → (if a || b then forwarded_callback host w (plain (string (codes "incoming")) ∷ []) else w)
        ≡ (if b then report_ssu host w 0 else w)
  unfolding forwarded_callback streq
  incoming w true true p e = rw (e, (shown true true p).1) refl
  incoming w false true p e = rw (e, (shown false true p).1) refl
  incoming w true false p e = rw (e, (shown true false p).1) refl
  incoming w false false p e = refl

  module _ (kept : (p : Plugin) (w : W) → host.plugin (host.keep p w) ≡ p) where
    set_ssn-done :
        (w : W) (req : Bytes) (ssi ssu : ℕ)
        → scan_ssn req ≡ some (ssi, ssu)
        → ssi ≤ 1
        → ssu ≤ 1
        → set_ssn host w req ≡ (host.keep (asked (on ssi) (on ssu) (host.plugin w)) w, at_ok)
    unfolding set_ssn
    set_ssn-done w req ssi ssu scanned small small2 =
        ap (ssn_to host w) scanned
        ∙ if_false {b = ltb 1 ssi || ltb 1 ssu} _ _ (ground (arith, small, small2))

    decimal-bit : (n : ℕ) → n ≤ 1 → decimal (bit (on n)) ≡ decimal n
    unfolding decimal decimal_from
    decimal-bit zero h = refl
    decimal-bit (suc zero) h = refl
    decimal-bit (suc (suc n)) h = absurd (omega (arith, h))

    asked-shown :
        (w : W) (ssi ssu : ℕ) (p : Plugin)
        → host.plugin w ≡ asked (on ssi) (on ssu) p
        → ssi ≤ 1
        → ssu ≤ 1
        → get_ssn host w
          ≡ intermediate_result host w
              (codes "\r\n+CSSN: " ++ (decimal ssi ++ (b',' ∷ decimal ssu)))
    unfolding get_ssn
    asked-shown w ssi ssu p e small small2 =
        rw
          (
            e,
            (shown (on ssi) (on ssu) p).0,
            (shown (on ssi) (on ssu) p).1,
            decimal-bit ssi small,
            decimal-bit ssu small2,
          )
          refl

    -- After AT+CSSN with two numbers up to 1, which gives OK, AT+CSSN? prints the two; and when the
    -- selected modem then signals that a call has been forwarded, an outgoing one is reported by
    -- +CSSI: 2 exactly if the first is 1, and an incoming one by +CSSU: 0 exactly if the second is.
    -- The plugin knows the name of oFono and has a modem and the filter of its registration, and
    -- the state that is put into the daemon's is the one that is read from it.
    pub set_ssn-reports :
        (w : W) (req name : Bytes) (ssi ssu : ℕ)
        → scan_ssn req ≡ some (ssi, ssu)
        → ssi ≤ 1
        → ssu ≤ 1
        → (host.plugin w).ring_filter ≡ (ringing (host.plugin w)).ring_filter
        → (host.plugin w).name ≡ some name
        → (modemc (host.plugin w) == 0) ≡ false
        → let done = set_ssn host w req in
          let path = current_modem (host.plugin w) in
          (done.1 ≡ at_ok)
          × (get_ssn host done.0
              ≡ intermediate_result host done.0
                  (codes "\r\n+CSSN: " ++ (decimal ssi ++ (b',' ∷ decimal ssu))))
          × (on_signal host done.0 (forwarded name path (codes "outgoing"))
              ≡ (if not (ssi == 0) then report_ssi host done.0 2 else done.0))
          × (on_signal host done.0 (forwarded name path (codes "incoming"))
              ≡ (if not (ssu == 0) then report_ssu host done.0 0 else done.0))
    set_ssn-reports w req name ssi ssu scanned small small2 ringed named some_modem =
        let p = host.plugin w in
        let w1 = host.keep (asked (on ssi) (on ssu) p) w in
        let e = kept (asked (on ssi) (on ssu) p) w in
        subst
          (λ (done : W × ℕ).
            (done.1 ≡ at_ok)
            × (get_ssn host done.0
                ≡ intermediate_result host done.0
                    (codes "\r\n+CSSN: " ++ (decimal ssi ++ (b',' ∷ decimal ssu))))
            × (on_signal host done.0 (forwarded name (current_modem p) (codes "outgoing"))
                ≡ (if on ssi then report_ssi host done.0 2 else done.0))
            × (on_signal host done.0 (forwarded name (current_modem p) (codes "incoming"))
                ≡ (if on ssu then report_ssu host done.0 0 else done.0)))
          (sym (set_ssn-done w req ssi ssu scanned small small2))
          (
            refl,
            asked-shown w1 ssi ssu p e small small2,
            forwarded-asked w1 (on ssi) (on ssu) p name (codes "outgoing") e ringed named some_modem
                ∙ outgoing w1 (on ssi) (on ssu) p e,
            forwarded-asked w1 (on ssi) (on ssu) p name (codes "incoming") e ringed named some_modem
                ∙ incoming w1 (on ssi) (on ssu) p e,
          )
