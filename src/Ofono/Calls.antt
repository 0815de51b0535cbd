-- ===== src/Ofono/Calls.antt =====
-- plugins/ofono/voicecall.c: the list of calls, answering, dialing, hanging up and holding calls.
-- An `int` that may be -1 is a number below 2 ^ 32.
mod Texts
unfoldable pub use Texts.*
use meego_cellular_matd.Prelude.{
  ℕ, zero, suc, ◌+◌, ◌⊎◌, inl, inr, Bool, true, false, not, Option, none, some, List, [], ◌∷◌, map,
  Bytes, codes, ◌==◌, if◌then◌else◌,
}
use mathlib.Core.Option
use meego_cellular_matd.Libc.Ctype.{streq}
use meego_cellular_matd.Modem.{
  at_ok, at_no_carrier, at_cme_error_0, at_cme_enotsup, at_cme_enomem, at_cme_enoent, at_cme_einval,
  minus_one,
}
use meego_cellular_matd.Commands.{AlphaCb, GetCb, SetCb}
use meego_cellular_matd.Dummy.{scan_number}
use meego_cellular_matd.Ofono.{
  string, object_path, plain, structs, Entry, Answer, answer, refused, Host, modemc, current_modem,
  as_string, ofono_dict_find, modem_request, modem_query, voicecall_request, intermediate,
  intermediate_result,
}

module _ {W : Type 0} (host : Host W) where
  -- The loop of `enum_calls`.
  unfoldable pub each_call : {S : Type 0} → CallCb W S → W → S → List Entry → W × S
  unfolding call_of
  each_call cb w st [] = (w, st)
  each_call cb w st (call ∷ calls) = elim (call_of call) [
    | none ↦ each_call cb w st calls
    | some id ↦
        let (w1, st1, last) = cb w st id call.props in
        let rest = each_call cb w1 st1 calls in if last then (w1, st1) else rest
  ]

  -- The result of `enum_calls`, with the state of the callback.
  abbrev pub calls_of : {S : Type 0} → CallCb W S → W → S → Answer → W × S × ℕ
  calls_of cb w st (refused err) = (w, st, err)
  calls_of cb w st (answer sender (structs calls ∷ args)) =
      let (w1, st1) = each_call cb w st calls in (w1, st1, at_ok)
  calls_of cb w st (answer sender args) = (w, st, at_cme_error_0)

  unfoldable pub enum_calls : {S : Type 0} → W → CallCb W S → S → W × S × ℕ
  unfolding each_call modem_query
  enum_calls w cb st =
      let (w1, a) =
        modem_query host w (codes "VoiceCallManager") (codes "GetCalls") [] at_cme_enomem in
      calls_of cb w1 st a

  unfoldable pub match_call_state : Bytes → CallCb W ℕ
  unfolding streq
  match_call_state state w st id props =
      if is_state state (ofono_dict_find props (codes "State") as_string)
      then (w, id, true)
      else (w, st, false)

  -- The call in the state, or -1; the error is a result of its own.
  unfoldable pub find_call_by_state : W → Bytes → W × ℕ
  unfolding enum_calls match_call_state
  find_call_by_state w state =
      let (w1, id, err) = enum_calls w (match_call_state state) minus_one in (w1, id)

  unfoldable pub handle_answer : AlphaCb W
  unfolding find_call_by_state
  handle_answer w val =
      let (w1, id) = find_call_by_state w (codes "incoming") in
      if id == minus_one
      then (w1, at_no_carrier)
      else voicecall_request host w1 id (codes "Answer") []

  abbrev pub dial : W → Dialing → W × ℕ
  dial w (not_dialed err) = (w, err)
  dial w (dialed num callerid) =
      modem_request host w (codes "VoiceCallManager") (codes "Dial")
        (plain (string num) ∷ plain (string callerid) ∷ [])

  unfoldable pub handle_dial : SetCb W
  unfolding dial_loop
  handle_dial w str = dial w (dial_loop [] [] str)

  unfoldable pub set_csta : SetCb W
  unfolding set_csta_mode
  set_csta w req = elim (scan_number req) [
    | none ↦ (w, set_csta_mode 145)
    | some mode ↦ (w, set_csta_mode mode)
  ]

  unfoldable pub get_csta : GetCb W
  get_csta w = intermediate_result host w (codes "\r\n+CSTA: 145")

  unfoldable pub list_csta : GetCb W
  list_csta w = intermediate_result host w (codes "\r\n+CSTA: (129,145)")

  -- `show_call`
  abbrev pub show_line : W → Option Bytes → W × ℕ × Bool
  show_line w none = (w, 0, false)
  show_line w (some line) = (intermediate host w line, 0, false)

  unfoldable pub show_call : CallCb W ℕ
  show_call w st id props = show_line w (call_line id props)

  unfoldable pub handle_clcc : SetCb W
  unfolding enum_calls
  handle_clcc w [] = let (w1, st, err) = enum_calls w show_call 0 in (w1, err)
  handle_clcc w (c ∷ req) = (w, at_cme_einval)

  -- The loop of `set_chup`, a call to a step of fuel; `none` is a loop that has not ended yet.
  unfoldable pub hang_up_loop : ℕ → W → Option W
  unfolding find_call_by_state
  hang_up_loop zero w = none
  hang_up_loop (suc fuel) w =
      let (w1, id) = find_call_by_state w (codes "active") in
      let rest = hang_up_loop fuel (voicecall_request host w1 id (codes "Hangup") []).0 in
      if id == minus_one then some w1 else rest

  unfoldable pub set_chup : ℕ → W → Bytes → Option (W × ℕ)
  unfolding hang_up_loop
  set_chup fuel w [] = Option.map (λ w1. (w1, at_ok)) (hang_up_loop fuel w)
  set_chup fuel w (c ∷ req) = some (w, at_cme_einval)

  unfoldable pub handle_hangup : AlphaCb W
  handle_hangup w val =
      let (w1, ret) = modem_request host w (codes "VoiceCallManager") (codes "HangupAll") [] in
      if ret == at_cme_error_0 then (w1, at_ok) else (w1, ret)

  -- The callback's state is the result.
  unfoldable pub release_held : CallCb W ℕ
  unfolding streq
  release_held w result id props =
      let state = ofono_dict_find props (codes "State") as_string in
      let (w1, ret) = voicecall_request host w id (codes "Hangup") [] in
      if is_state (codes "held") state
      then (w1, ret, not (ret == at_ok))
      else if is_state (codes "waiting") state
      then (w1, ret, true)
      else (w, result, false)

  -- AT+CHLD=0
  unfoldable pub release_all_held : W → W × ℕ
  unfolding enum_calls release_held
  release_all_held w =
      let (w1, result, err) = enum_calls w release_held at_ok in
      if err == at_ok then (w1, result) else (w1, err)

  -- AT+CHLD=2x
  unfoldable pub private_chat : W → ℕ → W × ℕ
  unfolding private_path
  private_chat w id =
      let p = host.plugin w in
      if modemc p == 0
      then (w, at_cme_error_0)
      else modem_request host w (codes "VoiceCallManager") (codes "PrivateChat")
          (plain (object_path (private_path (current_modem p) id)) ∷ [])

  abbrev pub chld_manager : W → Option Bytes → W × ℕ
  chld_manager w none = (w, at_cme_enotsup)
  chld_manager w (some method) = modem_request host w (codes "VoiceCallManager") method []

  abbrev pub chld_call : W → ℕ → Option ℕ → W × ℕ
  chld_call w op none = if op == b'0' then release_all_held w else chld_manager w (chld_method op)
  chld_call w op (some id) =
      if op == b'1'
      then voicecall_request host w id (codes "Hangup") []
      else if op == b'2'
      then private_chat w id
      else (w, at_cme_enotsup)

  unfoldable pub set_chld : SetCb W
  unfolding strtoul chld_method release_all_held private_chat
  set_chld w [] = (w, at_cme_einval)
  set_chld w (op ∷ value) = chld_call w op (strtoul value)

  unfoldable pub list_chld : GetCb W
  list_chld w = (intermediate host w (codes "\r\n+CHLD: (0,1,1x,2,2x,3,4)"), at_ok)

  abbrev pub deflect : W → Bytes ⊎ ℕ → W × ℕ
  deflect w (inr err) = (w, err)
  deflect w (inl number) =
      let (w1, id) = find_call_by_state w (codes "incoming") in
      if id == minus_one
      then (w1, at_cme_enoent)
      else voicecall_request host w1 id (codes "Deflect") (plain (string number) ∷ [])

  unfoldable pub do_ctfr : SetCb W
  unfolding ctfr_number
  do_ctfr w req = deflect w (ctfr_number req)
