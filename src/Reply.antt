-- ===== src/Reply.antt =====
-- src/error.c: the tables of messages, at_print_reply and at_ring.
pub mod Text
use meego_cellular_matd.Prelude.{
  ℕ, ◌-◌, true, Option, none, some, List, [], ◌∷◌, ◌++◌, Bytes, codes, ltb, leb, ◌==◌,
  if◌then◌else◌, get_elem?,
}
use meego_cellular_matd.Libc.Format.{decimal, crlf}
use meego_cellular_matd.Modem.{
  Modem, at_error, at_cme_error_0, at_cme_error_max, at_cms_error_0, at_cms_error_max,
  at_intermediate, at_unsolicited,
}

abbrev pub at_errmsgs : List Bytes
at_errmsgs =
    codes "OK"
    ∷ codes "CONNECT"
    ∷ codes "RING"
    ∷ codes "NO CARRIER"
    ∷ codes "ERROR"
    ∷ codes "ERROR"
    ∷ codes "NO DIALTONE"
    ∷ codes "BUSY"
    ∷ codes "NO ANSWER"
    ∷ []

-- The entries of `cell_errmsgs` that are set, by their index.
cell_errmsgs : List (ℕ × Bytes)
cell_errmsgs =
    (0, codes "phone failure")
    ∷ (1, codes "no connection to phone")
    ∷ (2, codes "phone-adaptor link reserved")
    ∷ (3, codes "operation not allowed")
    ∷ (4, codes "operation not supported")
    ∷ (5, codes "PH-SIM PIN required")
    ∷ (6, codes "PH-FSIM PIN required")
    ∷ (7, codes "PH-FSIM PUK required")
    ∷ (10, codes "SIM not inserted")
    ∷ (11, codes "SIM PIN required")
    ∷ (12, codes "SIM PUK required")
    ∷ (13, codes "SIM failure")
    ∷ (14, codes "SIM busy")
    ∷ (15, codes "SIM wrong")
    ∷ (16, codes "incorrect password")
    ∷ (17, codes "SIM PIN2 required")
    ∷ (18, codes "SIM PUK2 required")
    ∷ (20, codes "memory full")
    ∷ (22, codes "not found")
    ∷ (23, codes "memory failure")
    ∷ (24, codes "text string too long")
    ∷ (25, codes "invalid characters in text string")
    ∷ (26, codes "dial string too long")
    ∷ (27, codes "invalid characters in dial string")
    ∷ (30, codes "no network service")
    ∷ (31, codes "network timeout")
    ∷ (32, codes "network not allowed - only emergency calls")
    ∷ (40, codes "network personalization PIN required")
    ∷ (41, codes "network personalization PUK required")
    ∷ (42, codes "network subset personalization PIN required")
    ∷ (43, codes "network subset personalization PUK required")
    ∷ (44, codes "service provider personalization PIN required")
    ∷ (45, codes "service provider personalization PUK required")
    ∷ (46, codes "corporate personalization PIN required")
    ∷ (47, codes "corporate personalization PUK required")
    ∷ (48, codes "hidden key required")
    ∷ (49, codes "EAP method not supported")
    ∷ (50, codes "incorrect parameters")
    ∷ (100, codes "unknown")
    ∷ (103, codes "illegal MS (#3)")
    ∷ (106, codes "illegal ME (#7)")
    ∷ (107, codes "GPRS service not allowed (#7)")
    ∷ (111, codes "PLMN not allowed (#11)")
    ∷ (112, codes "location area not allowed (#12)")
    ∷ (113, codes "roaming not allowed in this location area (#13)")
    ∷ (132, codes "service option not supported (#32)")
    ∷ (133, codes "requested service option not subscribed (#33)")
    ∷ (134, codes "service option temporarily out of order (#34)")
    ∷ (149, codes "PDP authentication failure")
    ∷ (148, codes "unspecified GPRS error")
    ∷ (150, codes "invalid mobile class")
    ∷ (151, codes "VBS/VGCS not supported by the network")
    ∷ (152, codes "no service subscription on SIM")
    ∷ (153, codes "no subscription for group ID")
    ∷ (154, codes "group ID not actived on SIM")
    ∷ (155, codes "no matching notification")
    ∷ (156, codes "VBS/VGCS call already present")
    ∷ (157, codes "congestion")
    ∷ (158, codes "network failure")
    ∷ (159, codes "uplink busy")
    ∷ (160, codes "no access rights for SIM file")
    ∷ (161, codes "no subscription for priority")
    ∷ (162, codes "operation not applicable or not possible")
    ∷ []

lookup_msg : List (ℕ × Bytes) → ℕ → Option Bytes
lookup_msg [] n = none
lookup_msg ((k, t) ∷ ms) n = if k == n then some t else lookup_msg ms n

-- The text for a CME error: the table has 163 entries, and those that are not set are empty.
unfoldable pub cell_message : ℕ → Bytes
unfolding cell_errmsgs lookup_msg
cell_message n = elim (lookup_msg cell_errmsgs n) [
  | none ↦ codes "reserved error code"
  | some t ↦ t
]

-- The last statement of `at_print_reply`; a result behind the table is a read out of bounds.
unfoldable pub print_final : Modem → ℕ → Modem × ℕ
print_final m res = elim (get_elem? at_errmsgs res) [
  | none ↦ (record m { aborted = true }, 0)
  | some t ↦ at_intermediate m (crlf ++ ((if m.verbose then t else decimal res) ++ crlf))
]

-- The `switch` on the CMEE mode, for the number of a CME error.
unfoldable pub print_cme : Modem → ℕ → Modem × ℕ
unfolding print_final cell_message
print_cme m res =
    if m.cmee == 0
    then print_final m at_error
    else if m.cmee == 1
    then at_intermediate m (codes "\r\n+CME ERROR: " ++ (decimal res ++ crlf))
    else if m.cmee == 2
    then at_intermediate m (codes "\r\n+CME ERROR: " ++ (cell_message res ++ crlf))
    else print_final m res

-- The ladder of `at_print_reply` over the ranges of result codes.
unfoldable pub print_loud : Modem → ℕ → Modem × ℕ
unfolding print_final print_cme
print_loud m res =
    if ltb res 9
    then print_final m res
    else if ltb res at_cme_error_0
    then print_final m at_error
    else if leb res at_cme_error_max
    then print_cme m (res - at_cme_error_0)
    else if leb res at_cms_error_max
    then at_intermediate m (codes "\r\n+CMS ERROR: " ++ (decimal (res - at_cms_error_0) ++ crlf))
    else print_final m at_error

unfoldable pub at_print_reply : Modem → ℕ → Modem × ℕ
unfolding print_loud
at_print_reply m res = if m.quiet then (m, 0) else print_loud m res

unfoldable pub at_ring : Modem → Modem × ℕ
at_ring m =
    if m.verbose
    then at_unsolicited m (crlf ++ (codes "RING" ++ crlf))
    else at_unsolicited m (crlf ++ (decimal 2 ++ crlf))
