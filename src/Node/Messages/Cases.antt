-- ===== src/Node/Messages/Cases.antt =====
-- A property of the state after a message, by the kinds of messages.
use Prim.Native.String.{String}
use tri_ha_rd_higher_resilie.Base.{
  ℕ, ◌≡◌, refl, ==_iff, Bool, true, false, not, List, [], ◌∷◌, ◌==◌, if◌then◌else◌, length,
}
use tri_ha_rd_higher_resilie.Double.{Double}
use tri_ha_rd_higher_resilie.Timespec.{Timespec}
use tri_ha_rd_higher_resilie.Wire.{d_msg_expected_len}
use tri_ha_rd_higher_resilie.Node.{ENode, Datagram}
use tri_ha_rd_higher_resilie.Node.Ntp.{accept_drift}
use tri_ha_rd_higher_resilie.Node.Peers.{accept_sibling}
use tri_ha_rd_higher_resilie.Node.Taint.{accept_tainted, accept_untainting}
use tri_ha_rd_higher_resilie.Node.Messages.{Inputs, handle_message}

module _ {F : Double} where
  if_either :
      (P : ENode F → Type 0) (b : Bool) (x y : ENode F × List Datagram)
      → P x.0
      → P y.0
      → P (if b then x else y).0
  if_either P true x y p q = p
  if_either P false x y p q = q

  abbrev silently : ENode F → ENode F × List Datagram
  silently n = (n, [])

  drift_either :
      (P : ENode F → Type 0) (now : Timespec) (buff : List ℕ) (n : ENode F)
      → P n
      → (length buff ≡ d_msg_expected_len → P (accept_drift now buff n))
      → P
          (if not (length buff == d_msg_expected_len)
            then silently n
            else silently (accept_drift now buff n)).0
  drift_either P now buff n p q = by (length buff == d_msg_expected_len) refl
    where
      by :
          (fits : Bool)
          → (length buff == d_msg_expected_len) ≡ fits
          → P (if not fits then silently n else silently (accept_drift now buff n)).0
      by true e = q ((==_iff (length buff) d_msg_expected_len).0 e)
      by false e = p

  pub handle_message-cases :
      (P : ENode F → Type 0) (i : Inputs) (ip : String) (cport : ℕ) (buff : List ℕ) (n : ENode F)
      → P n
      → P (accept_sibling ip cport n)
      → P (accept_tainted i.now i.xmt_tsc ip cport buff n).0
      → P (accept_untainting ip cport buff n)
      → (length buff ≡ d_msg_expected_len → P (accept_drift i.now buff n))
      → P (handle_message i ip cport buff n).0
  unfolding handle_message
  handle_message-cases P i ip cport [] n same s t u d = same
  handle_message-cases P i ip cport (b ∷ rest) n same s t u d =
      let buff = b ∷ rest in
      let fits : Bool = length buff == d_msg_expected_len in
      let met : ENode F × List Datagram = (accept_sibling ip cport n, []) in
      let asked = accept_tainted i.now i.xmt_tsc ip cport buff n in
      let untainted : ENode F × List Datagram = (accept_untainting ip cport buff n, []) in
      let kept : ENode F × List Datagram = (n, []) in
      let drifted : ENode F × List Datagram = (accept_drift i.now buff n, []) in
      let sent : ENode F × List Datagram =
        (n, record { payload = buff; ip = ip; port = cport } ∷ []) in
      let case_d = if not fits then kept else drifted in
      let from_d = if b == b'D' then case_d else sent in
      let from_u = if b == b'U' then untainted else from_d in
      let from_t = if b == b'T' then asked else from_u in
      if_either P (b == b'S') met from_t s (
        if_either P (b == b'T') asked from_u t (
          if_either P (b == b'U') untainted from_d u
            (if_either P (b == b'D') case_d sent (drift_either P i.now buff n same d) same)))
