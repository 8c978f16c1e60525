-- ===== src/Node/Messages/Recovery.antt =====
-- Two nodes: a tainted node asks its sibling, and handles the answer.
use Prim.Native.String.{String}
use tri_ha_rd_higher_resilie.Base.{
  ℕ, ◌≡◌, refl, ◌∙◌, ap, Bool, true, false, List, [], ◌∷◌, some, length,
}
use tri_ha_rd_higher_resilie.Base.Int.{ℤ}
use tri_ha_rd_higher_resilie.Double.{Double}
use tri_ha_rd_higher_resilie.Timespec.{Timespec}
use tri_ha_rd_higher_resilie.Wire.{tainted_message, untainting_message, u_msg_expected_len}
use tri_ha_rd_higher_resilie.Wire.Codec.{IsI64, Fits}
use tri_ha_rd_higher_resilie.Node.{ENode, Peer, peer, ta_consistent_state}
use tri_ha_rd_higher_resilie.Node.Clock.{read_clock}
use tri_ha_rd_higher_resilie.Node.Peers.{find}
use tri_ha_rd_higher_resilie.Node.Taint.{
  to_sibling, send_tainted_messages, accept_tainted, accept_untainting,
}
use tri_ha_rd_higher_resilie.Node.Taint.Exchange.{tainted_exchange}
use tri_ha_rd_higher_resilie.Node.Taint.Untaint.{single_sibling_untaints}
use tri_ha_rd_higher_resilie.Node.Messages.{Inputs, handle_message}

length-untainting_message :
    (count : ℤ) (consistent : Bool) (org_ts rec_ts xmt_ts : Timespec)
    → length (untainting_message count consistent org_ts rec_ts xmt_ts) ≡ u_msg_expected_len
unfolding untainting_message
length-untainting_message count true org_ts rec_ts xmt_ts = refl
length-untainting_message count false org_ts rec_ts xmt_ts = refl

module _ {F : Double} where
  handle_message-tainted_message :
      (i : Inputs) (ip : String) (cport : ℕ) (count : ℤ) (org_ts dummy_ts : Timespec) (n : ENode F)
      → handle_message i ip cport (tainted_message count org_ts dummy_ts) n
        ≡ accept_tainted i.now i.xmt_tsc ip cport (tainted_message count org_ts dummy_ts) n
  unfolding handle_message tainted_message
  handle_message-tainted_message i ip cport count org_ts dummy_ts n = refl

  handle_message-untainting_message :
      (i : Inputs) (ip : String) (cport : ℕ) (count : ℤ) (consistent : Bool)
      (org_ts rec_ts xmt_ts : Timespec) (n : ENode F)
      → let m = untainting_message count consistent org_ts rec_ts xmt_ts in
        handle_message i ip cport m n ≡ (accept_untainting ip cport m n, [])
  unfolding handle_message untainting_message
  handle_message-untainting_message i ip cport count true org_ts rec_ts xmt_ts n = refl
  handle_message-untainting_message i ip cport count false org_ts rec_ts xmt_ts n = refl

  requests_of :
      (dummy_ts : Timespec) (n : ENode F) (q : Peer)
      → n.siblings ≡ q ∷ []
      → (send_tainted_messages dummy_ts n).1
        ≡ to_sibling (tainted_message n.tainted_msg_count (read_clock n).1 dummy_ts) q ∷ []
  unfolding send_tainted_messages read_clock
  requests_of dummy_ts n q single = rw single refl

  send_tainted_messages-siblings :
      (dummy_ts : Timespec) (n : ENode F)
      → (send_tainted_messages dummy_ts n).0.siblings ≡ n.siblings
  unfolding send_tainted_messages read_clock
  send_tainted_messages-siblings dummy_ts n = refl

  -- What a node does with the answer of its only sibling, whatever the answer says.
  answer_untaints :
      (i : Inputs) (ip : String) (cport : ℕ) (count : ℤ) (consistent : Bool)
      (org_ts rec_ts xmt_ts : Timespec) (n : ENode F) (q : Peer)
      → n.siblings ≡ q ∷ []
      → find (peer ip cport) n.siblings ≡ some q
      → let m = untainting_message count consistent org_ts rec_ts xmt_ts in
        (handle_message i ip cport m n).0.tainted ≡ false
  answer_untaints i ip cport count consistent org_ts rec_ts xmt_ts n q single known =
      let m = untainting_message count consistent org_ts rec_ts xmt_ts in
      ap (λ r. r.0.tainted)
        (handle_message-untainting_message i ip cport count consistent org_ts rec_ts xmt_ts n)
      ∙ single_sibling_untaints ip cport m n q single known
          (length-untainting_message count consistent org_ts rec_ts xmt_ts)

  -- A node with a single sibling sends it one request; if the sibling lists the node and is
  -- consistent with the TA, then it answers the request with one message, and the node that handles that
  -- answer is untainted.
  pub exchange_untaints :
      (a b : ENode F) (q_b q_a : Peer) (at_a at_b : Inputs) (ip_a ip_b : String) (port_a port_b : ℕ)
      (dummy_ts : Timespec)
      → a.siblings ≡ q_b ∷ []
      → find (peer ip_b port_b) a.siblings ≡ some q_b
      → find (peer ip_a port_a) b.siblings ≡ some q_a
      → b.clock_state ≡ ta_consistent_state
      → IsI64 a.tainted_msg_count
      → Fits (read_clock a).1
      → let (asking, requests) = send_tainted_messages dummy_ts a in
        (request : List ℕ) × (answer : List ℕ) × (requests ≡ to_sibling request q_b ∷ [])
        × ((handle_message at_b ip_a port_a request b).1
            ≡ record { payload = answer; ip = ip_a; port = port_a } ∷ [])
        × ((handle_message at_a ip_b port_b answer asking).0.tainted ≡ false)
  exchange_untaints a b q_b q_a at_a at_b ip_a ip_b port_a port_b dummy_ts single knows_b knows_a
        consistent count_fits time_fits =
      let asking = (send_tainted_messages dummy_ts a).0 in
      let kept = send_tainted_messages-siblings dummy_ts a in
      let org_ts = (read_clock a).1 in
      let count = a.tainted_msg_count in
      let (rec_ts, xmt_ts, answered) =
        tainted_exchange at_b.now at_b.xmt_tsc ip_a port_a count org_ts dummy_ts b q_a knows_a
          consistent count_fits time_fits in
      let view = q_a.last_ts_is_consistent.1 in
      (
        tainted_message count org_ts dummy_ts,
        untainting_message count view org_ts rec_ts xmt_ts,
        requests_of dummy_ts a q_b single,
        ap (λ r. r.1) (handle_message-tainted_message at_b ip_a port_a count org_ts dummy_ts b)
            ∙ answered,
        answer_untaints at_a ip_b port_b count view org_ts rec_ts xmt_ts asking q_b (kept ∙ single)
            (ap (find (peer ip_b port_b)) kept ∙ knows_b),
      )
