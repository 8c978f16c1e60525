-- ===== src/Node/Taint.antt =====
-- trihard/node/Enclave/ENode.cpp: tainting by the AEX handler, the tainted messages of `refresh`, and
-- the answers of the peers that untaint a node.
pub mod FirstRound
pub mod Echoes
pub mod Order
pub mod Round
pub mod Exchange
pub mod Untaint
pub mod Quorum
use Prim.Native.String.{String}
use tri_ha_rd_higher_resilie.Base.{
  ℕ, ◌+◌, Bool, true, false, not, ◌&&◌, List, [], ◌∷◌, Option, none, some, leb, ◌==◌, if◌then◌else◌,
  length, map,
}
use tri_ha_rd_higher_resilie.Base.Int.{ℤ, pos, ◌+ℤ◌, ◌-ℤ◌, ltb_ℤ, eqb_ℤ}
use tri_ha_rd_higher_resilie.Double.{Double}
use tri_ha_rd_higher_resilie.Timespec.{Timespec, add_nsec, lt}
use tri_ha_rd_higher_resilie.Wire.{
  tainted_message, untainting_message, read_i64, read_bool, read_timespec, t_msg_expected_len,
  u_msg_expected_len,
}
use tri_ha_rd_higher_resilie.Node.{
  ENode, Datagram, Peer, peer, ClockState, ta_consistent_state, ta_inconsistent_state, handler,
  enode, ok, tainted, print_state, peer_consistency_drift_threshold,
}
use tri_ha_rd_higher_resilie.Node.Clock.{
  cycles_to_nsec, read_clock, shadow_tsc_update, is_ta_inconsistent,
}
use tri_ha_rd_higher_resilie.Node.Ntp.{half_offset}
use tri_ha_rd_higher_resilie.Node.Peers.{find, replace}

-- The second half of `case 'U'`: the newest round that any peer has answered.
unfoldable pub max_tainted_msg_count : ℤ → List Peer → ℤ
max_tainted_msg_count m [] = m
max_tainted_msg_count m (p ∷ ps) =
    max_tainted_msg_count
      (if ltb_ℤ m p.last_ts_is_consistent.0 then p.last_ts_is_consistent.0 else m) ps

abbrev answers_round : ℤ → Peer → Bool
answers_round m p = eqb_ℤ p.last_ts_is_consistent.0 m && p.last_ts_is_consistent.1

unfoldable pub consistent_count : ℤ → List Peer → ℕ
consistent_count m [] = 0
consistent_count m (p ∷ ps) = (if answers_round m p then 1 else 0) + consistent_count m ps

unfoldable pub peer_consistent_count : List Peer → ℕ
peer_consistent_count [] = 0
peer_consistent_count (p ∷ ps) = (if p.views_as_consistent then 1 else 0) + peer_consistent_count ps

-- `consistent_count>=(int)siblings.size()-1 && peer_consistent_count>=(int)siblings.size()-1`.
unfoldable pub has_quorum : ℤ → List Peer → Bool
unfolding max_tainted_msg_count consistent_count peer_consistent_count
has_quorum recvd siblings =
    leb (length siblings) (consistent_count (max_tainted_msg_count recvd siblings) siblings + 1)
    && leb (length siblings) (peer_consistent_count siblings + 1)

abbrev pub to_sibling : List ℕ → Peer → Datagram
to_sibling payload p = record { payload = payload; ip = p.hostname; port = p.port }

module _ {F : Double} where
  -- `aex_handler`. `postaex_tsc` is the counter that it reads.
  unfoldable pub aex_handler : ℤ → ENode F → ENode F
  unfolding print_state
  aex_handler postaex_tsc n =
      let marked = record n {
        tainted = true;
        mem_add_count = n.add_count;
        total_aex_count = n.total_aex_count +ℤ pos 1;
      } in
      let printed = print_state handler marked in
      record (if n.calib_count then print_state tainted printed else printed) { tsc = postaex_tsc }

  -- `sendTaintedMessages`, with the datagrams that it sends.
  unfoldable pub send_tainted_messages : Timespec → ENode F → ENode F × List Datagram
  unfolding read_clock
  send_tainted_messages dummy_ts n =
      let (read, org_ts) = read_clock n in
      (
        record read { tainted_msg_count = read.tainted_msg_count +ℤ pos 1 },
        map (to_sibling (tainted_message read.tainted_msg_count org_ts dummy_ts)) read.siblings,
      )

  -- `case 'T'` of `handle_message` for a known sibling, a message of the expected length and a
  -- clock that is consistent with the TA. `xmt_tsc` is `tsc` at the second reading.
  unfoldable pub answer_tainted :
      Timespec → ℤ → String → ℕ → List ℕ → Peer → ENode F → ENode F × List Datagram
  unfolding shadow_tsc_update read_clock
  answer_tainted now xmt_tsc ip cport buff sibling n =
      let updated = if sibling.port == 12346 then shadow_tsc_update now n else n in
      let (received, rec_ts) = read_clock updated in
      let (transmitted, xmt_ts) = read_clock (record received { tsc = xmt_tsc }) in
      (
        transmitted,
        record {
          payload =
              untainting_message (read_i64 7 buff) sibling.last_ts_is_consistent.1
                (read_timespec 15 buff) rec_ts xmt_ts;
          ip = ip;
          port = cport;
        }
            ∷ [],
      )

  abbrev pub answer_found :
      Timespec → ℤ → String → ℕ → List ℕ → Option Peer → ENode F → ENode F × List Datagram
  answer_found now xmt_tsc ip cport buff none n = (n, [])
  answer_found now xmt_tsc ip cport buff (some sibling) n =
      if not (length buff == t_msg_expected_len)
      then (n, [])
      else if is_ta_inconsistent n.clock_state
      then (n, [])
      else answer_tainted now xmt_tsc ip cport buff sibling n

  -- `case 'T'`.
  unfoldable pub accept_tainted :
      Timespec → ℤ → String → ℕ → List ℕ → ENode F → ENode F × List Datagram
  unfolding find answer_tainted
  accept_tainted now xmt_tsc ip cport buff n =
      answer_found now xmt_tsc ip cport buff (find (peer ip cport) n.siblings) n

  -- The offset of the peer's clock, by the four timestamps of the exchange.
  unfoldable pub peer_clock_offset : List ℕ → ENode F → Timespec
  unfolding cycles_to_nsec half_offset
  peer_clock_offset buff n =
      let recv_ts = add_nsec n.ts_ref (cycles_to_nsec F (n.tsc -ℤ n.tsc_ref) n.tsc_freq) in
      half_offset F (read_timespec 16 buff) (read_timespec 32 buff) (read_timespec 48 buff) recv_ts

  -- The new entry of the peer, unless the message is a replay.
  unfoldable pub record_answer : List ℕ → Peer → ENode F → ENode F
  unfolding peer_clock_offset replace
  record_answer buff sibling n =
      let recvd = read_i64 7 buff in
      let consistent = lt (peer_clock_offset buff n) peer_consistency_drift_threshold in
      let answered = record sibling {
        last_ts_is_consistent = (recvd, consistent);
        views_as_consistent = read_bool 15 buff;
      } in
      if ltb_ℤ sibling.last_ts_is_consistent.0 recvd
      then record n { siblings = replace sibling answered n.siblings }
      else n

  unfoldable pub untaint_by : List ℕ → Option Peer → ENode F → ENode F
  unfolding record_answer has_quorum print_state
  untaint_by buff none n = n
  untaint_by buff (some sibling) n =
      let recorded = record_answer buff sibling n in
      if has_quorum (read_i64 7 buff) recorded.siblings
      then print_state ok (record recorded { tainted = false })
      else recorded

  -- `case 'U'`.
  unfoldable pub accept_untainting : String → ℕ → List ℕ → ENode F → ENode F
  unfolding find print_state untaint_by
  accept_untainting ip cport buff n =
      let printed = print_state enode n in
      if not (length buff == u_msg_expected_len)
      then n
      else untaint_by buff (find (peer ip cport) n.siblings) printed
