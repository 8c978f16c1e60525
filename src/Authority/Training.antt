-- ===== src/Authority/Training.antt =====
-- A node and the time authority: the drift exchange with which a node starts its training.
use Prim.Native.String.{String}
use tri_ha_rd_higher_resilie.Base.{ℕ, ◌≡◌, refl, true, false, List, length, ==_iff}
use tri_ha_rd_higher_resilie.Base.Int.{ℤ, pos, ◌+ℤ◌, ◌-ℤ◌, ◌≤ℤ◌, int_laws}
use tri_ha_rd_higher_resilie.Double.{Double}
use tri_ha_rd_higher_resilie.Timespec.{Timespec, add}
use tri_ha_rd_higher_resilie.Timespec.Nanos.{nanos, operators-Holds}
use tri_ha_rd_higher_resilie.Wire.{drift_message, d_msg_expected_len}
use tri_ha_rd_higher_resilie.Wire.Codec.{IsI64, IsI32, Fits}
use tri_ha_rd_higher_resilie.Node.{ENode, freq_state, ta_ip, ta_port}
use tri_ha_rd_higher_resilie.Node.Cipher.{Aead}
use tri_ha_rd_higher_resilie.Node.Clock.{read_clock, shadow_tsc_update}
use tri_ha_rd_higher_resilie.Node.Messages.{Inputs, handle_message}
use tri_ha_rd_higher_resilie.Node.Ntp.{accept_drift, half_offset, send_recv_drift_message}
use tri_ha_rd_higher_resilie.Node.Ntp.Offset.{Halves, half_offset_accuracy}
use tri_ha_rd_higher_resilie.Node.Ntp.Training.{SetTo, accept_drift-training}
use tri_ha_rd_higher_resilie.Node.Receive.Delivery.{Opens}
use tri_ha_rd_higher_resilie.Authority.{Readings, filled, answer, answer_bytes, handle_msg}
use tri_ha_rd_higher_resilie.Authority.Answers.{
  Answers, Carries, answer-drift_message, handle_msg-seals,
}

-- The clock `ts`, set at a moment when the clock of the authority shows `authority`: it is at most half of
-- `there` ahead, and at most half of `back` and half a nanosecond behind.
abbrev pub IsNear : Timespec → ℤ → ℕ → ℕ → Type 0
IsNear ts authority there back =
    (nanos ts +ℤ nanos ts ≤ℤ authority +ℤ authority +ℤ pos there)
    × (authority +ℤ authority ≤ℤ nanos ts +ℤ nanos ts +ℤ pos back +ℤ pos 1)

IsNear-add :
    (recv_ts h : Timespec) (offset : ℤ) (there back : ℕ)
    → (nanos h +ℤ nanos h ≤ℤ offset +ℤ offset +ℤ pos there)
      × (offset +ℤ offset ≤ℤ nanos h +ℤ nanos h +ℤ pos back +ℤ pos 1)
    → IsNear (add recv_ts h) (nanos recv_ts +ℤ offset) there back
IsNear-add recv_ts h offset there back near =
    let (sum, _) = (operators-Holds recv_ts h (pos 0)).0 in rw sum (omega (int_laws, near))

module _ {F : Double} where
  handle_message-answer :
      (i : Inputs) (ip : String) (port : ℕ) (r : Readings) (buff_dec : List ℕ) (n : ENode F)
      → length (answer r buff_dec) ≡ d_msg_expected_len
      → (handle_message i ip port (answer r buff_dec) n).0
        ≡ accept_drift i.now (answer r buff_dec) n
  unfolding handle_message answer answer_bytes
  handle_message-answer i ip port r buff_dec n e =
      rw ((==_iff (length (answer r buff_dec)) d_msg_expected_len).1 e) refl

  payload-drift_message :
      (now dummy_ts : Timespec) (sleep_time_ms sleep_ms : ℤ) (n : ENode F)
      → n.attacker ≡ false
      → (send_recv_drift_message now dummy_ts sleep_time_ms sleep_ms n).1.payload
        ≡ drift_message n.calib_msg_count (sleep_time_ms +ℤ sleep_ms) (read_clock n).1 dummy_ts
  unfolding send_recv_drift_message shadow_tsc_update read_clock
  payload-drift_message now dummy_ts sleep_time_ms sleep_ms n honest = rw honest refl

  answer_sets :
      (i : Inputs) (ip : String) (port : ℕ) (r : Readings) (buff_dec : List ℕ) (n : ENode F)
      (count : ℤ) (org_ts : Timespec)
      → Carries (answer r buff_dec) count org_ts r
      → n.attacker ≡ false
      → n.node_state ≡ freq_state
      → n.enter_freq ≡ true
      → let recv_ts = (read_clock n).1 in
        SetTo
          (handle_message i ip port (answer r buff_dec) n).0
          (add recv_ts (half_offset F org_ts r.rec_ts r.xmt_ts recv_ts))
          (n.tsc +ℤ n.tsc_offset)
  answer_sets i ip port r buff_dec n count org_ts carries honest freq enters =
      let (long, _, org, rec, xmt) = carries in
      let set = accept_drift-training i.now (answer r buff_dec) n honest freq enters in
      rw (handle_message-answer i ip port r buff_dec n long) (rw (org, rec, xmt) at set)

  -- A node whose `attacker` is not set sends a drift message; sealed messages open. The authority answers
  -- it with one datagram, after sleeps only. If the node receives that answer in FREQ, its training not
  -- yet begun and `attacker` not set, whatever it has done in between, then it sets its clock, at the
  -- counter value of the reception, to the time of the authority at that moment: ahead by at most half
  -- of the time that the request took, and behind by at most half of the time that the answer took and
  -- half a nanosecond, whatever its offset was. During the exchange the two clocks keep their offset;
  -- fields fit their C types, and doubles are exact on the integers met.
  pub training_accuracy :
      (A : Aead) (key nonce : List ℕ) (netw_delay_ms : ℤ) (r : Readings) (memory : List ℕ)
      (n k : ENode F) (i : Inputs) (now dummy_ts : Timespec) (sleep_time_ms sleep_ms offset : ℤ)
      (there back : ℕ)
      → Halves F
      → Opens A
      → n.attacker ≡ false
      → IsI64 n.calib_msg_count
      → IsI32 (sleep_time_ms +ℤ sleep_ms)
      → Fits (read_clock n).1
      → Fits r.rec_ts
      → Fits r.xmt_ts
      → k.attacker ≡ false
      → k.node_state ≡ freq_state
      → k.enter_freq ≡ true
      → nanos r.rec_ts ≡ nanos (read_clock n).1 +ℤ pos there +ℤ offset
      → nanos (read_clock k).1 ≡ nanos r.xmt_ts +ℤ pos back -ℤ offset
      → IsI64 (offset +ℤ offset +ℤ pos there -ℤ pos back)
      → let request = (send_recv_drift_message now dummy_ts sleep_time_ms sleep_ms n).1.payload in
        (m : List ℕ) × Answers
          (A.seal key nonce m)
          (handle_msg A key nonce netw_delay_ms r memory (A.seal key nonce request))
        × (let after = (handle_message i ta_ip ta_port m k).0 in
            (after.tsc_ref ≡ k.tsc +ℤ k.tsc_offset)
            × IsNear after.ts_ref (nanos (read_clock k).1 +ℤ offset) there back)
  training_accuracy A key nonce netw_delay_ms r memory n k i now dummy_ts sleep_time_ms sleep_ms
        offset there back halves opens honest count_fits sleep_fits org_fits rec_fits xmt_fits
        honest_k freq enters went came small =
      let request = (send_recv_drift_message now dummy_ts sleep_time_ms sleep_ms n).1.payload in
      let sent = payload-drift_message now dummy_ts sleep_time_ms sleep_ms n honest in
      let buff_dec = filled request memory in
      let org_ts = (read_clock n).1 in
      let recv_ts = (read_clock k).1 in
      let carries : Carries (answer r buff_dec) n.calib_msg_count org_ts r = rw sent (
        answer-drift_message r n.calib_msg_count (sleep_time_ms +ℤ sleep_ms) org_ts dummy_ts memory
          count_fits sleep_fits org_fits rec_fits xmt_fits) in
      let (set, at) =
        answer_sets i ta_ip ta_port r buff_dec k _ org_ts carries honest_k freq enters in
      let h = half_offset F org_ts r.rec_ts r.xmt_ts recv_ts in
      let near =
        half_offset_accuracy halves org_ts r.rec_ts r.xmt_ts recv_ts offset there back went came
          small in
      (
        answer r buff_dec,
        handle_msg-seals A key nonce netw_delay_ms r memory request opens,
        (at, rw set (IsNear-add recv_ts h offset there back near)),
      )
