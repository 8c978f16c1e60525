-- ===== src/Node/Taint/Exchange.antt =====
-- The exchange of a tainted message and its answer.
use Prim.Native.String.{String}
use tri_ha_rd_higher_resilie.Base.{
  ℕ, ◌≡◌, ◌≢◌, refl, ap, ◌⊎◌, Bool-cases, arith, List, [], ◌∷◌, Option, none, some, length, ◌==◌,
  if◌then◌else◌, ==_iff, Option-cases, inl, inr,
}
use tri_ha_rd_higher_resilie.Base.Int.{ℤ}
use tri_ha_rd_higher_resilie.Double.{Double}
use tri_ha_rd_higher_resilie.Timespec.{Timespec}
use tri_ha_rd_higher_resilie.Wire.{
  tainted_message, untainting_message, read_i64, read_timespec, t_msg_expected_len,
}
use tri_ha_rd_higher_resilie.Wire.Codec.{IsI64, Fits}
use tri_ha_rd_higher_resilie.Wire.RoundTrip.{tainted_message_round_trip}
use tri_ha_rd_higher_resilie.Node.{
  ENode, ClockState, Datagram, Peer, peer, ta_consistent_state, ta_inconsistent_state,
}
use tri_ha_rd_higher_resilie.Node.Clock.{read_clock, shadow_tsc_update}
use tri_ha_rd_higher_resilie.Node.Peers.{find}
use tri_ha_rd_higher_resilie.Node.Taint.{answer_tainted, answer_found, accept_tainted}

abbrev answer_of : String → ℕ → ℤ → Timespec → Peer → Timespec → Timespec → List Datagram
answer_of ip cport count org_ts q rec_ts xmt_ts =
    record {
      payload = untainting_message count q.last_ts_is_consistent.1 org_ts rec_ts xmt_ts;
      ip = ip;
      port = cport;
    }
    ∷ []

ClockState-cases : (s : ClockState) → (s ≡ ta_consistent_state) ⊎ (s ≡ ta_inconsistent_state)
ClockState-cases ta_consistent_state = inl refl
ClockState-cases ta_inconsistent_state = inr refl

module _ {F : Double} (now : Timespec) (xmt_tsc : ℤ) (ip : String) (cport : ℕ) where
  answer_tainted_payload :
      (buff : List ℕ) (q : Peer) (n : ENode F)
      → (rec_ts : Timespec) × (xmt_ts : Timespec) × ((answer_tainted now xmt_tsc ip cport buff q
            n).1
          ≡ answer_of ip cport (read_i64 7 buff) (read_timespec 15 buff) q rec_ts xmt_ts)
  unfolding answer_tainted
  answer_tainted_payload buff q n =
      let updated = if q.port == 12346 then shadow_tsc_update now n else n in
      let (received, rec_ts) = read_clock updated in
      (rec_ts, (read_clock (record received { tsc = xmt_tsc })).1, refl)

  accept_tainted-answer_tainted :
      (buff : List ℕ) (q : Peer) (n : ENode F)
      → find (peer ip cport) n.siblings ≡ some q
      → length buff ≡ t_msg_expected_len
      → n.clock_state ≡ ta_consistent_state
      → accept_tainted now xmt_tsc ip cport buff n ≡ answer_tainted now xmt_tsc ip cport buff q n
  unfolding accept_tainted
  accept_tainted-answer_tainted buff q n known expected consistent = ground arith

  answer_found_silent :
      (buff : List ℕ) (o : Option Peer) (n : ENode F)
      → ¬ ((o ≢ none) × (length buff ≡ t_msg_expected_len) × (n.clock_state ≡ ta_consistent_state))
      → answer_found now xmt_tsc ip cport buff o n ≡ (n, [])
  answer_found_silent buff none n refused = refl
  answer_found_silent buff (some q) n refused =
      elim (Bool-cases (length buff == t_msg_expected_len)) [
        | inr other ↦ rw other refl
        | inl expected ↦ elim (ClockState-cases n.clock_state) [
          | inr inconsistent ↦ rw (expected, inconsistent) refl
          | inl consistent ↦
              absurd (
                refused (λ e. cc, (==_iff (length buff) t_msg_expected_len).0 expected, consistent))
        ]
      ]

  -- The node answers a tainted message exactly when the sender is a sibling, the length is the
  -- expected one and the clock is consistent with the TA; otherwise its state does not change.
  pub accept_tainted_answers :
      (buff : List ℕ) (n : ENode F)
      → let (after, sent) = accept_tainted now xmt_tsc ip cport buff n in
        let asked =
          (find (peer ip cport) n.siblings ≢ none)
          × (length buff ≡ t_msg_expected_len)
          × (n.clock_state ≡ ta_consistent_state) in
        (asked → length sent ≡ 1) × (¬ asked → (sent ≡ []) × (after ≡ n))
  unfolding accept_tainted
  accept_tainted_answers buff n = (
    λ (known, expected, consistent). elim (Option-cases (find (peer ip cport) n.siblings)) [
      | inl unknown ↦ absurd (known unknown)
      | inr (q, found) ↦ rw (accept_tainted-answer_tainted buff q n found expected consistent) refl
    ],
    λ refused.
        let silent = answer_found_silent buff (find (peer ip cport) n.siblings) n refused in
        (ap (λ r. r.1) silent, ap (λ r. r.0) silent),
  )

  -- A sibling that is consistent with the TA answers a tainted message, to its sender, by an
  -- untainting message with the same count and timestamp, and with its view of the sender.
  pub tainted_exchange :
      (count : ℤ) (org_ts dummy_ts : Timespec) (b : ENode F) (q : Peer)
      → find (peer ip cport) b.siblings ≡ some q
      → b.clock_state ≡ ta_consistent_state
      → IsI64 count
      → Fits org_ts
      → (rec_ts : Timespec) × (xmt_ts : Timespec) × ((accept_tainted now xmt_tsc ip cport
            (tainted_message count org_ts dummy_ts)
            b).1
          ≡ record {
            payload = untainting_message count q.last_ts_is_consistent.1 org_ts rec_ts xmt_ts;
            ip = ip;
            port = cport;
          }
            ∷ [])
  tainted_exchange count org_ts dummy_ts b q known consistent hc ho =
      let (expected, count_read, org_read) =
        tainted_message_round_trip count org_ts dummy_ts hc ho in
      let (rec_ts, xmt_ts, payload) =
        answer_tainted_payload (tainted_message count org_ts dummy_ts) q b in
      (
        rec_ts,
        xmt_ts,
        rw (accept_tainted-answer_tainted _ q b known expected consistent)
            (rw payload (rw (count_read, org_read) refl)),
      )
