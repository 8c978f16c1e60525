-- ===== src/Authority/Answers.antt =====
-- The answer of the time authority to a drift message.
use tri_ha_rd_higher_resilie.Base.{
  ℕ, take, drop, ◌≡◌, refl, ap, List, [], ◌∷◌, ◌++◌, length, some, none, arith, ◌∙◌,
}
use tri_ha_rd_higher_resilie.Base.Int.{ℤ}
use tri_ha_rd_higher_resilie.Timespec.{Timespec}
use tri_ha_rd_higher_resilie.Wire.{
  drift_message, read_i64, read_i32, read_timespec, d_msg_expected_len,
}
use tri_ha_rd_higher_resilie.Wire.Codec.{
  IsI64, IsI32, Fits, read_i64-put_i64, read_i32-put_i32, read_timespec-put_timespec,
}
use tri_ha_rd_higher_resilie.Node.Cipher.{Aead}
use tri_ha_rd_higher_resilie.Node.Receive.Delivery.{Opens}
use tri_ha_rd_higher_resilie.Authority.{
  Readings, Action, sends, usleeps, filled, answer_bytes, answer, delays, before_reading,
  before_sending, handle_opened, handle_msg,
}

-- What the authority reads of a drift message in its buffer.
filled_fields :
    (count sleep : ℤ) (org_ts dummy_ts : Timespec) (memory : List ℕ)
    → IsI64 count
    → IsI32 sleep
    → Fits org_ts
    → let b = filled (drift_message count sleep org_ts dummy_ts) memory in
      (read_i64 5 b ≡ count) × (read_i32 13 b ≡ sleep) × (read_timespec 17 b ≡ org_ts)
unfolding drift_message
filled_fields count sleep org_ts dummy_ts memory hc hs ho =
    let b = filled (drift_message count sleep org_ts dummy_ts) memory in
    (
      read_i64-put_i64 5 b count hc refl,
      read_i32-put_i32 13 b sleep hs refl,
      read_timespec-put_timespec 17 b org_ts ho refl refl,
    )

-- What the node reads of an answer.
abbrev pub Carries : List ℕ → ℤ → Timespec → Readings → Type 0
Carries m count org_ts r =
    (length m ≡ d_msg_expected_len)
    × (read_i64 5 m ≡ count)
    × (read_timespec 17 m ≡ org_ts)
    × (read_timespec 33 m ≡ r.rec_ts)
    × (read_timespec 49 m ≡ r.xmt_ts)

answer_fields :
    (count sleep : ℤ) (org_ts : Timespec) (r : Readings) (recv_ts : List ℕ)
    → IsI64 count
    → Fits org_ts
    → Fits r.rec_ts
    → Fits r.xmt_ts
    → length recv_ts ≡ 16
    → let m = answer_bytes count sleep org_ts r recv_ts in Carries m count org_ts r
unfolding answer_bytes
answer_fields count sleep org_ts r recv_ts hc ho hr hx e =
    let m = answer_bytes count sleep org_ts r recv_ts in
    (
      rw e refl,
      read_i64-put_i64 5 m count hc refl,
      read_timespec-put_timespec 17 m org_ts ho refl refl,
      read_timespec-put_timespec 33 m r.rec_ts hr refl refl,
      read_timespec-put_timespec 49 m r.xmt_ts hx refl refl,
    )

-- The bytes of `recv_ts` in the buffer.
recv_ts_length :
    (count sleep : ℤ) (org_ts dummy_ts : Timespec) (memory : List ℕ)
    → length (take 16 (drop 65 (filled (drift_message count sleep org_ts dummy_ts) memory))) ≡ 16
unfolding drift_message
recv_ts_length count sleep org_ts dummy_ts memory = refl

pub answer-drift_message :
    (r : Readings) (count sleep : ℤ) (org_ts dummy_ts : Timespec) (memory : List ℕ)
    → IsI64 count
    → IsI32 sleep
    → Fits org_ts
    → Fits r.rec_ts
    → Fits r.xmt_ts
    → let m = answer r (filled (drift_message count sleep org_ts dummy_ts) memory) in
      Carries m count org_ts r
unfolding answer
answer-drift_message r count sleep org_ts dummy_ts memory hc hs ho hr hx =
    let (read_count, read_sleep, read_org) =
      filled_fields count sleep org_ts dummy_ts memory hc hs ho in
    rw (read_count, read_sleep, read_org)
      (answer_fields count sleep org_ts r _ hc ho hr hx
        (recv_ts_length count sleep org_ts dummy_ts memory))

-- The actions contain no datagram.
abbrev pub AllSleeps : List Action → Type 0
AllSleeps [] = Unit {0}
AllSleeps (usleeps us ∷ more) = AllSleeps more
AllSleeps (sends m ∷ more) = ⊥

-- The actions are sleeps, and then the one datagram.
pub record Answers (datagram : List ℕ) (actions : List Action) : Type 0 where
  pub waits : List Action
  pub only_waits : AllSleeps waits
  pub last : actions ≡ waits ++ (sends datagram ∷ [])

delays-AllSleeps : (ms : ℤ) → AllSleeps (delays ms)
delays-AllSleeps ms = ground arith

before_reading-AllSleeps : (sleep_time : ℤ) → AllSleeps (before_reading sleep_time)
before_reading-AllSleeps sleep_time = ground arith

before_sending-AllSleeps : (sleep_time : ℤ) → AllSleeps (before_sending sleep_time)
before_sending-AllSleeps sleep_time = ground arith

AllSleeps-append : (xs ys : List Action) → AllSleeps xs → AllSleeps ys → AllSleeps (xs ++ ys)
AllSleeps-append [] ys h k = k
AllSleeps-append (usleeps us ∷ xs) ys h k = AllSleeps-append xs ys h k
AllSleeps-append (sends m ∷ xs) ys h k = h

append_assoc : (xs ys zs : List Action) → xs ++ (ys ++ zs) ≡ (xs ++ ys) ++ zs
append_assoc [] ys zs = refl
append_assoc (a ∷ xs) ys zs = ap (◌∷◌ a) (append_assoc xs ys zs)

Answers-append :
    (m : List ℕ) (xs ys : List Action) → AllSleeps xs → Answers m ys → Answers m (xs ++ ys)
Answers-append m xs ys h b = record {
  waits = xs ++ b.waits;
  only_waits = AllSleeps-append xs b.waits h b.only_waits;
  last = ap (λ x. xs ++ x) b.last ∙ append_assoc xs b.waits (sends m ∷ []);
}

module _ (A : Aead) (key nonce : List ℕ) (netw_delay_ms : ℤ) (r : Readings) (memory : List ℕ) where
  handle_opened-Answers :
      (plaintext : List ℕ)
      → Answers
          (A.seal key nonce (answer r (filled plaintext memory)))
          (handle_opened A key nonce netw_delay_ms r memory (some plaintext))
  handle_opened-Answers plaintext =
      let b = filled plaintext memory in
      let m = A.seal key nonce (answer r b) in
      let sent : Answers m (sends m ∷ []) = record { waits = []; only_waits = tt; last = refl } in
      Answers-append m (delays netw_delay_ms) _ (delays-AllSleeps netw_delay_ms) (
        Answers-append m (before_reading (read_i32 13 b)) _
          (before_reading-AllSleeps (read_i32 13 b))
          (Answers-append m (before_sending (read_i32 13 b)) _
            (before_sending-AllSleeps (read_i32 13 b))
            (Answers-append m (delays netw_delay_ms) _ (delays-AllSleeps netw_delay_ms) sent)))

  pub handle_msg-seals :
      (plaintext : List ℕ)
      → Opens A
      → Answers
          (A.seal key nonce (answer r (filled plaintext memory)))
          (handle_msg A key nonce netw_delay_ms r memory (A.seal key nonce plaintext))
  unfolding handle_msg
  handle_msg-seals plaintext opens =
      rw (opens key nonce plaintext) (handle_opened-Answers plaintext)

  -- If sealed messages open, then to a sealed drift message whose fields fit their C types the
  -- authority, after sleeps only, sends one datagram: a sealed message of the length that the node
  -- expects, which carries the count and the timestamp of the drift message and the two readings of
  -- the authority's clock, where the node reads them.
  pub handle_msg-Answers :
      (count sleep : ℤ) (org_ts dummy_ts : Timespec)
      → Opens A
      → IsI64 count
      → IsI32 sleep
      → Fits org_ts
      → Fits r.rec_ts
      → Fits r.xmt_ts
      → (m : List ℕ) × Answers (A.seal key nonce m) (
          handle_msg A key nonce netw_delay_ms r memory
            (A.seal key nonce (drift_message count sleep org_ts dummy_ts)))
        × Carries m count org_ts r
  handle_msg-Answers count sleep org_ts dummy_ts opens hc hs ho hr hx =
      let d = drift_message count sleep org_ts dummy_ts in
      (
        answer r (filled d memory),
        handle_msg-seals d opens,
        answer-drift_message r count sleep org_ts dummy_ts memory hc hs ho hr hx,
      )

  -- A datagram that does not decrypt gets no answer.
  pub handle_msg_rejects :
      (buff : List ℕ)
      → A.unseal key nonce buff ≡ none
      → AllSleeps (handle_msg A key nonce netw_delay_ms r memory buff)
  unfolding handle_msg
  handle_msg_rejects buff rejected = rw rejected (delays-AllSleeps netw_delay_ms)
