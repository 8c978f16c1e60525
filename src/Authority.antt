-- ===== src/Authority.antt =====
-- trihard/time_authority/server.cpp: the handler of a datagram. The clock readings and what the
-- buffer of the handler holds before it is written are arguments.
pub mod Answers
pub mod Training
pub mod Server
use tri_ha_rd_higher_resilie.Base.{
  ℕ, ◌*◌, Bool, true, false, List, [], ◌∷◌, ◌++◌, Option, none, some, ltb, if◌then◌else◌, length,
  take, drop,
}
use tri_ha_rd_higher_resilie.Base.Int.{ℤ, pos, neg_ℤ, ◌*ℤ◌, ltb_ℤ}
use tri_ha_rd_higher_resilie.Timespec.{Timespec}
use tri_ha_rd_higher_resilie.Wire.{
  drift_str, put_i64, put_i32, put_timespec, read_i64, read_i32, read_timespec,
}
use tri_ha_rd_higher_resilie.Node.Cipher.{Aead}

-- `usleep`, in microseconds, and `sendto`.
pub data Action : Type 0 where
  usleeps : ℤ → Action
  sends : List ℕ → Action

-- The readings of the clock of the time authority.
pub record Readings : Type 0 where
  pub rec_ts : Timespec
  pub xmt_ts : Timespec

-- What `decrypt` leaves in `buff_dec`, an array of 1024 bytes.
abbrev pub filled : List ℕ → List ℕ → List ℕ
filled plaintext memory = plaintext ++ drop (length plaintext) memory

-- The message that is written over the received one, and the bytes after it.
unfoldable pub answer_bytes : ℤ → ℤ → Timespec → Readings → List ℕ → List ℕ
unfolding put_i64 put_i32 put_timespec
answer_bytes recvd_calib_msg_count sleep_time org_ts r recv_ts =
    drift_str
    ++ (put_i64 recvd_calib_msg_count
        ++ (put_i32 sleep_time
            ++ (put_timespec org_ts
                ++ (put_timespec r.rec_ts ++ (put_timespec r.xmt_ts ++ recv_ts)))))

-- The answer. Its field `recv_ts` is sent as it is in the buffer.
unfoldable pub answer : Readings → List ℕ → List ℕ
unfolding answer_bytes
answer r buff_dec =
    answer_bytes (read_i64 5 buff_dec) (read_i32 13 buff_dec) (read_timespec 17 buff_dec) r
      (take 16 (drop 65 buff_dec))

abbrev pub delays : ℤ → List Action
delays netw_delay_ms =
    if ltb_ℤ (pos 0) netw_delay_ms then usleeps (netw_delay_ms *ℤ pos 500) ∷ [] else []

abbrev pub before_reading : ℤ → List Action
before_reading sleep_time =
    if ltb_ℤ sleep_time (pos 0) then usleeps (neg_ℤ sleep_time *ℤ pos 1000) ∷ [] else []

abbrev pub before_sending : ℤ → List Action
before_sending sleep_time =
    if ltb_ℤ (pos 0) sleep_time then usleeps (sleep_time *ℤ pos 1000) ∷ [] else []

module _ (A : Aead) (key nonce : List ℕ) where
  abbrev pub handle_opened : ℤ → Readings → List ℕ → Option (List ℕ) → List Action
  handle_opened netw_delay_ms r memory none = delays netw_delay_ms
  handle_opened netw_delay_ms r memory (some plaintext) =
      let buff_dec = filled plaintext memory in
      let sleep_time = read_i32 13 buff_dec in
      delays netw_delay_ms
      ++ (before_reading sleep_time
          ++ (before_sending sleep_time
              ++ (delays netw_delay_ms ++ (sends (A.seal key nonce (answer r buff_dec)) ∷ []))))

  -- `handleMsg`.
  unfoldable pub handle_msg : ℤ → Readings → List ℕ → List ℕ → List Action
  unfolding answer
  handle_msg netw_delay_ms r memory buff =
      handle_opened netw_delay_ms r memory (A.unseal key nonce buff)
