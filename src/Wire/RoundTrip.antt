-- ===== src/Wire/RoundTrip.antt =====
-- The messages of ENode.cpp: their lengths, and what their receivers read.
use tri_ha_rd_higher_resilie.Base.{◌≡◌, refl, Bool, true, false, length}
use tri_ha_rd_higher_resilie.Base.Int.{ℤ}
use tri_ha_rd_higher_resilie.Timespec.{Timespec}
use tri_ha_rd_higher_resilie.Wire.{
  read_i64, read_i32, read_bool, read_timespec, tainted_message, untainting_message, drift_message,
  t_msg_expected_len, u_msg_expected_len, d_msg_expected_len,
}
use tri_ha_rd_higher_resilie.Wire.Codec.{
  IsI64, IsI32, Fits, read_i64-put_i64, read_i32-put_i32, read_timespec-put_timespec,
}

-- For fields that fit their C types, a tainted message has the length that the receiver expects,
-- and is read back at the receiver's offsets as the count and the timestamp that were sent.
pub tainted_message_round_trip :
    (count : ℤ) (org_ts dummy_ts : Timespec)
    → IsI64 count
    → Fits org_ts
    → let m = tainted_message count org_ts dummy_ts in
      (length m ≡ t_msg_expected_len) × (read_i64 7 m ≡ count) × (read_timespec 15 m ≡ org_ts)
unfolding tainted_message
tainted_message_round_trip count org_ts dummy_ts hc ho =
    let m = tainted_message count org_ts dummy_ts in
    (refl, read_i64-put_i64 7 m count hc refl, read_timespec-put_timespec 15 m org_ts ho refl refl)

-- For fields that fit their C types, an untainting message has the length that the receiver
-- expects, and is read back as the count, the flag and the three timestamps that were sent.
pub untainting_message_round_trip :
    (count : ℤ) (consistent : Bool) (org_ts rec_ts xmt_ts : Timespec)
    → IsI64 count
    → Fits org_ts
    → Fits rec_ts
    → Fits xmt_ts
    → let m = untainting_message count consistent org_ts rec_ts xmt_ts in
      (length m ≡ u_msg_expected_len)
      × (read_i64 7 m ≡ count)
      × (read_bool 15 m ≡ consistent)
      × (read_timespec 16 m ≡ org_ts)
      × (read_timespec 32 m ≡ rec_ts)
      × (read_timespec 48 m ≡ xmt_ts)
unfolding untainting_message read_bool
untainting_message_round_trip count true org_ts rec_ts xmt_ts hc ho hr hx =
    let m = untainting_message count true org_ts rec_ts xmt_ts in
    (
      refl,
      read_i64-put_i64 7 m count hc refl,
      refl,
      read_timespec-put_timespec 16 m org_ts ho refl refl,
      read_timespec-put_timespec 32 m rec_ts hr refl refl,
      read_timespec-put_timespec 48 m xmt_ts hx refl refl,
    )
untainting_message_round_trip count false org_ts rec_ts xmt_ts hc ho hr hx =
    let m = untainting_message count false org_ts rec_ts xmt_ts in
    (
      refl,
      read_i64-put_i64 7 m count hc refl,
      refl,
      read_timespec-put_timespec 16 m org_ts ho refl refl,
      read_timespec-put_timespec 32 m rec_ts hr refl refl,
      read_timespec-put_timespec 48 m xmt_ts hx refl refl,
    )

-- For fields that fit their C types, a drift message has the length that the node expects, and is
-- read back at the offsets of the time authority as the count, the sleep and the timestamp.
pub drift_message_round_trip :
    (count sleep : ℤ) (org_ts dummy_ts : Timespec)
    → IsI64 count
    → IsI32 sleep
    → Fits org_ts
    → let m = drift_message count sleep org_ts dummy_ts in
      (length m ≡ d_msg_expected_len)
      × (read_i64 5 m ≡ count)
      × (read_i32 13 m ≡ sleep)
      × (read_timespec 17 m ≡ org_ts)
unfolding drift_message
drift_message_round_trip count sleep org_ts dummy_ts hc hs ho =
    let m = drift_message count sleep org_ts dummy_ts in
    (
      refl,
      read_i64-put_i64 5 m count hc refl,
      read_i32-put_i32 13 m sleep hs refl,
      read_timespec-put_timespec 17 m org_ts ho refl refl,
    )
