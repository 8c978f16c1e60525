-- ===== src/Wire.antt =====
-- The plaintext of the datagrams that trihard/node/Enclave/ENode.cpp and
-- trihard/time_authority/server.cpp exchange: fields copied with `memcpy` in the representation of
-- x86-64, little endian and two's complement, so a byte is a number below 256.
pub mod Codec
pub mod RoundTrip
use tri_ha_rd_higher_resilie.Base.{
  ℕ, zero, suc, ◌+◌, ◌-◌, ◌*◌, ◌/◌, ◌%◌, ◌^◌, List, [], ◌∷◌, ◌++◌, Bool, true, false, not, ltb,
  ◌==◌, if◌then◌else◌, length, take, drop, replicate,
}
use tri_ha_rd_higher_resilie.Base.Int.{ℤ, pos, negsuc}
use tri_ha_rd_higher_resilie.Timespec.{Timespec, timespec}

-- `memcpy` of a number of `k` bytes out of and into memory.
unfoldable pub put_le : ℕ → ℕ → List ℕ
put_le zero v = []
put_le (suc k) v = (v % 256) ∷ put_le k (v / 256)

unfoldable pub get_le : ℕ → List ℕ → ℕ
get_le zero bytes = 0
get_le (suc k) [] = 0
get_le (suc k) (b ∷ bytes) = b + 256 * get_le k bytes

-- The bit pattern of a signed integer of `w` bits, and back.
unfoldable pub to_word : ℕ → ℤ → ℕ
to_word w (pos n) = n % 2 ^ w
to_word w (negsuc n) = 2 ^ w - suc (n % 2 ^ w)

unfoldable pub of_word : ℕ → ℕ → ℤ
of_word w v = if ltb v (2 ^ (w - 1)) then pos v else negsuc (2 ^ w - v - 1)

-- `long long`, `int`, `bool` and `timespec`.
unfoldable pub put_i64 : ℤ → List ℕ
unfolding put_le to_word
put_i64 z = put_le 8 (to_word 64 z)

unfoldable pub put_i32 : ℤ → List ℕ
unfolding put_le to_word
put_i32 z = put_le 4 (to_word 32 z)

unfoldable pub put_bool : Bool → List ℕ
put_bool true = 1 ∷ []
put_bool false = 0 ∷ []

unfoldable pub put_timespec : Timespec → List ℕ
unfolding put_i64
put_timespec ts = put_i64 ts.tv_sec ++ put_i64 ts.tv_nsec

-- `*(const T*)((const char*)buff + offset)`.
unfoldable pub read_i64 : ℕ → List ℕ → ℤ
unfolding get_le of_word
read_i64 offset buff = of_word 64 (get_le 8 (drop offset buff))

unfoldable pub read_i32 : ℕ → List ℕ → ℤ
unfolding get_le of_word
read_i32 offset buff = of_word 32 (get_le 4 (drop offset buff))

unfoldable pub read_bool : ℕ → List ℕ → Bool
unfolding get_le
read_bool offset buff = not (get_le 1 (drop offset buff) == 0)

unfoldable pub read_timespec : ℕ → List ℕ → Timespec
unfolding read_i64
read_timespec offset buff = timespec (read_i64 offset buff) (read_i64 (offset + 8) buff)

-- TAINTED_STR, UNTAINTING_STR, DRIFT_STR and the text that `add_sibling` sends.
abbrev pub tainted_str : List ℕ
tainted_str = b'T' ∷ b'a' ∷ b'i' ∷ b'n' ∷ b't' ∷ b'e' ∷ b'd' ∷ []

abbrev pub untainting_str : List ℕ
untainting_str = b'U' ∷ b'n' ∷ b't' ∷ b'a' ∷ b'i' ∷ b'n' ∷ b't' ∷ []

abbrev pub drift_str : List ℕ
drift_str = b'D' ∷ b'r' ∷ b'i' ∷ b'f' ∷ b't' ∷ []

abbrev pub sibling_str : List ℕ
sibling_str = b'S' ∷ b'i' ∷ b'b' ∷ b'l' ∷ b'i' ∷ b'n' ∷ b'g' ∷ []

abbrev pub t_msg_expected_len : ℕ
t_msg_expected_len = 79

abbrev pub u_msg_expected_len : ℕ
u_msg_expected_len = 80

abbrev pub d_msg_expected_len : ℕ
d_msg_expected_len = 81

-- The part of `send_buff` below `msg_cursor`. `dummy_ts` is a local that is never written.
unfoldable pub tainted_message : ℤ → Timespec → Timespec → List ℕ
unfolding put_i64 put_timespec
tainted_message tainted_msg_count org_ts dummy_ts =
    tainted_str
    ++ (put_i64 tainted_msg_count
        ++ (put_timespec org_ts
            ++ (put_timespec dummy_ts ++ (put_timespec dummy_ts ++ put_timespec dummy_ts))))

-- `recv_ts` is skipped by the cursor, so its bytes are the zeros of the buffer.
unfoldable pub untainting_message : ℤ → Bool → Timespec → Timespec → Timespec → List ℕ
unfolding put_i64 put_bool put_timespec
untainting_message recvd_tainted_msg_count last_ts_is_consistent org_ts rec_ts xmt_ts =
    untainting_str
    ++ (put_i64 recvd_tainted_msg_count
        ++ (put_bool last_ts_is_consistent
            ++ (put_timespec org_ts
                ++ (put_timespec rec_ts ++ (put_timespec xmt_ts ++ replicate 16 0)))))

unfoldable pub drift_message : ℤ → ℤ → Timespec → Timespec → List ℕ
unfolding put_i64 put_i32 put_timespec
drift_message calib_msg_count total_sleep_time_ms org_ts dummy_ts =
    drift_str
    ++ (put_i64 calib_msg_count
        ++ (put_i32 total_sleep_time_ms
            ++ (put_timespec org_ts
                ++ (put_timespec dummy_ts ++ (put_timespec dummy_ts ++ put_timespec dummy_ts)))))
