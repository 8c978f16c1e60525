-- ===== src/Wire/Codec.antt =====
-- `memcpy` into and out of a buffer.
use native.Mathlib.Nat.{pow-suc}
use tri_ha_rd_higher_resilie.Base.{
  ℕ, zero, suc, ◌+◌, ◌-◌, ◌/◌, ◌^◌, ◌<◌, ◌≡◌, refl, ap, ap₂, ◌∙◌, List, ◌++◌, arith, length, drop,
}
use tri_ha_rd_higher_resilie.Base.Int.{ℤ, pos, negsuc, ◌≤ℤ◌}
use tri_ha_rd_higher_resilie.Timespec.{Timespec, timespec}
use tri_ha_rd_higher_resilie.Wire.{
  put_le, get_le, to_word, of_word, put_i64, put_i32, read_i64, read_i32, read_timespec,
}

pub get_le-put_le : (k v : ℕ) (rest : List ℕ) → v < 256 ^ k → get_le k (put_le k v ++ rest) ≡ v
unfolding put_le get_le
get_le-put_le zero v rest h = omega arith
get_le-put_le (suc k) v rest h =
    omega (arith, pow-suc 256 k, get_le-put_le k (v / 256) rest (omega (arith, pow-suc 256 k)))

pub length-put_le : (k v : ℕ) → length (put_le k v) ≡ k
unfolding put_le
length-put_le zero v = refl
length-put_le (suc k) v = ap suc (length-put_le k (v / 256))

-- The values that 64 and 32 bits can hold.
abbrev pub IsI64 : ℤ → Type 0
IsI64 z = (negsuc (2 ^ 63 - 1) ≤ℤ z) × (z ≤ℤ pos (2 ^ 63 - 1))

abbrev pub IsI32 : ℤ → Type 0
IsI32 z = (negsuc (2 ^ 31 - 1) ≤ℤ z) × (z ≤ℤ pos (2 ^ 31 - 1))

abbrev pub Fits : Timespec → Type 0
Fits ts = IsI64 ts.tv_sec × IsI64 ts.tv_nsec

pub of_word-to_word64 : (z : ℤ) → IsI64 z → of_word 64 (to_word 64 z) ≡ z
unfolding of_word to_word
of_word-to_word64 (pos n) h = ground arith
of_word-to_word64 (negsuc n) h = ground arith

pub of_word-to_word32 : (z : ℤ) → IsI32 z → of_word 32 (to_word 32 z) ≡ z
unfolding of_word to_word
of_word-to_word32 (pos n) h = ground arith
of_word-to_word32 (negsuc n) h = ground arith

to_word64_lt : (z : ℤ) → to_word 64 z < 256 ^ 8
unfolding to_word
to_word64_lt (pos n) = omega arith
to_word64_lt (negsuc n) = omega arith

to_word32_lt : (z : ℤ) → to_word 32 z < 256 ^ 4
unfolding to_word
to_word32_lt (pos n) = omega arith
to_word32_lt (negsuc n) = omega arith

-- A buffer that holds a field at an offset, read there.
pub read_i64-put_i64 :
    (offset : ℕ) (m : List ℕ) (z : ℤ)
    → IsI64 z
    → drop offset m ≡ put_i64 z ++ drop (offset + 8) m
    → read_i64 offset m ≡ z
unfolding read_i64 put_i64
read_i64-put_i64 offset m z h e = rw e (
    ap (of_word 64) (get_le-put_le 8 (to_word 64 z) (drop (offset + 8) m) (to_word64_lt z))
    ∙ of_word-to_word64 z h)

pub read_i32-put_i32 :
    (offset : ℕ) (m : List ℕ) (z : ℤ)
    → IsI32 z
    → drop offset m ≡ put_i32 z ++ drop (offset + 4) m
    → read_i32 offset m ≡ z
unfolding read_i32 put_i32
read_i32-put_i32 offset m z h e = rw e (
    ap (of_word 32) (get_le-put_le 4 (to_word 32 z) (drop (offset + 4) m) (to_word32_lt z))
    ∙ of_word-to_word32 z h)

pub read_timespec-put_timespec :
    (offset : ℕ) (m : List ℕ) (ts : Timespec)
    → Fits ts
    → drop offset m ≡ put_i64 ts.tv_sec ++ drop (offset + 8) m
    → drop (offset + 8) m ≡ put_i64 ts.tv_nsec ++ drop (offset + 8 + 8) m
    → read_timespec offset m ≡ ts
unfolding read_timespec
read_timespec-put_timespec offset m ts h e e' =
    ap₂ timespec (read_i64-put_i64 offset m ts.tv_sec h.0 e)
      (read_i64-put_i64 (offset + 8) m ts.tv_nsec h.1 e')
