-- ===== src/TscOffsetter.antt =====
-- trihard/AEXTest/tsc_offsetter/tsc_offsetter.cpp: the program that moves the counter of a core. The
-- files of /dev/cpu are the state; while the program runs, the counters of all cores advance.
pub mod Lead
use Prim.Native.String.{String}
use tri_ha_rd_higher_resilie.Base.{
  ℕ, ◌+◌, ◌-◌, ◌%◌, Bool, ◌&&◌, List, [], ◌∷◌, Option, none, some, map, ◌==◌, if◌then◌else◌,
}
use tri_ha_rd_higher_resilie.Base.Int.{ℤ, pos, negsuc, ◌*ℤ◌, eqb_ℤ}
use tri_ha_rd_higher_resilie.Base.Text.{atoi}

-- IA32_TIME_STAMP_COUNTER.
abbrev pub tsc_msr : ℕ
tsc_msr = 0x10

abbrev pub freq : ℤ
freq = pos 3000000000

-- The file of a core, if it can be opened to read or to write, and its registers of 64 bits.
pub record Machine : Type 0 where
  pub opens_to_read : ℤ → Bool
  pub opens_to_write : ℤ → Bool
  pub register : ℤ → ℕ → Option ℕ

pub data Exit : Type 0 where
  usage open_fails pread_fails pwrite_fails : Exit
  returns : Exit

-- A conversion to `uint64_t`.
unfoldable pub to_u64 : ℤ → ℕ
to_u64 (pos n) = n % 18446744073709551616
to_u64 (negsuc n) = 18446744073709551615 - n % 18446744073709551616

-- `data`, or how the program exits.
pub data Read : Type 0 where
  exits : Exit → Read
  reads : ℕ → Read

abbrev pread : Option ℕ → Read
pread none = exits pread_fails
pread (some data_) = reads data_

unfoldable pub read_msr : Machine → ℤ → ℕ → Read
read_msr m cpu msr = if m.opens_to_read cpu then pread (m.register cpu msr) else exits open_fails

abbrev pwrite : Machine → ℤ → ℕ → ℕ → Option ℕ → Exit × Machine
pwrite m cpu msr data_ none = (pwrite_fails, m)
pwrite m cpu msr data_ (some before) = (
  returns,
  record m { register = λ c r. if eqb_ℤ c cpu && r == msr then some data_ else m.register c r },
)

unfoldable pub write_msr : Machine → ℤ → ℕ → ℕ → Exit × Machine
write_msr m cpu msr data_ =
    if m.opens_to_write cpu then pwrite m cpu msr data_ (m.register cpu msr) else (open_fails, m)

-- The counters advance.
unfoldable pub advance : ℕ → Machine → Machine
advance ticks m = record m {
  register = λ c r. if r == tsc_msr then map_register (m.register c r) else m.register c r;
}
  where
    map_register : Option ℕ → Option ℕ
    map_register none = none
    map_register (some value) = some ((value + ticks) % 18446744073709551616)

abbrev write_ahead : ℕ → Machine → ℤ → ℤ → Read → Exit × Machine
write_ahead elapsed m target_core sleep_secs (exits e) = (e, m)
write_ahead elapsed m target_core sleep_secs (reads value) =
    write_msr (advance elapsed m) target_core tsc_msr
      ((value + to_u64 (sleep_secs *ℤ freq)) % 18446744073709551616)

-- `elapsed` ticks pass between the read and the write.
unfoldable pub main : ℕ → Machine → List String → Exit × Machine
unfolding atoi read_msr write_msr advance to_u64 ◌*ℤ◌
main elapsed m (name ∷ target_core ∷ read_core ∷ sleep_secs ∷ []) =
    write_ahead elapsed m (atoi target_core) (atoi sleep_secs) (read_msr m (atoi read_core) tsc_msr)
main elapsed m _ = (usage, m)
